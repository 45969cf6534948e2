-- ===== src/AddressSet/Overlaps.antt =====
-- The predicate `?overlaps` on two address sets.
use dwgrep.Base.{
  ℕ, suc, ◌+◌, ◌<◌, ◌≡◌, ◌≢◌, ◌↔◌, refl, sym, ◌∙◌, arith, true, ◌&&◌, ltb, List, [], ◌∷◌, inl, inr,
  Bool-cases,
}
use dwgrep.Pred.{yes, no}
use dwgrep.Coverage.{Range}
use dwgrep.Coverage.Ordered.{Ordered, IsCoverage, between, covers}
use dwgrep.Coverage.Remove.Trim.{meets}
use dwgrep.Coverage.Query.{is_overlap}
use dwgrep.Coverage.Query.Covered.{is_overlap-meets}
use dwgrep.AddressSet.{Aset, overlaps_loop, overlaps_aset}

-- Two coverages have an address in common.
abbrev Shared : List Range → List Range → Type 0
Shared a b = (x : ℕ) × (covers a x ≡ true) × (covers b x ≡ true)

meets-shared :
    (s e lo : ℕ) (cov : List Range)
    → s < e
    → Ordered lo cov
    → meets s e cov ≡ true
    → (x : ℕ) × (between s e x ≡ true) × (covers cov x ≡ true)
unfolding meets
meets-shared s e lo [] l o h = absurd (ground arith)
meets-shared s e lo (r ∷ rs) l o h =
    elim (Bool-cases (ltb r.start e && ltb s (r.start + r.length))) [
      | inl here ↦ elim (Bool-cases (ltb s r.start)) [
        | inl before ↦ (r.start, ground arith, ground arith)
        | inr behind ↦ (s, ground arith, ground arith)
      ]
      | inr there ↦
          let (x, k, c) = meets-shared s e (suc (r.start + r.length)) rs l o.3 (ground arith) in
          (x, k, ground arith)
    ]

shared-meets :
    (s e x : ℕ) (cov : List Range)
    → between s e x ≡ true
    → covers cov x ≡ true
    → meets s e cov ≡ true
unfolding meets
shared-meets s e x [] k h = absurd (ground arith)
shared-meets s e x (r ∷ rs) k h = ground (arith, shared-meets s e x rs)

no≢yes : no ≢ yes
no≢yes e = cc

overlaps_loop-Shared :
    (a b : List Range) (lo : ℕ)
    → IsCoverage a
    → Ordered lo b
    → (overlaps_loop a b ≡ yes) ↔ Shared a b
unfolding overlaps_loop
overlaps_loop-Shared a [] lo oa ob = (λ h. absurd (no≢yes h), λ (x, c, d). absurd (ground arith))
overlaps_loop-Shared a (r ∷ rs) lo oa ob =
    let (first, last) = overlaps_loop-Shared a rs (suc (r.start + r.length)) oa ob.3 in
    let met = is_overlap-meets a r.start r.length oa ob.1 ob.2 in
    elim (Bool-cases (is_overlap a r.start r.length)) [
      | inl e ↦ rw e (
        λ h.
            let (x, k, c) =
              meets-shared r.start (r.start + r.length) 0 a (omega (arith, ob.1)) oa
                (sym met ∙ e) in
            (x, c, ground arith),
        λ h. refl,
      )
      | inr e ↦ rw e (
        λ h. let (x, c, d) = first h in (x, c, ground arith),
        λ (x, c, d). last (x, c, ground (arith, shared-meets r.start (r.start + r.length) x a)),
      )
    ]

-- On two address sets whose coverages keep the invariant, `?overlaps` holds just when they have an
-- address in common.
pub overlaps_aset-covers :
    (a b : Aset)
    → IsCoverage a.cov
    → IsCoverage b.cov
    → (overlaps_aset a b ≡ yes) ↔ ((x : ℕ) × (covers a.cov x ≡ true) × (covers b.cov x ≡ true))
overlaps_aset-covers a b oa ob = unfold overlaps_aset in overlaps_loop-Shared a.cov b.cov 0 oa ob
