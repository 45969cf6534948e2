-- ===== src/AddressSet/Contains.antt =====
-- The predicate `?contains` on two address sets, and the set between two constants.
use dwgrep.Base.{ℕ, suc, ◌+◌, ◌≡◌, ◌≢◌, ◌↔◌, refl, arith, true, List, [], ◌∷◌, inl, inr, Bool-cases}
use dwgrep.Pred.{yes, no}
use dwgrep.Coverage.{Range}
use dwgrep.Coverage.Ordered.{Ordered, IsCoverage, covers}
use dwgrep.Coverage.Query.{is_covered}
use dwgrep.Coverage.Query.Covered.{is_covered-covers}
use dwgrep.AddressSet.{Aset, contains_loop, contains_aset}

abbrev Includes : List Range → List Range → Type 0
Includes a b = (x : ℕ) → covers b x ≡ true → covers a x ≡ true

no≢yes : no ≢ yes
no≢yes e = cc

contains_loop-Includes :
    (a b : List Range) (lo : ℕ)
    → IsCoverage a
    → Ordered lo b
    → (contains_loop a b ≡ yes) ↔ Includes a b
unfolding contains_loop
contains_loop-Includes a [] lo oa ob = (λ h x k. absurd (ground arith), λ h. refl)
contains_loop-Includes a (r ∷ rs) lo oa ob =
    let (there, back) = is_covered-covers a r.start r.length oa ob.1 ob.2 in
    let (first, last) = contains_loop-Includes a rs (suc (r.start + r.length)) oa ob.3 in
    elim (Bool-cases (is_covered a r.start r.length)) [
      | inl e ↦
          rw e
            (λ h x k. ground (arith, there e x, first h x), λ h. last (λ x k. h x (ground arith)))
      | inr e ↦
          rw e
            (λ h. absurd (no≢yes h), λ h. absurd (ground (arith, back (λ x k. h x (ground arith)))))
    ]

-- On two address sets A and B whose coverages keep the invariant, `?contains` holds just when each
-- address of B is one of A.
pub contains_aset-covers :
    (a b : Aset)
    → IsCoverage a.cov
    → IsCoverage b.cov
    → (contains_aset a b ≡ yes) ↔ ((x : ℕ) → covers b.cov x ≡ true → covers a.cov x ≡ true)
contains_aset-covers a b oa ob = unfold contains_aset in contains_loop-Includes a.cov b.cov 0 oa ob
