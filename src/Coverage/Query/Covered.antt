-- ===== src/Coverage/Query/Covered.antt =====
-- `is_covered` and `is_overlap` against recursions over the list.
use dwgrep.Base.{
  ℕ, zero, suc, ◌+◌, ◌-◌, ◌^◌, ◌<◌, ◌≤◌, ◌≡◌, ◌↔◌, refl, sym, inl, inr, arith, ltb, leb, Bool, true,
  false, ◌&&◌, ◌||◌, if◌then◌else◌, List, [], ◌∷◌, length, add64, add64_fits, Bool-cases,
}
use dwgrep.Coverage.{Range, end_, at, find}
use dwgrep.Coverage.Ordered.{Ordered, IsCoverage, between, covers}
use dwgrep.Coverage.Find.{lower_bound, find-lower_bound}
use dwgrep.Coverage.Extensional.{covers-below}
use dwgrep.Coverage.Remove.Trim.{meets}
use dwgrep.Coverage.Remove.{remove}
use dwgrep.Coverage.Remove.Difference.{remove-trim}
use dwgrep.Coverage.Query.{is_covered, is_overlap, overlaps}

-- Whether one range holds all of [s, e).
pub contained : ℕ → ℕ → List Range → Bool
contained s e [] = false
contained s e (r ∷ rs) = (leb r.start s && leb e (r.start + r.length)) || contained s e rs

-- The code of `is_covered` at the index i.
abbrev covered_at : List Range → ℕ → ℕ → ℕ → Bool
covered_at cov s e i =
    if ltb i (length cov) && leb (at cov i).start s
    then leb e (end_ (at cov i))
    else if ltb 0 i
    then leb e (end_ (at cov (i - 1)))
    else false

module _ (s e : ℕ) (ends : s ≤ e) where
  contained_beyond :
      (lo : ℕ) (cov : List Range) → Ordered lo cov → s < lo → contained s e cov ≡ false
  unfolding contained
  contained_beyond lo [] o h = refl
  contained_beyond lo (r ∷ rs) o h =
      ground (arith, contained_beyond (suc (r.start + r.length)) rs o.3)

  lower_bound_none :
      (lo : ℕ) (r : Range) (rs : List Range)
      → Ordered lo (r ∷ rs)
      → lower_bound s (r ∷ rs) ≡ zero
      → s ≤ r.start
  lower_bound_none lo r rs o z = ground arith

  -- At a first range that starts at s or beyond.
  contained_first :
      (lo : ℕ) (cov : List Range)
      → Ordered lo cov
      → lower_bound s cov ≡ zero
      → contained s e cov ≡ covered_at cov s e 0
  unfolding contained
  contained_first lo [] o z = refl
  contained_first lo (r ∷ rs) o z =
      ground (arith, contained_beyond (suc (r.start + r.length)) rs o.3)

  contained_previous :
      (lo : ℕ) (p : Range) (cov : List Range)
      → Ordered lo (p ∷ cov)
      → p.start < s
      → lower_bound s cov ≡ zero
      → contained s e (p ∷ cov) ≡ covered_at (p ∷ cov) s e 1
  unfolding contained
  contained_previous lo p [] o h z = ground arith
  contained_previous lo p (r ∷ rs) o h z =
      ground (arith, contained_beyond (suc (r.start + r.length)) rs o.3.3)

  contained_passed :
      (lo : ℕ) (p : Range) (cov : List Range) (k : ℕ)
      → Ordered lo (p ∷ cov)
      → lower_bound s cov ≡ suc k
      → contained s e (p ∷ cov) ≡ contained s e cov
  unfolding contained
  contained_passed lo p [] k o z = cc
  contained_passed lo p (r ∷ rs) k o z = ground arith

  covered_step :
      (lo : ℕ) (r : Range) (rs : List Range) (k : ℕ)
      → Ordered lo (r ∷ rs)
      → r.start < s
      → lower_bound s rs ≡ k
      → covered_at rs s e (lower_bound s rs) ≡ contained s e rs
      → covered_at (r ∷ rs) s e (suc (lower_bound s rs)) ≡ contained s e (r ∷ rs)
  covered_step lo r rs zero o h z ih = rw z (sym (contained_previous lo r rs o h z))
  covered_step lo r rs (suc k) o h z ih =
      rw (contained_passed lo r rs k o z, ← ih, z) (ground arith)

  covered_at-contained :
      (lo : ℕ) (cov : List Range)
      → Ordered lo cov
      → covered_at cov s e (lower_bound s cov) ≡ contained s e cov
  covered_at-contained lo [] o = unfold contained in refl
  covered_at-contained lo (r ∷ rs) o = elim (Bool-cases (ltb r.start s)) [
    | inr first ↦ rw first (sym (contained_first lo (r ∷ rs) o (rw first)))
    | inl below ↦ rw below (
        covered_step lo r rs (lower_bound s rs) o (ground arith) refl
          (covered_at-contained (suc (r.start + r.length)) rs o.3))
  ]

covered-found :
    (r : Range) (rs : List Range) (s len : ℕ)
    → is_covered (r ∷ rs) s len ≡ covered_at (r ∷ rs) s (add64 s len) (find (r ∷ rs) s)
unfolding is_covered
covered-found r rs s len = ground arith

-- `is_covered` says whether one range of the coverage holds the whole of [s, s + len), for an empty
-- [s, s) whether the address s lies in a range or at the end of one.
pub is_covered-contained :
    (cov : List Range) (s len : ℕ)
    → IsCoverage cov
    → s + len < 2 ^ 64
    → is_covered cov s len ≡ contained s (s + len) cov
is_covered-contained [] s len o f = unfold is_covered contained in refl
is_covered-contained (r ∷ rs) s len o f =
    rw (covered-found r rs s len, find-lower_bound s (r ∷ rs) o, add64_fits s len f)
      (covered_at-contained s (s + len) (omega arith) 0 (r ∷ rs) o)

contained-covers :
    (s e a : ℕ) (cov : List Range)
    → contained s e cov ≡ true
    → between s e a ≡ true
    → covers cov a ≡ true
unfolding contained
contained-covers s e a [] h k = cc
contained-covers s e a (r ∷ rs) h k = ground (arith, contained-covers s e a rs)

covers-contained :
    (s e lo : ℕ) (cov : List Range)
    → s < e
    → Ordered lo cov
    → ((a : ℕ) → between s e a ≡ true → covers cov a ≡ true)
    → contained s e cov ≡ true
unfolding contained
covers-contained s e lo [] h o all = absurd (ground (arith, all s))
covers-contained s e lo (r ∷ rs) h o all = elim (Bool-cases (leb s (r.start + r.length))) [
  | inl near ↦ ground (
    arith,
    all s,
    all (r.start + r.length),
    covers-below (suc (r.start + r.length)) s rs o.3,
    covers-below (suc (r.start + r.length)) (r.start + r.length) rs o.3,
  )
  | inr far ↦ ground (
    arith,
    covers-contained s e (suc (r.start + r.length)) rs h o.3 (λ a k. ground (arith, all a k)),
  )
]

-- On a coverage that keeps the invariant, and for a range that is not empty and ends within the
-- address space, `is_covered` is true just when each address of the range is covered.
pub is_covered-covers :
    (cov : List Range) (s len : ℕ)
    → IsCoverage cov
    → 0 < len
    → s + len < 2 ^ 64
    → (is_covered cov s len ≡ true) ↔ ((a : ℕ) → between s (s + len) a ≡ true → covers cov a ≡ true)
is_covered-covers cov s len o p f = rw (is_covered-contained cov s len o f) (
  λ h a k. contained-covers s (s + len) a cov h k,
  covers-contained s (s + len) 0 cov (omega arith) o,
)

meets_far : (s e lo : ℕ) (cov : List Range) → Ordered lo cov → e ≤ lo → meets s e cov ≡ false
unfolding meets
meets_far s e lo [] o h = refl
meets_far s e lo (r ∷ rs) o h = ground (arith, meets_far s e (suc (r.start + r.length)) rs o.3)

-- The code of `is_overlap` at the index i.
abbrev overlap_at : List Range → ℕ → ℕ → ℕ → Bool
overlap_at cov s e i =
    if ltb i (length cov) && overlaps s e (at cov i)
    then true
    else if ltb 0 i
    then overlaps s e (at cov (i - 1))
    else false

module _ (s e : ℕ) (ends : s < e) where
  overlaps-meets :
      (r : Range)
      → 0 < r.length
      → r.start + r.length < 2 ^ 64
      → overlaps s e r ≡ (ltb r.start e && ltb s (r.start + r.length))
  unfolding overlaps
  overlaps-meets r p f = ground arith

  meets_first :
      (lo : ℕ) (cov : List Range)
      → Ordered lo cov
      → lower_bound s cov ≡ zero
      → overlap_at cov s e 0 ≡ meets s e cov
  unfolding meets
  meets_first lo [] o z = refl
  meets_first lo (r ∷ rs) o z =
      ground (arith, overlaps-meets r o.1 o.2, meets_far s e (suc (r.start + r.length)) rs)

  meets_previous :
      (lo : ℕ) (p : Range) (cov : List Range)
      → Ordered lo (p ∷ cov)
      → p.start < s
      → lower_bound s cov ≡ zero
      → overlap_at (p ∷ cov) s e 1 ≡ meets s e (p ∷ cov)
  unfolding meets
  meets_previous lo p [] o h z = ground (arith, overlaps-meets p o.1 o.2)
  meets_previous lo p (r ∷ rs) o h z = ground (
    arith,
    overlaps-meets p o.1 o.2,
    overlaps-meets r o.3.1 o.3.2,
    meets_far s e (suc (r.start + r.length)) rs,
  )

  meets_passed :
      (lo : ℕ) (p : Range) (cov : List Range) (k : ℕ)
      → Ordered lo (p ∷ cov)
      → lower_bound s cov ≡ suc k
      → meets s e (p ∷ cov) ≡ meets s e cov
  unfolding meets
  meets_passed lo p [] k o z = cc
  meets_passed lo p (r ∷ rs) k o z = ground arith

  overlap_step :
      (lo : ℕ) (r : Range) (rs : List Range) (k : ℕ)
      → Ordered lo (r ∷ rs)
      → r.start < s
      → lower_bound s rs ≡ k
      → overlap_at rs s e (lower_bound s rs) ≡ meets s e rs
      → overlap_at (r ∷ rs) s e (suc (lower_bound s rs)) ≡ meets s e (r ∷ rs)
  overlap_step lo r rs zero o h z ih = rw z (meets_previous lo r rs o h z)
  overlap_step lo r rs (suc k) o h z ih = rw (meets_passed lo r rs k o z, ← ih, z) (ground arith)

  overlap_at-meets :
      (lo : ℕ) (cov : List Range)
      → Ordered lo cov
      → overlap_at cov s e (lower_bound s cov) ≡ meets s e cov
  overlap_at-meets lo [] o = unfold meets in refl
  overlap_at-meets lo (r ∷ rs) o = elim (Bool-cases (ltb r.start s)) [
    | inr first ↦ rw first (meets_first lo (r ∷ rs) o (rw first))
    | inl below ↦ rw below (
        overlap_step lo r rs (lower_bound s rs) o (ground arith) refl
          (overlap_at-meets (suc (r.start + r.length)) rs o.3))
  ]

overlap-found :
    (r : Range) (rs : List Range) (s len : ℕ)
    → 0 < len
    → is_overlap (r ∷ rs) s len ≡ overlap_at (r ∷ rs) s (add64 s len) (find (r ∷ rs) s)
unfolding is_overlap
overlap-found r rs s len p = ground arith

-- For a range that is not empty, `is_overlap` says whether some range of the coverage meets it.
pub is_overlap-meets :
    (cov : List Range) (s len : ℕ)
    → IsCoverage cov
    → 0 < len
    → s + len < 2 ^ 64
    → is_overlap cov s len ≡ meets s (s + len) cov
is_overlap-meets [] s len o p f = unfold is_overlap meets in refl
is_overlap-meets (r ∷ rs) s len o p f =
    rw (overlap-found r rs s len p, find-lower_bound s (r ∷ rs) o, add64_fits s len f)
      (overlap_at-meets s (s + len) (omega arith) 0 (r ∷ rs) o)

-- On a coverage that keeps the invariant, and for a range that is not empty and ends within the
-- address space, `is_overlap` answers what `remove` of the range would return.
pub is_overlap-remove :
    (cov : List Range) (s len : ℕ)
    → IsCoverage cov
    → 0 < len
    → s + len < 2 ^ 64
    → is_overlap cov s len ≡ (remove cov s len).1
is_overlap-remove cov s len o p f =
    rw (is_overlap-meets cov s len o p f, remove-trim cov s len o p f)

-- On a coverage that keeps the invariant, an empty range at an address overlaps just when the
-- address lies in a range of the coverage or at the end of one.
pub is_overlap_empty :
    (cov : List Range) (s : ℕ)
    → IsCoverage cov
    → s < 2 ^ 64
    → is_overlap cov s 0 ≡ contained s s cov
is_overlap_empty [] s o f = unfold is_overlap contained in refl
is_overlap_empty (r ∷ rs) s o f =
    unfold is_overlap in ground (arith, is_covered-contained (r ∷ rs) s 0 o)
