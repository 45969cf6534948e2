-- ===== src/AddressSet/Compare.antt =====
-- value_aset::cmp against the addresses of the two sets.
use dwgrep.Base.{ℕ, ◌≡◌, ◌↔◌, refl, ap, arith, List, [], ◌∷◌, length, ltb}
use dwgrep.Value.Compare.{equal, compare, and_then}
use dwgrep.Coverage.{Range}
use dwgrep.Coverage.Ordered.{IsCoverage, covers}
use dwgrep.Coverage.Extensional.{coverage_ext}
use dwgrep.AddressSet.{Aset, cmp_ranges, cmp_aset}

cmp_ranges-eq :
    (xs ys : List Range)
    → and_then
        (compare (ltb (length xs) (length ys)) (ltb (length ys) (length xs)))
        (cmp_ranges xs ys)
      ≡ equal
    → xs ≡ ys
unfolding cmp_ranges
cmp_ranges-eq [] [] h = refl
cmp_ranges-eq [] (y ∷ ys) h = absurd (ground arith)
cmp_ranges-eq (x ∷ xs) [] h = absurd (ground arith)
cmp_ranges-eq (x ∷ xs) (y ∷ ys) h = ground (arith, cmp_ranges-eq xs ys)

cmp_ranges_self : (xs : List Range) → cmp_ranges xs xs ≡ equal
unfolding cmp_ranges
cmp_ranges_self [] = refl
cmp_ranges_self (x ∷ xs) = ground (arith, cmp_ranges_self xs)

cmp_aset_self : (a b : Aset) → a.cov ≡ b.cov → cmp_aset a b ≡ equal
unfolding cmp_aset
cmp_aset_self a b e = rw e (ground (arith, cmp_ranges_self b.cov))

-- The comparison of two address sets whose coverages keep the invariant gives `equal` just when they
-- cover the same addresses.
pub cmp_aset-covers :
    (a b : Aset)
    → IsCoverage a.cov
    → IsCoverage b.cov
    → (cmp_aset a b ≡ equal) ↔ ((x : ℕ) → covers a.cov x ≡ covers b.cov x)
cmp_aset-covers a b oa ob = (
  λ h x. unfold cmp_aset in ap (λ c. covers c x) (cmp_ranges-eq a.cov b.cov h),
  λ e. cmp_aset_self a b (coverage_ext a.cov b.cov oa ob e),
)
