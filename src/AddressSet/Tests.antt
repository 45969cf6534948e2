-- ===== src/AddressSet/Tests.antt =====
-- The theorems about the words on address sets, at sets of two ranges.
use dwgrep.Base.{ℕ, ◌≡◌, ◌↔◌, arith, true, false, [], ◌∷◌, reverse}
use dwgrep.Value.Compare.{equal}
use dwgrep.Value.Elements.Produced.{numbered}
use dwgrep.Pred.{yes}
use dwgrep.Coverage.{range}
use dwgrep.Coverage.Ordered.{IsCoverage, covers}
use dwgrep.AddressSet.{Aset, value_aset, cmp_aset, contains_aset}
use dwgrep.AddressSet.Compare.{cmp_aset-covers}
use dwgrep.AddressSet.Contains.{contains_aset-covers}
use dwgrep.AddressSet.Listing.{addresses, is_in}
use dwgrep.AddressSet.Elements.{producer_of}
use dwgrep.AddressSet.Elements.Produced.{Yields, address, aset_elements_produced}

abbrev two : Aset
two = value_aset (range 10 5 ∷ range 20 4 ∷ []) 0

abbrev inner : Aset
inner = value_aset (range 11 2 ∷ []) 0

two-IsCoverage : IsCoverage two.cov
two-IsCoverage = ground arith

inner-IsCoverage : IsCoverage inner.cov
inner-IsCoverage = ground arith

cmp_aset-covers_example :
    (cmp_aset two inner ≡ equal) ↔ ((x : ℕ) → covers two.cov x ≡ covers inner.cov x)
cmp_aset-covers_example = cmp_aset-covers two inner two-IsCoverage inner-IsCoverage

contains_aset-covers_example :
    (contains_aset two inner ≡ yes)
    ↔ ((x : ℕ) → covers inner.cov x ≡ true → covers two.cov x ≡ true)
contains_aset-covers_example = contains_aset-covers two inner two-IsCoverage inner-IsCoverage

aset_elements_produced_example :
    Yields 2 (producer_of two.cov true) (numbered (address 2) 0 (addresses two.cov))
    × Yields 2 (producer_of two.cov false) (numbered (address 2) 0 (reverse (addresses two.cov)))
    × ((a : ℕ) → covers two.cov a ≡ is_in a (addresses two.cov))
aset_elements_produced_example = aset_elements_produced 2 two.cov two-IsCoverage
