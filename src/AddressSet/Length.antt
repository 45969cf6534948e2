-- ===== src/AddressSet/Length.antt =====
-- The word `length` on address sets against the list of the addresses.
use dwgrep.Base.{
  ℕ, zero, suc, ◌+◌, ◌^◌, ◌<◌, ◌≤◌, ◌≡◌, refl, ap, ◌∙◌, arith, List, [], ◌∷◌, length, length-append,
  add64,
}
use dwgrep.Mpz.{mpz, unsign}
use dwgrep.Value.{cst}
use dwgrep.Coverage.{Range}
use dwgrep.Coverage.Ordered.{Ordered, IsCoverage}
use dwgrep.AddressSet.{Aset, length_loop, op_length_aset}
use dwgrep.AddressSet.Listing.{ascending, addresses}

length-ascending : (s n : ℕ) → length (ascending s n) ≡ n
unfolding ascending
length-ascending s zero = refl
length-ascending s (suc n) = omega (arith, length-ascending (suc s) n)

length_step :
    (r : Range) (rs : List Range) → length (addresses (r ∷ rs)) ≡ r.length + length (addresses rs)
unfolding addresses
length_step r rs = omega (
  arith,
  length-append {0} (ascending r.start r.length) (addresses rs),
  length-ascending r.start r.length,
)

-- The lengths that were added fit below the start of the ranges that are left.
length_loop-addresses :
    (n lo : ℕ) (cov : List Range)
    → n ≤ lo
    → n < 2 ^ 64
    → Ordered lo cov
    → length_loop n cov ≡ n + length (addresses cov)
unfolding length_loop
length_loop-addresses n lo [] h l o = unfold addresses in omega arith
length_loop-addresses n lo (r ∷ rs) h l o =
    let sum : add64 n r.length ≡ n + r.length = omega (arith, o.0, o.2) in
    rw sum (
      omega (
        arith,
        length_step r rs,
        length_loop-addresses (n + r.length) (suc (r.start + r.length)) rs (omega (arith, o.0))
            (omega (arith, o.0, o.2)) o.3,
      ))

-- On an address set whose coverage keeps the invariant, `length` gives the number of its addresses:
-- the sum does not wrap around.
pub op_length_aset-addresses :
    (dec_dom : ℕ) (a : Aset)
    → IsCoverage a.cov
    → op_length_aset dec_dom a ≡ cst (mpz (length (addresses a.cov)) unsign) dec_dom 0
unfolding op_length_aset
op_length_aset-addresses dec_dom a o =
    ap (λ n. cst (mpz n unsign) dec_dom 0)
      (length_loop-addresses 0 0 a.cov (omega arith) (omega arith) o ∙ omega arith)
