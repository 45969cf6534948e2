-- ===== src/AddressSet/Listing.antt =====
-- The addresses of an address set as a list.
use mathlib.Core.Path.{ap₂}
use mathlib.Core.List.{reverse-cons, reverse-append, append_assoc, append-nil}
use dwgrep.Base.{
  ℕ, zero, suc, ◌+◌, ◌≡◌, refl, sym, ap, ◌∙◌, arith, Bool, true, false, if◌then◌else◌, List, [],
  ◌∷◌, ◌++◌, reverse, ◌||◌, ◌==◌,
}
use dwgrep.Coverage.{Range}
use dwgrep.Coverage.Ordered.{between, covers}

-- The addresses of [s, s + n), from the lowest or from the highest
unfoldable pub ascending : ℕ → ℕ → List ℕ
ascending s zero = []
ascending s (suc n) = s ∷ ascending (suc s) n

pub descending : ℕ → ℕ → List ℕ
descending s zero = []
descending s (suc n) = (s + n) ∷ descending s n

-- The addresses of a range from its k-th one on, of which n are left
abbrev pub left_of : Bool → ℕ → ℕ → ℕ → List ℕ
left_of forward s k n = if forward then ascending (s + k) n else descending s n

unfoldable pub listing : Bool → List Range → List ℕ
unfolding ascending descending
listing forward [] = []
listing forward (r ∷ rs) = left_of forward r.start 0 r.length ++ listing forward rs

pub left_step :
    (f : Bool) (s k n : ℕ)
    → left_of f s k (suc n) ≡ (if f then s + k else s + n) ∷ left_of f s (suc k) n
unfolding ascending descending
left_step true s k n =
    let next : suc (s + k) ≡ s + suc k = omega arith in ap (λ m. (s + k) ∷ ascending m n) next
left_step false s k n = refl

pub left_none : (f : Bool) (s k : ℕ) → left_of f s k 0 ≡ []
unfolding ascending descending
left_none true s k = refl
left_none false s k = refl

-- The addresses of a coverage from the lowest to the highest
unfoldable pub addresses : List Range → List ℕ
unfolding ascending
addresses [] = []
addresses (r ∷ rs) = ascending r.start r.length ++ addresses rs

from_start : (s : ℕ) → s + 0 ≡ s
from_start s = omega arith

pub listing-forward : (cov : List Range) → listing true cov ≡ addresses cov
unfolding listing addresses
listing-forward [] = refl
listing-forward (r ∷ rs) =
    ap₂ ◌++◌ (ap (λ m. ascending m r.length) (from_start r.start)) (listing-forward rs)

ascending_last : (s n : ℕ) → ascending s (suc n) ≡ ascending s n ++ (s + n) ∷ []
unfolding ascending
ascending_last s zero = ap (λ m. m ∷ []) (sym (from_start s))
ascending_last s (suc n) =
    let last : suc s + n ≡ s + suc n = omega arith in
    ap (◌∷◌ s) (ascending_last (suc s) n ∙ ap (λ m. ascending (suc s) n ++ m ∷ []) last)

descending-reverse : (s n : ℕ) → descending s n ≡ reverse (ascending s n)
unfolding descending
descending-reverse s zero = unfold ascending in refl
descending-reverse s (suc n) =
    rw (ascending_last s n, reverse-append (ascending s n) ((s + n) ∷ []), descending-reverse s n)
      refl

listing-append :
    (xs ys : List Range) → listing false (xs ++ ys) ≡ listing false xs ++ listing false ys
unfolding listing
listing-append [] ys = refl
listing-append (x ∷ xs) ys =
    rw (listing-append xs ys)
      (sym (append_assoc (descending x.start x.length) (listing false xs) (listing false ys)))

listing_one : (r : Range) → listing false (r ∷ []) ≡ descending r.start r.length
unfolding listing
listing_one r = append-nil (descending r.start r.length)

pub listing-reverse : (cov : List Range) → listing false (reverse cov) ≡ reverse (addresses cov)
listing-reverse [] = unfold listing addresses in refl
listing-reverse (r ∷ rs) =
    rw
      (
        reverse-cons r rs,
        listing-append (reverse rs) (r ∷ []),
        listing-reverse rs,
        listing_one r,
        descending-reverse r.start r.length,
      )
      (unfold addresses in sym (reverse-append (ascending r.start r.length) (addresses rs)))

-- Whether an address is one of a list
pub is_in : ℕ → List ℕ → Bool
is_in a [] = false
is_in a (x ∷ xs) = (a == x) || is_in a xs

is_in-append : (a : ℕ) (xs ys : List ℕ) → is_in a (xs ++ ys) ≡ (is_in a xs || is_in a ys)
unfolding is_in
is_in-append a [] ys = refl
is_in-append a (x ∷ xs) ys = ground (arith, is_in-append a xs ys)

is_in-ascending : (a s n : ℕ) → is_in a (ascending s n) ≡ between s (s + n) a
unfolding is_in ascending
is_in-ascending a s zero = ground arith
is_in-ascending a s (suc n) = ground (arith, is_in-ascending a (suc s) n)

pub covers-addresses : (cov : List Range) (a : ℕ) → covers cov a ≡ is_in a (addresses cov)
unfolding addresses
covers-addresses [] a = unfold is_in in refl
covers-addresses (r ∷ rs) a =
    rw
      (
        is_in-append a (ascending r.start r.length) (addresses rs),
        is_in-ascending a r.start r.length,
        covers-addresses rs a,
      )
      refl
