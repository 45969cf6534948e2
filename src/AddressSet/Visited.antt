-- ===== src/AddressSet/Visited.antt =====
-- The order in which elem_aset_producer visits the ranges of an address set.
use mathlib.Core.List.{reverse-cons}
use native.Mathlib.Decide.{dec_lt}
use dwgrep.Base.{
  ℕ, zero, suc, ◌+◌, ◌-◌, ◌^◌, ◌<◌, ◌≡◌, refl, sym, ap, ◌∙◌, arith, Bool, true, false,
  if◌then◌else◌, List, [], ◌∷◌, ◌++◌, length, drop, reverse, length-append,
}
use dwgrep.Coverage.{Range, at}
use dwgrep.Coverage.Ordered.{Ordered}

-- The ranges in the order in which they are visited
abbrev pub visited : Bool → List Range → List Range
visited forward cov = if forward then cov else reverse cov

at_found :
    (cov : List Range) (i : ℕ) (r : Range) (rest : List Range)
    → drop i cov ≡ r ∷ rest
    → (at cov i ≡ r) × (drop (suc i) cov ≡ rest) × (i + suc (length rest) ≡ length cov)
at_found [] zero r rest h = absurd (cc)
at_found [] (suc i) r rest h = absurd (cc)
at_found (x ∷ cov) zero r rest h = ground arith
at_found (x ∷ cov) (suc i) r rest h = let (e, d, l) = at_found cov i r rest h in (e, d, omega arith)

pub length-reverse : (cov : List Range) → length (reverse cov) ≡ length cov
length-reverse [] = refl
length-reverse (x ∷ cov) =
    ap length (reverse-cons x cov)
    ∙ omega (arith, length-append {0} (reverse cov) (x ∷ []), length-reverse cov)

at-append_left : (xs ys : List Range) (i : ℕ) → i < length xs → at (xs ++ ys) i ≡ at xs i
at-append_left [] ys i l = absurd (omega arith)
at-append_left (x ∷ xs) ys zero l = refl
at-append_left (x ∷ xs) ys (suc i) l = at-append_left xs ys i (omega arith)

at-append_last : (xs : List Range) (y : Range) (i : ℕ) → i ≡ length xs → at (xs ++ y ∷ []) i ≡ y
at-append_last [] y i l = rw l refl
at-append_last (x ∷ xs) y zero l = absurd (omega arith)
at-append_last (x ∷ xs) y (suc i) l = at-append_last xs y i (omega arith)

at-reverse :
    (cov : List Range) (i : ℕ) → i < length cov → at cov (length cov - 1 - i) ≡ at (reverse cov) i
at-reverse [] i l = absurd (omega arith)
at-reverse (x ∷ cov) i l = rw (reverse-cons x cov) (elim (dec_lt i (length cov)) [
  | yes h ↦
      let earlier : suc (length cov) - 1 - i ≡ suc (length cov - 1 - i) = omega arith in
      ap (at (x ∷ cov)) earlier
      ∙ at-reverse cov i h
      ∙ sym (at-append_left (reverse cov) (x ∷ []) i (omega (arith, length-reverse cov)))
  | no h ↦
      let first : suc (length cov) - 1 - i ≡ 0 = omega arith in
      ap (at (x ∷ cov)) first
      ∙ sym (at-append_last (reverse cov) x i (omega (arith, length-reverse cov)))
])

-- The range that the producer visits at the index i
pub at-visited :
    (cov : List Range) (f : Bool) (i : ℕ) (r : Range) (rest : List Range)
    → drop i (visited f cov) ≡ r ∷ rest
    → (at cov (if f then i else length cov - 1 - i) ≡ r)
      × (drop (suc i) (visited f cov) ≡ rest)
      × (i + suc (length rest) ≡ length cov)
at-visited cov true i r rest h = at_found cov i r rest h
at-visited cov false i r rest h =
    let (e, d, l) = at_found (reverse cov) i r rest h in
    let inside : i < length cov = omega (arith, length-reverse cov) in
    let behind : i + suc (length rest) ≡ length cov = omega (arith, length-reverse cov) in
    (at-reverse cov i inside ∙ e, d, behind)

abbrev pub AllFit : List Range → Type 0
AllFit [] = Unit {0}
AllFit (r ∷ rs) = (0 < r.length) × (r.start + r.length < 2 ^ 64) × AllFit rs

AllFit-append : (xs ys : List Range) → AllFit xs → AllFit ys → AllFit (xs ++ ys)
AllFit-append [] ys o h = h
AllFit-append (x ∷ xs) ys o h = (o.0, o.1, AllFit-append xs ys o.2 h)

pub AllFit-reverse : (xs : List Range) → AllFit xs → AllFit (reverse xs)
AllFit-reverse [] o = tt
AllFit-reverse (x ∷ xs) o =
    rw (reverse-cons x xs)
      (AllFit-append (reverse xs) (x ∷ []) (AllFit-reverse xs o.2) (o.0, o.1, tt))

pub Ordered-AllFit : (lo : ℕ) (cov : List Range) → Ordered lo cov → AllFit cov
Ordered-AllFit lo [] o = tt
Ordered-AllFit lo (r ∷ rs) o = (o.1, o.2, Ordered-AllFit (suc (r.start + r.length)) rs o.3)
