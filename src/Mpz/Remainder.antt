-- ===== src/Mpz/Remainder.antt =====
-- operator% of libzwerg/int.cc against the remainder of integers.
use dwgrep.Base.{◌+◌, ◌-◌, ◌^◌, ◌≤◌, ◌≡◌, ◌≢◌, ◌⊎◌, sym, ap, ◌∙◌, inl, inr, arith}
use mathlib.Core.Path.{subst}
use dwgrep.Base.Int.{ℤ, pos, ◌*ℤ◌, ◌-ℤ◌, ◌+ℤ◌}
use dwgrep.Mpz.{Mpz, Result, ok, err, div, mul, sub, rem, ◌>>=◌}
use dwgrep.Mpz.Value.{IsWord, value, OutOfRange, IsOverflow}
use dwgrep.Mpz.Sum.{sub-Lands}
use dwgrep.Mpz.Product.{mul-Lands, *ℤ_comm}
use dwgrep.Mpz.Quotient.{IsRemainder, IsFloor, Divided, div-Divided, magnitude, Lands-cases}

-- The answer to a % b: a - q * b for the rounded-down quotient q, or an overflow, either of |a| +
-- |b| - 1, or of q, or of the product q * b.
abbrev pub Remains : ℤ → ℤ → Result Mpz → Type 0
Remains a b (ok r) = IsWord r × IsRemainder b (value r) × ((q : ℤ) × (a ≡ q *ℤ b +ℤ value r))
Remains a b (err e) =
    IsOverflow e
    × ((2 ^ 64 ≤ magnitude a + magnitude b - 1)
        ⊎ ((q : ℤ) × IsFloor a b q × (OutOfRange q ⊎ OutOfRange (q *ℤ b))))

-- A remainder by a value of the program is a value of the program.
remainder_in_range : (v : Mpz) (r : ℤ) → IsWord v → IsRemainder (value v) r → OutOfRange r → ⊥
unfolding ◌+ℤ◌
remainder_in_range v r h i o = ground arith

restore : (a p : ℤ) → a ≡ p +ℤ (a -ℤ p)
unfolding ◌+ℤ◌ ◌-ℤ◌
restore a p = ground arith

from_quotient :
    (a b : Mpz) (r : Result Mpz)
    → IsWord a
    → IsWord b
    → Divided (value a) (value b) r
    → Remains (value a) (value b) (r >>= (λ d. mul b d >>= (λ m. sub a m)))
from_quotient a b (err e) ha hb h =
    (h.0, elim h.1 [ inl big ↦ inl big | inr (q, f, o) ↦ inr (q, f, inl o) ])
from_quotient a b (ok d) ha hb (hd, f) = elim (Lands-cases _ (mul b d) (mul-Lands b d hb hd)) [
  | inr (x, e, hx, out) ↦
      rw e (hx, inr (value d, f, inr (subst OutOfRange (*ℤ_comm (value b) (value d)) out)))
  | inl (m, e, hm, vm) ↦
      let vm' = vm ∙ *ℤ_comm (value b) (value d) in
      elim (Lands-cases _ (sub a m) (sub-Lands a m ha hm)) [
        | inr (x, e', hx, out) ↦
            absurd (remainder_in_range b _ hb f (subst (λ p. OutOfRange (value a -ℤ p)) vm' out))
        | inl (r, e', hr, vr) ↦
            let vr' = vr ∙ ap (λ p. value a -ℤ p) vm' in
            rw (e, e')
              (
                hr,
                subst (IsRemainder (value b)) (sym vr') f,
                (
                  value d,
                  restore (value a) (value d *ℤ value b)
                      ∙ ap (λ t. value d *ℤ value b +ℤ t) (sym vr'),
                ),
              )
      ]
]

rem_nonzero :
    (a b : Mpz) → value b ≢ pos 0 → rem a b ≡ (div a b >>= (λ d. mul b d >>= (λ m. sub a m)))
unfolding rem
rem_nonzero a b nz = ground arith

-- For two values of 64 bits and a divisor b that is not zero, operator% returns a value r of 64
-- bits between 0 and b, b excluded, with a - r a multiple of b, or fails with an overflow, and
-- then |a| + |b| - 1 is at least 2^64, or the quotient q rounded down or the product q * b is
-- below -2^63 or above 2^64 - 1.
pub rem-Remains :
    (a b : Mpz) → IsWord a → IsWord b → value b ≢ pos 0 → Remains (value a) (value b) (rem a b)
rem-Remains a b ha hb nz =
    rw (rem_nonzero a b nz) (from_quotient a b (div a b) ha hb (div-Divided a b ha hb nz))
