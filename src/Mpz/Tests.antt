-- ===== src/Mpz/Tests.antt =====
-- Runs of the operators of libzwerg/int.cc, and the theorems about them at concrete operands.
use dwgrep.Base.{◌-◌, ◌^◌, ◌≡◌, ◌≢◌, refl, arith}
use dwgrep.Base.Int.{pos, ◌+ℤ◌, ◌≤ℤ◌}
use dwgrep.Mpz.{
  divide_nonzero, strip_sign, round_up, minus_fuel, minus_nonneg, plus_fuel, plus_uns, negate_if,
  times_signs, times_mixed, times_magnitude, Mpz, mpz, unsign, sign, ok, err, overflow, plus, lt,
  neg, add, sub, mul, div, rem,
}
use dwgrep.Mpz.Value.{value, Lands, neg_positive}
use dwgrep.Mpz.Sum.{add-Lands}
use dwgrep.Mpz.Quotient.{Divided, div-Divided}
use dwgrep.Mpz.Remainder.{Remains, rem-Remains}

abbrev five : Mpz
five = mpz 5 unsign

abbrev minus_two : Mpz
minus_two = mpz (2 ^ 64 - 2) sign

abbrev signed_three : Mpz
signed_three = mpz 3 sign

abbrev greatest : Mpz
greatest = mpz (2 ^ 64 - 1) unsign

sum_runs : add five minus_two ≡ ok (mpz 3 unsign)
unfolding add neg plus_fuel minus_nonneg
sum_runs = refl

sum_overflows : add greatest five ≡ err (overflow greatest five plus)
unfolding add plus_fuel plus_uns
sum_overflows = refl

remainder_runs : rem five minus_two ≡ ok (mpz (2 ^ 64 - 1) sign)
unfolding rem neg div divide_nonzero strip_sign lt round_up sub minus_fuel minus_nonneg add
    plus_fuel plus_uns negate_if mul times_signs times_mixed times_magnitude
remainder_runs = refl

add-Lands_example : Lands (value five +ℤ value minus_two) (add five minus_two)
add-Lands_example = add-Lands five minus_two (omega arith) (omega arith)

minus_two_nonzero : value minus_two ≢ pos 0
minus_two_nonzero = ground arith

div-Divided_example : Divided (value five) (value minus_two) (div five minus_two)
div-Divided_example = div-Divided five minus_two (omega arith) (omega arith) minus_two_nonzero

rem-Remains_example : Remains (value five) (value minus_two) (rem five minus_two)
rem-Remains_example = rem-Remains five minus_two (omega arith) (omega arith) minus_two_nonzero

neg_positive_example : (r : Mpz) × (neg signed_three ≡ ok r) × (pos (2 ^ 63) ≤ℤ value r)
neg_positive_example = neg_positive signed_three (omega arith) refl (ground arith)
