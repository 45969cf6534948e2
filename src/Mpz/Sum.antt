-- ===== src/Mpz/Sum.antt =====
-- operator+ and operator- of libzwerg/int.cc against the sum and the difference of integers.
use dwgrep.Base.{neg64, ℕ, suc, ◌^◌, ◌<◌, ◌≡◌, refl, arith}
use dwgrep.Base.Int.{pos, ◌+ℤ◌, ◌-ℤ◌}
use dwgrep.Mpz.{Mpz, mpz, Signedness, unsign, sign, neg, plus_fuel, minus_fuel, add, sub}
use dwgrep.Mpz.Value.{
  IsWord, value, Lands, plus_uns-Lands, plus_signed-Lands, minus_nonneg-Lands, minus_mixed-Lands,
}

-- Two unsigned operands take no further call.
minus_fuel_unsign :
    (f : ℕ) (a b : Mpz)
    → IsWord a
    → IsWord b
    → a.signedness ≡ unsign
    → b.signedness ≡ unsign
    → Lands (value a -ℤ value b) (minus_fuel (suc f) a b)
unfolding minus_fuel
minus_fuel_unsign f a b ha hb sa sb = ground (arith, minus_nonneg-Lands a b ha hb)

-- One clause for each pair of signedness; the records have η, so these are all cases.
plus_unsign_cases :
    (f x y : ℕ) (s : Signedness)
    → x < 2 ^ 64
    → y < 2 ^ 64
    → Lands (value (mpz x s) +ℤ pos y) (plus_fuel (suc (suc f)) (mpz x s) (mpz y unsign))
unfolding plus_fuel neg ◌-ℤ◌ ◌+ℤ◌
plus_unsign_cases f x y unsign hx hy =
    ground (arith, plus_uns-Lands (mpz x unsign) (mpz y unsign) hx hy)
plus_unsign_cases f x y sign hx hy = ground (
  arith,
  plus_uns-Lands (mpz x sign) (mpz y unsign) hx hy,
  minus_fuel_unsign f (mpz y unsign) (mpz (neg64 x) unsign) hy,
)

minus_cases :
    (f x y : ℕ) (s t : Signedness)
    → x < 2 ^ 64
    → y < 2 ^ 64
    → Lands
        (value (mpz x s) -ℤ value (mpz y t))
        (minus_fuel (suc (suc (suc f))) (mpz x s) (mpz y t))
unfolding minus_fuel neg ◌-ℤ◌ ◌+ℤ◌
minus_cases f x y unsign unsign hx hy =
    minus_fuel_unsign (suc (suc f)) (mpz x unsign) (mpz y unsign) hx hy refl refl
minus_cases f x y sign unsign hx hy = ground (
  arith,
  minus_nonneg-Lands (mpz x sign) (mpz y unsign) hx hy,
  minus_mixed-Lands (mpz x sign) (mpz y unsign) hx hy,
)
minus_cases f x y unsign sign hx hy = ground (
  arith,
  minus_nonneg-Lands (mpz x unsign) (mpz y sign) hx hy,
  plus_unsign_cases f x (neg64 y) unsign hx,
)
minus_cases f x y sign sign hx hy = ground (
  arith,
  minus_nonneg-Lands (mpz x sign) (mpz y sign) hx hy,
  minus_mixed-Lands (mpz x sign) (mpz y sign) hx hy,
  plus_unsign_cases f x (neg64 y) sign hx,
)

plus_cases :
    (f x y : ℕ) (s t : Signedness)
    → x < 2 ^ 64
    → y < 2 ^ 64
    → Lands (value (mpz x s) +ℤ value (mpz y t)) (plus_fuel (suc (suc (suc f))) (mpz x s) (mpz y t))
unfolding plus_fuel neg ◌-ℤ◌ ◌+ℤ◌
plus_cases f x y s unsign hx hy = plus_unsign_cases (suc f) x y s hx hy
plus_cases f x y unsign sign hx hy = ground (
  arith,
  plus_uns-Lands (mpz x unsign) (mpz y sign) hx hy,
  minus_fuel_unsign (suc f) (mpz x unsign) (mpz (neg64 y) unsign) hx,
)
plus_cases f x y sign sign hx hy = plus_signed-Lands (mpz x sign) (mpz y sign) hx hy refl refl

-- For two values of 64 bits, operator+ returns a value of 64 bits that stands for the sum, or
-- fails with an overflow and the sum is below -2^63 or above 2^64 - 1. Three nested calls are
-- enough.
pub add-Lands : (a b : Mpz) → IsWord a → IsWord b → Lands (value a +ℤ value b) (add a b)
unfolding add
add-Lands a b ha hb = plus_cases 0 a.bits b.bits a.signedness b.signedness ha hb

-- For two values of 64 bits, operator- returns a value of 64 bits that stands for the difference,
-- or fails with an overflow and the difference is below -2^63 or above 2^64 - 1. Three nested
-- calls are enough.
pub sub-Lands : (a b : Mpz) → IsWord a → IsWord b → Lands (value a -ℤ value b) (sub a b)
unfolding sub
sub-Lands a b ha hb = minus_cases 0 a.bits b.bits a.signedness b.signedness ha hb
