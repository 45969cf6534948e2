-- ===== src/Mpz/Value.antt =====
-- The integer that an mpz_class stands for, and the order of int.cc on these integers.
use dwgrep.Base.{neg64, ◌^◌, ◌<◌, ◌≡◌, ◌↔◌, true, arith, ◌⊎◌}
use dwgrep.Base.Int.{ℤ, pos, negsuc, ltb_ℤ, leb_ℤ, ◌≤ℤ◌, ◌+ℤ◌, ◌-ℤ◌}
use dwgrep.Mpz.{
  Mpz, mpz, unsign, sign, to_signed, lt, eq, le, neg, plus_uns, plus_signed, minus_nonneg,
  minus_mixed, Result, ok, err, Error, neg_overflow, overflow, div_by_zero, stuck,
}

abbrev pub IsWord : Mpz → Type 0
IsWord v = v.bits < 2 ^ 64

abbrev pub value : Mpz → ℤ
value v = elim v.signedness [ unsign ↦ pos v.bits | sign ↦ to_signed v.bits ]

-- For two values of 64 bits, operator< compares the integers that they stand for, whatever their
-- signedness.
pub lt-value : (a b : Mpz) → IsWord a → IsWord b → lt a b ≡ ltb_ℤ (value a) (value b)
unfolding lt
lt-value a b ha hb = ground arith

-- The integers that an mpz_class can hold: those of int64_t and those of uint64_t.
abbrev pub OutOfRange : ℤ → Type 0
OutOfRange z = (z ≤ℤ negsuc (2 ^ 63)) ⊎ (pos (2 ^ 64) ≤ℤ z)

abbrev pub IsOverflow : Error → Type 0
IsOverflow (neg_overflow v) = Unit {0}
IsOverflow (overflow a b op) = Unit {0}
IsOverflow (div_by_zero a b op) = ⊥
IsOverflow stuck = ⊥

-- The right answer of an operation whose exact result is z.
abbrev pub Lands : ℤ → Result Mpz → Type 0
Lands z (ok r) = IsWord r × (value r ≡ z)
Lands z (err e) = IsOverflow e × OutOfRange z

-- For two values of 64 bits, operator<= compares the integers that they stand for, whatever their
-- signedness.
pub le-value : (a b : Mpz) → IsWord a → IsWord b → le a b ≡ leb_ℤ (value a) (value b)
unfolding le
le-value a b ha hb = ground (arith, lt-value a b, lt-value b a)

-- For two values of 64 bits, operator== is true just when they stand for the same integer.
pub eq-value : (a b : Mpz) → IsWord a → IsWord b → (eq a b ≡ true) ↔ (value a ≡ value b)
unfolding eq
eq-value a b ha hb = ground (arith, lt-value a b, lt-value b a)

-- Unary minus of a value of 64 bits that is unsigned, or is not positive, returns the negated
-- integer, or fails with an overflow when that is below -2^63 or above 2^64 - 1.
pub neg-Lands :
    (v : Mpz)
    → IsWord v
    → value v ≤ℤ pos 0 ⊎ (v.signedness ≡ unsign)
    → Lands (pos 0 -ℤ value v) (neg v)
unfolding neg ◌-ℤ◌
neg-Lands v h k = ground arith

-- Unary minus of a positive value of 64 bits that is signed returns an integer of at least 2^63.
pub neg_positive :
    (v : Mpz)
    → IsWord v
    → v.signedness ≡ sign
    → pos 1 ≤ℤ value v
    → (r : Mpz) × (neg v ≡ ok r) × (pos (2 ^ 63) ≤ℤ value r)
unfolding neg
neg_positive v h s k = (mpz (neg64 v.bits) unsign, ground arith, ground arith)

pub plus_uns-Lands :
    (a b : Mpz)
    → IsWord a
    → IsWord b
    → pos 0 ≤ℤ value a
    → pos 0 ≤ℤ value b
    → Lands (value a +ℤ value b) (plus_uns a b)
unfolding plus_uns ◌+ℤ◌
plus_uns-Lands a b ha hb na nb = ground arith

pub minus_nonneg-Lands :
    (a b : Mpz)
    → IsWord a
    → IsWord b
    → pos 0 ≤ℤ value a
    → pos 0 ≤ℤ value b
    → Lands (value a -ℤ value b) (minus_nonneg a b)
unfolding minus_nonneg ◌-ℤ◌
minus_nonneg-Lands a b ha hb na nb = ground arith

pub minus_mixed-Lands :
    (a b : Mpz)
    → IsWord a
    → IsWord b
    → value a ≤ℤ negsuc 0
    → pos 0 ≤ℤ value b
    → Lands (value a -ℤ value b) (minus_mixed a b)
unfolding minus_mixed ◌-ℤ◌
minus_mixed-Lands a b ha hb na nb = ground arith

pub plus_signed-Lands :
    (a b : Mpz)
    → IsWord a
    → IsWord b
    → a.signedness ≡ sign
    → b.signedness ≡ sign
    → Lands (value a +ℤ value b) (plus_signed a b)
unfolding plus_signed ◌+ℤ◌
plus_signed-Lands a b ha hb na nb = ground arith
