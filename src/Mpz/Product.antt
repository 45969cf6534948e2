-- ===== src/Mpz/Product.antt =====
-- operator* of libzwerg/int.cc against the product of integers.
use dwgrep.Base.{neg64, ℕ, ◌*◌, ◌/◌, ◌%◌, ◌^◌, ◌<◌, ◌≤◌, ◌≡◌, ◌⊎◌, inl, inr, true, false, arith}
use dwgrep.Base.Int.{ℤ, pos, negsuc, sub_ℕ, ◌≤ℤ◌, ◌*ℤ◌}
use dwgrep.Mpz.{
  Mpz, mpz, Signedness, unsign, sign, to_signed, neg, ok, times_nonneg, times_mixed,
  times_magnitude, times_signs, mul, is_neg,
}
use dwgrep.Mpz.Value.{IsWord, value, Lands}

-- The test `r / a != b` after a wrapped multiplication finds every overflow.
mul64_exact : (a b : ℕ) → 0 < a → (a * b % 2 ^ 64 / a ≡ b) → a * b < 2 ^ 64
mul64_exact a b pa h = grind arith

mul64_fits : (a b : ℕ) → 0 < a → a * b < 2 ^ 64 → (a * b % 2 ^ 64 / a ≡ b)
mul64_fits a b pa h = grind arith

times_nonneg-Lands :
    (a b : Mpz)
    → IsWord a
    → IsWord b
    → pos 0 ≤ℤ value a
    → pos 0 ≤ℤ value b
    → Lands (value a *ℤ value b) (times_nonneg a b)
unfolding times_nonneg ◌*ℤ◌
times_nonneg-Lands a b ha hb na nb =
    ground (arith, mul64_exact a.bits b.bits, mul64_fits a.bits b.bits)

times_magnitude-Lands :
    (a : ℕ) (v1 v2 : Mpz)
    → 0 < a
    → IsWord v1
    → Lands (sub_ℕ 0 (a * v1.bits)) (times_magnitude a v1 v2)
unfolding times_magnitude
times_magnitude-Lands a v1 v2 pa h1 = ground (arith, mul64_exact a v1.bits, mul64_fits a v1.bits)

-- What `-v2` is for a negative v2.
pub neg_minus :
    (y : ℕ)
    → y < 2 ^ 64
    → value (mpz y sign) ≤ℤ negsuc 0
    → (neg (mpz y sign) ≡ ok (mpz (neg64 y) unsign))
      × (0 < neg64 y)
      × (neg64 y ≤ 2 ^ 63)
      × (value (mpz y sign) ≡ sub_ℕ 0 (neg64 y))
unfolding neg
neg_minus y hy ny = ground arith

value-bits : (v : Mpz) → IsWord v → pos 0 ≤ℤ value v → value v ≡ pos v.bits
value-bits v h n = ground arith

pos_mul_neg : (x m : ℕ) → pos x *ℤ sub_ℕ 0 m ≡ sub_ℕ 0 (m * x)
unfolding ◌*ℤ◌
pos_mul_neg x m = ground arith

times_mixed-Lands :
    (v : Mpz) (y : ℕ)
    → IsWord v
    → y < 2 ^ 64
    → pos 0 ≤ℤ value v
    → value (mpz y sign) ≤ℤ negsuc 0
    → Lands (value v *ℤ value (mpz y sign)) (times_mixed v (mpz y sign))
unfolding times_mixed
times_mixed-Lands v y hv hy nv ny =
    let (e, p, _, m) = neg_minus y hy ny in
    rw (value-bits v hv nv, m, e, pos_mul_neg v.bits (neg64 y))
      (times_magnitude-Lands (neg64 y) v (mpz y sign) p hv)

pub *ℤ_comm : (a b : ℤ) → a *ℤ b ≡ b *ℤ a
unfolding ◌*ℤ◌
*ℤ_comm a b = ground arith

pub sign-cases :
    (x : ℕ)
    → x < 2 ^ 64
    → ((is_neg x ≡ false) × (pos 0 ≤ℤ to_signed x))
      ⊎ ((is_neg x ≡ true) × (to_signed x ≤ℤ negsuc 0))
sign-cases x hx = ground arith

signs_cases :
    (x y : ℕ) (s t : Signedness)
    → x < 2 ^ 64
    → y < 2 ^ 64
    → (pos 0 ≤ℤ value (mpz x s)) ⊎ (pos 0 ≤ℤ value (mpz y t))
    → Lands (value (mpz x s) *ℤ value (mpz y t)) (times_signs (mpz x s) (mpz y t))
unfolding times_signs
signs_cases x y unsign unsign hx hy h =
    ground (arith, times_nonneg-Lands (mpz x unsign) (mpz y unsign) hx hy)
signs_cases x y unsign sign hx hy h = ground (
  arith,
  times_nonneg-Lands (mpz x unsign) (mpz y sign) hx hy,
  times_mixed-Lands (mpz x unsign) y hx hy,
)
signs_cases x y sign unsign hx hy h = ground (
  arith,
  times_nonneg-Lands (mpz x sign) (mpz y unsign) hx hy,
  times_mixed-Lands (mpz y unsign) x hy hx,
  *ℤ_comm (value (mpz x sign)) (pos y),
)
signs_cases x y sign sign hx hy h = elim (sign-cases x hx) [
  | inl (ex, nx) ↦ elim (sign-cases y hy) [
    | inl (ey, ny) ↦ rw (ex, ey) (times_nonneg-Lands (mpz x sign) (mpz y sign) hx hy nx ny)
    | inr (ey, my) ↦ rw (ex, ey) (times_mixed-Lands (mpz x sign) y hx hy nx my)
  ]
  | inr (ex, mx) ↦ elim (sign-cases y hy) [
    | inl (ey, ny) ↦
        rw (ex, *ℤ_comm (to_signed x) (to_signed y)) (times_mixed-Lands (mpz y sign) x hy hx ny mx)
    | inr (ey, my) ↦ absurd (omega arith)
  ]
]

-- Two negative factors.
neg_product :
    (x y : ℕ)
    → x < 2 ^ 64
    → y < 2 ^ 64
    → value (mpz x sign) ≤ℤ negsuc 0
    → value (mpz y sign) ≤ℤ negsuc 0
    → pos (neg64 x) *ℤ pos (neg64 y) ≡ value (mpz x sign) *ℤ value (mpz y sign)
unfolding ◌*ℤ◌
neg_product x y hx hy nx ny = ground arith

mul_cases :
    (x y : ℕ) (s t : Signedness)
    → x < 2 ^ 64
    → y < 2 ^ 64
    → Lands (value (mpz x s) *ℤ value (mpz y t)) (mul (mpz x s) (mpz y t))
unfolding mul neg
mul_cases x y unsign t hx hy = ground (arith, signs_cases x y unsign t hx hy)
mul_cases x y sign unsign hx hy = ground (arith, signs_cases x y sign unsign hx hy)
mul_cases x y sign sign hx hy = ground (
  arith,
  signs_cases x y sign sign hx hy,
  signs_cases (neg64 x) (neg64 y) unsign unsign,
  neg_product x y hx hy,
)

-- For two values of 64 bits, operator* returns a value of 64 bits that stands for the product, or
-- fails with an overflow and the product is below -2^63 or above 2^64 - 1.
pub mul-Lands : (a b : Mpz) → IsWord a → IsWord b → Lands (value a *ℤ value b) (mul a b)
mul-Lands a b ha hb = mul_cases a.bits b.bits a.signedness b.signedness ha hb
