-- ===== src/Layout/Align.antt =====
-- The bitwise and with a mask of the high bits.
use Prim.Native.Nat.{bit_and}
use native.Mathlib.Nat.{pow-suc, mul_assoc, mul_comm, div-div-eq-div-mul, mod-eq_of_lt}
use dwgrep.Base.{ℕ, zero, suc, ◌+◌, ◌-◌, ◌*◌, ◌/◌, ◌%◌, ◌^◌, ◌<◌, ◌≡◌, refl, sym, arith}
use dwgrep.Base.Digits.{bit_and-lowest}
use dwgrep.Selector.Mask.{bit_and-mask}

halved : (n : ℕ) → n * 2 / 2 ≡ n
halved n = omega arith

-- One more zero bit
shifted_suc : (x h r : ℕ) → bit_and (x / 2) h ≡ r → bit_and x (h * 2) ≡ r * 2
shifted_suc x h r e = rw (bit_and-lowest x (h * 2), halved h, e) (omega arith)

half : (a k : ℕ) → a * 2 ^ suc k ≡ a * 2 ^ k * 2
half a k = rw (pow-suc 2 k) (sym (mul_assoc a (2 ^ k) 2))

-- The lowest k bits of the mask are zero.
bit_and-shifted : (k m x : ℕ) → bit_and x (m * 2 ^ k) ≡ bit_and (x / 2 ^ k) m * 2 ^ k
bit_and-shifted zero m x =
    let one : m * 2 ^ 0 ≡ m = omega arith in
    let same : x / 2 ^ 0 ≡ x = omega arith in rw (one, same) (omega arith)
bit_and-shifted (suc k) m x =
    let later : x / 2 ^ suc k ≡ x / 2 / 2 ^ k =
      rw (pow-suc 2 k, mul_comm (2 ^ k) 2) (sym (div-div-eq-div-mul x 2 (2 ^ k))) in
    rw (half m k, half (bit_and (x / 2 ^ suc k) m) k, later)
      (shifted_suc x (m * 2 ^ k) (bit_and (x / 2 / 2 ^ k) m * 2 ^ k) (bit_and-shifted k m (x / 2)))

pow_add : (j k : ℕ) → 2 ^ (j + k) ≡ 2 ^ j * 2 ^ k
pow_add j zero = let same : j + 0 ≡ j = omega arith in rw same (omega arith)
pow_add j (suc k) =
    let later : j + suc k ≡ suc (j + k) = omega arith in
    rw (later, pow-suc 2 (j + k), pow-suc 2 k, pow_add j k) (mul_assoc (2 ^ j) (2 ^ k) 2)

minus_one : (a b : ℕ) → a * b - b ≡ (a - 1) * b
minus_one zero b = omega arith
minus_one (suc a) b = grind arith

pub pow_pos : (k : ℕ) → 0 < 2 ^ k
pow_pos zero = omega arith
pow_pos (suc k) = omega (arith, pow-suc 2 k, pow_pos k)

quotient_lt : (x a b : ℕ) → 0 < b → x < a * b → x / b < a
quotient_lt x a b h l = grind arith

-- A mask of j bits above k zero bits, on a number of j + k bits
pub bit_and-high :
    (j k x : ℕ) → x < 2 ^ (j + k) → bit_and x (2 ^ (j + k) - 2 ^ k) ≡ x / 2 ^ k * 2 ^ k
bit_and-high j k x h =
    let mask : 2 ^ (j + k) - 2 ^ k ≡ (2 ^ j - 1) * 2 ^ k =
      rw (pow_add j k) (minus_one (2 ^ j) (2 ^ k)) in
    let small : x / 2 ^ k % 2 ^ j ≡ x / 2 ^ k =
      mod-eq_of_lt (quotient_lt x (2 ^ j) (2 ^ k) (pow_pos k) (rw (← pow_add j k) h)) in
    rw (mask, bit_and-shifted k (2 ^ j - 1) x, bit_and-mask j (x / 2 ^ k), small) refl
