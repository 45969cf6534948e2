-- ===== src/Stack/Bits.antt =====
-- The bitwise or of numbers whose digits do not meet is their sum.
use Prim.Native.Nat.{bit_or}
use native.Mathlib.Nat.{pow-suc, mul_assoc}
use dwgrep.Base.{ℕ, zero, suc, ◌+◌, ◌*◌, ◌/◌, ◌^◌, ◌<◌, ◌≡◌, sym, arith}
use dwgrep.Base.Digits.{bit_or-lowest, bit_or-zero, zero-bit_or}

half : (a k : ℕ) → a * 2 ^ suc k ≡ a * 2 ^ k * 2
half a k = rw (pow-suc 2 k) (sym (mul_assoc a (2 ^ k) 2))

pow_pos : (k : ℕ) → 2 ^ suc k ≡ 2 ^ k * 2
pow_pos k = pow-suc 2 k

halved : (n : ℕ) → n * 2 / 2 ≡ n
halved n = omega arith

-- The high digits first.
pub bit_or_high : (k a b : ℕ) → b < 2 ^ k → bit_or (a * 2 ^ k) b ≡ a * 2 ^ k + b
bit_or_high zero a zero h = omega (arith, bit_or-zero (a * 2 ^ 0))
bit_or_high zero a (suc b) h = absurd (omega arith)
bit_or_high (suc k) a b h =
    rw
      (
        half a k,
        bit_or-lowest (a * 2 ^ k * 2) b,
        halved (a * 2 ^ k),
        bit_or_high k a (b / 2) (omega (arith, pow_pos k)),
      )
      (omega arith)

-- The low digits first.
pub bit_or_low : (k a b : ℕ) → b < 2 ^ k → bit_or b (a * 2 ^ k) ≡ a * 2 ^ k + b
bit_or_low zero a zero h = omega (arith, zero-bit_or (a * 2 ^ 0))
bit_or_low zero a (suc b) h = absurd (omega arith)
bit_or_low (suc k) a b h =
    rw
      (
        half a k,
        bit_or-lowest b (a * 2 ^ k * 2),
        halved (a * 2 ^ k),
        bit_or_low k a (b / 2) (omega (arith, pow_pos k)),
      )
      (omega arith)
