-- ===== src/Selector/Mask.antt =====
-- The bitwise and with a mask of the lowest bits is the remainder.
use Prim.Native.Nat.{bit_and}
use native.Mathlib.Nat.{pow-suc}
use dwgrep.Base.{ℕ, zero, suc, ◌-◌, ◌*◌, ◌/◌, ◌%◌, ◌^◌, ◌<◌, ◌≡◌, arith, ◌+◌}
use dwgrep.Base.Digits.{bit_and-lowest, bit_and-zero}

mod_halves : (a m : ℕ) → 0 < m → a % (m * 2) ≡ a / 2 % m * 2 + a % 2
mod_halves a m h = grind arith

pow_pos : (k : ℕ) → 0 < 2 ^ k
pow_pos zero = omega arith
pow_pos (suc k) = omega (arith, pow-suc 2 k, pow_pos k)

-- A mask one bit longer
bit_and-mask_suc :
    (k a : ℕ)
    → bit_and (a / 2) (2 ^ k - 1) ≡ a / 2 % 2 ^ k
    → bit_and a (2 ^ k * 2 - 1) ≡ a % (2 ^ k * 2)
bit_and-mask_suc k a ih =
    let half : (2 ^ k * 2 - 1) / 2 ≡ 2 ^ k - 1 = omega (arith, pow_pos k) in
    let odd : (2 ^ k * 2 - 1) % 2 ≡ 1 = omega (arith, pow_pos k) in
    rw (bit_and-lowest a (2 ^ k * 2 - 1), half, odd, ih, mod_halves a (2 ^ k) (pow_pos k))
      (omega arith)

-- The lowest k bits
pub bit_and-mask : (k a : ℕ) → bit_and a (2 ^ k - 1) ≡ a % 2 ^ k
bit_and-mask zero a = omega (arith, bit_and-zero a)
bit_and-mask (suc k) a = rw (pow-suc 2 k) (bit_and-mask_suc k a (bit_and-mask k (a / 2)))
