-- ===== src/Base/Words.antt =====
-- Unsigned machine words as native numbers.
use Prim.Native.Nat.{ℕ, ◌+◌, ◌-◌, ◌*◌, ◌%◌, ◌^◌, ◌<◌}
use mathlib.Core.Path.{◌≡◌}
use native.Mathlib.Omega.{arith}

-- uint64_t arithmetic wraps.
abbrev pub neg64 : ℕ → ℕ
neg64 w = (2 ^ 64 - w) % 2 ^ 64

abbrev pub add64 : ℕ → ℕ → ℕ
add64 a b = (a + b) % 2 ^ 64

abbrev pub sub64 : ℕ → ℕ → ℕ
sub64 a b = (a + 2 ^ 64 - b) % 2 ^ 64

abbrev pub mul64 : ℕ → ℕ → ℕ
mul64 a b = a * b % 2 ^ 64

pub add64_fits : (a b : ℕ) → a + b < 2 ^ 64 → add64 a b ≡ a + b
add64_fits a b h = omega arith
