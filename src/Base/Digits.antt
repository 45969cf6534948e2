-- ===== src/Base/Digits.antt =====
-- The law of the lowest binary digit, for every operation on digits.
use Prim.Native.Nat.{max, bit_and, bit_or, digits, bitwise, bit_and-bitwise, bit_or-bitwise}
use Prim.Native.Nat.{ℕ, zero, suc, min, ◌+◌, ◌-◌, ◌*◌, ◌/◌, ◌%◌, ◌≤◌}
use mathlib.Core.Path.{◌≡◌, refl, sym, ap, ◌∙◌}
use native.Mathlib.Omega.{arith}

module _ (last : ℕ → ℕ) (op : ℕ → ℕ → ℕ) where
  run_out : (count b : ℕ) → digits last op count 0 b ≡ last b
  run_out zero b = refl
  run_out (suc count) b = refl

  -- Digits to go beyond those of the number change nothing.
  spare :
      (count more a b : ℕ)
      → a ≤ count
      → digits last op (count + more) a b ≡ digits last op count a b
  spare count more zero b l = run_out (count + more) b ∙ sym (run_out count b)
  spare zero more (suc a) b l = absurd (omega arith)
  spare (suc count) more (suc a) b l =
      let next : suc count + more ≡ suc (count + more) = omega arith in
      rw next (
        ap (λ d. d * 2 + op (suc a % 2) (b % 2))
          (spare count more (suc a / 2) (b / 2) (omega arith)))

  halves : (a b : ℕ) → digits last op a (suc a / 2) b ≡ bitwise last op (suc a / 2) b
  halves a b =
      let whole : a ≡ suc a / 2 + (a - suc a / 2) = omega arith in
      ap (λ n. digits last op n (suc a / 2) b) whole
      ∙ spare (suc a / 2) (a - suc a / 2) (suc a / 2) b (omega arith)

  lowest_digit :
      ((b : ℕ) → last b ≡ last (b / 2) * 2 + op 0 (b % 2))
      → (a b : ℕ) → bitwise last op a b ≡ bitwise last op (a / 2) (b / 2) * 2 + op (a % 2) (b % 2)
  lowest_digit law zero b = law b
  lowest_digit law (suc a) b = ap (λ d. d * 2 + op (suc a % 2) (b % 2)) (halves a (b / 2))

pub bit_and-lowest : (a b : ℕ) → bit_and a b ≡ bit_and (a / 2) (b / 2) * 2 + min (a % 2) (b % 2)
bit_and-lowest a b =
    bit_and-bitwise a b
    ∙ lowest_digit (λ b. 0) min (λ b. omega arith) a b
    ∙ ap (λ d. d * 2 + min (a % 2) (b % 2)) (sym (bit_and-bitwise (a / 2) (b / 2)))

pub bit_or-lowest : (a b : ℕ) → bit_or a b ≡ bit_or (a / 2) (b / 2) * 2 + max (a % 2) (b % 2)
bit_or-lowest a b =
    bit_or-bitwise a b
    ∙ lowest_digit (λ b. b) max (λ b. omega arith) a b
    ∙ ap (λ d. d * 2 + max (a % 2) (b % 2)) (sym (bit_or-bitwise (a / 2) (b / 2)))

none_in_common : (count a : ℕ) → digits (λ b. 0) min count a 0 ≡ 0
none_in_common zero a = refl
none_in_common (suc count) zero = refl
none_in_common (suc count) (suc a) = rw (none_in_common count (suc a / 2)) (omega arith)

pub bit_and-zero : (a : ℕ) → bit_and a 0 ≡ 0
bit_and-zero a = bit_and-bitwise a 0 ∙ none_in_common a a

kept_as_it_is : (count a : ℕ) → a ≤ count → digits (λ b. b) max count a 0 ≡ a
kept_as_it_is count zero l = run_out (λ b. b) max count 0
kept_as_it_is zero (suc a) l = absurd (omega arith)
kept_as_it_is (suc count) (suc a) l =
    rw (kept_as_it_is count (suc a / 2) (omega arith)) (omega arith)

pub bit_or-zero : (a : ℕ) → bit_or a 0 ≡ a
bit_or-zero a = bit_or-bitwise a 0 ∙ kept_as_it_is a a (omega arith)

pub zero-bit_or : (b : ℕ) → bit_or 0 b ≡ b
zero-bit_or b = bit_or-bitwise 0 b
