-- ===== src/Selector.antt =====
-- The class selector of libzwerg/selector.hh, which an overload is chosen by.
pub mod Mask
pub mod Matches
mod Tests
use Prim.Native.Nat.{bit_and, bit_or}
use dwgrep.Base.{
  ℕ, zero, suc, ◌+◌, ◌-◌, ◌*◌, ◌/◌, ◌%◌, ◌^◌, Bool, ◌==◌, if◌then◌else◌, List, [], ◌∷◌, length,
}
use dwgrep.Stack.{Stack, width}

-- m_imprint and m_mask, of the type sel_t
pub record Selector : Type 0 where
  pub imprint : ℕ
  pub mask : ℕ

-- selector::compute_mask, from the codes of the types, that of the topmost value last
pub compute_mask : List ℕ → ℕ
compute_mask [] = 0
compute_mask (c ∷ codes) =
    bit_or (compute_mask codes / 2 ^ 8) (if c == 0 then 0 else 0xff * 2 ^ 24 % 2 ^ 32)

-- selector::compute_imprint
pub compute_imprint : List ℕ → ℕ
compute_imprint [] = 0
compute_imprint (c ∷ codes) = bit_or (compute_imprint codes / 2 ^ 8) (c * 2 ^ 24 % 2 ^ 32)

-- selector::unshift
unfoldable pub unshift : ℕ → ℕ → ℕ
unshift sel n = sel / 2 ^ ((width - n) * 8)

-- The constructor from value types; the static assertion lets at most `width` through.
unfoldable pub selector_of : List ℕ → Selector
unfolding unshift compute_mask compute_imprint
selector_of codes = record {
  imprint = unshift (compute_imprint codes) (length codes);
  mask = unshift (compute_mask codes) (length codes);
}

-- The constructor from a stack
unfoldable pub profile_of : Stack → Selector
profile_of s = record { imprint = s.profile; mask = 0 }

-- selector::matches
unfoldable pub matches : Selector → Selector → Bool
matches sel profile = bit_and profile.imprint sel.mask == sel.imprint
