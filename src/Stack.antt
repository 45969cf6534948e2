-- ===== src/Stack.antt =====
-- The class stack of libzwerg/stack.hh: a vector of values and the profile, which packs the type
-- codes of the topmost four values, the top one lowest.
pub mod Bits
pub mod Profile
pub mod Compare
mod Tests
use Prim.Native.Nat.{bit_or}
use dwgrep.Base.{
  ℕ, zero, suc, ◌+◌, ◌-◌, ◌*◌, ◌/◌, ◌%◌, ◌^◌, Bool, true, false, ◌&&◌, ltb, leb, if◌then◌else◌,
  List, [], ◌∷◌, length, drop, Option, none, some,
}
use dwgrep.Value.{Value, TypeCodes, code}

-- The std::runtime_error "stack overflow" that `need` throws, a failed assertion, and an error of
-- elfutils, which throw_libdw throws. `stuck` is no error of the program: it says that a loop of the
-- model ran out of fuel.
pub data Error : Type 0 where
  stack_overflow aborted libdw_failed stuck : Error

pub data Result {ℓ} (A : Type ℓ) : Type ℓ where
  ok : A → Result A
  err : Error → Result A

infixl 5 ◌>>=◌
abbrev pub ◌>>=◌ {ℓ κ} : {A : Type ℓ} {B : Type κ} → Result A → (A → Result B) → Result B
ok a >>= f = f a
err e >>= f = err e

-- The head of `values` is the back of the vector m_values.
pub record Stack : Type 0 where
  pub values : List Value
  pub profile : ℕ

-- `m_profile <<= 8` and `m_profile >>= 8` on a uint32_t
abbrev pub shl8 : ℕ → ℕ
shl8 p = p * 2 ^ 8 % 2 ^ 32

abbrev pub shr8 : ℕ → ℕ
shr8 p = p / 2 ^ 8

-- selector::W, the bytes of a sel_t
abbrev pub width : ℕ
width = 4

module _ (t : TypeCodes) where
  -- stack::push
  unfoldable pub push : Value → Stack → Stack
  push v s = record { values = v ∷ s.values; profile = bit_or (shl8 s.profile) (code t v) }

  -- The refill of `pop`: the code of the value that has come into the window.
  unfoldable pub refill : List Value → ℕ → ℕ
  refill (a ∷ b ∷ c ∷ d ∷ vs) p = bit_or p (code t d * 2 ^ 24 % 2 ^ 32)
  refill vs p = p

  unfoldable pub pop_values : List Value → ℕ → Result (Value × Stack)
  pop_values [] p = err stack_overflow
  pop_values (v ∷ vs) p = ok (v, record { values = vs; profile = refill vs (shr8 p) })

  -- stack::pop
  unfoldable pub pop : Stack → Result (Value × Stack)
  unfolding pop_values refill
  pop s = pop_values s.values s.profile

  -- The loop of `drop` that makes the profile anew, with the depth d and the shift d * 8.
  pub profile_loop : ℕ → ℕ → List Value → ℕ → ℕ
  profile_loop zero d vs p = p
  profile_loop (suc left) d [] p = p
  profile_loop (suc left) d (v ∷ vs) p =
      profile_loop left (suc d) vs (bit_or p (code t v * 2 ^ (d * 8) % 2 ^ 32))

  -- stack::drop
  unfoldable pub drop_top : ℕ → Stack → Result Stack
  unfolding profile_loop
  drop_top n s =
      if ltb (length s.values) n
      then err stack_overflow
      else ok
          (record { values = drop n s.values; profile = profile_loop width 0 (drop n s.values) 0 })

unfoldable pub nth : List Value → ℕ → Result Value
nth [] d = err stack_overflow
nth (v ∷ vs) zero = ok v
nth (v ∷ vs) (suc d) = nth vs d

-- stack::get
unfoldable pub get : Stack → ℕ → Result Value
unfolding nth
get s d = nth s.values d

-- stack::top
unfoldable pub top : Stack → Result Value
unfolding get
top s = get s 0
