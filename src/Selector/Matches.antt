-- ===== src/Selector/Matches.antt =====
-- A selector matches the stacks whose topmost values have its types.
use Prim.Native.Nat.{bit_and, bit_or}
use native.Mathlib.Nat.{mod-one, zero-mod}
use dwgrep.Base.{
  ℕ, zero, suc, ◌+◌, ◌-◌, ◌*◌, ◌/◌, ◌%◌, ◌^◌, ◌≤◌, ◌<◌, ◌≡◌, refl, ap, arith, Bool, true, false,
  ◌&&◌, ◌==◌, if◌then◌else◌, List, [], ◌∷◌, length, reverse,
}
use dwgrep.Value.{Value, TypeCodes, code}
use dwgrep.Stack.{Stack, width}
use dwgrep.Stack.Bits.{bit_or_low}
use dwgrep.Stack.Profile.{packed, AreBytes, IsProfiled}
use dwgrep.Selector.{compute_mask, compute_imprint, unshift, selector_of, profile_of, matches}
use dwgrep.Selector.Mask.{bit_and-mask}

-- Codes of types are bytes other than zero.
abbrev pub AreCodes : List ℕ → Type 0
AreCodes [] = Unit {0}
AreCodes (c ∷ codes) = (0 < c) × (c < 256) × AreCodes codes

-- The values from the top on have the types with these codes.
pub has_types : TypeCodes → List ℕ → List Value → Bool
has_types t [] vs = true
has_types t (c ∷ codes) [] = false
has_types t (c ∷ codes) (v ∷ vs) = code t v == c && has_types t codes vs

-- A code in front of those of a number x
imprint_cons :
    (c x : ℕ)
    → c < 256
    → x < 2 ^ 32
    → bit_or (x / 2 ^ 8) (c * 2 ^ 24 % 2 ^ 32) ≡ c * 2 ^ 24 + x / 2 ^ 8
imprint_cons c x h l =
    let whole : c * 2 ^ 24 % 2 ^ 32 ≡ c * 2 ^ 24 = omega arith in
    rw whole (bit_or_low 24 c (x / 2 ^ 8) (omega arith))

byte_for : (c : ℕ) → 0 < c → (if c == 0 then 0 else 0xff * 2 ^ 24 % 2 ^ 32) ≡ 0xff * 2 ^ 24
byte_for c h = ground arith

mask_cons :
    (c x : ℕ)
    → 0 < c
    → x < 2 ^ 32
    → bit_or (x / 2 ^ 8) (if c == 0 then 0 else 0xff * 2 ^ 24 % 2 ^ 32) ≡ 0xff * 2 ^ 24 + x / 2 ^ 8
mask_cons c x h l = rw (byte_for c h) (bit_or_low 24 0xff (x / 2 ^ 8) (omega arith))

abbrev Is : List ℕ → ℕ → ℕ → Type 0
Is codes i m = (compute_imprint codes ≡ i) × (compute_mask codes ≡ m)

is_0 : Is [] 0 0
unfolding compute_imprint compute_mask
is_0 = (refl, refl)

longer :
    (c : ℕ) (codes : List ℕ) (i m : ℕ)
    → 0 < c
    → c < 256
    → i < 2 ^ 32
    → m < 2 ^ 32
    → Is codes i m
    → Is (c ∷ codes) (c * 2 ^ 24 + i / 2 ^ 8) (0xff * 2 ^ 24 + m / 2 ^ 8)
unfolding compute_imprint compute_mask
longer c codes i m p h l k (e, f) = (rw e (imprint_cons c i h l), rw f (mask_cons c m p k))

is_1 : (a : ℕ) → AreCodes (a ∷ []) → Is (a ∷ []) (a * 2 ^ 24) (0xff * 2 ^ 24)
is_1 a h =
    let r = longer a [] 0 0 h.0 h.1 (omega arith) (omega arith) is_0 in
    (omega (arith, r.0), omega (arith, r.1))

is_2 :
    (a b : ℕ) → AreCodes (a ∷ b ∷ []) → Is (a ∷ b ∷ []) (a * 2 ^ 24 + b * 2 ^ 16) (0xffff * 2 ^ 16)
is_2 a b h =
    let r =
      longer a (b ∷ []) (b * 2 ^ 24) (0xff * 2 ^ 24) h.0 h.1 (omega arith) (omega arith)
        (is_1 b h.2) in
    (omega (arith, r.0), omega (arith, r.1))

is_3 :
    (a b c : ℕ)
    → AreCodes (a ∷ b ∷ c ∷ [])
    → Is (a ∷ b ∷ c ∷ []) (a * 2 ^ 24 + b * 2 ^ 16 + c * 2 ^ 8) (0xffffff * 2 ^ 8)
is_3 a b c h =
    let r =
      longer a (b ∷ c ∷ []) (b * 2 ^ 24 + c * 2 ^ 16) (0xffff * 2 ^ 16) h.0 h.1 (omega arith)
        (omega arith) (is_2 b c h.2) in
    (omega (arith, r.0), omega (arith, r.1))

is_4 :
    (a b c d : ℕ)
    → AreCodes (a ∷ b ∷ c ∷ d ∷ [])
    → Is (a ∷ b ∷ c ∷ d ∷ []) (a * 2 ^ 24 + b * 2 ^ 16 + c * 2 ^ 8 + d) 0xffffffff
is_4 a b c d h =
    let r =
      longer a (b ∷ c ∷ d ∷ []) (b * 2 ^ 24 + c * 2 ^ 16 + d * 2 ^ 8) (0xffffff * 2 ^ 8) h.0 h.1
        (omega arith) (omega arith) (is_3 b c d h.2) in
    (omega (arith, r.0), omega (arith, r.1))

-- The number that codes from the top on make in a profile
number : List ℕ → ℕ
number [] = 0
number (c ∷ codes) = number codes * 256 + c

-- 256 ^ n
size : ℕ → ℕ
size zero = 1
size (suc n) = size n * 256

size_pos : (n : ℕ) → 0 < size n
unfolding size
size_pos zero = omega arith
size_pos (suc n) = omega (arith, size_pos n)

low_digit : (x c k : ℕ) → 0 < k → c < 256 → (x * 256 + c) % (k * 256) ≡ x % k * 256 + c
low_digit x c k h l = grind arith

same_digits : (x y c d : ℕ) → c < 256 → d < 256 → (x * 256 + c == y * 256 + d) ≡ (c == d && x == y)
same_digits x y c d h l = ground arith

not_zero : (y d : ℕ) → 0 < d → (0 == y * 256 + d) ≡ false
not_zero y d h = ground arith

-- The lowest digits of a profile are the number of the codes exactly if the values have them.
digits_match :
    (t : TypeCodes) (codes : List ℕ) (m : ℕ) (vs : List Value)
    → length codes ≤ m
    → AreCodes codes
    → AreBytes t vs
    → (packed t m vs % size (length codes) == number codes) ≡ has_types t codes vs
unfolding size number has_types
digits_match t [] m vs l h b = rw (mod-one (packed t m vs)) refl
digits_match t (c ∷ codes) zero vs l h b = absurd (omega arith)
digits_match t (c ∷ codes) (suc m) [] l h b =
    rw (zero-mod (size (length codes) * 256)) (not_zero (number codes) c h.0)
digits_match t (c ∷ codes) (suc m) (v ∷ vs) l h b =
    rw
      (
        low_digit (packed t m vs) (code t v) (size (length codes)) (size_pos (length codes)) b.0,
        same_digits (packed t m vs % size (length codes)) (number codes) (code t v) c b.0 h.1,
      )
      (ap (λ r. code t v == c && r) (digits_match t codes m vs (omega arith) h.2 b.1))

-- The imprint and the mask, at their places
abbrev Made : List ℕ → Type 0
Made codes =
    ((selector_of codes).imprint ≡ number (reverse codes))
    × ((selector_of codes).mask ≡ size (length codes) - 1)

made : (codes : List ℕ) → length codes ≤ width → AreCodes codes → Made codes
unfolding selector_of unshift number size
made [] l h = (omega (arith, is_0.0), omega (arith, is_0.1))
made (a ∷ []) l h = let (i, m) = is_1 a h in (omega (arith, i), omega (arith, m))
made (a ∷ b ∷ []) l h = let (i, m) = is_2 a b h in (omega (arith, i), omega (arith, m))
made (a ∷ b ∷ c ∷ []) l h = let (i, m) = is_3 a b c h in (omega (arith, i), omega (arith, m))
made (a ∷ b ∷ c ∷ d ∷ []) l h = let (i, m) = is_4 a b c d h in (omega (arith, i), omega (arith, m))
made (a ∷ b ∷ c ∷ d ∷ e ∷ codes) l h = absurd (omega arith)

and_size : (n p : ℕ) → n ≤ width → bit_and p (size n - 1) ≡ p % size n
unfolding size
and_size zero p h = bit_and-mask 0 p
and_size (suc zero) p h = bit_and-mask 8 p
and_size (suc (suc zero)) p h = bit_and-mask 16 p
and_size (suc (suc (suc zero))) p h = bit_and-mask 24 p
and_size (suc (suc (suc (suc zero)))) p h = bit_and-mask 32 p
and_size (suc (suc (suc (suc (suc n))))) p h = absurd (omega arith)

-- The codes from the top on
topmost :
    (codes : List ℕ)
    → length codes ≤ width
    → AreCodes codes
    → (length (reverse codes) ≡ length codes) × AreCodes (reverse codes)
topmost [] l h = (refl, tt)
topmost (a ∷ []) l h = (refl, h)
topmost (a ∷ b ∷ []) l h = (refl, (h.2.0, h.2.1, (h.0, h.1, tt)))
topmost (a ∷ b ∷ c ∷ []) l h = (refl, ground arith)
topmost (a ∷ b ∷ c ∷ d ∷ []) l h = (refl, ground arith)
topmost (a ∷ b ∷ c ∷ d ∷ e ∷ codes) l h = absurd (omega arith)

-- The selector for at most four types, whose codes are bytes other than zero, matches the profile
-- of a stack exactly if the values from the top on have these types, the last one on top. On a
-- stack that has fewer values than the selector types, it does not match.
pub selector-matches :
    (t : TypeCodes) (codes : List ℕ) (s : Stack)
    → length codes ≤ width
    → AreCodes codes
    → IsProfiled t s
    → matches (selector_of codes) (profile_of s) ≡ has_types t (reverse codes) s.values
unfolding matches profile_of
selector-matches t codes s l h (b, e) =
    let (n, r) = topmost codes l h in
    let (i, m) = made codes l h in
    let digits = digits_match t (reverse codes) width s.values (omega (arith, n)) r b in
    rw (m, i, and_size (length codes) s.profile l, e, ← n) digits
