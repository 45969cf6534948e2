-- ===== src/Mpz.antt =====
-- The class mpz_class of libzwerg/int.hh and its operators in libzwerg/int.cc.
use dwgrep.Base.{
  ℕ, zero, suc, ◌+◌, ◌-◌, ◌*◌, ◌/◌, ◌%◌, ◌^◌, Bool, true, false, not, ◌&&◌, ◌||◌, ltb, ◌==◌,
  if◌then◌else◌, neg64, add64, sub64, mul64,
}
use dwgrep.Base.Int.{ℤ, pos, negsuc, pos_part, neg_part, ltb_ℤ, leb_ℤ, ◌+ℤ◌, ◌-ℤ◌}
pub mod Value
pub mod Sum
pub mod Product
pub mod Quotient
pub mod Remainder
mod Tests

pub data Signedness : Type 0 where
  unsign sign : Signedness

-- `bits` is the union of `m_u` and `m_i`, read as `m_u`.
pub record Mpz : Type 0 where
  pub bits : ℕ
  pub signedness : Signedness

abbrev pub mpz : ℕ → Signedness → Mpz
mpz n s = record { bits = n; signedness = s }

abbrev pub is_signed : Mpz → Bool
is_signed v = elim v.signedness [ sign ↦ true | unsign ↦ false ]

abbrev pub is_unsigned : Mpz → Bool
is_unsigned v = elim v.signedness [ sign ↦ false | unsign ↦ true ]

-- `m_i`: the bits as a two's complement number.
abbrev pub to_signed : ℕ → ℤ
to_signed w = if ltb w (2 ^ 63) then pos w else negsuc (2 ^ 64 - w - 1)

-- `v.m_i < 0`
abbrev pub is_neg : ℕ → Bool
is_neg w = ltb_ℤ (to_signed w) (pos 0)

-- The bits of an int64_t.
abbrev pub of_signed : ℤ → ℕ
of_signed z = (pos_part z + 2 ^ 64 - neg_part z % 2 ^ 64) % 2 ^ 64

-- (uint64_t) INT64_MAX + 1, which is also the bit pattern of INT64_MIN.
abbrev pub int64_min : ℕ
int64_min = 2 ^ 63

pub data BinOp : Type 0 where
  plus minus times divide modulo : BinOp

-- The std::domain_error that `int_error` throws, with what its text is made of. `stuck` is no
-- error of the program: it says that the model ran out of fuel.
pub data Error : Type 0 where
  neg_overflow : Mpz → Error
  overflow : Mpz → Mpz → BinOp → Error
  div_by_zero : Mpz → Mpz → BinOp → Error
  stuck : Error

pub data Result {ℓ} (A : Type ℓ) : Type ℓ where
  ok : A → Result A
  err : Error → Result A

infixl 5 ◌>>=◌
abbrev pub ◌>>=◌ {ℓ κ} : {A : Type ℓ} {B : Type κ} → Result A → (A → Result B) → Result B
ok a >>= f = f a
err e >>= f = err e

-- `v.m_sign == signedness::sign && v.m_i < 0`
abbrev pub is_minus : Mpz → Bool
is_minus v = is_signed v && is_neg v.bits

-- `v.m_sign == signedness::unsign || v.m_i >= 0`
abbrev pub is_nonneg : Mpz → Bool
is_nonneg v = is_unsigned v || not (is_neg v.bits)

abbrev same_sign : Signedness → Signedness → Bool
same_sign unsign unsign = true
same_sign sign sign = true
same_sign _ _ = false

unfoldable pub lt : Mpz → Mpz → Bool
lt v1 v2 =
    if same_sign v1.signedness v2.signedness
    then (elim v1.signedness [
      | unsign ↦ ltb v1.bits v2.bits
      | sign ↦ ltb_ℤ (to_signed v1.bits) (to_signed v2.bits)
    ])
    else if is_minus v1
    then true
    else if is_minus v2
    then false
    else ltb v1.bits v2.bits

pub eq : Mpz → Mpz → Bool
eq v1 v2 = not (lt v1 v2) && not (lt v2 v1)

pub le : Mpz → Mpz → Bool
le v1 v2 = lt v1 v2 || not (lt v2 v1)

unfoldable pub gt : Mpz → Mpz → Bool
unfolding le
gt v1 v2 = not (le v1 v2)

pub ge : Mpz → Mpz → Bool
ge v1 v2 = not (lt v1 v2)

pub ne : Mpz → Mpz → Bool
unfolding eq
ne v1 v2 = not (eq v1 v2)

unfoldable pub neg : Mpz → Result Mpz
neg v = elim v.signedness [
  | sign ↦ if v.bits == int64_min then ok (mpz int64_min unsign) else ok (mpz (neg64 v.bits) unsign)
  | unsign ↦ if ltb int64_min v.bits then err (neg_overflow v) else ok (mpz (neg64 v.bits) sign)
]

-- The code from the label `uns` of operator+.
pub plus_uns : Mpz → Mpz → Result Mpz
plus_uns v1 v2 =
    let result = add64 v1.bits v2.bits in
    if ltb result v1.bits then err (overflow v1 v2 plus) else ok (mpz result unsign)

-- The case signedness::sign of operator+.
pub plus_signed : Mpz → Mpz → Result Mpz
unfolding plus_uns
plus_signed v1 v2 =
    let a = to_signed v1.bits in
    let b = to_signed v2.bits in
    let ua = neg64 v1.bits in
    let ub = neg64 v2.bits in
    let ur = add64 ua ub in
    if (leb_ℤ a (pos 0) && leb_ℤ (pos 0) b) || (leb_ℤ b (pos 0) && leb_ℤ (pos 0) a)
    then ok (mpz (of_signed (a +ℤ b)) sign)
    else if leb_ℤ (pos 0) a && leb_ℤ (pos 0) b
    then plus_uns v1 v2
    else if v1.bits == int64_min || v2.bits == int64_min
    then err (overflow v1 v2 plus)
    else if ltb ur ua || ltb int64_min ur
    then err (overflow v1 v2 plus)
    else ok (mpz (neg64 ur) sign)

-- The branch of operator- for two operands that are not negative.
pub minus_nonneg : Mpz → Mpz → Result Mpz
minus_nonneg v1 v2 =
    let r = sub64 v2.bits v1.bits in
    if ltb v2.bits v1.bits
    then ok (mpz (sub64 v1.bits v2.bits) unsign)
    else if ltb int64_min r
    then err (overflow v1 v2 minus)
    else ok (mpz (neg64 r) sign)

-- The last statements of operator-, where v1 is negative and v2 is not.
pub minus_mixed : Mpz → Mpz → Result Mpz
minus_mixed v1 v2 =
    if ltb (sub64 v1.bits int64_min) v2.bits
    then err (overflow v1 v2 minus)
    else ok (mpz (of_signed (to_signed v1.bits -ℤ to_signed v2.bits)) sign)

-- operator+ and operator- call one another. The fuel is the depth of the calls.
mutual
  pub plus_fuel : ℕ → Mpz → Mpz → Result Mpz
  plus_fuel zero v1 v2 = err stuck
  plus_fuel (suc fuel) v1 v2 =
      if same_sign v1.signedness v2.signedness
      then (elim v1.signedness [ unsign ↦ plus_uns v1 v2 | sign ↦ plus_signed v1 v2 ])
      else if is_minus v1
      then neg v1 >>= (λ m. minus_fuel fuel v2 m)
      else if is_minus v2
      then neg v2 >>= (λ m. minus_fuel fuel v1 m)
      else plus_uns v1 v2

  pub minus_fuel : ℕ → Mpz → Mpz → Result Mpz
  minus_fuel zero v1 v2 = err stuck
  minus_fuel (suc fuel) v1 v2 =
      if is_nonneg v1 && is_nonneg v2
      then minus_nonneg v1 v2
      else if is_minus v2
      then neg v2 >>= (λ m. plus_fuel fuel v1 m)
      else minus_mixed v1 v2

-- operator+
pub add : Mpz → Mpz → Result Mpz
add v1 v2 = plus_fuel 3 v1 v2

-- operator-
pub sub : Mpz → Mpz → Result Mpz
sub v1 v2 = minus_fuel 3 v1 v2

-- The cases of operator* after the first `if`.
pub times_nonneg : Mpz → Mpz → Result Mpz
times_nonneg v1 v2 =
    let r = mul64 v1.bits v2.bits in
    if not (v1.bits == 0) && not (r / v1.bits == v2.bits)
    then err (overflow v1 v2 times)
    else ok (mpz r unsign)

-- From `uint64_t r = a * v1.m_u` on, with the `a` of the line before.
pub times_magnitude : ℕ → Mpz → Mpz → Result Mpz
times_magnitude a v1 v2 =
    let r = mul64 a v1.bits in
    if not (a == 0) && not (r / a == v1.bits)
    then err (overflow v1 v2 times)
    else if ltb int64_min r
    then err (overflow v1 v2 times)
    else ok (mpz (neg64 r) sign)

-- From `uint64_t a = (-v2).m_u` on: v1 is not negative and v2 is.
pub times_mixed : Mpz → Mpz → Result Mpz
unfolding times_magnitude
times_mixed v1 v2 = neg v2 >>= (λ m. times_magnitude m.bits v1 v2)

pub times_signs : Mpz → Mpz → Result Mpz
unfolding times_nonneg times_mixed
times_signs v1 v2 =
    if is_nonneg v1 && is_nonneg v2
    then times_nonneg v1 v2
    else if is_minus v1
    then times_mixed v2 v1
    else times_mixed v1 v2

-- operator*
pub mul : Mpz → Mpz → Result Mpz
mul v1 v2 =
    if is_minus v1 && is_minus v2
    then neg v1 >>= (λ m1. neg v2 >>= (λ m2. times_signs m1 m2))
    else times_signs v1 v2

-- One `if (v < 0)` of operator/: the operand without its sign, and whether it had one. The tests
-- of v1 and v2 compare with the int 0.
pub strip_sign : Mpz → Result (Mpz × Bool)
strip_sign v = if lt v (mpz 0 sign) then neg v >>= (λ m. ok (m, true)) else ok (v, false)

-- The `if (neg)` of operator/ before the division: it makes the division round away from zero.
pub round_up : Mpz → Mpz → Bool → Result Mpz
round_up v1 v2 false = ok v1
round_up v1 v2 true = sub v2 (mpz 1 sign) >>= (λ d. add v1 d)

pub negate_if : Bool → Mpz → Result Mpz
negate_if false v = ok v
negate_if true v = neg v

-- operator/ past the test for a zero divisor.
pub divide_nonzero : Mpz → Mpz → Result Mpz
divide_nonzero v1 v2 = do
  (w1, neg1) ← strip_sign v1
  (w2, neg2) ← strip_sign v2
  let negative = if neg2 then not neg1 else neg1
  u1 ← round_up w1 w2 negative
  negate_if negative (mpz (u1.bits / w2.bits) unsign)

-- operator/
pub div : Mpz → Mpz → Result Mpz
div v1 v2 = if v2.bits == 0 then err (div_by_zero v1 v2 divide) else divide_nonzero v1 v2

-- operator%
pub rem : Mpz → Mpz → Result Mpz
rem v1 v2 =
    if v2.bits == 0
    then err (div_by_zero v1 v2 modulo)
    else (div v1 v2 >>= (λ d. mul v2 d >>= (λ m. sub v1 m)))
