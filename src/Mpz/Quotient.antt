-- ===== src/Mpz/Quotient.antt =====
-- operator/ of libzwerg/int.cc against the quotient of integers, rounded down.
use native.Mathlib.Nat.{div-mul-le_self, lt-div-mul-add}
use mathlib.Core.Path.{ap₂, subst, subst₂}
use dwgrep.Base.{
  neg64, ℕ, ◌+◌, ◌-◌, ◌*◌, ◌/◌, ◌^◌, ◌<◌, ◌≤◌, ◌≡◌, ◌≢◌, ◌⊎◌, refl, sym, ap, ◌∙◌, inl, inr, Bool,
  true, false, arith, Bool-cases,
}
use dwgrep.Base.Int.{ℤ, pos, pos_part, neg_part, sub_ℕ, ◌≤ℤ◌, ◌*ℤ◌, ◌-ℤ◌, ◌+ℤ◌}
use dwgrep.Mpz.{
  Mpz, mpz, Signedness, unsign, sign, neg, Result, ok, err, Error, ◌>>=◌, lt, add, sub, div,
  strip_sign, round_up, negate_if, divide_nonzero, div_by_zero, divide,
}
use dwgrep.Mpz.Value.{IsWord, value, Lands, OutOfRange, IsOverflow, lt-value, neg-Lands}
use dwgrep.Mpz.Sum.{add-Lands, sub-Lands}

-- r is a remainder by b: between 0 and b, without b.
abbrev pub IsRemainder : ℤ → ℤ → Type 0
IsRemainder b r = ((pos 0 ≤ℤ r) × (r +ℤ pos 1 ≤ℤ b)) ⊎ ((b +ℤ pos 1 ≤ℤ r) × (r ≤ℤ pos 0))

-- q is a / b rounded down.
abbrev pub IsFloor : ℤ → ℤ → ℤ → Type 0
IsFloor a b q = IsRemainder b (a -ℤ q *ℤ b)

module _ (m n k : ℕ) (lo : k * n ≤ m) (hi : m < k * n + n) where
  IsFloor-pos : IsFloor (pos m) (pos n) (pos k)
  unfolding ◌*ℤ◌ ◌-ℤ◌ ◌+ℤ◌
  IsFloor-pos = ground arith

  IsFloor-neg : IsFloor (sub_ℕ 0 m) (sub_ℕ 0 n) (pos k)
  unfolding ◌*ℤ◌ ◌-ℤ◌ ◌+ℤ◌
  IsFloor-neg = ground arith

module _ (m n k : ℕ) (lo : m ≤ k * n) (hi : k * n < m + n) where
  IsFloor-down : IsFloor (sub_ℕ 0 m) (pos n) (sub_ℕ 0 k)
  unfolding ◌*ℤ◌ ◌-ℤ◌ ◌+ℤ◌
  IsFloor-down = ground arith

  IsFloor-up : IsFloor (pos m) (sub_ℕ 0 n) (sub_ℕ 0 k)
  unfolding ◌*ℤ◌ ◌-ℤ◌ ◌+ℤ◌
  IsFloor-up = ground arith

abbrev with_sign : Bool → ℕ → ℤ
with_sign true n = sub_ℕ 0 n
with_sign false n = pos n

-- What `strip_sign` returns.
record Stripped (v m : Mpz) (b : Bool) : Type 0 where
  returns : strip_sign v ≡ ok (m, b)
  word : IsWord m
  magnitude : value m ≡ pos m.bits
  sign_is : value v ≡ with_sign b m.bits

strip_minus :
    (y : ℕ) (s : Signedness)
    → y < 2 ^ 64
    → lt (mpz y s) (mpz 0 sign) ≡ true
    → Stripped (mpz y s) (mpz (neg64 y) unsign) true
unfolding strip_sign neg
strip_minus y unsign hy e = absurd (ground (arith, lt-value (mpz y unsign) (mpz 0 sign) hy))
strip_minus y sign hy e = record {
  returns = rw e (ground (arith, lt-value (mpz y sign) (mpz 0 sign) hy));
  word = omega arith;
  magnitude = refl;
  sign_is = ground (arith, lt-value (mpz y sign) (mpz 0 sign) hy);
}

strip_plus : (v : Mpz) → IsWord v → lt v (mpz 0 sign) ≡ false → Stripped v v false
unfolding strip_sign
strip_plus v hv e = record {
  returns = rw e;
  word = hv;
  magnitude = ground (arith, lt-value v (mpz 0 sign) hv);
  sign_is = ground (arith, lt-value v (mpz 0 sign) hv);
}

strip_sign-Stripped : (v : Mpz) → IsWord v → (m : Mpz) × (b : Bool) × Stripped v m b
strip_sign-Stripped v hv = elim (Bool-cases (lt v (mpz 0 sign))) [
  | inl e ↦ (mpz (neg64 v.bits) unsign, true, strip_minus v.bits v.signedness hv e)
  | inr e ↦ (v, false, strip_plus v hv e)
]

pub Lands-cases :
    (z : ℤ) (r : Result Mpz)
    → Lands z r
    → ((u : Mpz) × (r ≡ ok u) × IsWord u × (value u ≡ z))
      ⊎ ((e : Error) × (r ≡ err e) × IsOverflow e × OutOfRange z)
Lands-cases z (ok u) h = inl (u, refl, h.0, h.1)
Lands-cases z (err e) h = inr (e, refl, h.0, h.1)

-- What `round_up` returns when it rounds: the sum, or an overflow of the sum.
Rounded : Mpz → Mpz → Result Mpz → Type 0
Rounded w1 w2 (ok u) = IsWord u × (u.bits ≡ w1.bits + w2.bits - 1)
Rounded w1 w2 (err e) = IsOverflow e × (2 ^ 64 ≤ w1.bits + w2.bits - 1)

pos_sub_one : (n : ℕ) → 0 < n → pos n -ℤ pos 1 ≡ pos (n - 1)
unfolding ◌-ℤ◌
pos_sub_one n h = ground arith

pos_add : (m n : ℕ) → pos m +ℤ pos n ≡ pos (m + n)
unfolding ◌+ℤ◌
pos_add m n = ground arith

bits-value : (u : Mpz) (k : ℕ) → IsWord u → value u ≡ pos k → u.bits ≡ k
bits-value u k h e = ground arith

round_up-Rounded :
    (w1 w2 : Mpz)
    → IsWord w1
    → IsWord w2
    → value w1 ≡ pos w1.bits
    → value w2 ≡ pos w2.bits
    → 0 < w2.bits
    → Rounded w1 w2 (round_up w1 w2 true)
unfolding round_up Rounded
round_up-Rounded w1 w2 h1 h2 m1 m2 p =
    elim (Lands-cases _ (sub w2 (mpz 1 sign)) (sub-Lands w2 (mpz 1 sign) h2 (omega arith))) [
      | inl (d, e, hd, vd) ↦
          let one_less = vd ∙ ap (λ z. z -ℤ pos 1) m2 ∙ pos_sub_one w2.bits p in
          let total = ap₂ ◌+ℤ◌ m1 one_less ∙ pos_add w1.bits (w2.bits - 1) in
          elim (Lands-cases _ (add w1 d) (add-Lands w1 d h1 hd)) [
            | inl (u, e', hu, vu) ↦ rw (e, e') (hu, omega (arith, bits-value u _ hu (vu ∙ total)))
            | inr (x, e', hx, out) ↦ rw (e, e') (hx, omega (arith, rw total at out))
          ]
      | inr (x, e, hx, out) ↦
          absurd (omega (arith, rw (ap (λ z. z -ℤ pos 1) m2 ∙ pos_sub_one w2.bits p) at out))
    ]

abbrev pub magnitude : ℤ → ℕ
magnitude z = pos_part z + neg_part z

-- The answer to a / b: the quotient rounded down, or an overflow, either of the quotient or of the
-- intermediate sum |a| + |b| - 1 that is formed when the signs differ.
abbrev pub Divided : ℤ → ℤ → Result Mpz → Type 0
Divided a b (ok q) = IsWord q × IsFloor a b (value q)
Divided a b (err e) =
    IsOverflow e
    × ((2 ^ 64 ≤ magnitude a + magnitude b - 1) ⊎ ((q : ℤ) × IsFloor a b q × OutOfRange q))

div_bounds : (m n : ℕ) → 0 < n → (m / n * n ≤ m) × (m < m / n * n + n) × (m / n ≤ m)
div_bounds m n h = (div-mul-le_self m n, lt-div-mul-add h, grind arith)

ceil_bounds : (m n : ℕ) → 0 < n → (m ≤ (m + n - 1) / n * n) × ((m + n - 1) / n * n < m + n)
ceil_bounds m n h = omega (arith, div_bounds (m + n - 1) n h)

same_pos : (m n : ℕ) → 0 < n → m < 2 ^ 64 → Divided (pos m) (pos n) (ok (mpz (m / n) unsign))
same_pos m n p h =
    let (lo, hi, le) = div_bounds m n p in (omega arith, IsFloor-pos m n (m / n) lo hi)

same_neg :
    (m n : ℕ) → 0 < n → m < 2 ^ 64 → Divided (sub_ℕ 0 m) (sub_ℕ 0 n) (ok (mpz (m / n) unsign))
same_neg m n p h =
    let (lo, hi, le) = div_bounds m n p in (omega arith, IsFloor-neg m n (m / n) lo hi)

pos_sub : (k : ℕ) → sub_ℕ 0 k ≡ pos 0 -ℤ pos k
unfolding ◌-ℤ◌
pos_sub k = ground arith

-- The negated quotient, in range or not.
negated :
    (a b : ℤ) (k : ℕ) → k < 2 ^ 64 → IsFloor a b (sub_ℕ 0 k) → Divided a b (neg (mpz k unsign))
negated a b k h f =
    elim (Lands-cases _ (neg (mpz k unsign)) (neg-Lands (mpz k unsign) h (inr refl))) [
      | inl (q, e, hq, vq) ↦ rw e (hq, subst (IsFloor a b) (pos_sub k ∙ sym vq) f)
      | inr (x, e, hx, out) ↦ rw e (hx, inr (sub_ℕ 0 k, f, subst OutOfRange (sym (pos_sub k)) out))
    ]

-- The quotient when the signs differ, from what `round_up` returned.
mixed :
    (a b : ℤ) (w1 w2 : Mpz) (r : Result Mpz)
    → Rounded w1 w2 r
    → IsWord w1
    → 0 < w2.bits
    → magnitude a ≡ w1.bits
    → magnitude b ≡ w2.bits
    → ((k : ℕ) → w1.bits ≤ k * w2.bits → k * w2.bits < w1.bits + w2.bits → IsFloor a b (sub_ℕ 0 k))
    → Divided a b (r >>= (λ u. neg (mpz (u.bits / w2.bits) unsign)))
unfolding Rounded
mixed a b w1 w2 (ok u) e h1 p ma mb floor =
    let (lo, hi) = ceil_bounds w1.bits w2.bits p in
    negated a b (u.bits / w2.bits) (omega (arith, div_bounds u.bits w2.bits p, e.0))
      (rw e.1 (floor ((w1.bits + w2.bits - 1) / w2.bits) lo hi))
mixed a b w1 w2 (err x) e h1 p ma mb floor = (e.0, inl (omega arith))

mag-sub : (n : ℕ) → magnitude (sub_ℕ 0 n) ≡ n
mag-sub n = ground arith

with_sign_zero : (b : Bool) (n : ℕ) → with_sign b n ≢ pos 0 → 0 < n
with_sign_zero true n h = grind arith
with_sign_zero false n h = grind arith

divide_cases :
    (b1 b2 : Bool) (v1 v2 w1 w2 : Mpz)
    → Stripped v1 w1 b1
    → Stripped v2 w2 b2
    → 0 < w2.bits
    → Divided (with_sign b1 w1.bits) (with_sign b2 w2.bits) (divide_nonzero v1 v2)
unfolding divide_nonzero negate_if
divide_cases false false v1 v2 w1 w2 s1 s2 p =
    rw (s1.returns, s2.returns) (unfold round_up in same_pos w1.bits w2.bits p s1.word)
divide_cases true true v1 v2 w1 w2 s1 s2 p =
    rw (s1.returns, s2.returns) (unfold round_up in same_neg w1.bits w2.bits p s1.word)
divide_cases true false v1 v2 w1 w2 s1 s2 p =
    rw (s1.returns, s2.returns)
      (mixed (sub_ℕ 0 w1.bits) (pos w2.bits) w1 w2 (round_up w1 w2 true)
        (round_up-Rounded w1 w2 s1.word s2.word s1.magnitude s2.magnitude p) s1.word p
        (mag-sub w1.bits) (omega arith) (IsFloor-down w1.bits w2.bits))
divide_cases false true v1 v2 w1 w2 s1 s2 p =
    rw (s1.returns, s2.returns)
      (mixed (pos w1.bits) (sub_ℕ 0 w2.bits) w1 w2 (round_up w1 w2 true)
        (round_up-Rounded w1 w2 s1.word s2.word s1.magnitude s2.magnitude p) s1.word p (omega arith)
        (mag-sub w2.bits) (IsFloor-up w1.bits w2.bits))

div_nonzero : (a b : Mpz) → value b ≢ pos 0 → div a b ≡ divide_nonzero a b
unfolding div
div_nonzero a b nz = ground arith

-- For two values of 64 bits and a divisor that is not zero, operator/ returns a value of 64 bits
-- that stands for the quotient rounded down, or fails with an overflow, and then |a| + |b| - 1 is
-- at least 2^64 or the quotient rounded down is below -2^63 or above 2^64 - 1.
pub div-Divided :
    (a b : Mpz) → IsWord a → IsWord b → value b ≢ pos 0 → Divided (value a) (value b) (div a b)
div-Divided a b ha hb nz =
    let (w1, b1, s1) = strip_sign-Stripped a ha in
    let (w2, b2, s2) = strip_sign-Stripped b hb in
    let p = with_sign_zero b2 w2.bits (λ e. nz (s2.sign_is ∙ e)) in
    rw (div_nonzero a b nz) (
      subst₂ (λ x y. Divided x y (divide_nonzero a b)) (sym s1.sign_is) (sym s2.sign_is)
        (divide_cases b1 b2 a b w1 w2 s1 s2 p))

-- operator/ of a zero divisor, signed or unsigned, fails with a division by zero that names both
-- operands.
pub div_zero : (a b : Mpz) → value b ≡ pos 0 → div a b ≡ err (div_by_zero a b divide)
unfolding div
div_zero a b z = ground arith
