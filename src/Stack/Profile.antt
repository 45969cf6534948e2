-- ===== src/Stack/Profile.antt =====
-- The profile of a stack against the codes of its values.
use Prim.Native.Nat.{bit_or}
use dwgrep.Base.{
  ℕ, zero, suc, ◌+◌, ◌*◌, ◌%◌, ◌^◌, ◌<◌, ◌≤◌, ◌≡◌, refl, ap, ◌∙◌, arith, ◌⊎◌, Bool-cases, inl, inr,
  true, false, List, [], ◌∷◌, length, drop, ltb,
}
use dwgrep.Value.{Value, TypeCodes, code}
use dwgrep.Stack.{
  Stack, ok, err, stack_overflow, width, shr8, push, pop, pop_values, refill, drop_top,
  profile_loop,
}
use dwgrep.Stack.Bits.{bit_or_high, bit_or_low}

-- The codes of the first n values as the digits of a number to the base 256, the first one lowest.
abbrev pub packed : TypeCodes → ℕ → List Value → ℕ
packed t zero vs = 0
packed t (suc n) [] = 0
packed t (suc n) (v ∷ vs) = packed t n vs * 256 + code t v

-- The type codes are bytes.
abbrev pub AreBytes : TypeCodes → List Value → Type 0
AreBytes t [] = Unit {0}
AreBytes t (v ∷ vs) = (code t v < 256) × AreBytes t vs

-- The profile packs the codes of the topmost four values.
abbrev pub IsProfiled : TypeCodes → Stack → Type 0
IsProfiled t s = AreBytes t s.values × (s.profile ≡ packed t width s.values)

-- A new lowest digit pushes the highest one out.
packed-push :
    (t : TypeCodes) (vs : List Value)
    → AreBytes t vs
    → packed t 4 vs * 256 % 2 ^ 32 ≡ packed t 3 vs * 2 ^ 8
packed-push t [] b = refl
packed-push t (u ∷ []) b = omega arith
packed-push t (u ∷ v ∷ []) b = omega arith
packed-push t (u ∷ v ∷ w ∷ []) b = omega arith
packed-push t (u ∷ v ∷ w ∷ x ∷ vs) b = omega arith

-- A byte above a number of n bits, as `|=` adds it.
raised :
    (k c p q : ℕ)
    → c * 2 ^ k % 2 ^ 32 ≡ c * 2 ^ k
    → p < 2 ^ k
    → c * 2 ^ k + p ≡ q
    → bit_or p (c * 2 ^ k % 2 ^ 32) ≡ q
raised k c p q h l e = rw h (bit_or_low k c p l ∙ e)

raise_0 : (c : ℕ) → c < 256 → bit_or 0 (c * 2 ^ 0 % 2 ^ 32) ≡ c
raise_0 c h = raised 0 c 0 c (omega arith) (omega arith) (omega arith)

raise_8 : (c p : ℕ) → c < 256 → p < 2 ^ 8 → bit_or p (c * 2 ^ 8 % 2 ^ 32) ≡ c * 256 + p
raise_8 c p h l = raised 8 c p (c * 256 + p) (omega arith) l (omega arith)

raise_16 : (c p : ℕ) → c < 256 → p < 2 ^ 16 → bit_or p (c * 2 ^ 16 % 2 ^ 32) ≡ c * 65536 + p
raise_16 c p h l = raised 16 c p (c * 65536 + p) (omega arith) l (omega arith)

raise_24 : (c p : ℕ) → c < 256 → p < 2 ^ 24 → bit_or p (c * 2 ^ 24 % 2 ^ 32) ≡ c * 16777216 + p
raise_24 c p h l = raised 24 c p (c * 16777216 + p) (omega arith) l (omega arith)

packed_shift :
    (t : TypeCodes) (v : Value) (vs : List Value)
    → code t v < 256
    → shr8 (packed t 4 (v ∷ vs)) ≡ packed t 3 vs
packed_shift t v vs c = omega arith

-- The lowest digit goes, and a fifth value comes in as the highest one.
packed-pop :
    (t : TypeCodes) (v : Value) (vs : List Value)
    → code t v < 256
    → AreBytes t vs
    → refill t vs (shr8 (packed t 4 (v ∷ vs))) ≡ packed t 4 vs
unfolding refill
packed-pop t v [] c b = omega arith
packed-pop t v (u ∷ []) c b = omega arith
packed-pop t v (u ∷ w ∷ []) c b = omega arith
packed-pop t v (u ∷ w ∷ x ∷ []) c b = omega arith
packed-pop t v (u ∷ w ∷ x ∷ y ∷ vs) c b =
    rw (packed_shift t v (u ∷ w ∷ x ∷ y ∷ vs) c)
      (omega (arith, raise_24 (code t y) (packed t 3 (u ∷ w ∷ x ∷ y ∷ vs)) b.1.1.1.0 (omega arith)))

loop-packed :
    (t : TypeCodes) (vs : List Value) → AreBytes t vs → profile_loop t 4 0 vs 0 ≡ packed t 4 vs
unfolding profile_loop
loop-packed t [] b = refl
loop-packed t (u ∷ []) b = rw (raise_0 (code t u) b.0) (omega arith)
loop-packed t (u ∷ v ∷ []) b =
    rw (raise_0 (code t u) b.0, raise_8 (code t v) (code t u) b.1.0 (omega arith)) (omega arith)
loop-packed t (u ∷ v ∷ w ∷ []) b =
    rw
      (
        raise_0 (code t u) b.0,
        raise_8 (code t v) (code t u) b.1.0 (omega arith),
        raise_16 (code t w) (code t v * 256 + code t u) b.1.1.0 (omega arith),
      )
      (omega arith)
loop-packed t (u ∷ v ∷ w ∷ x ∷ vs) b =
    rw
      (
        raise_0 (code t u) b.0,
        raise_8 (code t v) (code t u) b.1.0 (omega arith),
        raise_16 (code t w) (code t v * 256 + code t u) b.1.1.0 (omega arith),
        raise_24 (code t x) (code t w * 65536 + (code t v * 256 + code t u)) b.1.1.1.0
            (omega arith),
      )
      (omega arith)

AreBytes-drop : (t : TypeCodes) (n : ℕ) (vs : List Value) → AreBytes t vs → AreBytes t (drop n vs)
AreBytes-drop t zero vs b = b
AreBytes-drop t (suc n) [] b = b
AreBytes-drop t (suc n) (v ∷ vs) b = AreBytes-drop t n vs b.1

ltb_lt : {m n : ℕ} → ltb m n ≡ true → m < n
ltb_lt e = ground arith

ltb_ge : {m n : ℕ} → ltb m n ≡ false → n ≤ m
ltb_ge e = ground arith

module _ (t : TypeCodes) where
  -- The stack below the top value.
  pub popped :
      (v : Value) (vs : List Value) (p : ℕ)
      → IsProfiled t (record { values = v ∷ vs; profile = p })
      → IsProfiled t (record { values = vs; profile = refill t vs (shr8 p) })
  popped v vs p (b, e) = (b.1, ap (λ q. refill t vs (shr8 q)) e ∙ packed-pop t v vs b.0 b.1)

  pop_cases :
      (vs : List Value) (p : ℕ)
      → AreBytes t vs
      → p ≡ packed t width vs
      → ((vs ≡ []) × (pop_values t vs p ≡ err stack_overflow))
        ⊎ ((v : Value) × (s' : Stack) × (pop_values t vs p ≡ ok (v, s'))
            × (vs ≡ v ∷ s'.values)
            × IsProfiled t s')
  unfolding pop_values
  pop_cases [] p b e = inl (refl, refl)
  pop_cases (v ∷ vs) p b e =
      inr (
        v,
        record { values = vs; profile = refill t vs (shr8 p) },
        refl,
        refl,
        popped v vs p (b, e),
      )

  -- `push` of a value whose type code is a byte keeps the profile the packed codes of the topmost
  -- four values.
  pub push-IsProfiled :
      (v : Value) (s : Stack) → code t v < 256 → IsProfiled t s → IsProfiled t (push t v s)
  unfolding push
  push-IsProfiled v s c (b, e) =
      ((c, b), rw (e, packed-push t s.values b) (bit_or_high 8 (packed t 3 s.values) (code t v) c))

  -- `pop` of the empty stack fails with a stack overflow. Of any other it returns the top value and
  -- the rest, whose profile is again the packed codes of its topmost four values.
  pub pop-IsProfiled :
      (s : Stack)
      → IsProfiled t s
      → ((s.values ≡ []) × (pop t s ≡ err stack_overflow))
        ⊎ ((v : Value) × (s' : Stack) × (pop t s ≡ ok (v, s'))
            × (s.values ≡ v ∷ s'.values)
            × IsProfiled t s')
  unfolding pop pop_values
  pop-IsProfiled s (b, e) = pop_cases s.values s.profile b e

  -- `drop` of n values fails with a stack overflow when there are fewer. Otherwise it leaves the
  -- values below, with the profile that packs the codes of the topmost four of them.
  pub drop_top-IsProfiled :
      (n : ℕ) (s : Stack)
      → IsProfiled t s
      → ((length s.values < n) × (drop_top t n s ≡ err stack_overflow))
        ⊎ ((s' : Stack) × (drop_top t n s ≡ ok s')
            × (n ≤ length s.values)
            × (s'.values ≡ drop n s.values)
            × IsProfiled t s')
  unfolding drop_top
  drop_top-IsProfiled n s (b, e) = elim (Bool-cases (ltb (length s.values) n)) [
    | inl few ↦ inl (ltb_lt few, rw few refl)
    | inr many ↦
        let rest = AreBytes-drop t n s.values b in
        inr (
          record { values = drop n s.values; profile = profile_loop t width 0 (drop n s.values) 0 },
          rw many refl,
          ltb_ge many,
          refl,
          (rest, loop-packed t (drop n s.values) rest),
        )
  ]
