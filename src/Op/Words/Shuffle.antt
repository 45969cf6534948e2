-- ===== src/Op/Words/Shuffle.antt =====
-- The shuffling words against the lists of values that they leave.
use dwgrep.Base.{ℕ, ◌≡◌, refl, List, [], ◌∷◌}
use dwgrep.Value.{Value, TypeCodes}
use dwgrep.Stack.{
  refill, shr8, Stack, Result, ok, err, stack_overflow, push, pop, pop_values, get, nth, top,
}
use dwgrep.Stack.Profile.{IsProfiled, push-IsProfiled, popped}
use dwgrep.Op.Words.{drop_on, swap_on, dup_on, over_on, rot_on}

-- What the words leave of the values, the top one first.
abbrev pub dropped : List Value → Result (List Value)
dropped (a ∷ vs) = ok vs
dropped [] = err stack_overflow

abbrev pub swapped : List Value → Result (List Value)
swapped (a ∷ b ∷ vs) = ok (b ∷ a ∷ vs)
swapped (a ∷ []) = err stack_overflow
swapped [] = err stack_overflow

abbrev pub doubled : List Value → Result (List Value)
doubled (a ∷ vs) = ok (a ∷ a ∷ vs)
doubled [] = err stack_overflow

abbrev pub overed : List Value → Result (List Value)
overed (a ∷ b ∷ vs) = ok (b ∷ a ∷ b ∷ vs)
overed (a ∷ []) = err stack_overflow
overed [] = err stack_overflow

abbrev pub rotated : List Value → Result (List Value)
rotated (a ∷ b ∷ c ∷ vs) = ok (c ∷ a ∷ b ∷ vs)
rotated (a ∷ b ∷ []) = err stack_overflow
rotated (a ∷ []) = err stack_overflow
rotated [] = err stack_overflow

module _ (t : TypeCodes) where
  -- The outcome of a word: the expected error, or a stack with the expected values and its profile.
  abbrev pub Leaves : Result Stack → Result (List Value) → Type 0
  Leaves (ok s) (ok vs) = (s.values ≡ vs) × IsProfiled t s
  Leaves (err e) (err e') = e ≡ e'
  Leaves (ok s) (err e') = ⊥
  Leaves (err e) (ok vs) = ⊥

  abbrev stack : List Value → ℕ → Stack
  stack vs p = record { values = vs; profile = p }

  drop-Leaves :
      (vs : List Value) (p : ℕ)
      → IsProfiled t (stack vs p)
      → Leaves (drop_on t (stack vs p)) (dropped vs)
  unfolding drop_on pop pop_values
  drop-Leaves [] p h = refl
  drop-Leaves (a ∷ vs) p h = (refl, popped t a vs p h)

  swap-Leaves :
      (vs : List Value) (p : ℕ)
      → IsProfiled t (stack vs p)
      → Leaves (swap_on t (stack vs p)) (swapped vs)
  unfolding swap_on pop pop_values push
  swap-Leaves [] p h = refl
  swap-Leaves (a ∷ []) p h = refl
  swap-Leaves (a ∷ b ∷ vs) p h =
      let q = refill t (b ∷ vs) (shr8 p) in
      let below = stack vs (refill t vs (shr8 q)) in
      let h2 = popped t b vs q (popped t a (b ∷ vs) p h) in
      (refl, push-IsProfiled t b (push t a below) h.0.1.0 (push-IsProfiled t a below h.0.0 h2))

  dup-Leaves :
      (vs : List Value) (p : ℕ)
      → IsProfiled t (stack vs p)
      → Leaves (dup_on t (stack vs p)) (doubled vs)
  unfolding dup_on top get nth push
  dup-Leaves [] p h = refl
  dup-Leaves (a ∷ vs) p h = (refl, push-IsProfiled t a (stack (a ∷ vs) p) h.0.0 h)

  over-Leaves :
      (vs : List Value) (p : ℕ)
      → IsProfiled t (stack vs p)
      → Leaves (over_on t (stack vs p)) (overed vs)
  unfolding over_on get nth push
  over-Leaves [] p h = refl
  over-Leaves (a ∷ []) p h = refl
  over-Leaves (a ∷ b ∷ vs) p h = (refl, push-IsProfiled t b (stack (a ∷ b ∷ vs) p) h.0.1.0 h)

  rot-Leaves :
      (vs : List Value) (p : ℕ)
      → IsProfiled t (stack vs p)
      → Leaves (rot_on t (stack vs p)) (rotated vs)
  unfolding rot_on pop pop_values push
  rot-Leaves [] p h = refl
  rot-Leaves (a ∷ []) p h = refl
  rot-Leaves (a ∷ b ∷ []) p h = refl
  rot-Leaves (a ∷ b ∷ c ∷ vs) p h =
      let q = refill t (b ∷ c ∷ vs) (shr8 p) in
      let r = refill t (c ∷ vs) (shr8 q) in
      let below = stack vs (refill t vs (shr8 r)) in
      let h3 = popped t c vs r (popped t b (c ∷ vs) q (popped t a (b ∷ c ∷ vs) p h)) in
      let h4 = push-IsProfiled t b below h.0.1.0 h3 in
      let h5 = push-IsProfiled t a (push t b below) h.0.0 h4 in
      (refl, push-IsProfiled t c (push t a (push t b below)) h.0.1.1.0 h5)

  -- On a stack with a right profile, the words drop, swap, dup, over and rot fail with a stack
  -- overflow if it has too few values. Otherwise they leave, from the top, the values without the
  -- first one; the first two exchanged; the first one twice; a copy of the second one on top; the
  -- third one before the first two. The profile is right again.
  pub shuffle-Leaves :
      (s : Stack)
      → IsProfiled t s
      → Leaves (drop_on t s) (dropped s.values)
        × Leaves (swap_on t s) (swapped s.values)
        × Leaves (dup_on t s) (doubled s.values)
        × Leaves (over_on t s) (overed s.values)
        × Leaves (rot_on t s) (rotated s.values)
  shuffle-Leaves s h = (
    drop-Leaves s.values s.profile h,
    swap-Leaves s.values s.profile h,
    dup-Leaves s.values s.profile h,
    over-Leaves s.values s.profile h,
    rot-Leaves s.values s.profile h,
  )
