-- ===== src/Overload/Computes.antt =====
-- What overload_op computes.
use dwgrep.Base.{
  ℕ, ◌≡◌, refl, sym, ap, ◌⊎◌, inl, inr, Bool-cases, List, [], ◌∷◌, Option, none, some,
}
use dwgrep.Stack.{Stack, ok, err, Error, ◌>>=◌}
use dwgrep.Op.{Op, Answer}
use dwgrep.Op.Stream.{
  Stream, ends, fails, yields, append, bind, Eventually, Eventually-at, Eventually-const,
  Eventually-bind, Eventually-err, Eventually-eq, Eventually-round, Eventually-throw, Drains,
  Drains-at, Drains-step, Computes,
}
use dwgrep.Op.Over.{Over, Over-Computes}
use dwgrep.Selector.{selector_of, profile_of, matches}
use dwgrep.Overload.{
  Overload, Chosen, to_right, start, advance, OverloadState, overload_pull, overload_step,
  overload_loop, overload_op,
}
use dwgrep.Overload.Dispatch.{Handler, overload, overloads, selected, start_first, start_rest}

-- An op that has the state of another as a part
abbrev carried : {S T : Type 0} → (S → T) → Option Stack × S → Answer T
carried e (r, s) = ok (r, e s)

Drains-carried :
    (o o' : Op) (e : o.State → o'.State) (P : o.State → Type 0)
    → ((n : ℕ) (s : o.State) → o'.next n (e s) ≡ (o.next n s >>= carried e))
    → (s : o.State) (xs : Stream) → Drains o s xs P
    → Drains o' (e s) xs (λ _. Unit {0})
Drains-carried o o' e P q s ends (s', d, p) = (
  e s',
  Eventually-eq (λ n. o'.next n (e s)) (λ n. o.next n s >>= carried e) _ (λ n. q n s)
      (Eventually-bind (λ n. o.next n s) (λ n. carried e) (none, s') _ d (Eventually-const _)),
  tt,
)
Drains-carried o o' e P q s (fails x) d =
    Eventually-eq (λ n. o'.next n (e s)) (λ n. o.next n s >>= carried e) _ (λ n. q n s)
      (Eventually-err (λ n. o.next n s) (λ n. carried e) x d)
Drains-carried o o' e P q s (yields x xs) (s', d, r) = (
  e s',
  Eventually-eq (λ n. o'.next n (e s)) (λ n. o.next n s >>= carried e) _ (λ n. q n s)
      (Eventually-bind (λ n. o.next n s) (λ n. carried e) (some x, s') _ d (Eventually-const _)),
  Drains-carried o o' e P q s' xs r,
)

-- The op that a guard of the state runs
abbrev guarded : (os : List Overload) → Chosen os → Op
guarded os c = record { State = Chosen os; init = c; set_next = λ x s. s; next = advance os }

abbrev Runs : (os : List Overload) → Chosen os → Stream → Type 0
Runs os c xs = Drains (guarded os c) c xs (λ _. Unit {0})

-- The op that starts on a stack yields what the selected overload computes.
abbrev Started : (os : List Overload) → Option (Chosen os) → Stream → Type 0
Started os r xs = ((r ≡ none) × (xs ≡ ends)) ⊎ ((c : Chosen os) × (r ≡ some c) × Runs os c xs)

runs_right :
    (o : Overload) (os : List Overload) (r : Option (Chosen os)) (xs : Stream)
    → Started os r xs
    → Started (o ∷ os) (to_right r) xs
unfolding advance
runs_right o os r xs (inl (e, f)) = inl (ap to_right e, f)
runs_right o os r xs (inr (c, e, d)) = inr (
  inr c,
  ap to_right e,
  Drains-carried (guarded os c) (guarded (o ∷ os) (inr c)) inr (λ _. Unit {0}) (λ n s. refl) c xs d,
)

started :
    (hs : List Handler) (x : Stack)
    → Started (overloads hs) (start (overloads hs) x) (selected hs x)
unfolding selected advance start
started [] x = inl (refl, refl)
started (h ∷ hs) x = elim (Bool-cases (matches (selector_of h.types) (profile_of x))) [
  | inl m ↦
      let s = h.exec.set_next x h.exec.init in
      rw (start_first (overload h) (overloads hs) x m, m)
        (inr (
          inl s,
          refl,
          Drains-carried h.exec (guarded (overloads (h ∷ hs)) (inl s)) inl h.computes.Ready
              (λ n s. refl) s (h.yield x) (h.computes.runs x h.exec.init h.computes.starts),
        ))
  | inr m ↦
      rw (start_rest (overload h) (overloads hs) x m, m)
        (runs_right (overload h) (overloads hs) (start (overloads hs) x) (selected hs x)
          (started hs x))
]

module _ (hs : List Handler) (up : Op) where
  abbrev os : List Overload
  os = overloads hs

  abbrev loop : ℕ → OverloadState os up → Answer (OverloadState os up)
  loop = overload_loop os up

  pulled :
      (u : up.State) (a : Option Stack × up.State) (r : Answer (OverloadState os up))
      → Eventually (λ n. up.next n u) (ok a)
      → Eventually (λ n. overload_pull os up (loop n) a) r
      → Eventually (λ n. loop n (none, u)) r
  unfolding overload_loop
  pulled u a r e h =
      Eventually-round (λ n. loop n (none, u)) (λ n. up.next n u)
        (λ n. overload_pull os up (loop n)) a r (λ n. refl) e h

  pull_throws :
      (u : up.State) (e : Error)
      → Eventually (λ n. up.next n u) (err e)
      → Eventually (λ n. loop n (none, u)) (err e)
  unfolding overload_loop
  pull_throws u e h =
      Eventually-throw (λ n. loop n (none, u)) (λ n. up.next n u)
        (λ n. overload_pull os up (loop n)) e (λ n. refl) h

  stepped :
      (c : Chosen os) (u : up.State) (a : Option Stack × Chosen os)
      (r : Answer (OverloadState os up))
      → Eventually (λ n. advance os n c) (ok a)
      → Eventually (λ n. overload_step os up (loop n) u a) r
      → Eventually (λ n. loop n (some c, u)) r
  unfolding overload_loop
  stepped c u a r e h =
      Eventually-round (λ n. loop n (some c, u)) (λ n. advance os n c)
        (λ n. overload_step os up (loop n) u) a r (λ n. refl) e h

  step_throws :
      (c : Chosen os) (u : up.State) (e : Error)
      → Eventually (λ n. advance os n c) (err e)
      → Eventually (λ n. loop n (some c, u)) (err e)
  unfolding overload_loop
  step_throws c u e h =
      Eventually-throw (λ n. loop n (some c, u)) (λ n. advance os n c)
        (λ n. overload_step os up (loop n) u) e (λ n. refl) h

  -- What the op yields, and then what comes after it.
  results :
      (c d : Chosen os) (u : up.State) (zs ys : Stream) (P : OverloadState os up → Type 0)
      → Drains (guarded os d) c zs (λ _. Unit {0})
      → Drains (overload_op os up) (none, u) ys P
      → Drains (overload_op os up) (some c, u) (append zs ys) P
  results c d u ends ys P (c', e, w) k =
      Drains-step (overload_op os up) (some c, u) (none, u) ys P
        (λ r l. stepped c u (none, c') r e l) k
  results c d u (fails x) ys P e k = step_throws c u x e
  results c d u (yields y zs) ys P (c', e, r) k = (
    (some c', u),
    stepped c u (some y, c') (ok (some y, (some c', u))) e (Eventually-const _),
    results c' d u zs ys P r k,
  )

  begins :
      (u : up.State) (r : Option (Chosen os)) (xs ys : Stream) (P : OverloadState os up → Type 0)
      → Started os r xs
      → Drains (overload_op os up) (none, u) ys P
      → Drains (overload_op os up) (r, u) (append xs ys) P
  begins u r xs ys P (inl (e, f)) k = rw (e, f) k
  begins u r xs ys P (inr (c, e, d)) k = rw e (results c c u xs ys P d k)

  -- Between two stacks no op is guarded.
  overload-Over : Over up (overload_op os up) (selected hs)
  overload-Over = record {
    Idle = λ u s. s ≡ (none, u);
    inits = refl;
    sets = λ x u s q. ap (λ z. (z.0, up.set_next x z.1)) q;
    stops = λ u u' s q e. (
      (none, u'),
      Eventually-at (overload_op os up) (sym q)
          (pulled u (none, u') (ok (none, (none, u'))) e (Eventually-const _)),
      refl,
    );
    throws = λ u s e q l. Eventually-at (overload_op os up) (sym q) (pull_throws u e l);
    goes = λ u u' s x ys P q e k.
        Drains-at (overload_op os up) (append (selected hs x) ys) P (sym q) (
          Drains-step (overload_op os up) (none, u) (start os x, u') (append (selected hs x) ys) P
            (λ r l. pulled u (some x, u') r e l)
            (begins u' (start os x) (selected hs x) ys P (started hs x) (k (none, u') refl)));
  }

  -- For each stack that the upstream computes, and in their order, `overload_op` yields what the
  -- first overload computes whose selector matches the profile of the stack, and nothing for a
  -- stack that no selector matches.
  pub overload_op-Computes :
      (g : Stack → Stream)
      → Computes up g
      → Computes (overload_op os up) (λ x. bind (g x) (selected hs))
  overload_op-Computes g c = Over-Computes up (overload_op os up) (selected hs) overload-Over g c
