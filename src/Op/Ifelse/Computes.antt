-- ===== src/Op/Ifelse/Computes.antt =====
-- What op_ifelse computes.
use dwgrep.Base.{ℕ, suc, ◌≡◌, refl, ap, sym, ◌⊎◌, inl, inr, Option, none, some}
use dwgrep.Stack.{Stack, ok, err, Error, ◌>>=◌}
use dwgrep.Op.{Op, Answer}
use dwgrep.Op.Stream.{
  Stream, ends, fails, yields, append, bind, Eventually, Eventually-at, Eventually-const,
  Eventually-round, Eventually-throw, Eventually-bind, Eventually-err, Computes, Drains, Drains-at,
  Drains-step,
}
use dwgrep.Op.Over.{Over, Over-Computes}
use dwgrep.Op.Ifelse.{
  IfelseState, ifelse_branch, ifelse_pull, ifelse_step, ifelse_loop, op_ifelse, chosen,
}

module _ (cond_op then_op else_op up : Op) where
  abbrev State : Type 0
  State = IfelseState cond_op then_op else_op up

  abbrev whole : Op
  whole = op_ifelse cond_op then_op else_op up

  abbrev loop : ℕ → State → Answer State
  loop = ifelse_loop cond_op then_op else_op up

  abbrev branch :
      (State → Answer State) → Stack → up.State → Option Stack × cond_op.State → Answer State
  branch = ifelse_branch cond_op then_op else_op up

  abbrev pull : ℕ → (State → Answer State) → Option Stack × up.State → Answer State
  pull = ifelse_pull cond_op then_op else_op up

  pulled :
      (u : up.State) (a : Option Stack × up.State) (r : Answer State)
      → Eventually (λ n. up.next n u) (ok a)
      → Eventually (λ n. pull n (loop n) a) r
      → Eventually (λ n. loop n (none, u)) r
  unfolding ifelse_loop
  pulled u a r e h =
      Eventually-round (λ n. loop n (none, u)) (λ n. up.next n u) (λ n. pull n (loop n)) a r
        (λ n. refl) e h

  pull_throws :
      (u : up.State) (x : Error)
      → Eventually (λ n. up.next n u) (err x)
      → Eventually (λ n. loop n (none, u)) (err x)
  unfolding ifelse_loop
  pull_throws u x e =
      Eventually-throw (λ n. loop n (none, u)) (λ n. up.next n u) (λ n. pull n (loop n)) x
        (λ n. refl) e

  -- A branch, either of the two, runs to its end.
  module _ (b : Op) (side : b.State → then_op.State ⊎ else_op.State)
      (rounds : (n : ℕ) (i : b.State) (u : up.State)
        → loop (suc n) (some (side i), u)
          ≡ (b.next n i >>= ifelse_step cond_op then_op else_op up (loop n) side u)) where
    abbrev step : ℕ → up.State → Option Stack × b.State → Answer State
    step n = ifelse_step cond_op then_op else_op up (loop n) side

    stepped :
        (i : b.State) (u : up.State) (a : Option Stack × b.State) (r : Answer State)
        → Eventually (λ n. b.next n i) (ok a)
        → Eventually (λ n. step n u a) r
        → Eventually (λ n. loop n (some (side i), u)) r
    stepped i u a r e h =
        Eventually-round (λ n. loop n (some (side i), u)) (λ n. b.next n i) (λ n. step n u) a r
          (λ n. rounds n i u) e h

    branched :
        (i : b.State) (u : up.State) (zs ys : Stream) (R : b.State → Type 0) (P : State → Type 0)
        → Drains b i zs R
        → Drains whole (none, u) ys P
        → Drains whole (some (side i), u) (append zs ys) P
    branched i u ends ys R P (i', e, ready) d =
        Drains-step whole (some (side i), u) (none, u) ys P (λ r l. stepped i u (none, i') r e l) d
    branched i u (fails x) ys R P e d =
        Eventually-throw (λ n. loop n (some (side i), u)) (λ n. b.next n i) (λ n. step n u) x
          (λ n. rounds n i u) e
    branched i u (yields y zs) ys R P (i', e, r) d = (
      (some (side i'), u),
      stepped i u (some y, i') (ok (some y, (some (side i'), u))) e (Eventually-const _),
      branched i' u zs ys R P r d,
    )

  then_rounds :
      (n : ℕ) (i : then_op.State) (u : up.State)
      → loop (suc n) (some (inl i), u)
        ≡ (then_op.next n i >>= ifelse_step cond_op then_op else_op up (loop n) inl u)
  unfolding ifelse_loop
  then_rounds n i u = refl

  else_rounds :
      (n : ℕ) (i : else_op.State) (u : up.State)
      → loop (suc n) (some (inr i), u)
        ≡ (else_op.next n i >>= ifelse_step cond_op then_op else_op up (loop n) inr u)
  unfolding ifelse_loop
  else_rounds n i u = refl

  module _ (c t e : Stack → Stream) (cc : Computes cond_op c) (ct : Computes then_op t)
      (ce : Computes else_op e) where
    chooses :
        (u u' : up.State) (x : Stack) (a : Option Stack × cond_op.State) (r : Answer State)
        → Eventually (λ n. up.next n u) (ok (some x, u'))
        → Eventually (λ n. cond_op.next n (cond_op.set_next x cond_op.init)) (ok a)
        → Eventually (λ n. branch (loop n) x u' a) r
        → Eventually (λ n. loop n (none, u)) r
    chooses u u' x a r h k l =
        pulled u (some x, u') r h
          (Eventually-bind (λ n. cond_op.next n (cond_op.set_next x cond_op.init))
            (λ n. branch (loop n) x u') a r k l)

    ran :
        (u u' : up.State) (x : Stack) (cs ys : Stream) (P : State → Type 0)
        → Eventually (λ n. up.next n u) (ok (some x, u'))
        → Drains cond_op (cond_op.set_next x cond_op.init) cs cc.Ready
        → Drains whole (none, u') ys P
        → Drains whole (none, u) (append (chosen cs (t x) (e x)) ys) P
    ran u u' x ends ys P h (s, k, q) d =
        Drains-step whole (none, u) (some (inr (else_op.set_next x else_op.init)), u')
          (append (e x) ys) P (λ r l. chooses u u' x (none, s) r h k l)
          (branched else_op inr else_rounds (else_op.set_next x else_op.init) u' (e x) ys ce.Ready P
            (ce.runs x else_op.init ce.starts) d)
    ran u u' x (fails z) ys P h k d =
        pulled u (some x, u') (err z) h
          (Eventually-err (λ n. cond_op.next n (cond_op.set_next x cond_op.init))
            (λ n. branch (loop n) x u') z k)
    ran u u' x (yields y cs) ys P h (s, k, q) d =
        Drains-step whole (none, u) (some (inl (then_op.set_next x then_op.init)), u')
          (append (t x) ys) P (λ r l. chooses u u' x (some y, s) r h k l)
          (branched then_op inl then_rounds (then_op.set_next x then_op.init) u' (t x) ys ct.Ready P
            (ct.runs x then_op.init ct.starts) d)

    abbrev ifelse_of : Stack → Stream
    ifelse_of x = chosen (c x) (t x) (e x)

    ifelse-Over : Over up whole ifelse_of
    ifelse-Over = record {
      Idle = λ u s. s ≡ (none, u);
      inits = refl;
      sets = λ x u s q. ap (λ z. (z.0, up.set_next x z.1)) q;
      stops = λ u u' s q h. (
        (none, u'),
        Eventually-at whole (sym q)
            (pulled u (none, u') (ok (none, (none, u'))) h (Eventually-const _)),
        refl,
      );
      throws = λ u s x q h. Eventually-at whole (sym q) (pull_throws u x h);
      goes = λ u u' s x ys P q h k.
          Drains-at whole (append (ifelse_of x) ys) P (sym q)
            (ran u u' x (c x) ys P h (cc.runs x cond_op.init cc.starts) (k (none, u') refl));
    }

    -- For each stack that the upstream computes, `op_ifelse` yields what the then-branch yields for
    -- it if the condition yields anything, what the else-branch yields for it if the condition
    -- yields nothing, and fails if the condition fails first.
    pub op_ifelse-Computes :
        (g : Stack → Stream)
        → Computes up g
        → Computes
            (op_ifelse cond_op then_op else_op up)
            (λ x. bind (g x) (λ y. chosen (c y) (t y) (e y)))
    op_ifelse-Computes g d = Over-Computes up whole ifelse_of ifelse-Over g d
