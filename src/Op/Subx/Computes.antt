-- ===== src/Op/Subx/Computes.antt =====
-- What op_subx computes.
use dwgrep.Base.{ℕ, ◌≡◌, refl, ap, sym, Option, none, some}
use dwgrep.Value.{TypeCodes}
use dwgrep.Stack.{Stack, Result, ok, err, Error}
use dwgrep.Op.{Op, Answer}
use dwgrep.Op.Mapping.{returned}
use dwgrep.Op.Stream.{
  Stream, ends, fails, yields, append, append_assoc, bind, Eventually, Eventually-at,
  Eventually-const, Eventually-round, Eventually-throw, Drains, Drains-at, Drains-step, Computes,
}
use dwgrep.Op.Over.{Over, Over-Computes}
use dwgrep.Op.Subx.{keep_on, SubxState, subx_pull, subx_step, subx_loop, op_subx, subx_of}

module _ (t : TypeCodes) (keep : ℕ) (op up : Op) where
  abbrev loop : ℕ → SubxState t keep op up → Answer (SubxState t keep op up)
  loop = subx_loop t keep op up

  pulled :
      (i : op.State) (u : up.State) (a : Option Stack × up.State)
      (r : Answer (SubxState t keep op up))
      → Eventually (λ n. up.next n u) (ok a)
      → Eventually (λ n. subx_pull t keep op up (loop n) i a) r
      → Eventually (λ n. loop n (none, (i, u))) r
  unfolding subx_loop
  pulled i u a r e h =
      Eventually-round (λ n. loop n (none, (i, u))) (λ n. up.next n u)
        (λ n. subx_pull t keep op up (loop n) i) a r (λ n. refl) e h

  stepped :
      (on : Stack) (i : op.State) (u : up.State) (a : Option Stack × op.State)
      (r : Answer (SubxState t keep op up))
      → Eventually (λ n. op.next n i) (ok a)
      → Eventually (λ n. subx_step t keep op up (loop n) on u a) r
      → Eventually (λ n. loop n (some on, (i, u))) r
  unfolding subx_loop
  stepped on i u a r e h =
      Eventually-round (λ n. loop n (some on, (i, u))) (λ n. op.next n i)
        (λ n. subx_step t keep op up (loop n) on u) a r (λ n. refl) e h

  pull_throws :
      (i : op.State) (u : up.State) (e : Error)
      → Eventually (λ n. up.next n u) (err e)
      → Eventually (λ n. loop n (none, (i, u))) (err e)
  unfolding subx_loop
  pull_throws i u e h =
      Eventually-throw (λ n. loop n (none, (i, u))) (λ n. up.next n u)
        (λ n. subx_pull t keep op up (loop n) i) e (λ n. refl) h

  step_throws :
      (on : Stack) (i : op.State) (u : up.State) (e : Error)
      → Eventually (λ n. op.next n i) (err e)
      → Eventually (λ n. loop n (some on, (i, u))) (err e)
  unfolding subx_loop
  step_throws on i u e h =
      Eventually-throw (λ n. loop n (some on, (i, u))) (λ n. op.next n i)
        (λ n. subx_step t keep op up (loop n) on u) e (λ n. refl) h

  module _ (h : Stack → Stream) (c : Computes op h) where
    -- One result, and what comes after it.
    kept :
        (x y : Stack) (i i' : op.State) (u : up.State) (r : Result Stack) (ys : Stream)
        (P : SubxState t keep op up → Type 0)
        → keep_on t keep x y ≡ r
        → Eventually (λ n. op.next n i) (ok (some y, i'))
        → Drains (op_subx t keep op up) (some x, (i', u)) ys P
        → Drains (op_subx t keep op up) (some x, (i, u)) (append (returned r) ys) P
    kept x y i i' u (ok z) ys P q e d = (
      (some x, (i', u)),
      stepped x i u (some y, i') (ok (some z, (some x, (i', u)))) e (rw q (Eventually-const _)),
      d,
    )
    kept x y i i' u (err b) ys P q e d =
        stepped x i u (some y, i') (err b) e (rw q (Eventually-const _))

    results :
        (x : Stack) (i : op.State) (u : up.State) (zs ys : Stream)
        (P : SubxState t keep op up → Type 0)
        → Drains op i zs c.Ready
        → ((i' : op.State) → c.Ready i' → Drains (op_subx t keep op up) (none, (i', u)) ys P)
        → Drains
            (op_subx t keep op up)
            (some x, (i, u))
            (append (bind zs (λ y. returned (keep_on t keep x y))) ys)
            P
    results x i u ends ys P (i', e, ready) k =
        Drains-step (op_subx t keep op up) (some x, (i, u)) (none, (i', u)) ys P
          (λ r l. stepped x i u (none, i') r e l) (k i' ready)
    results x i u (fails e) ys P d k = step_throws x i u e d
    results x i u (yields y zs) ys P (i', e, d) k =
        rw
          (append_assoc (returned (keep_on t keep x y))
            (bind zs (λ y. returned (keep_on t keep x y))) ys)
          (kept x y i i' u (keep_on t keep x y) _ P refl e (results x i' u zs ys P d k))

    -- Between two stacks m_stk is null and the sub-expression has nothing left.
    subx-Over : Over up (op_subx t keep op up) (subx_of t keep op up h)
    subx-Over = record {
      Idle = λ u s. (i : op.State) × (s ≡ (none, (i, u))) × c.Ready i;
      inits = (op.init, refl, c.starts);
      sets = λ x u s (i, q, ready). (i, ap (λ z. (z.0, (z.1.0, up.set_next x z.1.1))) q, ready);
      stops = λ u u' s (i, q, ready) e. (
        (none, (i, u')),
        Eventually-at (op_subx t keep op up) (sym q)
            (pulled i u (none, u') (ok (none, (none, (i, u')))) e (Eventually-const _)),
        (i, refl, ready),
      );
      throws = λ u s e (i, q, ready) l.
          Eventually-at (op_subx t keep op up) (sym q) (pull_throws i u e l);
      goes = λ u u' s x ys P (i, q, ready) e k.
          Drains-at (op_subx t keep op up) (append (subx_of t keep op up h x) ys) P (sym q) (
            Drains-step (op_subx t keep op up) (none, (i, u)) (some x, (op.set_next x i, u'))
              (append (subx_of t keep op up h x) ys) P (λ r l. pulled i u (some x, u') r e l)
              (results x (op.set_next x i) u' (h x) ys P (c.runs x i ready)
                (λ i' ready'. k (none, (i', u')) (i', refl, ready'))));
    }

    -- For each stack that the upstream computes, and in their order, `op_subx` yields the results of
    -- the sub-expression on that stack, each as the stack with the topmost values of the result put
    -- on it.
    pub op_subx-Computes :
        (g : Stack → Stream)
        → Computes up g
        → Computes (op_subx t keep op up) (λ x. bind (g x) (subx_of t keep op up h))
    op_subx-Computes g d =
        Over-Computes up (op_subx t keep op up) (subx_of t keep op up h) subx-Over g d
