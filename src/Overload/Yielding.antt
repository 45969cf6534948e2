-- ===== src/Overload/Yielding.antt =====
-- op_yielding_overload of libzwerg/overload.hh: an op that yields a stack for each value of a
-- producer, with the overloads of `elem` and `relem`.
use dwgrep.Base.{ℕ, zero, suc, ◌≡◌, refl, sym, ap, List, [], ◌∷◌, Option, none, some}
use dwgrep.Value.{Value, TypeCodes}
use dwgrep.Value.Elements.Produced.{Produces}
use dwgrep.Stack.{Stack, Result, ok, err, stuck, Error, ◌>>=◌, push}
use dwgrep.Op.{Op, Answer}
use dwgrep.Op.Stream.{
  Stream, ends, fails, yields, append, bind, Eventually, Eventually-at, Eventually-const,
  Eventually-suc, Eventually-round, Eventually-throw, Drains, Drains-at, Drains-step, Computes,
}
use dwgrep.Op.Over.{Over, Over-Computes}

-- A stack for each value
abbrev pub pushes : TypeCodes → Stack → List Value → Stream
pushes t stk [] = ends
pushes t stk (v ∷ vs) = yields (push t v stk) (pushes t stk vs)

module _ (t : TypeCodes) {P : Type 0} (step : P → Option (Value × P))
    (operate : Stack → Result (Option P × Stack)) where
  module _ (up : Op) where
    -- m_prod and m_stk of the state, and the state of the upstream
    abbrev pub YieldingState : Type 0
    YieldingState = Option (P × Stack) × up.State

    -- What `operate` returned
    abbrev pub yielding_begun :
        (YieldingState → Answer YieldingState) → up.State → Option P × Stack → Answer YieldingState
    yielding_begun again u (none, stk) = again (none, u)
    yielding_begun again u (some p, stk) = again (some (p, stk), u)

    abbrev pub yielding_pull :
        (YieldingState → Answer YieldingState) → Option Stack × up.State → Answer YieldingState
    yielding_pull again (none, u) = ok (none, (none, u))
    yielding_pull again (some stk, u) = operate stk >>= yielding_begun again u

    -- What `st.m_prod->next ()` returned
    abbrev pub yielding_step :
        (YieldingState → Answer YieldingState)
        → Stack
        → up.State
        → Option (Value × P)
        → Answer YieldingState
    yielding_step again stk u none = again (none, u)
    yielding_step again stk u (some (v, p)) = ok (some (push t v stk), (some (p, stk), u))

    -- op_yielding_overload::next
    pub yielding_loop : ℕ → YieldingState → Answer YieldingState
    yielding_loop zero s = err stuck
    yielding_loop (suc n) (none, u) = up.next n u >>= yielding_pull (yielding_loop n)
    yielding_loop (suc n) (some (p, stk), u) = yielding_step (yielding_loop n) stk u (step p)

    abbrev pub op_yielding : Op
    op_yielding = record {
      State = YieldingState;
      init = (none, up.init);
      set_next = λ x (m, u). (m, up.set_next x u);
      next = yielding_loop;
    }

  abbrev pub pushes_of : (P → List Value) → Result (Option P × Stack) → Stream
  pushes_of of (ok (none, stk)) = ends
  pushes_of of (ok (some p, stk)) = pushes t stk (of p)
  pushes_of of (err e) = fails e

  module _ (of : P → List Value) (finite : (p : P) → Produces step p (of p)) (up : Op) where
    pulled :
        (u : up.State) (a : Option Stack × up.State) (r : Answer (YieldingState up))
        → Eventually (λ n. up.next n u) (ok a)
        → Eventually (λ n. yielding_pull up (yielding_loop up n) a) r
        → Eventually (λ n. yielding_loop up n (none, u)) r
    unfolding yielding_loop
    pulled u a r e h =
        Eventually-round (λ n. yielding_loop up n (none, u)) (λ n. up.next n u)
          (λ n. yielding_pull up (yielding_loop up n)) a r (λ n. refl) e h

    pull_throws :
        (u : up.State) (e : Error)
        → Eventually (λ n. up.next n u) (err e)
        → Eventually (λ n. yielding_loop up n (none, u)) (err e)
    unfolding yielding_loop
    pull_throws u e h =
        Eventually-throw (λ n. yielding_loop up n (none, u)) (λ n. up.next n u)
          (λ n. yielding_pull up (yielding_loop up n)) e (λ n. refl) h

    stepped :
        (p : P) (stk : Stack) (u : up.State) (a : Option (Value × P))
        (r : Answer (YieldingState up))
        → step p ≡ a
        → Eventually (λ n. yielding_step up (yielding_loop up n) stk u a) r
        → Eventually (λ n. yielding_loop up n (some (p, stk), u)) r
    unfolding yielding_loop
    stepped p stk u a r e h = Eventually-suc (λ n. yielding_loop up n (some (p, stk), u)) r (rw e h)

    produces :
        (p : P) (vs : List Value) (stk : Stack) (u : up.State) (ys : Stream)
        (Q : YieldingState up → Type 0)
        → Produces step p vs
        → Drains (op_yielding up) (none, u) ys Q
        → Drains (op_yielding up) (some (p, stk), u) (append (pushes t stk vs) ys) Q
    produces p [] stk u ys Q e d =
        Drains-step (op_yielding up) (some (p, stk), u) (none, u) ys Q
          (λ r l. stepped p stk u none r e l) d
    produces p (v ∷ vs) stk u ys Q (p', e, m) d = (
      (some (p', stk), u),
      stepped p stk u (some (v, p')) (ok (some (push t v stk), (some (p', stk), u))) e
          (Eventually-const _),
      produces p' vs stk u ys Q m d,
    )

    begun :
        (u u' : up.State) (x : Stack) (r : Result (Option P × Stack)) (ys : Stream)
        (Q : YieldingState up → Type 0)
        → operate x ≡ r
        → Eventually (λ n. up.next n u) (ok (some x, u'))
        → Drains (op_yielding up) (none, u') ys Q
        → Drains (op_yielding up) (none, u) (append (pushes_of of r) ys) Q
    begun u u' x (ok (none, stk)) ys Q q e d =
        Drains-step (op_yielding up) (none, u) (none, u') ys Q
          (λ r l. pulled u (some x, u') r e (rw q l)) d
    begun u u' x (ok (some p, stk)) ys Q q e d =
        Drains-step (op_yielding up) (none, u) (some (p, stk), u') _ Q
          (λ r l. pulled u (some x, u') r e (rw q l)) (produces p (of p) stk u' ys Q (finite p) d)
    begun u u' x (err b) ys Q q e d = pulled u (some x, u') (err b) e (rw q (Eventually-const _))

    -- Between two stacks there is no producer.
    yielding-Over : Over up (op_yielding up) (λ x. pushes_of of (operate x))
    yielding-Over = record {
      Idle = λ u s. s ≡ (none, u);
      inits = refl;
      sets = λ x u s q. ap (λ z. (z.0, up.set_next x z.1)) q;
      stops = λ u u' s q e. (
        (none, u'),
        Eventually-at (op_yielding up) (sym q)
            (pulled u (none, u') (ok (none, (none, u'))) e (Eventually-const _)),
        refl,
      );
      throws = λ u s e q l. Eventually-at (op_yielding up) (sym q) (pull_throws u e l);
      goes = λ u u' s x ys Q q e k.
          Drains-at (op_yielding up) (append (pushes_of of (operate x)) ys) Q (sym q)
            (begun u u' x (operate x) ys Q refl e (k (none, u') refl));
    }

    pub op_yielding-Computes :
        (g : Stack → Stream)
        → Computes up g
        → Computes (op_yielding up) (λ x. bind (g x) (λ y. pushes_of of (operate y)))
    op_yielding-Computes g c =
        Over-Computes up (op_yielding up) (λ y. pushes_of of (operate y)) yielding-Over g c
