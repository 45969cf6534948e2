-- ===== src/Op/Capture.antt =====
-- op_capture of libzwerg/op.cc collects what a sub-expression yields into a sequence.
use mathlib.Core.List.{append-nil, append_assoc as list-append_assoc}
use dwgrep.Base.{ℕ, zero, suc, ◌≡◌, refl, ap, sym, List, [], ◌∷◌, ◌++◌, Option, none, some}
use dwgrep.Value.{Value, TypeCodes, seq, values}
use dwgrep.Stack.{Stack, Result, ok, err, stuck, ◌>>=◌, pop, push}
use dwgrep.Op.{Op, Answer}
use dwgrep.Op.Mapping.{returned}
use dwgrep.Op.Stream.{
  Stream, ends, fails, yields, append, bind, Eventually, Eventually-at, Eventually-const,
  Eventually-round, Eventually-throw, Eventually-bind, Eventually-err, Eventually-then, Drains,
  Computes,
}
use dwgrep.Op.Over.{Over, Over-Computes}

module _ (t : TypeCodes) where
  -- The stack with the sequence of the captured values on top.
  abbrev pub with_sequence : Stack → List Value → Stack
  with_sequence stk vv = push t (seq (values vv) 0) stk

  -- The top values of a stream.
  pub tops : Stream → Result (List Value)
  tops ends = ok []
  tops (fails e) = err e
  tops (yields y ys) = pop t y >>= (λ (v, y'). tops ys >>= (λ vs. ok (v ∷ vs)))

  abbrev pub capture_of : (Stack → Stream) → Stack → Stream
  capture_of h x = returned (tops (h x) >>= (λ vs. ok (with_sequence x vs)))

  behind :
      (vv : List Value) (v : Value) (r : Result (List Value))
      → (r >>= (λ vs. ok ((vv ++ v ∷ []) ++ vs)))
        ≡ (r >>= (λ vs. ok (v ∷ vs)) >>= (λ vs. ok (vv ++ vs)))
  behind vv v (ok vs) = ap ok (list-append_assoc vv (v ∷ []) vs)
  behind vv v (err e) = refl

module _ (t : TypeCodes) (op : Op) where
  -- The end of the sub-expression, or a stack, whose top value goes to the back of `vv`.
  abbrev pub capture_step :
      (op.State → List Value → Result (List Value))
      → List Value
      → Option Stack × op.State
      → Result (List Value)
  capture_step again vv (none, i) = ok vv
  capture_step again vv (some stk, i) = pop t stk >>= (λ (v, stk'). again i (vv ++ v ∷ []))

  -- The loop of op_capture::next.
  pub capture_loop : ℕ → op.State → List Value → Result (List Value)
  capture_loop zero i vv = err stuck
  capture_loop (suc n) i vv = op.next n i >>= capture_step (capture_loop n) vv

  module _ (up : Op) where
    abbrev pub capture_next : ℕ → op.State → Option Stack × up.State → Answer (op.State × up.State)
    capture_next n i (none, u) = ok (none, (i, u))
    capture_next n i (some stk, u) =
        capture_loop n (op.set_next stk i) []
        >>= (λ vv. ok (some (with_sequence t stk vv), (op.init, u)))

    -- After the loop the state of the sub-expression is made anew.
    abbrev pub op_capture : Op
    op_capture = record {
      State = op.State × up.State;
      init = (op.init, up.init);
      set_next = λ x (i, u). (i, up.set_next x u);
      next = λ n (i, u). up.next n u >>= capture_next n i;
    }

  -- One captured value, and those of the rest.
  taken :
      (i : op.State) (vv : List Value) (r : Result (Value × Stack)) (rest : Result (List Value))
      → ((v : Value)
          → Eventually
              (λ n. capture_loop n i (vv ++ v ∷ []))
              (rest >>= (λ vs. ok ((vv ++ v ∷ []) ++ vs))))
      → Eventually
          (λ n. r >>= (λ (v, stk'). capture_loop n i (vv ++ v ∷ [])))
          (r >>= (λ (v, y'). rest >>= (λ vs. ok (v ∷ vs))) >>= (λ vs. ok (vv ++ vs)))
  taken i vv (ok (v, y')) rest h = rw (sym (behind t vv v rest)) (h v)
  taken i vv (err x) rest h = Eventually-const _

  module _ (h : Stack → Stream) (c : Computes op h) where
    looped :
        (i : op.State) (vv : List Value) (zs : Stream)
        → Drains op i zs c.Ready
        → Eventually (λ n. capture_loop n i vv) (tops t zs >>= (λ vs. ok (vv ++ vs)))
    unfolding capture_loop tops
    looped i vv ends (i', e, ready) =
        Eventually-round (λ n. capture_loop n i vv) (λ n. op.next n i)
          (λ n. capture_step (capture_loop n) vv) (none, i') (ok (vv ++ [])) (λ n. refl) e
          (rw (append-nil vv) (Eventually-const _))
    looped i vv (fails x) e =
        Eventually-throw (λ n. capture_loop n i vv) (λ n. op.next n i)
          (λ n. capture_step (capture_loop n) vv) x (λ n. refl) e
    looped i vv (yields y zs) (i', e, d) =
        Eventually-round (λ n. capture_loop n i vv) (λ n. op.next n i)
          (λ n. capture_step (capture_loop n) vv) (some y, i')
          (tops t (yields y zs) >>= (λ vs. ok (vv ++ vs))) (λ n. refl) e
          (taken i' vv (pop t y) (tops t zs) (λ v. looped i' (vv ++ v ∷ []) zs d))

    whole : (r : Result (List Value)) → (r >>= (λ vs. ok ([] ++ vs))) ≡ r
    whole (ok vs) = refl
    whole (err e) = refl

    module _ (up : Op) where
      captured :
          (i : op.State) (u u' : up.State) (x : Stack)
          → c.Ready i
          → Eventually (λ n. up.next n u) (ok (some x, u'))
          → Eventually
              (λ n. (op_capture up).next n (i, u))
              (tops t (h x) >>= (λ vv. ok (some (with_sequence t x vv), (op.init, u'))))
      captured i u u' x ready e =
          Eventually-bind (λ n. up.next n u) (λ n. capture_next up n i) (some x, u') _ e
            (Eventually-then (λ n. capture_loop n (op.set_next x i) []) (tops t (h x))
              (λ n vv. ok (some (with_sequence t x vv), (op.init, u')))
              (λ vv. ok (some (with_sequence t x vv), (op.init, u')))
              (rw (whole (tops t (h x))) at (looped (op.set_next x i) [] (h x) (c.runs x i ready)))
              (λ vv. Eventually-const _))

      delivered :
          (s : op.State × up.State) (u' : up.State) (x : Stack) (r : Result (List Value))
          (ys : Stream) (P : op.State × up.State → Type 0)
          → Eventually
              (λ n. (op_capture up).next n s)
              (r >>= (λ vv. ok (some (with_sequence t x vv), (op.init, u'))))
          → Drains (op_capture up) (op.init, u') ys P
          → Drains
              (op_capture up)
              s
              (append (returned (r >>= (λ vs. ok (with_sequence t x vs)))) ys)
              P
      delivered s u' x (ok vv) ys P e d = ((op.init, u'), e, d)
      delivered s u' x (err z) ys P e d = e

      capture-Over : Over up (op_capture up) (capture_of t h)
      capture-Over = record {
        Idle = λ u s. (i : op.State) × (s ≡ (i, u)) × c.Ready i;
        inits = (op.init, refl, c.starts);
        sets = λ x u s (i, q, ready). (i, ap (λ z. (z.0, up.set_next x z.1)) q, ready);
        stops = λ u u' s (i, q, ready) e. (
          (i, u'),
          Eventually-at (op_capture up) (sym q) (
              Eventually-bind (λ n. up.next n u) (λ n. capture_next up n i) (none, u') _ e
                (Eventually-const _)),
          (i, refl, ready),
        );
        throws = λ u s x (i, q, ready) e.
            Eventually-at (op_capture up) (sym q)
              (Eventually-err (λ n. up.next n u) (λ n. capture_next up n i) x e);
        goes = λ u u' s x ys P (i, q, ready) e k.
            delivered s u' x (tops t (h x)) ys P
              (Eventually-at (op_capture up) (sym q) (captured i u u' x ready e))
              (k (op.init, u') (op.init, refl, c.starts));
      }

      -- Each stack that the upstream computes gets one value more, the sequence of the top values of
      -- all that the sub-expression yields for that stack, in their order. The capture fails where
      -- the sub-expression does, or yields an empty stack.
      pub op_capture-Computes :
          (g : Stack → Stream)
          → Computes up g
          → Computes (op_capture up) (λ x. bind (g x) (capture_of t h))
      op_capture-Computes g d = Over-Computes up (op_capture up) (capture_of t h) capture-Over g d
