-- ===== src/Op/Subx.antt =====
-- op_subx of libzwerg/op.cc evaluates a sub-expression on each stack of its upstream, and yields
-- that stack with the topmost values of each result.
pub mod Computes
use dwgrep.Base.{ℕ, zero, suc, List, [], ◌∷◌, Option, none, some}
use dwgrep.Value.{Value, TypeCodes}
use dwgrep.Stack.{Stack, Result, ok, err, stuck, ◌>>=◌, pop, push}
use dwgrep.Op.{Op, Answer}
use dwgrep.Op.Mapping.{returned}
use dwgrep.Op.Stream.{Stream, bind}

module _ (t : TypeCodes) where
  -- The vector `kept`, in the order of the pops.
  unfoldable pub pop_kept : ℕ → Stack → Result (List Value)
  pop_kept zero stk = ok []
  pop_kept (suc n) stk = pop t stk >>= (λ (v, stk'). pop_kept n stk' >>= (λ vs. ok (v ∷ vs)))

  -- The pushes from the back of `kept`.
  unfoldable pub push_kept : List Value → Stack → Stack
  push_kept [] ret = ret
  push_kept (v ∷ kept) ret = push t v (push_kept kept ret)

  -- The copy of the stack `on` with the topmost values of the result.
  unfoldable pub keep_on : ℕ → Stack → Stack → Result Stack
  keep_on keep on result = pop_kept keep result >>= (λ kept. ok (push_kept kept on))

  module _ (keep : ℕ) (op up : Op) where
    -- m_stk of the state, and the states of the two ops.
    abbrev pub SubxState : Type 0
    SubxState = Option Stack × (op.State × up.State)

    -- A stack of the upstream, or its end.
    abbrev pub subx_pull :
        (SubxState → Answer SubxState) → op.State → Option Stack × up.State → Answer SubxState
    subx_pull again i (none, u) = ok (none, (none, (i, u)))
    subx_pull again i (some stk, u) = again (some stk, (op.set_next stk i, u))

    -- A result of the sub-expression, or its end.
    abbrev pub subx_step :
        (SubxState → Answer SubxState)
        → Stack
        → up.State
        → Option Stack × op.State
        → Answer SubxState
    subx_step again on u (none, i) = again (none, (i, u))
    subx_step again on u (some stk, i) =
        keep_on keep on stk >>= (λ ret. ok (some ret, (some on, (i, u))))

    -- The two loops of op_subx::next.
    pub subx_loop : ℕ → SubxState → Answer SubxState
    subx_loop zero s = err stuck
    subx_loop (suc n) (none, (i, u)) = up.next n u >>= subx_pull (subx_loop n) i
    subx_loop (suc n) (some on, (i, u)) = op.next n i >>= subx_step (subx_loop n) on u

    abbrev pub op_subx : Op
    op_subx = record {
      State = SubxState;
      init = (none, (op.init, up.init));
      set_next = λ x (m, (i, u)). (m, (i, up.set_next x u));
      next = subx_loop;
    }

    -- The results for one stack, each put on it.
    abbrev pub subx_of : (Stack → Stream) → Stack → Stream
    subx_of h x = bind (h x) (λ y. returned (keep_on keep x y))
