-- ===== src/Op/Ifelse.antt =====
-- op_ifelse of libzwerg/op.cc runs one of two sub-expressions, as a third yields something or not.
pub mod Computes
use dwgrep.Base.{ℕ, zero, suc, ◌⊎◌, inl, inr, Option, none, some}
use dwgrep.Stack.{Stack, Result, ok, err, stuck, ◌>>=◌}
use dwgrep.Op.{Op, Answer}
use dwgrep.Op.Stream.{Stream, ends, fails, yields}

module _ (cond_op then_op else_op up : Op) where
  -- The optional guard m_sg, over one of the two branches.
  abbrev pub Running : Type 0
  Running = Option (then_op.State ⊎ else_op.State)

  abbrev pub IfelseState : Type 0
  IfelseState = Running × up.State

  -- The branch for the stack, after the run of the condition on a copy of it.
  abbrev pub ifelse_branch :
      (IfelseState → Answer IfelseState)
      → Stack
      → up.State
      → Option Stack × cond_op.State
      → Answer IfelseState
  ifelse_branch again stk u (some x, c) = again (some (inl (then_op.set_next stk then_op.init)), u)
  ifelse_branch again stk u (none, c) = again (some (inr (else_op.set_next stk else_op.init)), u)

  abbrev pub ifelse_pull :
      ℕ → (IfelseState → Answer IfelseState) → Option Stack × up.State → Answer IfelseState
  ifelse_pull n again (none, u) = ok (none, (none, u))
  ifelse_pull n again (some stk, u) =
      cond_op.next n (cond_op.set_next stk cond_op.init) >>= ifelse_branch again stk u

  -- What the branch yields, or its end.
  abbrev pub ifelse_step :
      {S : Type 0}
      → (IfelseState → Answer IfelseState)
      → (S → then_op.State ⊎ else_op.State)
      → up.State
      → Option Stack × S
      → Answer IfelseState
  ifelse_step again side u (some stk, i) = ok (some stk, (some (side i), u))
  ifelse_step again side u (none, i) = again (none, u)

  -- The loop of op_ifelse::next, a round of it in two steps.
  pub ifelse_loop : ℕ → IfelseState → Answer IfelseState
  ifelse_loop zero s = err stuck
  ifelse_loop (suc n) (none, u) = up.next n u >>= ifelse_pull n (ifelse_loop n)
  ifelse_loop (suc n) (some (inl i), u) = then_op.next n i >>= ifelse_step (ifelse_loop n) inl u
  ifelse_loop (suc n) (some (inr i), u) = else_op.next n i >>= ifelse_step (ifelse_loop n) inr u

  abbrev pub op_ifelse : Op
  op_ifelse = record {
    State = IfelseState;
    init = (none, up.init);
    set_next = λ x (r, u). (r, up.set_next x u);
    next = ifelse_loop;
  }

-- The branch that a condition chooses; only its first answer counts.
abbrev pub chosen : Stream → Stream → Stream → Stream
chosen ends t e = e
chosen (fails x) t e = fails x
chosen (yields y ys) t e = t
