-- ===== src/Op.antt =====
-- The operations of libzwerg/op.hh and libzwerg/op.cc. A query is a chain of them, which hands
-- stacks on from its origin when the last one is asked for the next.
pub mod Stream
pub mod Over
pub mod Mapping
pub mod Assert
pub mod Subx
pub mod Capture
pub mod Ifelse
pub mod Or
pub mod Closure
pub mod Format
pub mod Profiled
pub mod Merge
pub mod Words
mod Tests
use dwgrep.Base.{ℕ, zero, suc, Option, none, some}
use dwgrep.Stack.{Stack, Result, ok, err, ◌>>=◌}

-- What `next` returns, with the state after it. `none` is nullptr, an error an exception.
abbrev pub Answer : Type 0 → Type 0
Answer S = Result (Option Stack × S)

-- An op with all that is upstream of it. Its state is the part of `scon` that belongs to them;
-- `init` is what state_con makes of it, and `set_next` is the call of that name on the origin at the
-- upper end. The number is the fuel for the loops.
pub record Op : Type 1 where
  pub State : Type 0
  pub init : State
  pub set_next : Stack → State → State
  pub next : ℕ → State → Answer State

-- op_origin
abbrev pub op_origin : Op
op_origin = record {
  State = Option Stack;
  init = none;
  set_next = λ stk s. some stk;
  next = λ n s. ok (s, none);
}

-- The body `if (auto stk = m_upstream->next (sc)) { ...; return stk; } return nullptr;`
abbrev pub map_next : {S : Type 0} → (Stack → Result Stack) → Option Stack × S → Answer S
map_next f (none, s) = ok (none, s)
map_next f (some stk, s) = f stk >>= (λ stk'. ok (some stk', s))

-- An op that changes each stack of its upstream by f.
abbrev pub mapping : (Stack → Result Stack) → Op → Op
mapping f up = record {
  State = up.State;
  init = up.init;
  set_next = up.set_next;
  next = λ n s. up.next n s >>= map_next f;
}

-- op_nop
abbrev pub op_nop : Op → Op
op_nop up = mapping (λ stk. ok stk) up
