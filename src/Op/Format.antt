-- ===== src/Op/Format.antt =====
-- op_format of libzwerg/op.cc and the stringers that it pulls from: stringer_origin, stringer_lit and
-- stringer_op. A stringer yields stacks with the text that was made so far.
pub mod Texts
pub mod Stringers
pub mod Computes
pub mod Profiled
mod Tests
use dwgrep.Base.{ℕ, zero, suc, List, [], ◌++◌, Option, none, some}
use dwgrep.Value.{Value, TypeCodes, str}
use dwgrep.Stack.{Stack, Result, ok, err, aborted, stuck, ◌>>=◌, pop, push}
use dwgrep.Op.{Op, Answer}

-- What `next` of a stringer returns, with the state after it. `none` stands for the pair of nullptr
-- and an empty text.
abbrev pub Text : Type 0
Text = Stack × List ℕ

abbrev pub TextAnswer : Type 0 → Type 0
TextAnswer S = Result (Option Text × S)

-- A stringer with all that is upstream of it. `set_next` is the call of that name on the
-- stringer_origin at the upper end.
pub record Stringer : Type 1 where
  pub State : Type 0
  pub init : State
  pub set_next : Stack → State → Result State
  pub next : ℕ → State → TextAnswer State

-- `assert (st.m_stk == nullptr);` and the assignment
abbrev pub origin_set : Stack → Option Stack → Result (Option Stack)
origin_set x none = ok (some x)
origin_set x (some y) = err aborted

abbrev pub origin_text : Option Stack → Option Text
origin_text none = none
origin_text (some stk) = some (stk, [])

-- stringer_origin
abbrev pub stringer_origin : Stringer
stringer_origin = record {
  State = Option Stack;
  init = none;
  set_next = origin_set;
  next = λ n s. ok (origin_text s, none);
}

-- `up.second = m_str + up.second;`, unless the upstream has ended
abbrev pub prefix : {S : Type 0} → List ℕ → Option Text × S → TextAnswer S
prefix s (none, u) = ok (none, u)
prefix s (some (stk, text), u) = ok (some (stk, s ++ text), u)

-- stringer_lit
abbrev pub stringer_lit : List ℕ → Stringer → Stringer
stringer_lit s up = record {
  State = up.State;
  init = up.init;
  set_next = up.set_next;
  next = λ n u. up.next n u >>= prefix s;
}

-- `show` is the output of a value to a stream.
module _ (t : TypeCodes) (show : Value → List ℕ) where
  -- `(stk->pop ())->show (ss)`, and the pair that is returned
  abbrev pub shown : List ℕ → Stack → Result Text
  shown text stk = pop t stk >>= (λ (v, stk'). ok (stk', show v ++ text))

  module _ (op : Op) (up : Stringer) where
    -- m_str of the state, and the states of the op and of the upstream
    abbrev pub StringerState : Type 0
    StringerState = Option (List ℕ) × (op.State × up.State)

    -- What the upstream returned
    abbrev pub stringer_pull :
        (StringerState → TextAnswer StringerState)
        → op.State
        → Option Text × up.State
        → TextAnswer StringerState
    stringer_pull again i (none, u) = ok (none, (none, (i, u)))
    stringer_pull again i (some (stk, text), u) = again (some text, (op.set_next stk i, u))

    -- What the op returned
    abbrev pub stringer_step :
        (StringerState → TextAnswer StringerState)
        → List ℕ
        → up.State
        → Option Stack × op.State
        → TextAnswer StringerState
    stringer_step again text u (none, i) = again (none, (i, u))
    stringer_step again text u (some stk, i) =
        shown text stk >>= (λ r. ok (some r, (some text, (i, u))))

    -- The loop of stringer_op::next
    pub stringer_loop : ℕ → StringerState → TextAnswer StringerState
    stringer_loop zero s = err stuck
    stringer_loop (suc n) (none, (i, u)) = up.next n u >>= stringer_pull (stringer_loop n) i
    stringer_loop (suc n) (some text, (i, u)) =
        op.next n i >>= stringer_step (stringer_loop n) text u

    -- stringer_op
    abbrev pub stringer_op : Stringer
    stringer_op = record {
      State = StringerState;
      init = (none, (op.init, up.init));
      set_next = λ x (m, (i, u)). up.set_next x u >>= (λ u'. ok (m, (i, u')));
      next = stringer_loop;
    }

  module _ (stringer : Stringer) (up : Op) where
    -- m_pos of the state, and the states of the stringer and of the upstream
    abbrev pub FormatState : Type 0
    FormatState = ℕ × (stringer.State × up.State)

    -- What the upstream returned: the state is reset for a new stack.
    abbrev pub format_pull :
        (FormatState → Answer FormatState)
        → ℕ
        → stringer.State
        → Option Stack × up.State
        → Answer FormatState
    format_pull again p g (none, u) = ok (none, (p, (g, u)))
    format_pull again p g (some stk, u) = stringer.set_next stk g >>= (λ g'. again (0, (g', u)))

    -- What the stringer returned
    abbrev pub format_step :
        (FormatState → Answer FormatState)
        → ℕ
        → ℕ
        → up.State
        → Option Text × stringer.State
        → Answer FormatState
    format_step again n p u (some (stk, text), g) =
        ok (some (push t (str text p) stk), (suc p, (g, u)))
    format_step again n p u (none, g) = up.next n u >>= format_pull again p g

    -- The loop of op_format::next
    pub format_loop : ℕ → FormatState → Answer FormatState
    format_loop zero s = err stuck
    format_loop (suc n) (p, (g, u)) = stringer.next n g >>= format_step (format_loop n) n p u

    -- op_format
    abbrev pub op_format : Op
    op_format = record {
      State = FormatState;
      init = (0, (stringer.init, up.init));
      set_next = λ x (p, (g, u)). (p, (g, up.set_next x u));
      next = format_loop;
    }
