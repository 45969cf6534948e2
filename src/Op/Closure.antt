-- ===== src/Op/Closure.antt =====
-- op_tr_closure of libzwerg/op.cc: the transitive closure of an op, `*` and `+`.
pub mod Explore
pub mod Computes
pub mod Found
pub mod Apart
pub mod Complete
pub mod Correct
pub mod Finite
pub mod Drops
mod Tests
use dwgrep.Base.{
  ℕ, zero, suc, Bool, true, false, not, ◌&&◌, ◌||◌, if◌then◌else◌, List, [], ◌∷◌, Option, none,
  some,
}
use dwgrep.Constant.{Domains}
use dwgrep.Value.{TypeCodes}
use dwgrep.Value.Compare.{ForeignCmp}
use dwgrep.Stack.{Stack, ok, err, stuck, ◌>>=◌}
use dwgrep.Stack.Compare.{stack_less}
use dwgrep.Op.{Op, Answer}

-- op_tr_closure_kind
pub data ClosureKind : Type 0 where
  star plus : ClosureKind

-- m_seen, m_stks with its back first, m_op_drained, and the states of the op and of the upstream
pub data ClosureState (S U : Type 0) : Type 0 where
  state : List Stack → List Stack → Bool → S → U → ClosureState S U

module _ (t : TypeCodes) (ds : Domains) (foreign : ForeignCmp) where
  -- The equivalence of deref_less, which a std::set keeps its elements apart by
  unfoldable pub same_stack : Stack → Stack → Bool
  same_stack a b = not (stack_less t ds foreign a b) && not (stack_less t ds foreign b a)

  -- Whether m_seen has the stack
  unfoldable pub is_seen : Stack → List Stack → Bool
  unfolding same_stack
  is_seen stk [] = false
  is_seen stk (s ∷ seen) = same_stack stk s || is_seen stk seen

  module _ {S U : Type 0} where
    -- op_tr_closure::state::yield_and_cache
    unfoldable pub yield_and_cache : Stack → ClosureState S U → Option Stack × ClosureState S U
    unfolding is_seen
    yield_and_cache stk (state seen stks drained i u) =
        if is_seen stk seen
        then (none, state seen stks drained i u)
        else (some stk, state (stk ∷ seen) (stk ∷ stks) drained i u)

    -- `if (auto ret = st.yield_and_cache (stk)) return ret;` in the inner loop
    abbrev pub return_some :
        (ClosureState S U → Answer (ClosureState S U))
        → Option Stack × ClosureState S U
        → Answer (ClosureState S U)
    return_some again (none, st) = again st
    return_some again (some ret, st) = ok (some ret, st)

  module _ (kind : ClosureKind) (op up : Op) where
    -- What next_from_op returned from the op, in the inner loop of op_tr_closure::next
    abbrev pub from_op :
        (ClosureState op.State up.State → Answer (ClosureState op.State up.State))
        → List Stack
        → List Stack
        → up.State
        → Option Stack × op.State
        → Answer (ClosureState op.State up.State)
    from_op again seen stks u (none, i) = again (state seen stks true i u)
    from_op again seen stks u (some stk, i) =
        return_some again (yield_and_cache stk (state seen stks false i u))

    -- What follows a call of next_from_upstream: for `+` a call of send_to_op, for `*` the end of
    -- op_tr_closure::next.
    abbrev pub from_upstream :
        ClosureKind
        → (ClosureState op.State up.State → Answer (ClosureState op.State up.State))
        → op.State
        → Option Stack × up.State
        → Answer (ClosureState op.State up.State)
    from_upstream k again i (none, u) = ok (none, state [] [] true i u)
    from_upstream plus again i (some stk, u) = again (state [] [] false (op.set_next stk i) u)
    from_upstream star again i (some stk, u) = ok (yield_and_cache stk (state [] [] true i u))

    -- op_tr_closure::next. A round is one call of next_from_op, of send_to_op, or of
    -- next_from_upstream.
    pub closure_loop : ℕ → ClosureState op.State up.State → Answer (ClosureState op.State up.State)
    closure_loop zero st = err stuck
    closure_loop (suc n) (state seen stks false i u) =
        op.next n i >>= from_op (closure_loop n) seen stks u
    closure_loop (suc n) (state seen (stk ∷ stks) true i u) =
        closure_loop n (state seen stks false (op.set_next stk i) u)
    closure_loop (suc n) (state seen [] true i u) =
        up.next n u >>= from_upstream kind (closure_loop n) i

    abbrev pub set_next : Stack → ClosureState op.State up.State → ClosureState op.State up.State
    set_next x (state seen stks drained i u) = state seen stks drained i (up.set_next x u)

    abbrev pub op_tr_closure : Op
    op_tr_closure = record {
      State = ClosureState op.State up.State;
      init = state [] [] true op.init up.init;
      set_next = set_next;
      next = closure_loop;
    }
