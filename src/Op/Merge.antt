-- ===== src/Op/Merge.antt =====
-- op_merge and op_tine of libzwerg/op.cc. The tines at the upper ends of the branches of a merge hand
-- out copies of the stacks of its upstream. Their state is the part of the merge's that is shared.
pub mod File
pub mod Branches
pub mod Arms
pub mod Turns
pub mod Order
pub mod Handed
pub mod Computes
mod Tests
use dwgrep.Base.{
  ℕ, zero, suc, ◌==◌, Bool, true, false, if◌then◌else◌, List, [], ◌∷◌, Option, none, some, length,
  get_or, set,
}
use dwgrep.Stack.{Stack, Result, ok, err, aborted, stuck, ◌>>=◌}
use dwgrep.Op.{Op, Answer}

-- m_file and m_done of op_merge::state, and the state of the upstream of the merge
pub record Shared (U : Type 0) : Type 0 where
  pub file : List (Option Stack)
  pub done : Bool
  pub upstream : U

abbrev pub copies : ℕ → Option Stack → List (Option Stack)
copies zero p = []
copies (suc n) p = p ∷ copies n p

-- std::all_of with the test for nullptr
unfoldable pub all_null : List (Option Stack) → Bool
all_null [] = true
all_null (none ∷ file) = all_null file
all_null (some stk ∷ file) = false

-- A branch: its op, which ends in a tine, with the place of the shared state in the state of the op
pub record Branch (S : Type 0) : Type 1 where
  pub op : Op
  pub shared : op.State → S
  pub give : S → op.State → op.State

-- The states of the branches
abbrev pub States : {S : Type 0} → List (Branch S) → Type 0
States [] = Unit {0}
States (b ∷ bs) = b.op.State × States bs

abbrev pub inits : {S : Type 0} (bs : List (Branch S)) → States bs
inits [] = tt
inits (b ∷ bs) = (b.op.init, inits bs)

module _ (up : Op) (size : ℕ) where
  abbrev pub Sharing : Type 0
  Sharing = Shared up.State

  abbrev pub fresh : Sharing
  fresh = record { file = copies size none; done = false; upstream = up.init }

  -- `return std::move (mst.m_file[m_branch_id]);`
  abbrev pub moved : ℕ → Sharing → Answer Sharing
  moved id s = ok (get_or s.file id none, record s { file = set s.file id none })

  -- What the upstream of the merge returned
  abbrev pub tine_pull : ℕ → Sharing → Option Stack × up.State → Answer Sharing
  tine_pull id s (none, u) = ok (none, record s { done = true; upstream = u })
  tine_pull id s (some stk, u) = moved id (record s { file = copies size (some stk); upstream = u })

  -- op_tine::next
  pub tine_next : ℕ → ℕ → Sharing → Answer Sharing
  tine_next id n s =
      if s.done
      then ok (none, s)
      else if all_null s.file
      then up.next n s.upstream >>= tine_pull id s
      else moved id s

  abbrev pub set_upstream : Stack → Sharing → Sharing
  set_upstream x s = record s { upstream = up.set_next x s.upstream }

  -- op_tine
  abbrev pub op_tine : ℕ → Op
  op_tine id = record {
    State = Sharing;
    init = fresh;
    set_next = set_upstream;
    next = tine_next id;
  }

  -- `m_ops[i]->next (sc)`: the shared state is put in its place before, and read from it afterwards.
  pub ask :
      (bs : List (Branch Sharing))
      → ℕ
      → ℕ
      → Sharing
      → States bs
      → Result (Option Stack × (Sharing × States bs))
  ask [] i n s ss = err aborted
  ask (b ∷ bs) zero n s (own, ss) =
      b.op.next n (b.give s own) >>= (λ (r, own'). ok (r, (b.shared own', (own', ss))))
  ask (b ∷ bs) (suc i) n s (own, ss) =
      ask bs i n s ss >>= (λ (r, (s', ss')). ok (r, (s', (own, ss'))))

  module _ (bs : List (Branch Sharing)) where
    -- m_idx, and the states
    abbrev pub MergeState : Type 0
    MergeState = ℕ × (Sharing × States bs)

    -- `if (++st.m_idx == m_ops.size ()) st.m_idx = 0;`
    abbrev pub next_idx : ℕ → ℕ
    next_idx i = if suc i == length bs then 0 else suc i

    -- What the branch returned
    abbrev pub merge_step :
        (MergeState → Answer MergeState)
        → ℕ
        → Option Stack × (Sharing × States bs)
        → Answer MergeState
    merge_step again i (some stk, s) = ok (some stk, (i, s))
    merge_step again i (none, s) = again (next_idx i, s)

    -- The loop of op_merge::next, whose test is also the test before it
    pub merge_loop : ℕ → MergeState → Answer MergeState
    merge_loop zero s = err stuck
    merge_loop (suc n) (i, (s, ss)) =
        let rest = ask bs i n s ss >>= merge_step (merge_loop n) i in
        if s.done then ok (none, (i, (s, ss))) else rest

    -- op_merge
    abbrev pub op_merge : Op
    op_merge = record {
      State = MergeState;
      init = (0, (fresh, inits bs));
      set_next = λ x (i, (s, ss)). (i, (set_upstream x s, ss));
      next = merge_loop;
    }
