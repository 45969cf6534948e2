-- ===== src/Op/Or.antt =====
-- op_or of libzwerg/op.cc yields what the first of its branches that yields anything does.
pub mod Computes
use dwgrep.Base.{
  ℕ, Bool, zero, suc, ◌+◌, ◌==◌, true, false, List, [], ◌∷◌, length, Option, none, some,
}
use dwgrep.Stack.{Stack, Result, ok, err, stuck, ◌>>=◌}
use dwgrep.Op.{Op, Answer}
use dwgrep.Op.Stream.{Stream, ends, fails, yields}

-- The states of the branches.
abbrev pub States : List Op → Type 0
States [] = Unit {0}
States (b ∷ bs) = b.State × States bs

abbrev pub inits : (bs : List Op) → States bs
inits [] = tt
inits (b ∷ bs) = (b.init, inits bs)

-- The answer with the index of a branch and the states of all.
abbrev pub OrAnswer : List Op → Type 0
OrAnswer bs = Result (Option Stack × (ℕ × States bs))

-- A branch in front of those that have given the answer.
abbrev pub before :
    (b : Op) (bs : List Op) → b.State → Option Stack × (ℕ × States bs) → OrAnswer (b ∷ bs)
before b bs s (r, (k, ss)) = ok (r, (suc k, (s, ss)))

-- `m_branch_it->second->next (sc)`, with the iterator at the index k
pub next_at : ℕ → (bs : List Op) → ℕ → States bs → OrAnswer bs
next_at n [] k ss = ok (none, (k, ss))
next_at n (b ∷ bs) zero (s, ss) = b.next n s >>= (λ (r, s'). ok (r, (zero, (s', ss))))
next_at n (b ∷ bs) (suc k) (s, ss) = next_at n bs k ss >>= before b bs s

-- What the body of the `for` loop does with the answer of one branch.
abbrev pub or_try :
    (b : Op) (bs : List Op) → States bs → OrAnswer bs → Option Stack × b.State → OrAnswer (b ∷ bs)
or_try b bs ss rest (some y, s) = ok (some y, (zero, (s, ss)))
or_try b bs ss rest (none, s) = rest >>= before b bs s

-- The `for` loop over the branches with a new stack, and the index where it stops.
pub first_of : ℕ → (bs : List Op) → Stack → States bs → OrAnswer bs
first_of n [] x ss = ok (none, (zero, ss))
first_of n (b ∷ bs) x (s, ss) = b.next n (b.set_next x s) >>= or_try b bs ss (first_of n bs x ss)

-- `m_branch_it == m_branches.end ()`
pub is_end : List Op → ℕ → Bool
is_end bs k = k == length bs

module _ (bs : List Op) (up : Op) where
  -- The index of m_branch_it and the states of the branches and of the upstream.
  abbrev pub OrState : Type 0
  OrState = (ℕ × States bs) × up.State

  -- The answer of the `for` loop: a stack, or the end of the branches.
  abbrev pub or_first :
      (OrState → Answer OrState) → up.State → Option Stack × (ℕ × States bs) → Answer OrState
  or_first again u (some y, st) = ok (some y, (st, u))
  or_first again u (none, st) = again (st, u)

  abbrev pub or_pull :
      ℕ → (OrState → Answer OrState) → ℕ × States bs → Option Stack × up.State → Answer OrState
  or_pull n again st (none, u) = ok (none, (st, u))
  or_pull n again (k, ss) (some x, u) = first_of n bs x ss >>= or_first again u

  -- The answer of the branch that has been found; at its end `reset` sets the iterator to the end.
  abbrev pub or_step :
      (OrState → Answer OrState) → up.State → Option Stack × (ℕ × States bs) → Answer OrState
  or_step again u (some y, st) = ok (some y, (st, u))
  or_step again u (none, (k, ss)) = again ((length bs, ss), u)

  -- A round of the outer loop, with the result of the test for the end.
  abbrev pub or_round :
      ℕ → (OrState → Answer OrState) → ℕ → States bs → up.State → Bool → Answer OrState
  or_round n again k ss u true = up.next n u >>= or_pull n again (k, ss)
  or_round n again k ss u false = next_at n bs k ss >>= or_step again u

  -- The loops of op_or::next.
  pub or_loop : ℕ → OrState → Answer OrState
  or_loop zero s = err stuck
  or_loop (suc n) ((k, ss), u) = or_round n (or_loop n) k ss u (is_end bs k)

  abbrev pub op_or : Op
  op_or = record {
    State = OrState;
    init = ((length bs, inits bs), up.init);
    set_next = λ x (st, u). (st, up.set_next x u);
    next = or_loop;
  }

-- The first stream that does not end at once.
abbrev pub either_of : Stream → Stream → Stream
either_of ends ys = ys
either_of (fails e) ys = fails e
either_of (yields x xs) ys = yields x xs

abbrev pub first_stream : List (Stack → Stream) → Stack → Stream
first_stream [] x = ends
first_stream (f ∷ fs) x = either_of (f x) (first_stream fs x)
