-- ===== src/Overload.antt =====
-- Words with an overload for each combination of types: libzwerg/overload.cc.
pub mod Dispatch
pub mod Computes
pub mod Operate
pub mod Arithmetic
pub mod Yielding
pub mod Elements
mod Tests
use dwgrep.Base.{
  ℕ, zero, suc, ◌⊎◌, inl, inr, Bool, true, false, if◌then◌else◌, List, [], ◌∷◌, Option, none, some,
  map,
}
use dwgrep.Stack.{Stack, Result, ok, err, stuck, ◌>>=◌}
use dwgrep.Op.{Op, Answer}
use dwgrep.Pred.{PredResult, fail, Pred}
use dwgrep.Selector.{Selector, selector_of, profile_of, matches}

-- The loop of find_selector, with the index of the first selector of the rest
pub find_from : Selector → List Selector → ℕ → Option ℕ
find_from profile [] k = none
find_from profile (sel ∷ selectors) k =
    let rest = find_from profile selectors (suc k) in if matches sel profile then some k else rest

-- find_selector; `none` is the index -1.
unfoldable pub find_selector : Selector → List Selector → Option ℕ
unfolding find_from
find_selector profile selectors = find_from profile selectors 0

-- A selector with the op that the builtin of the overload makes
pub record Overload : Type 1 where
  pub selector : Selector
  pub exec : Op

abbrev pub selectors : List Overload → List Selector
selectors [] = []
selectors (o ∷ os) = o.selector ∷ selectors os

-- The state of one of the ops
abbrev pub Chosen : List Overload → Type 0
Chosen [] = ⊥
Chosen (o ∷ os) = o.exec.State ⊎ Chosen os

abbrev pub to_right : {S T : Type 0} → Option T → Option (S ⊎ T)
to_right none = none
to_right (some c) = some (inr c)

-- The index in m_execs, then state_con of that op and set_next of its origin
pub start_at : (os : List Overload) → ℕ → Stack → Option (Chosen os)
start_at [] k stk = none
start_at (o ∷ os) zero stk = some (inl (o.exec.set_next stk o.exec.init))
start_at (o ∷ os) (suc k) stk = to_right (start_at os k stk)

-- overload_instance::find_exec and what overload_op::next does with its result. `none` stands for
-- the error that is shown.
abbrev pub start_found : (os : List Overload) → Option ℕ → Stack → Option (Chosen os)
start_found os none stk = none
start_found os (some k) stk = start_at os k stk

unfoldable pub start : (os : List Overload) → Stack → Option (Chosen os)
unfolding find_selector start_at
start os stk = start_found os (find_selector (profile_of stk) (selectors os)) stk

abbrev pub on_left : {S T : Type 0} → Option Stack × S → Answer (S ⊎ T)
on_left (r, s) = ok (r, inl s)

abbrev pub on_right : {S T : Type 0} → Option Stack × T → Answer (S ⊎ T)
on_right (r, s) = ok (r, inr s)

-- `st.m_sg->next ()`
pub advance : (os : List Overload) → ℕ → Chosen os → Answer (Chosen os)
advance [] n c = absurd c
advance (o ∷ os) n (inl s) = o.exec.next n s >>= on_left
advance (o ∷ os) n (inr c) = advance os n c >>= on_right

module _ (os : List Overload) (up : Op) where
  -- m_sg of the state, and the state of the upstream
  abbrev pub OverloadState : Type 0
  OverloadState = Option (Chosen os) × up.State

  abbrev pub overload_pull :
      (OverloadState → Answer OverloadState) → Option Stack × up.State → Answer OverloadState
  overload_pull again (none, u) = ok (none, (none, u))
  overload_pull again (some stk, u) = again (start os stk, u)

  abbrev pub overload_step :
      (OverloadState → Answer OverloadState)
      → up.State
      → Option Stack × Chosen os
      → Answer OverloadState
  overload_step again u (none, c) = again (none, u)
  overload_step again u (some stk, c) = ok (some stk, (some c, u))

  -- The loops of overload_op::next
  pub overload_loop : ℕ → OverloadState → Answer OverloadState
  overload_loop zero s = err stuck
  overload_loop (suc n) (none, u) = up.next n u >>= overload_pull (overload_loop n)
  overload_loop (suc n) (some c, u) = advance os n c >>= overload_step (overload_loop n) u

  abbrev pub overload_op : Op
  overload_op = record {
    State = OverloadState;
    init = (none, up.init);
    set_next = λ x (m, u). (m, up.set_next x u);
    next = overload_loop;
  }

-- overload_instance::find_pred and overload_pred::result, on the selectors and the predicates
pub nth_pred : List Pred → ℕ → Option Pred
nth_pred [] k = none
nth_pred (p ∷ ps) zero = some p
nth_pred (p ∷ ps) (suc k) = nth_pred ps k

abbrev pub pred_found : List Pred → Option ℕ → Option Pred
pred_found ps none = none
pred_found ps (some k) = nth_pred ps k

abbrev pub result_of : Option Pred → Pred
result_of none n stk = ok fail
result_of (some p) n stk = p n stk

unfoldable pub overload_pred : List Selector → List Pred → Pred
unfolding find_selector nth_pred
overload_pred sels ps n stk = result_of (pred_found ps (find_selector (profile_of stk) sels)) n stk
