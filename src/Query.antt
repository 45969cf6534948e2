-- ===== src/Query.antt =====
-- The running of a query by libzwerg/libzwerg.cc and the class zw_result of libzwerg/libzwergP.hh.
pub mod Execute
pub mod Simplified
mod Tests
use dwgrep.Base.{ℕ, zero, suc, List, [], ◌∷◌, Option, none, some}
use dwgrep.Value.{Value, TypeCodes}
use dwgrep.Stack.{Stack, Result, ok, err, stuck, ◌>>=◌, push}
use dwgrep.Op.{Op, op_origin}
use dwgrep.Constant.{Domains}
use dwgrep.Value.Compare.{ForeignCmp}
use dwgrep.Tree.{Tree, build_exec}

-- The stack that zw_query_execute pushes the values of the input stack on, in their order.
pub pushed_all : TypeCodes → List Value → Stack → Stack
pushed_all t [] stk = stk
pushed_all t (v ∷ vs) stk = pushed_all t vs (push t v stk)

abbrev pub empty_stack : Stack
empty_stack = record { values = []; profile = 0 }

-- The calls of zw_result::next up to the first nullptr.
module _ (op : Op) where
  abbrev pub next_result :
      (op.State → Result (List Stack)) → Option Stack × op.State → Result (List Stack)
  next_result again (none, s) = ok []
  next_result again (some stk, s) = again s >>= (λ stks. ok (stk ∷ stks))

  pub all_results : ℕ → op.State → Result (List Stack)
  all_results zero s = err stuck
  all_results (suc n) s = op.next n s >>= next_result (all_results n)

-- zw_query_parse builds the tree on an origin, and zw_query_execute gives the stack to the origin.
unfoldable pub execute :
    TypeCodes
    → Domains
    → ForeignCmp
    → (Value → List ℕ)
    → Tree
    → ℕ
    → List Value
    → Result (List Stack)
unfolding all_results pushed_all
execute t ds foreign show a n input =
    let op = build_exec t ds foreign show a op_origin in
    all_results op n (op.set_next (pushed_all t input empty_stack) op.init)
