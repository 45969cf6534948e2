-- ===== src/Pred.antt =====
-- The three-valued results of libzwerg/pred_result.hh and the predicates of libzwerg/op.cc.
pub mod Logic
pub mod Decides
pub mod Comparison
use dwgrep.Base.{ℕ, ◌==◌, if◌then◌else◌, Option, none, some}
use dwgrep.Value.{get_pos}
use dwgrep.Stack.{Stack, Result, ok, err, ◌>>=◌, top}
use dwgrep.Op.{Op}

pub data PredResult : Type 0 where
  no yes fail : PredResult

-- operator!, operator&& and operator|| on pred_result
abbrev pub negate : PredResult → PredResult
negate no = yes
negate yes = no
negate fail = fail

abbrev pub both : PredResult → PredResult → PredResult
both fail b = fail
both no fail = fail
both yes fail = fail
both yes yes = yes
both yes no = no
both no yes = no
both no no = no

abbrev pub either : PredResult → PredResult → PredResult
either fail b = fail
either no fail = fail
either yes fail = fail
either no no = no
either no yes = yes
either yes no = yes
either yes yes = yes

-- A predicate, with the fuel for the ops that it runs. An exception of `result` is an error.
abbrev pub Pred : Type 0
Pred = ℕ → Stack → Result PredResult

abbrev pub pred_not : Pred → Pred
pred_not a n stk = a n stk >>= (λ r. ok (negate r))

-- The overloaded operators evaluate both sides.
abbrev pub pred_and : Pred → Pred → Pred
pred_and a b n stk = a n stk >>= (λ r. b n stk >>= (λ r'. ok (both r r')))

abbrev pub pred_or : Pred → Pred → Pred
pred_or a b n stk = a n stk >>= (λ r. b n stk >>= (λ r'. ok (either r r')))

abbrev pub found : {S : Type 0} → Option Stack × S → Result PredResult
found (some stk, s) = ok yes
found (none, s) = ok no

-- The scon_guard gives the op a new state for the one run.
abbrev pub pred_subx_any : Op → Pred
pred_subx_any op n stk = op.next n (op.set_next stk op.init) >>= found

abbrev pub pred_pos : ℕ → Pred
pred_pos pos n stk = top stk >>= (λ v. ok (if get_pos v == pos then yes else no))
