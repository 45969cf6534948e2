-- ===== src/Query/Execute.antt =====
-- The results of a query against the meaning of its tree.
use dwgrep.Base.{ℕ, refl, List, [], ◌∷◌, none, some}
use dwgrep.Value.{Value, TypeCodes}
use dwgrep.Stack.{Stack, Result, ok, err, ◌>>=◌}
use dwgrep.Op.{Op, op_origin}
use dwgrep.Op.Stream.{
  Stream, ends, fails, yields, Eventually, Eventually-const, Eventually-round, Eventually-throw,
  Eventually-then, Drains,
}
use dwgrep.Tree.{Tree, build_exec}
use dwgrep.Tree.Meaning.{meaning, Terminates}
use dwgrep.Constant.{Domains}
use dwgrep.Value.Compare.{ForeignCmp}
use dwgrep.Op.Closure.{ClosureKind}
use dwgrep.Tree.Build.{alone, build_exec-Computes}
use dwgrep.Query.{pushed_all, empty_stack, next_result, all_results, execute}

-- The stacks of a stream, if it does not fail.
abbrev pub listed : Stream → Result (List Stack)
listed ends = ok []
listed (fails e) = err e
listed (yields x xs) = listed xs >>= (λ stks. ok (x ∷ stks))

all_results-listed :
    (op : Op) (s : op.State) (xs : Stream) (P : op.State → Type 0)
    → Drains op s xs P
    → Eventually (λ n. all_results op n s) (listed xs)
unfolding all_results
all_results-listed op s ends P (s', e, p) =
    Eventually-round (λ n. all_results op n s) (λ n. op.next n s)
      (λ n. next_result op (all_results op n)) (none, s') (ok []) (λ n. refl) e (Eventually-const _)
all_results-listed op s (fails x) P e =
    Eventually-throw (λ n. all_results op n s) (λ n. op.next n s)
      (λ n. next_result op (all_results op n)) x (λ n. refl) e
all_results-listed op s (yields x xs) P (s', e, d) =
    Eventually-round (λ n. all_results op n s) (λ n. op.next n s)
      (λ n. next_result op (all_results op n)) (some x, s') (listed (yields x xs)) (λ n. refl) e
      (Eventually-then (λ n. all_results op n s') (listed xs) (λ n stks. ok (x ∷ stks))
        (λ stks. ok (x ∷ stks)) (all_results-listed op s' xs P d) (λ stks. Eventually-const _))

-- With enough fuel a query whose closures end within their bounds terminates on every input: it
-- returns the stacks that its tree means for the input stack, all of them and in their order, or
-- the exception that the meaning has.
pub execute-meaning :
    (t : TypeCodes) (ds : Domains) (foreign : ForeignCmp) (show : Value → List ℕ)
    (rounds : ClosureKind → Tree → Stack → ℕ) (a : Tree) (input : List Value)
    → Terminates t ds foreign show rounds a
    → Eventually
        (λ n. execute t ds foreign show a n input)
        (listed (meaning t ds foreign show rounds a (pushed_all t input empty_stack)))
unfolding execute
execute-meaning t ds foreign show rounds a input z =
    let op = build_exec t ds foreign show a op_origin in
    let m = meaning t ds foreign show rounds a in
    let c = alone op m (build_exec-Computes t ds foreign show rounds a z op_origin) in
    let x = pushed_all t input empty_stack in
    all_results-listed op (op.set_next x op.init) (m x) c.Ready (c.runs x op.init c.starts)
