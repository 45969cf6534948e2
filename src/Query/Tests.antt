-- ===== src/Query/Tests.antt =====
-- A query with a condition, a capture of a closure, and a format string, on one value.
use dwgrep.Base.{ℕ, suc, true, List, [], ◌∷◌, length}
use dwgrep.Mpz.{mpz, unsign}
use dwgrep.Value.{Value, cst}
use dwgrep.Stack.{Stack}
use dwgrep.Samples.{codes, safe_domains, by_identity, show_value}
use dwgrep.Op.{op_origin}
use dwgrep.Op.Stream.{Eventually, single, bind, Computes}
use dwgrep.Op.Mapping.{op_origin-Computes}
use dwgrep.Op.Closure.{ClosureKind, star}
use dwgrep.Op.Closure.Drops.{drop-closes}
use dwgrep.Tree.{Tree, Word, Trees, PredTree, Relation, build_exec}
use dwgrep.Tree.Meaning.{meaning, Terminates, AllTerminate, PredTerminates}
use dwgrep.Tree.Build.{build_exec-Computes}
use dwgrep.Query.{execute, pushed_all, empty_stack}
use dwgrep.Query.Execute.{listed, execute-meaning}

abbrev input : List Value
input = cst (mpz 7 unsign) 0 0 ∷ []

abbrev condition : Tree
condition =
    Tree.ifelse (Tree.assertion (PredTree.pred_pos true 0)) (Tree.f_builtin Word.dup)
      (Tree.assertion (PredTree.pred_cmp Relation.eq true))

abbrev dropping : Tree
dropping = Tree.close star (Tree.f_builtin Word.drop)

-- "=%s", for the value on top
abbrev message : Tree
message =
    Tree.format (Trees.and_trees (Tree.text (61 ∷ [])) (Trees.and_trees Tree.nop Trees.no_trees))

abbrev query : Tree
query = Tree.cat (
    Trees.and_trees condition
      (Trees.and_trees (Tree.capture dropping) (Trees.and_trees message Trees.no_trees)))

-- Each visit of the closure drops a value.
abbrev visits : ClosureKind → Tree → Stack → ℕ
visits k a x = suc (suc (length x.values))

query-Terminates : Terminates codes safe_domains by_identity show_value visits query
unfolding Terminates AllTerminate PredTerminates meaning
query-Terminates = (
  (tt, tt, tt),
  ((tt, λ x. drop-closes codes safe_domains by_identity star x), ((tt, (tt, tt)), tt)),
)

execute-meaning_example :
    Eventually
      (λ n. execute codes safe_domains by_identity show_value query n input)
      (listed (
        meaning codes safe_domains by_identity show_value visits query
          (pushed_all codes input empty_stack)))
execute-meaning_example =
    execute-meaning codes safe_domains by_identity show_value visits query input query-Terminates

build_exec-Computes_example :
    Computes
      (build_exec codes safe_domains by_identity show_value query op_origin)
      (λ x. bind (single x) (meaning codes safe_domains by_identity show_value visits query))
build_exec-Computes_example =
    build_exec-Computes codes safe_domains by_identity show_value visits query query-Terminates
      op_origin single op_origin-Computes
