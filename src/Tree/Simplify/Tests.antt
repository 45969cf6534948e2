-- ===== src/Tree/Simplify/Tests.antt =====
-- A CAT with a CAT, a NOP and a format string of one literal in it, on a stack of two values.
use dwgrep.Base.{ℕ, ◌≡◌, ◌≤◌, arith, refl, List, [], ◌∷◌}
use dwgrep.Mpz.{mpz, unsign}
use dwgrep.Value.{code, cst}
use dwgrep.Samples.{codes, safe_domains, by_identity, show_value, two_values}
use dwgrep.Stack.{Stack, Result, ok}
use dwgrep.Stack.Profile.{IsProfiled}
use dwgrep.Op.Stream.{Eventually}
use dwgrep.Op.Closure.{ClosureKind}
use dwgrep.Op.Profiled.{CodesAreBytes, AreProfiled}
use dwgrep.Tree.{Tree, Trees, Word}
use dwgrep.Tree.Meaning.{meaning, Terminates}
use dwgrep.Tree.Profiled.{meaning-AreProfiled}
use dwgrep.Tree.Simplify.{
  tree_size, trees_size, simplify, each_child, each_tree, settle, promote_pass, without_nops,
}
use dwgrep.Tree.Simplify.Congruence.{ShowsStrings}
use dwgrep.Tree.Simplify.Correct.{simplify-meaning}
use dwgrep.Query.{execute}
use dwgrep.Query.Simplified.{execute-simplify}

codes-CodesAreBytes : CodesAreBytes codes
codes-CodesAreBytes = record {
  cst_byte = omega arith;
  str_byte = omega arith;
  seq_byte = omega arith;
}

show_value-ShowsStrings : ShowsStrings show_value
show_value-ShowsStrings s p = refl

abbrev visits : ClosureKind → Stack → ℕ
visits k x = 3

abbrev literal_format : Tree
literal_format = Tree.format (Trees.and_trees (Tree.text (61 ∷ [])) Trees.no_trees)

abbrev nested : Tree
nested = Tree.cat (
    Trees.and_trees
      (Tree.cat (Trees.and_trees literal_format (Trees.and_trees Tree.nop Trees.no_trees)))
      (Trees.and_trees (Tree.f_builtin Word.swap) Trees.no_trees))

abbrev flat : Tree
flat = Tree.cat (
    Trees.and_trees (Tree.text (61 ∷ []))
      (Trees.and_trees (Tree.f_builtin Word.swap) Trees.no_trees))

flattened : simplify 20 nested ≡ ok flat
unfolding simplify each_child each_tree settle trees_size promote_pass without_nops
flattened = refl

meaning-AreProfiled_example :
    AreProfiled codes
      (meaning codes safe_domains by_identity show_value (λ k b y. visits k y) nested two_values)
unfolding code
meaning-AreProfiled_example =
    meaning-AreProfiled codes codes-CodesAreBytes safe_domains by_identity show_value
      (λ k b y. visits k y) nested two_values (omega arith)

simplify-meaning_example :
    (a' : Tree) × (simplify 20 nested ≡ ok a')
    × (tree_size a' ≤ tree_size nested)
    × ((x : Stack)
        → IsProfiled codes x
        → meaning codes safe_domains by_identity show_value (λ k b y. visits k y) a' x
          ≡ meaning codes safe_domains by_identity show_value (λ k b y. visits k y) nested x)
unfolding tree_size
simplify-meaning_example =
    simplify-meaning codes safe_domains by_identity show_value visits nested 20 codes-CodesAreBytes
      show_value-ShowsStrings (omega arith)

execute-simplify_example :
    (r : Result (List Stack)) × Eventually
      (λ m.
        execute codes safe_domains by_identity show_value nested m (cst (mpz 7 unsign) 0 0 ∷ []))
      r
    × Eventually
        (λ m.
          execute codes safe_domains by_identity show_value flat m (cst (mpz 7 unsign) 0 0 ∷ []))
        r
unfolding tree_size Terminates code
execute-simplify_example =
    execute-simplify codes safe_domains by_identity show_value visits nested flat 20
      (cst (mpz 7 unsign) 0 0 ∷ []) codes-CodesAreBytes show_value-ShowsStrings (omega arith)
      flattened (omega arith) (((tt, tt), (tt, tt)), (tt, tt)) (tt, (tt, tt))
