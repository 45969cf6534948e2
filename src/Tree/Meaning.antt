-- ===== src/Tree/Meaning.antt =====
-- What a tree means: the stacks that it yields for one stack.
use dwgrep.Base.{ℕ, List, [], Option, none, some, true, false, ◌≡◌, ◌==◌, if◌then◌else◌}
use dwgrep.Value.{TypeCodes, Value, get_pos, cst, str, seq, nil}
use dwgrep.Stack.{Stack, Result, ok, ◌>>=◌, top}
use dwgrep.Op.Stream.{Stream, ends, bind, single}
use dwgrep.Op.Mapping.{returned}
use dwgrep.Op.Words.{const_on}
use dwgrep.Op.Assert.{asserted}
use dwgrep.Op.Subx.{keep_on}
use dwgrep.Op.Format.Texts.{Texts, text, done, prefixed, shown_each, pushed}
use dwgrep.Op.Capture.{tops, with_sequence}
use dwgrep.Op.Ifelse.{chosen}
use dwgrep.Op.Or.{either_of}
use dwgrep.Op.Closure.{ClosureKind}
use dwgrep.Op.Closure.Explore.{closure_of, closes}
use dwgrep.Constant.{Domains}
use dwgrep.Value.Compare.{CmpResult, less, equal, greater, ForeignCmp}
use dwgrep.Pred.Comparison.{comparison_result}
use dwgrep.Pred.{PredResult, yes, no, negate, both, either}
use dwgrep.Pred.Decides.{is_any}
use dwgrep.Tree.{PredTree, Relation, Tree, Trees, literal, word_on}

abbrev pub wanted : Relation → CmpResult
wanted Relation.eq = equal
wanted Relation.lt = less
wanted Relation.gt = greater

-- A child of a format string in front of the texts of those behind it
abbrev pub with_child :
    TypeCodes → (Value → List ℕ) → Option (List ℕ) → (Stack → Stream) → Texts → Texts
with_child t show (some s) m xs = prefixed s xs
with_child t show none m xs = shown_each t show m xs

-- `rounds` bounds the visits of each closure; `Terminates` says that the bounds are enough.
module _ (t : TypeCodes) (ds : Domains) (foreign : ForeignCmp) (show : Value → List ℕ)
    (rounds : ClosureKind → Tree → Stack → ℕ) where
  unfoldable mutual
    -- The result of a predicate on a stack.
    pub holds : PredTree → Stack → Result PredResult
    holds (PredTree.pred_not a) x = holds a x >>= (λ r. ok (negate r))
    holds (PredTree.pred_or a b) x = holds a x >>= (λ r. holds b x >>= (λ r'. ok (either r r')))
    holds (PredTree.pred_and a b) x = holds a x >>= (λ r. holds b x >>= (λ r'. ok (both r r')))
    holds (PredTree.pred_subx_any a) x = is_any (meaning a x)
    holds (PredTree.pred_pos true pos) x =
        top x >>= (λ v. ok (if get_pos v == pos then yes else no))
    holds (PredTree.pred_pos false pos) x =
        top x >>= (λ v. ok (if get_pos v == pos then no else yes))
    holds (PredTree.pred_cmp r true) x = comparison_result t ds foreign (wanted r) x
    holds (PredTree.pred_cmp r false) x =
        comparison_result t ds foreign (wanted r) x >>= (λ r. ok (negate r))

    pub meaning : Tree → Stack → Stream
    meaning Tree.nop x = single x
    meaning Tree.f_debug x = single x
    meaning Tree.empty_list x = returned (const_on t (seq nil 0) x)
    meaning (Tree.constant n dom) x = returned (const_on t (cst n dom 0) x)
    meaning (Tree.text s) x = returned (const_on t (str s 0) x)
    meaning (Tree.f_builtin w) x = returned (word_on t w x)
    meaning (Tree.assertion a) x = asserted x (holds a x)
    meaning (Tree.cat ts) x = in_turn ts x
    meaning (Tree.alternative ts) x = first_of_all ts x
    meaning (Tree.format ts) x = pushed t show 0 (texts ts x)
    meaning (Tree.capture a) x =
        returned (tops t (meaning a x) >>= (λ vs. ok (with_sequence t x vs)))
    meaning (Tree.scope a) x = meaning a x
    meaning (Tree.subx_eval a keep) x = bind (meaning a x) (λ y. returned (keep_on t keep x y))
    meaning (Tree.ifelse c a b) x = chosen (meaning c x) (meaning a x) (meaning b x)
    meaning (Tree.close k a) x = closure_of t ds foreign (meaning a) k (rounds k a x) x

    -- Each tree on all that the one before yields.
    pub in_turn : Trees → Stack → Stream
    in_turn Trees.no_trees x = single x
    in_turn (Trees.and_trees a ts) x = bind (meaning a x) (in_turn ts)

    -- The first tree that yields anything.
    pub first_of_all : Trees → Stack → Stream
    first_of_all Trees.no_trees x = ends
    first_of_all (Trees.and_trees a ts) x = either_of (meaning a x) (first_of_all ts x)

    -- The texts of a format string
    pub texts : Trees → Stack → Texts
    texts Trees.no_trees x = text x [] done
    texts (Trees.and_trees a ts) x = with_child t show (literal a) (meaning a) (texts ts x)

  unfoldable mutual
    -- The search of each closure in the tree ends within its bound, from every stack.
    pub Terminates : Tree → Type 0
    Terminates Tree.nop = Unit {0}
    Terminates Tree.f_debug = Unit {0}
    Terminates Tree.empty_list = Unit {0}
    Terminates (Tree.constant n dom) = Unit {0}
    Terminates (Tree.text s) = Unit {0}
    Terminates (Tree.f_builtin w) = Unit {0}
    Terminates (Tree.assertion a) = PredTerminates a
    Terminates (Tree.cat ts) = AllTerminate ts
    Terminates (Tree.alternative ts) = AllTerminate ts
    Terminates (Tree.format ts) = AllTerminate ts
    Terminates (Tree.capture a) = Terminates a
    Terminates (Tree.scope a) = Terminates a
    Terminates (Tree.subx_eval a keep) = Terminates a
    Terminates (Tree.ifelse c a b) = Terminates c × Terminates a × Terminates b
    Terminates (Tree.close k a) =
        Terminates a × ((x : Stack) → closes t ds foreign (meaning a) k (rounds k a x) x ≡ true)

    pub AllTerminate : Trees → Type 0
    AllTerminate Trees.no_trees = Unit {0}
    AllTerminate (Trees.and_trees a ts) = Terminates a × AllTerminate ts

    pub PredTerminates : PredTree → Type 0
    PredTerminates (PredTree.pred_not a) = PredTerminates a
    PredTerminates (PredTree.pred_or a b) = PredTerminates a × PredTerminates b
    PredTerminates (PredTree.pred_and a b) = PredTerminates a × PredTerminates b
    PredTerminates (PredTree.pred_subx_any a) = Terminates a
    PredTerminates (PredTree.pred_pos positive pos) = Unit {0}
    PredTerminates (PredTree.pred_cmp r positive) = Unit {0}
