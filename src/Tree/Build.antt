-- ===== src/Tree/Build.antt =====
-- The ops that libzwerg/build.cc makes of a tree, against the meaning of the tree.
use mathlib.Core.Path.{subst}
use dwgrep.Base.{
  ℕ, Bool, true, false, ◌==◌, if◌then◌else◌, ◌≡◌, refl, ap, sym, List, [], ◌∷◌, Option, none, some,
}
use dwgrep.Value.{Value, TypeCodes, get_pos, cst, str, seq, nil}
use dwgrep.Stack.{Stack, Result, ok, err, ◌>>=◌, top}
use dwgrep.Op.{Op, op_origin}
use dwgrep.Op.Stream.{
  Stream, bind, single, append-ends, bind-single, bind-eq, bind_assoc, Eventually, Eventually-const,
  Computes, Computes-eq,
}
use dwgrep.Op.Mapping.{op_origin-Computes, mapping-Computes}
use dwgrep.Op.Words.{const_on}
use dwgrep.Op.Assert.{op_assert-Computes}
use dwgrep.Op.Subx.Computes.{op_subx-Computes}
use dwgrep.Op.Capture.{op_capture-Computes}
use dwgrep.Op.Format.{Stringer}
use dwgrep.Op.Format.Texts.{Texts, TextComputes}
use dwgrep.Op.Format.Stringers.{
  stringer_origin-TextComputes, stringer_lit-TextComputes, stringer_op-TextComputes,
}
use dwgrep.Op.Format.Computes.{op_format-Computes}
use dwgrep.Op.Ifelse.Computes.{op_ifelse-Computes}
use dwgrep.Op.Or.{first_stream, either_of, op_or}
use dwgrep.Op.Or.Computes.{Branch, ops, streams, op_or-Computes}
use dwgrep.Pred.{PredResult, yes, no, negate}
use dwgrep.Pred.Decides.{
  Decides, pred_not-Decides, pred_and-Decides, pred_or-Decides, pred_subx_any-Decides,
}
use dwgrep.Pred as Preds
use dwgrep.Pred.Comparison.{comparison_result}
use dwgrep.Constant.{Domains}
use dwgrep.Value.Compare.{ForeignCmp}
use dwgrep.Op.Closure.{ClosureKind}
use dwgrep.Op.Closure.Computes.{op_tr_closure-Computes}
use dwgrep.Tree.{
  PredTree, Relation, Tree, Trees, word_on, related, build_pred, build_exec, build_cat,
  build_branches, literal, stringer_for, build_stringer,
}
use dwgrep.Tree.Meaning.{
  wanted, holds, meaning, in_turn, first_of_all, with_child, texts, Terminates, AllTerminate,
  PredTerminates,
}

pub record Decided (p : Preds.Pred) (f : Stack → Result PredResult) : Type 1 where
  pub decides : Decides p f

-- Branches that compute what the trees mean.
record Alternatives (bs : List Op) (f : Stack → Stream) : Type 1 where
  branches : List Branch
  are : ops branches ≡ bs
  first : (x : Stack) → first_stream (streams branches) x ≡ f x

-- An op on the upstream, for a tree on its own.
pub alone :
    (o : Op) (m : Stack → Stream)
    → ((g : Stack → Stream) → Computes op_origin g → Computes o (λ x. bind (g x) m))
    → Computes o m
alone o m c =
    Computes-eq o (λ x. bind (single x) m) m (λ x. append-ends (m x)) (c single op_origin-Computes)

chosen_first :
    (bs : List Op) (f : Stack → Stream)
    → Alternatives bs f
    → (up : Op) (g : Stack → Stream) → Computes up g
    → Computes (op_or bs up) (λ x. bind (g x) f)
chosen_first bs f a up g c =
    Computes-eq (op_or bs up) (λ x. bind (g x) (first_stream (streams a.branches)))
      (λ x. bind (g x) f) (λ x. bind-eq (g x) (first_stream (streams a.branches)) f a.first)
      (subst (λ z. Computes (op_or z up) (λ x. bind (g x) (first_stream (streams a.branches))))
        a.are (op_or-Computes a.branches up g c))

another :
    (o : Op) (m : Stack → Stream) (bs : List Op) (f : Stack → Stream)
    → Computes o m
    → Alternatives bs f
    → Alternatives (o ∷ bs) (λ x. either_of (m x) (f x))
another o m bs f c a = record {
  branches = record { op = o; yield = m; computes = c } ∷ a.branches;
  are = ap (λ z. o ∷ z) a.are;
  first = λ x. ap (either_of (m x)) (a.first x);
}

inverted_test :
    (b : Bool) → (ok (if b then yes else no) >>= (λ r. ok (negate r))) ≡ ok (if b then no else yes)
inverted_test true = refl
inverted_test false = refl

-- The negated predicate on the position.
inverted :
    (pos : ℕ) (x : Stack) (r : Result Value)
    → Eventually
        (λ n. r >>= (λ v. ok (if get_pos v == pos then yes else no)) >>= (λ r. ok (negate r)))
        (r >>= (λ v. ok (if get_pos v == pos then no else yes)))
inverted pos x (ok v) = (0, λ m h. inverted_test (get_pos v == pos))
inverted pos x (err e) = Eventually-const _

-- The stringer of a child of a format string.
stringer_for-TextComputes :
    (t : TypeCodes) (show : Value → List ℕ) (l : Option (List ℕ)) (o : Op) (m : Stack → Stream)
    → Computes o m
    → (up : Stringer) (f : Stack → Texts) → TextComputes up f
    → TextComputes (stringer_for t show l o up) (λ x. with_child t show l m (f x))
stringer_for-TextComputes t show (some s) o m c up f d = stringer_lit-TextComputes s up f d
stringer_for-TextComputes t show none o m c up f d = stringer_op-TextComputes t show o up m c f d

module _ (t : TypeCodes) (ds : Domains) (foreign : ForeignCmp) (show : Value → List ℕ)
    (rounds : ClosureKind → Tree → Stack → ℕ) where
  compared :
      (r : Relation)
      → Decides (related t ds foreign r) (λ x. comparison_result t ds foreign (wanted r) x)
  compared Relation.eq x = Eventually-const _
  compared Relation.lt x = Eventually-const _
  compared Relation.gt x = Eventually-const _

  compared_not :
      (r : Relation)
      → Decides
          (Preds.pred_not (related t ds foreign r))
          (λ x. comparison_result t ds foreign (wanted r) x >>= (λ q. ok (negate q)))
  compared_not Relation.eq x = Eventually-const _
  compared_not Relation.lt x = Eventually-const _
  compared_not Relation.gt x = Eventually-const _

  mutual
    unfolding build_pred build_exec build_cat build_branches holds meaning in_turn first_of_all
        texts build_stringer Terminates AllTerminate PredTerminates

    decided :
        (a : PredTree)
        → PredTerminates t ds foreign show rounds a
        → Decided (build_pred t ds foreign show a).result (holds t ds foreign show rounds a)
    decided (PredTree.pred_not a) z = record {
      decides =
          pred_not-Decides (build_pred t ds foreign show a).result
            (holds t ds foreign show rounds a) (decided a z).decides;
    }
    decided (PredTree.pred_or a b) z = record {
      decides =
          pred_or-Decides (build_pred t ds foreign show a).result
            (build_pred t ds foreign show b).result (holds t ds foreign show rounds a)
            (holds t ds foreign show rounds b) (decided a z.0).decides (decided b z.1).decides;
    }
    decided (PredTree.pred_and a b) z = record {
      decides =
          pred_and-Decides (build_pred t ds foreign show a).result
            (build_pred t ds foreign show b).result (holds t ds foreign show rounds a)
            (holds t ds foreign show rounds b) (decided a z.0).decides (decided b z.1).decides;
    }
    decided (PredTree.pred_subx_any a) z = record {
      decides =
          pred_subx_any-Decides (build_exec t ds foreign show a op_origin)
            (meaning t ds foreign show rounds a)
            (alone (build_exec t ds foreign show a op_origin) (meaning t ds foreign show rounds a)
              (built a z op_origin));
    }
    decided (PredTree.pred_pos true pos) z = record { decides = λ x. Eventually-const _ }
    decided (PredTree.pred_pos false pos) z = record { decides = λ x. inverted pos x (top x) }
    decided (PredTree.pred_cmp r true) z = record { decides = compared r }
    decided (PredTree.pred_cmp r false) z = record { decides = compared_not r }

    built :
        (a : Tree)
        → Terminates t ds foreign show rounds a
        → (up : Op) (g : Stack → Stream) → Computes up g
        → Computes
            (build_exec t ds foreign show a up)
            (λ x. bind (g x) (meaning t ds foreign show rounds a))
    built Tree.nop z up g c = mapping-Computes (λ stk. ok stk) up g c
    built Tree.f_debug z up g c = mapping-Computes (λ stk. ok stk) up g c
    built Tree.empty_list z up g c = mapping-Computes (const_on t (seq nil 0)) up g c
    built (Tree.constant n dom) z up g c = mapping-Computes (const_on t (cst n dom 0)) up g c
    built (Tree.text s) z up g c = mapping-Computes (const_on t (str s 0)) up g c
    built (Tree.f_builtin w) z up g c = mapping-Computes (word_on t w) up g c
    built (Tree.assertion a) z up g c =
        op_assert-Computes (build_pred t ds foreign show a).result
          (holds t ds foreign show rounds a) (decided a z).decides up g c
    built (Tree.cat ts) z up g c = built_cat ts z up g c
    built (Tree.alternative ts) z up g c =
        chosen_first (build_branches t ds foreign show ts)
          (first_of_all t ds foreign show rounds ts) (built_branches ts z) up g c
    built (Tree.format ts) z up g c =
        op_format-Computes t show (build_stringer t ds foreign show ts) up
          (texts t ds foreign show rounds ts) (spelled ts z) g c
    built (Tree.capture a) z up g c =
        op_capture-Computes t (build_exec t ds foreign show a op_origin)
          (meaning t ds foreign show rounds a)
          (alone (build_exec t ds foreign show a op_origin) (meaning t ds foreign show rounds a)
            (built a z op_origin))
          up g c
    built (Tree.scope a) z up g c = built a z up g c
    built (Tree.subx_eval a keep) z up g c =
        op_subx-Computes t keep (build_exec t ds foreign show a op_origin) up
          (meaning t ds foreign show rounds a)
          (alone (build_exec t ds foreign show a op_origin) (meaning t ds foreign show rounds a)
            (built a z op_origin))
          g c
    built (Tree.ifelse a b d) z up g c =
        op_ifelse-Computes (build_exec t ds foreign show a op_origin)
          (build_exec t ds foreign show b op_origin) (build_exec t ds foreign show d op_origin) up
          (meaning t ds foreign show rounds a) (meaning t ds foreign show rounds b)
          (meaning t ds foreign show rounds d)
          (alone (build_exec t ds foreign show a op_origin) (meaning t ds foreign show rounds a)
            (built a z.0 op_origin))
          (alone (build_exec t ds foreign show b op_origin) (meaning t ds foreign show rounds b)
            (built b z.1 op_origin))
          (alone (build_exec t ds foreign show d op_origin) (meaning t ds foreign show rounds d)
            (built d z.2 op_origin))
          g c
    built (Tree.close k a) z up g c =
        op_tr_closure-Computes t ds foreign k (build_exec t ds foreign show a op_origin) up
          (meaning t ds foreign show rounds a)
          (alone (build_exec t ds foreign show a op_origin) (meaning t ds foreign show rounds a)
            (built a z.0 op_origin))
          (rounds k a) z.1 g c

    built_cat :
        (ts : Trees)
        → AllTerminate t ds foreign show rounds ts
        → (up : Op) (g : Stack → Stream) → Computes up g
        → Computes
            (build_cat t ds foreign show ts up)
            (λ x. bind (g x) (in_turn t ds foreign show rounds ts))
    built_cat Trees.no_trees z up g c =
        Computes-eq up g (λ x. bind (g x) single) (λ x. sym (bind-single (g x))) c
    built_cat (Trees.and_trees a ts) z up g c =
        Computes-eq (build_cat t ds foreign show ts (build_exec t ds foreign show a up))
          (λ x.
            bind (bind (g x) (meaning t ds foreign show rounds a))
              (in_turn t ds foreign show rounds ts))
          (λ x. bind (g x) (λ y.
            bind (meaning t ds foreign show rounds a y) (in_turn t ds foreign show rounds ts)))
          (λ x.
            bind_assoc (g x) (meaning t ds foreign show rounds a)
              (in_turn t ds foreign show rounds ts))
          (built_cat ts z.1 (build_exec t ds foreign show a up)
            (λ x. bind (g x) (meaning t ds foreign show rounds a)) (built a z.0 up g c))

    built_branches :
        (ts : Trees)
        → AllTerminate t ds foreign show rounds ts
        → Alternatives
            (build_branches t ds foreign show ts)
            (first_of_all t ds foreign show rounds ts)
    built_branches Trees.no_trees z = record { branches = []; are = refl; first = λ x. refl }
    built_branches (Trees.and_trees a ts) z =
        another (build_exec t ds foreign show a op_origin) (meaning t ds foreign show rounds a)
          (build_branches t ds foreign show ts) (first_of_all t ds foreign show rounds ts)
          (alone (build_exec t ds foreign show a op_origin) (meaning t ds foreign show rounds a)
            (built a z.0 op_origin))
          (built_branches ts z.1)

    spelled :
        (ts : Trees)
        → AllTerminate t ds foreign show rounds ts
        → TextComputes (build_stringer t ds foreign show ts) (texts t ds foreign show rounds ts)
    spelled Trees.no_trees z = stringer_origin-TextComputes
    spelled (Trees.and_trees a ts) z =
        stringer_for-TextComputes t show (literal a) (build_exec t ds foreign show a op_origin)
          (meaning t ds foreign show rounds a)
          (alone (build_exec t ds foreign show a op_origin) (meaning t ds foreign show rounds a)
            (built a z.0 op_origin))
          (build_stringer t ds foreign show ts) (texts t ds foreign show rounds ts) (spelled ts z.1)

-- What the ops before it compute, and then what the tree means for each stack that they yield: this
-- is what the ops compute that a tree is built into, if the searches of the closures in the tree end
-- within the bounds.
pub build_exec-Computes :
    (t : TypeCodes) (ds : Domains) (foreign : ForeignCmp) (show : Value → List ℕ)
    (rounds : ClosureKind → Tree → Stack → ℕ) (a : Tree)
    → Terminates t ds foreign show rounds a
    → (up : Op) (g : Stack → Stream) → Computes up g
    → Computes
        (build_exec t ds foreign show a up)
        (λ x. bind (g x) (meaning t ds foreign show rounds a))
build_exec-Computes t ds foreign show rounds a z up g c = built t ds foreign show rounds a z up g c
