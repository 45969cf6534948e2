-- ===== src/Tree/Simplify/Children.antt =====
-- The recursion of `simplify` into the children of a tree.
use dwgrep.Base.{ℕ, ◌≤◌, ◌<◌, refl, ap, arith, List}
use dwgrep.Value.{Value, TypeCodes}
use dwgrep.Value.Compare.{ForeignCmp}
use dwgrep.Constant.{Domains}
use dwgrep.Stack.{Stack, Result, ok, err, ◌>>=◌}
use dwgrep.Op.Stream.{Stream, bind}
use dwgrep.Op.Mapping.{returned}
use dwgrep.Op.Assert.{asserted}
use dwgrep.Op.Subx.{keep_on}
use dwgrep.Op.Capture.{tops, with_sequence}
use dwgrep.Op.Closure.{ClosureKind}
use dwgrep.Op.Profiled.{CodesAreBytes, closure-Agree}
use dwgrep.Op.Format.Texts.{pushed}
use dwgrep.Pred.{negate}
use dwgrep.Pred.Decides.{is_any}
use dwgrep.Tree.{Tree, Trees, PredTree}
use dwgrep.Tree.Meaning.{holds, meaning}
use dwgrep.Tree.Profiled.{meaning-AreProfiled}
use dwgrep.Tree.Simplify.{tree_size, pred_size, trees_size, each_tree, each_child, each_pred_child}
use dwgrep.Tree.Simplify.Congruence.{
  ShowsStrings, bounds, m, Simpler, SimplerPred, SimplerAll, Simpler-self, trees_size-le,
  turns-Agree, firsts-Agree, texts-Agree,
}

-- The result is no error, and satisfies P.
abbrev pub Returns : {A : Type 0} → (A → Type 0) → Result A → Type 0
Returns P (ok a) = P a
Returns P (err e) = ⊥

pub Returns-mono :
    {A : Type 0} (P Q : A → Type 0) (r : Result A)
    → ((a : A) → P a → Q a)
    → Returns P r
    → Returns Q r
Returns-mono P Q (ok a) k h = k a h
Returns-mono P Q (err e) k h = absurd h

pub Returns-bind :
    {A B : Type 0} (P : A → Type 0) (Q : B → Type 0) (r : Result A) (k : A → Result B)
    → Returns P r
    → ((a : A) → P a → Returns Q (k a))
    → Returns Q (r >>= k)
Returns-bind P Q (ok a) k h g = g a h
Returns-bind P Q (err e) k h g = absurd h

module _ (t : TypeCodes) (bytes : CodesAreBytes t) (ds : Domains) (foreign : ForeignCmp)
    (show : Value → List ℕ) (shows : ShowsStrings show) (visits : ClosureKind → Stack → ℕ) where
  abbrev pub SimplerTo : Tree → Tree → Type 0
  SimplerTo = Simpler t bytes ds foreign show shows visits

  abbrev pub SimplerPredTo : PredTree → PredTree → Type 0
  SimplerPredTo = SimplerPred t bytes ds foreign show shows visits

  abbrev AllTo : Trees → Trees → Type 0
  AllTo = SimplerAll t bytes ds foreign show shows visits

  abbrev means : Tree → Stack → Stream
  means = m t bytes ds foreign show shows visits

  -- What the recursive calls do with all smaller trees.
  module _ (n : ℕ) (again : Tree → Result Tree) (again_pred : PredTree → Result PredTree)
      (one : (a : Tree) → tree_size a < n → Returns (SimplerTo a) (again a))
      (one_pred : (p : PredTree) → pred_size p < n → Returns (SimplerPredTo p) (again_pred p)) where
    each_tree-Returns :
        (ts : Trees) → trees_size ts < n → Returns (AllTo ts) (each_tree again again_pred ts)
    unfolding each_tree trees_size
    each_tree-Returns Trees.no_trees l = tt
    each_tree-Returns (Trees.and_trees a ts) l =
        Returns-bind (SimplerTo a) (AllTo (Trees.and_trees a ts)) (again a) _ (one a (omega arith))
          (λ a' h.
            Returns-bind (AllTo ts) (AllTo (Trees.and_trees a ts)) (each_tree again again_pred ts) _
              (each_tree-Returns ts (omega arith)) (λ ts' k. (h, k)))

    pub each_child-Returns :
        (a : Tree) → tree_size a ≤ n → Returns (SimplerTo a) (each_child again again_pred a)
    unfolding each_child tree_size meaning
    each_child-Returns Tree.nop l = Simpler-self t bytes ds foreign show shows visits Tree.nop
    each_child-Returns Tree.f_debug l =
        Simpler-self t bytes ds foreign show shows visits Tree.f_debug
    each_child-Returns Tree.empty_list l =
        Simpler-self t bytes ds foreign show shows visits Tree.empty_list
    each_child-Returns (Tree.constant k dom) l =
        Simpler-self t bytes ds foreign show shows visits (Tree.constant k dom)
    each_child-Returns (Tree.text s) l =
        Simpler-self t bytes ds foreign show shows visits (Tree.text s)
    each_child-Returns (Tree.f_builtin w) l =
        Simpler-self t bytes ds foreign show shows visits (Tree.f_builtin w)
    each_child-Returns (Tree.assertion p) l =
        Returns-bind (SimplerPredTo p) (SimplerTo (Tree.assertion p)) (again_pred p) _
          (one_pred p (omega arith))
          (λ p' h. (omega (arith, h.0), λ x q. ap (asserted x) (h.1 x q)))
    each_child-Returns (Tree.cat ts) l =
        Returns-bind (AllTo ts) (SimplerTo (Tree.cat ts)) (each_tree again again_pred ts) _
          (each_tree-Returns ts (omega arith))
          (λ ts' h. (
            omega (arith, trees_size-le t bytes ds foreign show shows visits ts ts' h),
            turns-Agree t bytes ds foreign show shows visits ts ts' h,
          ))
    each_child-Returns (Tree.alternative ts) l =
        Returns-bind (AllTo ts) (SimplerTo (Tree.alternative ts)) (each_tree again again_pred ts) _
          (each_tree-Returns ts (omega arith))
          (λ ts' h. (
            omega (arith, trees_size-le t bytes ds foreign show shows visits ts ts' h),
            firsts-Agree t bytes ds foreign show shows visits ts ts' h,
          ))
    each_child-Returns (Tree.format ts) l =
        Returns-bind (AllTo ts) (SimplerTo (Tree.format ts)) (each_tree again again_pred ts) _
          (each_tree-Returns ts (omega arith))
          (λ ts' h. (
            omega (arith, trees_size-le t bytes ds foreign show shows visits ts ts' h),
            λ x q.
                ap (pushed t show 0)
                  (texts-Agree t bytes ds foreign show shows visits ts ts' x h q),
          ))
    each_child-Returns (Tree.capture a) l =
        Returns-bind (SimplerTo a) (SimplerTo (Tree.capture a)) (again a) _ (one a (omega arith))
          (λ a' h. (
            omega (arith, h.0),
            λ x q. ap (λ ys. returned (tops t ys >>= (λ vs. ok (with_sequence t x vs)))) (h.1 x q),
          ))
    each_child-Returns (Tree.scope a) l =
        Returns-bind (SimplerTo a) (SimplerTo (Tree.scope a)) (again a) _ (one a (omega arith))
          (λ a' h. (omega (arith, h.0), h.1))
    each_child-Returns (Tree.subx_eval a keep) l =
        Returns-bind (SimplerTo a) (SimplerTo (Tree.subx_eval a keep)) (again a) _
          (one a (omega arith))
          (λ a' h. (
            omega (arith, h.0),
            λ x q. ap (λ ys. bind ys (λ y. returned (keep_on t keep x y))) (h.1 x q),
          ))
    each_child-Returns (Tree.ifelse c a b) l =
        Returns-bind (SimplerTo c) (SimplerTo (Tree.ifelse c a b)) (again c) _ (one c (omega arith))
          (λ c' h.
            Returns-bind (SimplerTo a) (SimplerTo (Tree.ifelse c a b)) (again a) _
              (one a (omega arith))
              (λ a' h'.
                Returns-bind (SimplerTo b) (SimplerTo (Tree.ifelse c a b)) (again b) _
                  (one b (omega arith))
                  (λ b' h''. (
                    omega (arith, h.0, h'.0, h''.0),
                    λ x q. rw (h.1 x q, h'.1 x q, h''.1 x q) refl,
                  ))))
    each_child-Returns (Tree.close k a) l =
        Returns-bind (SimplerTo a) (SimplerTo (Tree.close k a)) (again a) _ (one a (omega arith))
          (λ a' h. (
            omega (arith, h.0),
            λ x q.
                closure-Agree t ds foreign (means a')
                  (meaning-AreProfiled t bytes ds foreign show
                    (bounds t bytes ds foreign show shows visits) a')
                  (means a) h.1 k (visits k x) x q,
          ))

    pub each_pred_child-Returns :
        (p : PredTree)
        → pred_size p ≤ n
        → Returns (SimplerPredTo p) (each_pred_child again again_pred p)
    unfolding each_pred_child pred_size holds
    each_pred_child-Returns (PredTree.pred_not p) l =
        Returns-bind (SimplerPredTo p) (SimplerPredTo (PredTree.pred_not p)) (again_pred p) _
          (one_pred p (omega arith))
          (λ p' h. (omega (arith, h.0), λ x q. ap (λ r. r >>= (λ z. ok (negate z))) (h.1 x q)))
    each_pred_child-Returns (PredTree.pred_or a b) l =
        Returns-bind (SimplerPredTo a) (SimplerPredTo (PredTree.pred_or a b)) (again_pred a) _
          (one_pred a (omega arith))
          (λ a' h.
            Returns-bind (SimplerPredTo b) (SimplerPredTo (PredTree.pred_or a b)) (again_pred b) _
              (one_pred b (omega arith))
              (λ b' h'. (omega (arith, h.0, h'.0), λ x q. rw (h.1 x q, h'.1 x q) refl)))
    each_pred_child-Returns (PredTree.pred_and a b) l =
        Returns-bind (SimplerPredTo a) (SimplerPredTo (PredTree.pred_and a b)) (again_pred a) _
          (one_pred a (omega arith))
          (λ a' h.
            Returns-bind (SimplerPredTo b) (SimplerPredTo (PredTree.pred_and a b)) (again_pred b) _
              (one_pred b (omega arith))
              (λ b' h'. (omega (arith, h.0, h'.0), λ x q. rw (h.1 x q, h'.1 x q) refl)))
    each_pred_child-Returns (PredTree.pred_subx_any a) l =
        Returns-bind (SimplerTo a) (SimplerPredTo (PredTree.pred_subx_any a)) (again a) _
          (one a (omega arith)) (λ a' h. (omega (arith, h.0), λ x q. ap is_any (h.1 x q)))
    each_pred_child-Returns (PredTree.pred_pos positive pos) l = (omega arith, λ x q. refl)
    each_pred_child-Returns (PredTree.pred_cmp r positive) l = (omega arith, λ x q. refl)
