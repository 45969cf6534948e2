-- ===== src/Tree/Simplify/Correct.antt =====
-- The simplified tree means what the tree means.
use dwgrep.Base.{
  ℕ, zero, suc, ◌+◌, ◌≤◌, ◌<◌, ◌≡◌, ◌==◌, refl, sym, ap, ◌∙◌, arith, List, Option, none, some, inl,
  inr, Bool-cases,
}
use dwgrep.Value.{Value, TypeCodes}
use dwgrep.Value.Compare.{ForeignCmp}
use dwgrep.Constant.{Domains}
use dwgrep.Stack.{Stack, Result, ok, err, ◌>>=◌}
use dwgrep.Stack.Profile.{IsProfiled}
use dwgrep.Op.Closure.{ClosureKind}
use dwgrep.Op.Profiled.{CodesAreBytes}
use dwgrep.Tree.{Tree, Trees, and_trees, no_trees, PredTree, literal}
use dwgrep.Tree.Meaning.{meaning, in_turn}
use dwgrep.Tree.Simplify.{
  tree_size, trees_size, pred_size, cat_of, format_of, count_trees, without_nops, each_child,
  promote_loop, promote_of, promote, only_of, promote_only, if_literal, format_of_one, plain_format,
  drop_of, drop_nops, settle, simplify, simplify_pred,
}
use dwgrep.Tree.Simplify.Congruence.{ShowsStrings, bounds, Simpler-self, Simpler-trans}
use dwgrep.Tree.Simplify.Children.{
  Returns, Returns-bind, Returns-mono, SimplerTo, SimplerPredTo, each_child-Returns,
  each_pred_child-Returns,
}
use dwgrep.Tree.Simplify.Promote.{cat_of-some, cat_size, promote_loop-Returns}
use dwgrep.Tree.Simplify.Steps.{
  format_of-some, without_nops_smaller, turns_only, turns-without_nops, format_literal,
}

module _ (t : TypeCodes) (bytes : CodesAreBytes t) (ds : Domains) (foreign : ForeignCmp)
    (show : Value → List ℕ) (shows : ShowsStrings show) (visits : ClosureKind → Stack → ℕ) where
  abbrev To : Tree → Tree → Type 0
  To = SimplerTo t bytes ds foreign show shows visits

  abbrev rounds : ClosureKind → Tree → Stack → ℕ
  rounds = bounds t bytes ds foreign show shows visits

  same : (a : Tree) → To a a
  same a = Simpler-self t bytes ds foreign show shows visits a

  -- Lists of children that mean the same
  cat_To :
      (a : Tree) (ts us : Trees)
      → a ≡ Tree.cat ts
      → trees_size us ≤ trees_size ts
      → ((x : Stack)
          → in_turn t ds foreign show rounds us x ≡ in_turn t ds foreign show rounds ts x)
      → To a (Tree.cat us)
  cat_To a ts us e l h = rw e (sized ts us l, (λ x q. unfold meaning in h x))
    where
      sized :
          (ts us : Trees)
          → trees_size us ≤ trees_size ts
          → tree_size (Tree.cat us) ≤ tree_size (Tree.cat ts)
      sized ts us l = omega (arith, cat_size (Tree.cat us) us refl, cat_size (Tree.cat ts) ts refl)

  promote_To : (a : Tree) (o : Option Trees) → cat_of a ≡ o → Returns (To a) (promote_of a o)
  promote_To a none q = same a
  promote_To a (some ts) q =
      Returns-bind
        (λ us.
          (trees_size us ≤ trees_size ts)
          × ((x : Stack)
              → in_turn t ds foreign show rounds us x ≡ in_turn t ds foreign show rounds ts x))
        (To a) (promote_loop (trees_size ts + 3) ts) (λ ts'. ok (Tree.cat ts'))
        (promote_loop-Returns t ds foreign show rounds ts)
        (λ us (l, h). cat_To a ts us (cat_of-some a ts q) l h)

  only_size : (a b : Tree) → a ≡ Tree.cat (and_trees b no_trees) → tree_size b < tree_size a
  unfolding tree_size
  only_size a b e = rw e (omega arith)

  format_size : (a b : Tree) → a ≡ Tree.format (and_trees b no_trees) → tree_size b < tree_size a
  unfolding tree_size
  format_size a b e = rw e (omega arith)

  dropped_size :
      (a : Tree) (ts us : Trees)
      → a ≡ Tree.cat ts
      → trees_size us < trees_size ts
      → tree_size (Tree.cat us) < tree_size a
  unfolding tree_size
  dropped_size a ts us e l = rw e (omega arith)

  only_means :
      (a b : Tree) (x : Stack)
      → a ≡ Tree.cat (and_trees b no_trees)
      → meaning t ds foreign show rounds b x ≡ meaning t ds foreign show rounds a x
  only_means a b x e = rw e (unfold meaning in turns_only t ds foreign show rounds b x)

  module _ (n : ℕ) (again : Tree → Result Tree)
      (one : (a : Tree) → tree_size a < n → Returns (To a) (again a)) where
    -- A recursive call on a smaller tree with the same meaning
    call_To :
        (a b : Tree)
        → tree_size a ≤ n
        → tree_size b < tree_size a
        → To a b
        → Returns (To a) (again b)
    call_To a b l less h =
        Returns-mono (To b) (To a) (again b)
          (λ c k. Simpler-trans t bytes ds foreign show shows visits a b c h k)
          (one b (omega arith))

    only_To :
        (a : Tree) (o : Option Trees)
        → tree_size a ≤ n
        → cat_of a ≡ o
        → Returns (To a) (only_of again a o)
    only_To a none l q = same a
    only_To a (some no_trees) l q = same a
    only_To a (some (and_trees b (and_trees c ts))) l q = same a
    only_To a (some (and_trees b no_trees)) l q =
        let e = cat_of-some a (and_trees b no_trees) q in
        call_To a b l (only_size a b e) (omega (arith, only_size a b e), λ x p. only_means a b x e)

    literal-To :
        (a b : Tree) (o : Option (List ℕ))
        → tree_size a ≤ n
        → a ≡ Tree.format (and_trees b no_trees)
        → literal b ≡ o
        → Returns (To a) (if_literal again a b o)
    literal-To a b none l e q = same a
    literal-To a b (some s) l e q = call_To a b l (format_size a b e) (
      omega (arith, format_size a b e),
      λ x p.
          format_literal t ds foreign show rounds b s x q
          ∙ ap (λ z. meaning t ds foreign show rounds z x) (sym e),
    )

    format_To :
        (a : Tree) (o : Option Trees)
        → tree_size a ≤ n
        → format_of a ≡ o
        → Returns (To a) (format_of_one again a o)
    format_To a none l q = same a
    format_To a (some no_trees) l q = same a
    format_To a (some (and_trees b (and_trees c ts))) l q = same a
    format_To a (some (and_trees b no_trees)) l q =
        literal-To a b (literal b) l (format_of-some a (and_trees b no_trees) q) refl

    drop_To :
        (a : Tree) (o : Option Trees)
        → tree_size a ≤ n
        → cat_of a ≡ o
        → Returns (To a) (drop_of again a o)
    drop_To a none l q = same a
    drop_To a (some ts) l q = elim (Bool-cases (count_trees (without_nops ts) == count_trees ts)) [
      | inl e ↦ rw e (same a)
      | inr e ↦ rw e (
          let d = cat_of-some a ts q in
          let less = dropped_size a ts (without_nops ts) d (without_nops_smaller ts e) in
          call_To a (Tree.cat (without_nops ts)) l less (
            cat_To a ts (without_nops ts) d (omega (arith, without_nops_smaller ts e))
              (turns-without_nops t ds foreign show rounds ts)))
    ]

    -- A step that is made with the tree that the steps before it have left
    then_To :
        (a : Tree) (r : Result Tree) (k : Tree → Result Tree)
        → tree_size a ≤ n
        → Returns (To a) r
        → ((b : Tree) → tree_size b ≤ n → Returns (To b) (k b))
        → Returns (To a) (r >>= k)
    then_To a r k l h g = Returns-bind (To a) (To a) r k h (λ b s.
        Returns-mono (To b) (To a) (k b)
          (λ c z. Simpler-trans t bytes ds foreign show shows visits a b c s z)
          (g b (omega (arith, s.0, l))))

    settle-To : (a : Tree) → tree_size a ≤ n → Returns (To a) (settle again a)
    unfolding settle
    settle-To a l =
        then_To a (promote a) _ l (unfold promote in promote_To a (cat_of a) refl) (λ b k.
          then_To b (promote_only again b) _ k (unfold promote_only in only_To b (cat_of b) k refl)
            (λ c k'.
              then_To c (plain_format again c) _ k'
                (unfold plain_format in format_To c (format_of c) k' refl)
                (λ d k''. unfold drop_nops in drop_To d (cat_of d) k'' refl)))

  mutual
    unfolding simplify simplify_pred

    simplified : (n : ℕ) (a : Tree) → tree_size a < n → Returns (To a) (simplify n a)
    simplified zero a l = absurd (omega arith)
    simplified (suc n) a l =
        then_To n (simplify n) (simplified n) a (each_child (simplify n) (simplify_pred n) a)
          (settle (simplify n)) (omega arith)
          (each_child-Returns t bytes ds foreign show shows visits n (simplify n) (simplify_pred n)
            (simplified n) (simplified_pred n) a (omega arith))
          (settle-To n (simplify n) (simplified n))

    simplified_pred :
        (n : ℕ) (p : PredTree)
        → pred_size p < n
        → Returns (SimplerPredTo t bytes ds foreign show shows visits p) (simplify_pred n p)
    simplified_pred zero p l = absurd (omega arith)
    simplified_pred (suc n) p l =
        each_pred_child-Returns t bytes ds foreign show shows visits n (simplify n)
          (simplify_pred n) (simplified n) (simplified_pred n) p (omega arith)

returned : {A : Type 0} (P : A → Type 0) (r : Result A) → Returns P r → (a : A) × (r ≡ ok a) × P a
returned P (ok a) h = (a, refl, h)
returned P (err e) h = absurd h

-- With more fuel than the tree has nodes, `simplify` ends. The tree that it leaves has no more nodes,
-- and yields the same stacks for each stack with a right profile, whatever bound is set for the
-- visits of the closures. The type codes are bytes, and a string is shown as its text.
pub simplify-meaning :
    (t : TypeCodes) (ds : Domains) (foreign : ForeignCmp) (show : Value → List ℕ)
    (visits : ClosureKind → Stack → ℕ) (a : Tree) (n : ℕ)
    → CodesAreBytes t
    → ShowsStrings show
    → tree_size a < n
    → (a' : Tree) × (simplify n a ≡ ok a')
      × (tree_size a' ≤ tree_size a)
      × ((x : Stack)
          → IsProfiled t x
          → meaning t ds foreign show (λ k b y. visits k y) a' x
            ≡ meaning t ds foreign show (λ k b y. visits k y) a x)
simplify-meaning t ds foreign show visits a n bytes shows l =
    let (a', e, h) =
      returned (SimplerTo t bytes ds foreign show shows visits a) (simplify n a)
        (simplified t bytes ds foreign show shows visits n a l) in
    (a', e, h.0, h.1)
