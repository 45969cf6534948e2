-- ===== src/Tree/Simplify/Promote.antt =====
-- The promotion of the children of a CAT within a CAT.
use dwgrep.Base.{
  ℕ, zero, suc, ◌+◌, ◌≤◌, ◌<◌, ◌≡◌, refl, sym, ap, ◌∙◌, arith, Bool, true, false, List, Option,
  none, some,
}
use dwgrep.Value.{Value, TypeCodes}
use dwgrep.Value.Compare.{ForeignCmp}
use dwgrep.Constant.{Domains}
use dwgrep.Stack.{Stack, ok}
use dwgrep.Op.Stream.{Stream, bind, append-ends, bind-eq, bind_assoc}
use dwgrep.Op.Closure.{ClosureKind}
use dwgrep.Tree.{Tree, Trees, and_trees, no_trees}
use dwgrep.Tree.Meaning.{meaning, in_turn}
use dwgrep.Tree.Simplify.{
  tree_size, trees_size, cat_of, append_trees, promote_child, promote_pass, if_changed,
  promote_loop,
}
use dwgrep.Tree.Simplify.Children.{Returns, Returns-bind, Returns-mono}

pub cat_of-some : (a : Tree) (us : Trees) → cat_of a ≡ some us → a ≡ Tree.cat us
cat_of-some Tree.nop us q = absurd (cc)
cat_of-some (Tree.cat ts) us q = cc
cat_of-some _ us q = absurd (cc)

pub tree_size_pos : (a : Tree) → 0 < tree_size a
unfolding tree_size
tree_size_pos Tree.nop = omega arith
tree_size_pos _ = omega arith

trees_size-append :
    (us ts : Trees) → trees_size (append_trees us ts) ≡ trees_size us + trees_size ts
unfolding trees_size
trees_size-append no_trees ts = omega arith
trees_size-append (and_trees a us) ts = omega (arith, trees_size-append us ts)

pub cat_size : (a : Tree) (us : Trees) → a ≡ Tree.cat us → tree_size a ≡ suc (trees_size us)
unfolding tree_size
cat_size a us e = ap tree_size e

-- No tree of the list is of type CAT.
abbrev NoCats : Trees → Type 0
NoCats no_trees = Unit {0}
NoCats (and_trees a ts) = (cat_of a ≡ none) × NoCats ts

module _ (t : TypeCodes) (ds : Domains) (foreign : ForeignCmp) (show : Value → List ℕ)
    (rounds : ClosureKind → Tree → Stack → ℕ) where
  abbrev pub turns : Trees → Stack → Stream
  turns ts = in_turn t ds foreign show rounds ts

  turns-append :
      (us ts : Trees) (x : Stack) → turns (append_trees us ts) x ≡ bind (turns us x) (turns ts)
  unfolding in_turn
  turns-append no_trees ts x = sym (append-ends (turns ts x))
  turns-append (and_trees a us) ts x =
      bind-eq (meaning t ds foreign show rounds a x) (turns (append_trees us ts))
        (λ y. bind (turns us y) (turns ts)) (turns-append us ts)
      ∙ sym (bind_assoc (meaning t ds foreign show rounds a x) (turns us) (turns ts))

  turns_cat :
      (a : Tree) (us ts : Trees) (x : Stack)
      → a ≡ Tree.cat us
      → turns (append_trees us ts) x ≡ turns (and_trees a ts) x
  turns_cat a us ts x e = rw e (unfold meaning in_turn in turns-append us ts x)

  -- What a pass makes of the list
  abbrev Passed : Trees → Trees × Bool → Type 0
  Passed ts (ts', changed) =
      (trees_size ts' ≤ trees_size ts) × NoCats ts' × ((x : Stack) → turns ts' x ≡ turns ts x)

  pub turns_behind :
      (a : Tree) (ts ts' : Trees)
      → ((x : Stack) → turns ts' x ≡ turns ts x)
      → (x : Stack) → turns (and_trees a ts') x ≡ turns (and_trees a ts) x
  unfolding in_turn
  turns_behind a ts ts' e x =
      bind-eq (meaning t ds foreign show rounds a x) (turns ts') (turns ts) e

  size_behind :
      (a : Tree) (ts ts' : Trees)
      → trees_size ts' ≤ trees_size ts
      → trees_size (and_trees a ts') ≤ trees_size (and_trees a ts)
  unfolding trees_size
  size_behind a ts ts' l = omega arith

  size_of_next :
      (a : Tree) (ts : Trees) (n : ℕ) → trees_size (and_trees a ts) < suc n → trees_size ts < n
  unfolding trees_size
  size_of_next a ts n l = omega (arith, tree_size_pos a)

  size_of_promoted :
      (a : Tree) (us ts : Trees)
      → a ≡ Tree.cat us
      → trees_size (append_trees us ts) < trees_size (and_trees a ts)
  unfolding trees_size
  size_of_promoted a us ts e = omega (arith, trees_size-append us ts, cat_size a us e)

  pass_child :
      (n : ℕ) (a : Tree) (o : Option Trees) (ts : Trees) (changed : Bool)
      → cat_of a ≡ o
      → trees_size (and_trees a ts) < suc n
      → ((us : Trees) (c : Bool) → trees_size us < n → Returns (Passed us) (promote_pass n us c))
      → Returns (Passed (and_trees a ts)) (promote_child (promote_pass n) a o ts changed)
  pass_child n a (some us) ts changed q l ih =
      let e = cat_of-some a us q in
      let less = size_of_promoted a us ts e in
      Returns-mono (Passed (append_trees us ts)) (Passed (and_trees a ts))
        (promote_pass n (append_trees us ts) true)
        (λ (ts', c) (h, k, z). (omega (arith, h, less), k, λ x. z x ∙ turns_cat a us ts x e))
        (ih (append_trees us ts) true (omega (arith, less, l)))
  pass_child n a none ts changed q l ih =
      Returns-bind (Passed ts) (Passed (and_trees a ts)) (promote_pass n ts changed) _
        (ih ts changed (size_of_next a ts n l))
        (λ (ts', c) (h, k, z). (size_behind a ts ts' h, (q, k), turns_behind a ts ts' z))

  promote_pass-Returns :
      (n : ℕ) (ts : Trees) (changed : Bool)
      → trees_size ts < n
      → Returns (Passed ts) (promote_pass n ts changed)
  unfolding promote_pass
  promote_pass-Returns zero ts changed l = absurd (omega arith)
  promote_pass-Returns (suc n) no_trees changed l = (omega arith, tt, λ x. refl)
  promote_pass-Returns (suc n) (and_trees a ts) changed l =
      pass_child n a (cat_of a) ts changed refl l (promote_pass-Returns n)

  pass_settled :
      (n : ℕ) (ts : Trees) (changed : Bool)
      → trees_size ts < n
      → NoCats ts
      → promote_pass n ts changed ≡ ok (ts, changed)
  unfolding promote_pass
  pass_settled zero ts changed l c = absurd (omega arith)
  pass_settled (suc n) no_trees changed l c = refl
  pass_settled (suc n) (and_trees a ts) changed l c =
      rw (c.0, pass_settled n ts changed (size_of_next a ts n l) c.1) refl

  -- A second round finds nothing to promote.
  again_settled :
      (n : ℕ) (ts : Trees) (p : Trees × Bool)
      → trees_size ts + 1 < n
      → Passed ts p
      → Returns
          (λ us. (trees_size us ≤ trees_size ts) × ((x : Stack) → turns us x ≡ turns ts x))
          (if_changed (promote_loop n) p)
  unfolding promote_loop
  again_settled n ts (ts', false) l (h, k, z) = (h, z)
  again_settled zero ts (ts', true) l (h, k, z) = absurd (omega arith)
  again_settled (suc n) ts (ts', true) l (h, k, z) =
      rw (pass_settled n ts' false (omega (arith, h, l)) k) (h, z)

  looped :
      (n : ℕ) (ts : Trees)
      → trees_size ts + 1 < n
      → Returns
          (λ us. (trees_size us ≤ trees_size ts) × ((x : Stack) → turns us x ≡ turns ts x))
          (promote_loop (suc n) ts)
  unfolding promote_loop
  looped n ts l =
      Returns-bind (Passed ts)
        (λ us. (trees_size us ≤ trees_size ts) × ((x : Stack) → turns us x ≡ turns ts x))
        (promote_pass n ts false) (if_changed (promote_loop n))
        (promote_pass-Returns n ts false (omega (arith, l))) (λ p h. again_settled n ts p l h)

  -- The loop ends within its fuel, with a list that has no more nodes and means the same.
  pub promote_loop-Returns :
      (ts : Trees)
      → Returns
          (λ us. (trees_size us ≤ trees_size ts) × ((x : Stack) → turns us x ≡ turns ts x))
          (promote_loop (trees_size ts + 3) ts)
  promote_loop-Returns ts =
      let three : trees_size ts + 3 ≡ suc (trees_size ts + 2) = omega arith in
      rw three (looped (trees_size ts + 2) ts (omega arith))
