-- ===== src/Tree/Simplify.antt =====
-- tree::simplify of libzwerg/tree.cc, on the trees that Tree has. The number is the fuel for the
-- recursion.
pub mod Congruence
pub mod Children
pub mod Promote
pub mod Steps
pub mod Correct
mod Tests
use dwgrep.Base.{
  ℕ, zero, suc, ◌+◌, ◌==◌, Bool, true, false, if◌then◌else◌, List, Option, none, some,
}
use dwgrep.Stack.{Result, ok, err, stuck, ◌>>=◌}
use dwgrep.Tree.{PredTree, Tree, Trees, no_trees, and_trees, literal}

-- The children of a tree of type CAT, and of one of type FORMAT
abbrev pub cat_of : Tree → Option Trees
cat_of (Tree.cat ts) = some ts
cat_of Tree.nop = none
cat_of Tree.f_debug = none
cat_of Tree.empty_list = none
cat_of (Tree.constant n dom) = none
cat_of (Tree.text s) = none
cat_of (Tree.f_builtin w) = none
cat_of (Tree.assertion a) = none
cat_of (Tree.alternative ts) = none
cat_of (Tree.format ts) = none
cat_of (Tree.capture a) = none
cat_of (Tree.scope a) = none
cat_of (Tree.subx_eval a keep) = none
cat_of (Tree.ifelse c a b) = none
cat_of (Tree.close k a) = none

abbrev pub format_of : Tree → Option Trees
format_of (Tree.format ts) = some ts
format_of Tree.nop = none
format_of Tree.f_debug = none
format_of Tree.empty_list = none
format_of (Tree.constant n dom) = none
format_of (Tree.text s) = none
format_of (Tree.f_builtin w) = none
format_of (Tree.assertion a) = none
format_of (Tree.cat ts) = none
format_of (Tree.alternative ts) = none
format_of (Tree.capture a) = none
format_of (Tree.scope a) = none
format_of (Tree.subx_eval a keep) = none
format_of (Tree.ifelse c a b) = none
format_of (Tree.close k a) = none

abbrev pub is_nop : Tree → Bool
is_nop Tree.nop = true
is_nop Tree.f_debug = false
is_nop Tree.empty_list = false
is_nop (Tree.constant n dom) = false
is_nop (Tree.text s) = false
is_nop (Tree.f_builtin w) = false
is_nop (Tree.assertion a) = false
is_nop (Tree.cat ts) = false
is_nop (Tree.alternative ts) = false
is_nop (Tree.format ts) = false
is_nop (Tree.capture a) = false
is_nop (Tree.scope a) = false
is_nop (Tree.subx_eval a keep) = false
is_nop (Tree.ifelse c a b) = false
is_nop (Tree.close k a) = false

-- The number of nodes
unfoldable mutual
  pub tree_size : Tree → ℕ
  tree_size Tree.nop = 1
  tree_size Tree.f_debug = 1
  tree_size Tree.empty_list = 1
  tree_size (Tree.constant n dom) = 1
  tree_size (Tree.text s) = 1
  tree_size (Tree.f_builtin w) = 1
  tree_size (Tree.assertion a) = suc (pred_size a)
  tree_size (Tree.cat ts) = suc (trees_size ts)
  tree_size (Tree.alternative ts) = suc (trees_size ts)
  tree_size (Tree.format ts) = suc (trees_size ts)
  tree_size (Tree.capture a) = suc (tree_size a)
  tree_size (Tree.scope a) = suc (tree_size a)
  tree_size (Tree.subx_eval a keep) = suc (tree_size a)
  tree_size (Tree.ifelse c a b) = suc (tree_size c + tree_size a + tree_size b)
  tree_size (Tree.close k a) = suc (tree_size a)

  pub pred_size : PredTree → ℕ
  pred_size (PredTree.pred_not a) = suc (pred_size a)
  pred_size (PredTree.pred_or a b) = suc (pred_size a + pred_size b)
  pred_size (PredTree.pred_and a b) = suc (pred_size a + pred_size b)
  pred_size (PredTree.pred_subx_any a) = suc (tree_size a)
  pred_size (PredTree.pred_pos positive pos) = 1
  pred_size (PredTree.pred_cmp r positive) = 1

  pub trees_size : Trees → ℕ
  trees_size no_trees = 0
  trees_size (and_trees a ts) = tree_size a + trees_size ts

abbrev pub append_trees : Trees → Trees → Trees
append_trees no_trees us = us
append_trees (and_trees a ts) us = and_trees a (append_trees ts us)

abbrev pub count_trees : Trees → ℕ
count_trees no_trees = 0
count_trees (and_trees a ts) = suc (count_trees ts)

-- "Recurse."
module _ (again : Tree → Result Tree) (again_pred : PredTree → Result PredTree) where
  pub each_tree : Trees → Result Trees
  each_tree no_trees = ok no_trees
  each_tree (and_trees a ts) = do a' ← again a; ts' ← each_tree ts; ok (and_trees a' ts')

  pub each_child : Tree → Result Tree
  each_child Tree.nop = ok Tree.nop
  each_child Tree.f_debug = ok Tree.f_debug
  each_child Tree.empty_list = ok Tree.empty_list
  each_child (Tree.constant n dom) = ok (Tree.constant n dom)
  each_child (Tree.text s) = ok (Tree.text s)
  each_child (Tree.f_builtin w) = ok (Tree.f_builtin w)
  each_child (Tree.assertion a) = do a' ← again_pred a; ok (Tree.assertion a')
  each_child (Tree.cat ts) = do ts' ← each_tree ts; ok (Tree.cat ts')
  each_child (Tree.alternative ts) = do ts' ← each_tree ts; ok (Tree.alternative ts')
  each_child (Tree.format ts) = do ts' ← each_tree ts; ok (Tree.format ts')
  each_child (Tree.capture a) = do a' ← again a; ok (Tree.capture a')
  each_child (Tree.scope a) = do a' ← again a; ok (Tree.scope a')
  each_child (Tree.subx_eval a keep) = do a' ← again a; ok (Tree.subx_eval a' keep)
  each_child (Tree.ifelse c a b) = do
    c' ← again c
    a' ← again a
    b' ← again b
    ok (Tree.ifelse c' a' b')
  each_child (Tree.close k a) = do a' ← again a; ok (Tree.close k a')

  pub each_pred_child : PredTree → Result PredTree
  each_pred_child (PredTree.pred_not a) = do a' ← again_pred a; ok (PredTree.pred_not a')
  each_pred_child (PredTree.pred_or a b) = do
    a' ← again_pred a
    b' ← again_pred b
    ok (PredTree.pred_or a' b')
  each_pred_child (PredTree.pred_and a b) = do
    a' ← again_pred a
    b' ← again_pred b
    ok (PredTree.pred_and a' b')
  each_pred_child (PredTree.pred_subx_any a) = do a' ← again a; ok (PredTree.pred_subx_any a')
  each_pred_child (PredTree.pred_pos positive pos) = ok (PredTree.pred_pos positive pos)
  each_pred_child (PredTree.pred_cmp r positive) = ok (PredTree.pred_cmp r positive)

-- The child at i, which is replaced by its children if it is a CAT
abbrev pub promote_child :
    (Trees → Bool → Result (Trees × Bool))
    → Tree
    → Option Trees
    → Trees
    → Bool
    → Result (Trees × Bool)
promote_child go a (some us) ts changed = go (append_trees us ts) true
promote_child go a none ts changed =
    go ts changed >>= (λ (ts', changed'). ok (and_trees a ts', changed'))

-- The loop over i, on the children from i on, with `changed`
pub promote_pass : ℕ → Trees → Bool → Result (Trees × Bool)
promote_pass zero ts changed = err stuck
promote_pass (suc n) no_trees changed = ok (no_trees, changed)
promote_pass (suc n) (and_trees a ts) changed =
    promote_child (promote_pass n) a (cat_of a) ts changed

abbrev pub if_changed : (Trees → Result Trees) → Trees × Bool → Result Trees
if_changed go (ts, true) = go ts
if_changed go (ts, false) = ok ts

-- The loop `while (true)`
pub promote_loop : ℕ → Trees → Result Trees
promote_loop zero ts = err stuck
promote_loop (suc n) ts = promote_pass n ts false >>= if_changed (promote_loop n)

-- "Promote CAT's in CAT nodes". Two rounds of the loop are enough, and the second changes nothing.
abbrev pub promote_of : Tree → Option Trees → Result Tree
promote_of t none = ok t
promote_of t (some ts) = promote_loop (trees_size ts + 3) ts >>= (λ ts'. ok (Tree.cat ts'))

pub promote : Tree → Result Tree
unfolding promote_loop
promote t = promote_of t (cat_of t)

-- std::remove_if with the test for NOP
pub without_nops : Trees → Trees
without_nops no_trees = no_trees
without_nops (and_trees a ts) = if is_nop a then without_nops ts else and_trees a (without_nops ts)

module _ (again : Tree → Result Tree) where
  abbrev pub only_of : Tree → Option Trees → Result Tree
  only_of t (some (and_trees a no_trees)) = again a
  only_of t (some (and_trees a (and_trees b ts))) = ok t
  only_of t (some no_trees) = ok t
  only_of t none = ok t

  -- "Promote CAT's only child."
  pub promote_only : Tree → Result Tree
  promote_only t = only_of t (cat_of t)

  abbrev pub if_literal : Tree → Tree → Option (List ℕ) → Result Tree
  if_literal t a (some s) = again a
  if_literal t a none = ok t

  abbrev pub format_of_one : Tree → Option Trees → Result Tree
  format_of_one t (some (and_trees a no_trees)) = if_literal t a (literal a)
  format_of_one t (some (and_trees a (and_trees b ts))) = ok t
  format_of_one t (some no_trees) = ok t
  format_of_one t none = ok t

  -- "Change (FORMAT (STR)) to (STR)."
  pub plain_format : Tree → Result Tree
  plain_format t = format_of_one t (format_of t)

  abbrev pub drop_of : Tree → Option Trees → Result Tree
  drop_of t none = ok t
  drop_of t (some ts) =
      if count_trees (without_nops ts) == count_trees ts
      then ok t
      else again (Tree.cat (without_nops ts))

  -- "Drop NOP's in CAT nodes."
  pub drop_nops : Tree → Result Tree
  drop_nops t = drop_of t (cat_of t)

  -- What follows the recursion. After a recursive call the function goes on.
  pub settle : Tree → Result Tree
  unfolding promote promote_only plain_format drop_nops
  settle t = do t1 ← promote t; t2 ← promote_only t1; t3 ← plain_format t2; drop_nops t3

-- tree::simplify
mutual
  pub simplify : ℕ → Tree → Result Tree
  simplify zero t = err stuck
  simplify (suc n) t = each_child (simplify n) (simplify_pred n) t >>= settle (simplify n)

  -- The same for a predicate, where only the recursion applies
  pub simplify_pred : ℕ → PredTree → Result PredTree
  simplify_pred zero p = err stuck
  simplify_pred (suc n) p = each_pred_child (simplify n) (simplify_pred n) p
