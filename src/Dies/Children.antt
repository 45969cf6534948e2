-- ===== src/Dies/Children.antt =====
-- child_iterator visits the children of a DIE.
use dwgrep.Base.{ℕ, List, [], ◌∷◌, none, some}
use dwgrep.Stack.{ok, ◌>>=◌}
use dwgrep.Op.Stream.{Eventually, Eventually-const, Eventually-suc, Eventually-bind}
use dwgrep.Dies.{Libdw, dwpp, child_begin, child_advance, children_from}
use dwgrep.Dies.Preorder.{Forest, nil, tree, first, HasForest}

abbrev pub roots : Forest → List ℕ
roots nil = []
roots (tree d cs ss) = d ∷ roots ss

module _ (dw : Libdw) where
  siblings :
      (f : Forest)
      → HasForest dw f
      → Eventually (λ n. dwpp dw (first f) >>= children_from dw n) (ok (roots f))
  unfolding children_from child_advance
  siblings nil h = Eventually-suc (λ n. children_from dw n none) (ok []) (Eventually-const (ok []))
  siblings (tree d cs ss) (hc, hs, ho, hcs, hss) =
      Eventually-suc (λ n. children_from dw n (some d)) (ok (d ∷ roots ss))
        (Eventually-bind (λ n. dwpp dw (dw.sibling d) >>= children_from dw n) (λ n ds. ok (d ∷ ds))
          (roots ss) (ok (d ∷ roots ss)) (rw hs (siblings ss hss)) (Eventually-const _))

  -- The child_iterator of a DIE goes through its children, in their order, and then is at the end.
  pub children_roots :
      (d : ℕ) (cs ss : Forest)
      → HasForest dw (tree d cs ss)
      → Eventually (λ n. child_begin dw d >>= children_from dw n) (ok (roots cs))
  unfolding child_begin
  children_roots d cs ss (hc, hs, ho, hcs, hss) = rw hc (siblings cs hcs)
