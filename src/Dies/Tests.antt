-- ===== src/Dies/Tests.antt =====
-- A file of two units. The DIE of the first one has two children, the first of which has one itself.
use dwgrep.Base.{ℕ, ◌==◌, List, [], ◌∷◌, Option, none, some, refl, arith, if◌then◌else◌}
use dwgrep.Stack.{ok, ◌>>=◌}
use dwgrep.Op.Stream.{Eventually}
use dwgrep.Dies.{Neighbour, no_die, found, Libdw, all_dies, dies_from}
use dwgrep.Dies.Preorder.{Forest, nil, tree, CuTree, all_of, HasForest, all_dies_preorder}

abbrev sample_child : ℕ → Neighbour
sample_child d = if d == 11 then found 20 else if d == 20 then found 30 else no_die

abbrev sample_sibling : ℕ → Neighbour
sample_sibling d = if d == 20 then found 40 else no_die

abbrev sample_units : ℕ → Option (ℕ × ℕ)
sample_units offset =
    if offset == 0 then some (50, 11) else if offset == 50 then some (70, 11) else none

abbrev sample : Libdw
sample = record {
  child = sample_child;
  sibling = sample_sibling;
  next_cu = sample_units;
  offdie = λ offset. some offset;
}

abbrev below_root : Forest
below_root = tree 20 (tree 30 nil nil) (tree 40 nil nil)

abbrev two_units : List CuTree
two_units =
    record { next = 50; hsize = 11; root = 11; children = below_root }
    ∷ record { next = 70; hsize = 11; root = 61; children = nil }
    ∷ []

first_known : HasForest sample (tree 11 below_root nil)
first_known = (
  refl,
  refl,
  refl,
  (refl, refl, refl, (refl, refl, refl, tt, tt), (refl, refl, refl, tt, tt)),
  tt,
)

all_dies_preorder_example :
    Eventually (λ n. all_dies sample >>= dies_from sample n) (ok (all_of two_units))
all_dies_preorder_example = all_dies_preorder sample two_units (
  refl,
  refl,
  omega arith,
  first_known,
  (refl, refl, omega arith, (refl, refl, refl, tt, tt), refl),
)
