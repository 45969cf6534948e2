-- ===== src/Op/Merge/Tests.antt =====
-- A merge with two branches on an origin: one that changes nothing, and one that swaps two values.
use dwgrep.Base.{List, [], ◌∷◌, refl}
use dwgrep.Samples.{codes, one_value, two_values}
use dwgrep.Stack.{ok}
use dwgrep.Op.{op_origin}
use dwgrep.Op.Stream.{single, ends, Drains}
use dwgrep.Op.Mapping.{op_origin-Computes, returned}
use dwgrep.Op.Words.{swap_on}
use dwgrep.Op.Merge.Branches.{mapping_branch, mapping_branch-Serves}
use dwgrep.Op.Merge.Arms.{Arm}
use dwgrep.Op.Merge.Turns.{merge, Finished}
use dwgrep.Op.Merge.Order.{merged}
use dwgrep.Op.Merge.Computes.{op_merge-Drains}

abbrev two_arms : List (Arm op_origin 2)
two_arms =
    record {
      branch = λ id. mapping_branch op_origin 2 id (λ stk. ok stk);
      yield = λ x. returned (ok x);
      serves = λ id. mapping_branch-Serves op_origin 2 id (λ stk. ok stk);
    }
    ∷ record {
      branch = λ id. mapping_branch op_origin 2 id (swap_on codes);
      yield = λ x. returned (swap_on codes x);
      serves = λ id. mapping_branch-Serves op_origin 2 id (swap_on codes);
    }
    ∷ []

op_merge-Drains_example :
    Drains
      (merge op_origin 2 two_arms)
      ((merge op_origin 2 two_arms).set_next two_values (merge op_origin 2 two_arms).init)
      (merged op_origin 2 two_arms 0 (single two_values))
      (λ s.
        Drains
          (merge op_origin 2 two_arms)
          ((merge op_origin 2 two_arms).set_next one_value s)
          ends
          (Finished op_origin 2 two_arms))
op_merge-Drains_example =
    op_merge-Drains op_origin single op_origin-Computes 0 two_arms two_values one_value refl
