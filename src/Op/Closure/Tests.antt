-- ===== src/Op/Closure/Tests.antt =====
-- The closure of `drop` and of an op that yields its stack again.
use dwgrep.Base.{inl, inr, ℕ, suc, ◌+◌, ◌≡◌, refl, arith, true, [], ◌∷◌, length}
use dwgrep.Stack.{Stack}
use dwgrep.Stack.Compare.{IsProperStack}
use dwgrep.Value.Compare.Laws.{IsProper, AreProper}
use dwgrep.Samples.{codes, safe_domains, by_identity, by_identity-Laws, two_values}
use dwgrep.Op.{Op, op_origin, mapping}
use dwgrep.Op.Stream.{Stream, single, bind, Computes, Computes-eq, append-ends}
use dwgrep.Op.Mapping.{op_origin-Computes, mapping-Computes}
use dwgrep.Op.Words.{drop_on}
use dwgrep.Op.Closure.{star, plus, is_seen, op_tr_closure}
use dwgrep.Op.Closure.Explore.{sweep, explore, closure_of, closes}
use dwgrep.Op.Closure.Computes.{op_tr_closure-Computes}
use dwgrep.Op.Closure.Found.{AllOf, Among, Succeeds}
use dwgrep.Op.Closure.Apart.{Distinct}
use dwgrep.Op.Closure.Complete.{Finds}
use dwgrep.Op.Closure.Correct.{InClosure, closure_sound, closure_complete}
use dwgrep.Op.Closure.Finite.{closes-finite, same_stack_self}
use dwgrep.Op.Closure.Drops.{dropped, drop-closes}

abbrev dropping : Op
dropping = mapping (drop_on codes) op_origin

abbrev dropped_of : Stack → Stream
dropped_of = dropped codes safe_domains by_identity

dropping-Computes : Computes dropping dropped_of
dropping-Computes =
    Computes-eq dropping (λ x. bind (single x) dropped_of) dropped_of
      (λ x. append-ends (dropped_of x))
      (mapping-Computes (drop_on codes) op_origin single op_origin-Computes)

abbrev visits : Stack → ℕ
visits x = suc (suc (length x.values))

two_values-IsProperStack : IsProperStack codes safe_domains by_identity two_values
two_values-IsProperStack = unfold IsProper AreProper in (tt, (omega arith, tt))

op_tr_closure-Computes_example :
    Computes (op_tr_closure codes safe_domains by_identity plus dropping op_origin) (λ x.
      bind (single x) (λ y. closure_of codes safe_domains by_identity dropped_of plus (visits y) y))
op_tr_closure-Computes_example =
    op_tr_closure-Computes codes safe_domains by_identity plus dropping op_origin dropped_of
      dropping-Computes visits (λ x. drop-closes codes safe_domains by_identity plus x) single
      op_origin-Computes

closure_sound_example :
    AllOf
      (InClosure star dropped_of two_values)
      (closure_of codes safe_domains by_identity dropped_of star 4 two_values)
    × Distinct codes safe_domains by_identity []
        (closure_of codes safe_domains by_identity dropped_of star 4 two_values)
closure_sound_example = closure_sound codes safe_domains by_identity dropped_of star 4 two_values

again_ends : Succeeds (closure_of codes safe_domains by_identity single plus 3 two_values)
unfolding explore sweep is_seen
again_ends =
    rw
      (same_stack_self codes safe_domains by_identity by_identity-Laws two_values
        two_values-IsProperStack)
      tt

closure_complete_example :
    Finds codes safe_domains by_identity
      (closure_of codes safe_domains by_identity single plus 3 two_values)
      two_values
closure_complete_example =
    closure_complete codes safe_domains by_identity single plus 3 two_values two_values two_values
      again_ends (inl refl) (inl refl)

only : (y : Stack) → Among (two_values ∷ []) y → IsProperStack codes safe_domains by_identity y
only y (inl e) = rw e two_values-IsProperStack
only y (inr m) = absurd m

closes-finite_example :
    closes codes safe_domains by_identity single star (length (two_values ∷ []) + 2) two_values
    ≡ true
closes-finite_example =
    closes-finite codes safe_domains by_identity by_identity-Laws single (two_values ∷ []) star
      two_values (λ y m. only y m) (λ y m. (m, tt)) (inl refl)
