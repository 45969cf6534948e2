-- ===== src/Pred/Comparison/Tests.antt =====
-- The comparison words on an integer above an integer, and on an integer above a string.
use dwgrep.Base.{◌≡◌, ◌≢◌, ◌⊎◌, [], ◌∷◌}
use dwgrep.Mpz.{mpz, unsign}
use dwgrep.Value.{Value, cst, str, code}
use dwgrep.Value.Compare.{less, equal}
use dwgrep.Value.Compare.Laws.{flipped}
use dwgrep.Value.Compare.Order.{as_sequences}
use dwgrep.Samples.{codes, safe_domains, by_identity}
use dwgrep.Stack.{Stack, ok}
use dwgrep.Pred.Comparison.{judge, comparison_result, comparison_as_sequences}

abbrev seven : Value
seven = cst (mpz 7 unsign) 0 0

abbrev five : Value
five = cst (mpz 5 unsign) 0 0

abbrev text : Value
text = str [] 0

abbrev on : Value → Value → Stack
on va vb = record { values = va ∷ vb ∷ []; profile = 0 }

comparison_as_sequences_example :
    ((code codes seven ≡ code codes text)
      × (comparison_result codes safe_domains by_identity less (on seven text)
          ≡ ok (judge less (as_sequences codes safe_domains by_identity text seven))))
    ⊎ ((code codes seven ≢ code codes text)
        × (comparison_result codes safe_domains by_identity less (on seven text)
            ≡ ok (judge less (flipped (as_sequences codes safe_domains by_identity text seven))))
        × (as_sequences codes safe_domains by_identity text seven ≢ equal))
comparison_as_sequences_example =
    comparison_as_sequences codes safe_domains by_identity less seven text [] 0
