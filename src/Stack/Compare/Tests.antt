-- ===== src/Stack/Compare/Tests.antt =====
-- The comparison of a stack of two values to one of one value.
use dwgrep.Base.{◌≡◌, ◌≢◌, ◌⊎◌, arith, true, false}
use dwgrep.Value.Compare.{fail}
use dwgrep.Value.Compare.Laws.{flipped, IsProper, AreProper}
use dwgrep.Samples.{
  codes, codes-AreDistinct, safe_domains, by_identity, by_identity-Laws, two_values, one_value,
}
use dwgrep.Stack.Compare.{IsProperStack, Answers, compare_stack, compare_stack_trichotomy}

two_values-IsProperStack : IsProperStack codes safe_domains by_identity two_values
two_values-IsProperStack = unfold IsProper AreProper in (tt, (omega arith, tt))

one_value-IsProperStack : IsProperStack codes safe_domains by_identity one_value
one_value-IsProperStack = unfold IsProper AreProper in (tt, tt)

compare_stack_trichotomy_example :
    (compare_stack codes safe_domains by_identity two_values one_value ≢ fail)
    × (compare_stack codes safe_domains by_identity one_value two_values
        ≡ flipped (compare_stack codes safe_domains by_identity two_values one_value))
    × (Answers codes safe_domains by_identity by_identity-Laws two_values one_value true false false
        ⊎ (Answers codes safe_domains by_identity by_identity-Laws two_values one_value false true
              false
            ⊎ Answers codes safe_domains by_identity by_identity-Laws two_values one_value false
                false true))
compare_stack_trichotomy_example =
    compare_stack_trichotomy codes safe_domains by_identity by_identity-Laws two_values one_value
      codes-AreDistinct two_values-IsProperStack one_value-IsProperStack
