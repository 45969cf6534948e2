-- ===== src/Selector/Tests.antt =====
-- The selector for an integer above a string
use dwgrep.Base.{◌≡◌, refl, arith, true, [], ◌∷◌, reverse}
use dwgrep.Value.{code}
use dwgrep.Samples.{codes, two_values}
use dwgrep.Stack.Profile.{IsProfiled}
use dwgrep.Selector.{selector_of, profile_of, matches}
use dwgrep.Selector.Matches.{has_types, selector-matches}

two_values-IsProfiled : IsProfiled codes two_values
two_values-IsProfiled = unfold code in ground arith

selector-matches_example :
    matches (selector_of (2 ∷ 1 ∷ [])) (profile_of two_values)
    ≡ has_types codes (reverse (2 ∷ 1 ∷ [])) two_values.values
selector-matches_example =
    selector-matches codes (2 ∷ 1 ∷ []) two_values (omega arith) (omega arith) two_values-IsProfiled

matched : matches (selector_of (2 ∷ 1 ∷ [])) (profile_of two_values) ≡ true
unfolding matches selector_of profile_of
matched = refl
