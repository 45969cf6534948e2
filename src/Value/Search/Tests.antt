-- ===== src/Value/Search/Tests.antt =====
-- The tests on short sequences and strings.
use dwgrep.Base.{◌≡◌, ◌↔◌, refl, true, ◌==◌, [], ◌∷◌}
use dwgrep.Value.Search.{starts, ends, find_in_seq, find_in_str, begins_with}
use dwgrep.Value.Search.Splits.{StartsWith, EndsWith, Contains, HasElement, searched_parts}

found : find_in_seq ◌==◌ (1 ∷ 2 ∷ 3 ∷ []) (2 ∷ 3 ∷ []) ≡ true
unfolding find_in_seq begins_with
found = refl

ended : ends ◌==◌ (1 ∷ 2 ∷ 3 ∷ []) (2 ∷ 3 ∷ []) ≡ true
unfolding ends
ended = refl

searched_parts_example :
    ((starts ◌==◌ (1 ∷ 2 ∷ 3 ∷ []) (1 ∷ 2 ∷ []) ≡ true)
      ↔ StartsWith ◌==◌ (1 ∷ 2 ∷ 3 ∷ []) (1 ∷ 2 ∷ []))
    × ((ends ◌==◌ (1 ∷ 2 ∷ 3 ∷ []) (1 ∷ 2 ∷ []) ≡ true)
        ↔ EndsWith ◌==◌ (1 ∷ 2 ∷ 3 ∷ []) (1 ∷ 2 ∷ []))
    × ((find_in_seq ◌==◌ (1 ∷ 2 ∷ 3 ∷ []) (1 ∷ 2 ∷ []) ≡ true) ↔ (
        Contains ◌==◌ (1 ∷ 2 ∷ 3 ∷ []) (1 ∷ 2 ∷ [])
        × HasElement ◌==◌ (1 ∷ 2 ∷ 3 ∷ []) (1 ∷ 2 ∷ [])))
    × ((find_in_str (7 ∷ []) [] ≡ true) ↔ Contains ◌==◌ (7 ∷ []) [])
searched_parts_example = searched_parts ◌==◌ (1 ∷ 2 ∷ 3 ∷ []) (1 ∷ 2 ∷ []) (7 ∷ []) []
