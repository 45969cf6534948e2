-- ===== src/Layout/Tests.antt =====
-- A layout for two states.
use dwgrep.Base.{ℕ, ◌≡◌, refl, arith, [], ◌∷◌, List}
use dwgrep.Layout.{align_to, reserve, reserve_all}
use dwgrep.Layout.Reserve.{requests, AreLaid, reserve_all-AreLaid}

abbrev two_states : List (ℕ × ℕ)
two_states = (1, 0) ∷ (16, 3) ∷ []

placed : reserve_all (requests two_states) 3 ≡ (3 ∷ 8 ∷ [], 24)
unfolding reserve_all reserve align_to
placed = refl

reserve_all-AreLaid_example :
    AreLaid 3 two_states
      (reserve_all (requests two_states) 3).0
      (reserve_all (requests two_states) 3).1
reserve_all-AreLaid_example =
    reserve_all-AreLaid two_states 3 (omega arith, (omega arith, tt)) (omega arith)
