-- ===== src/Coverage/Tests.antt =====
-- Runs of the operations of libzwerg/coverage.cc, and the theorems about them at a coverage of two
-- ranges.
use dwgrep.Base.{Bool, ℕ, ◌+◌, ◌≡◌, arith, true, not, ◌&&◌, ◌||◌, leb, List, [], ◌∷◌}
use dwgrep.Coverage.{Range, range, add}
use dwgrep.Coverage.Ordered.{IsCoverage, between, covers}
use dwgrep.Coverage.Union.{covers-add}
use dwgrep.Coverage.Remove.{remove}
use dwgrep.Coverage.Remove.Laws.{covers-remove}
use dwgrep.Coverage.Query.{is_overlap, intersect}
use dwgrep.Coverage.Query.{find_ranges, find_holes}
use dwgrep.Coverage.Query.Holes.{holes, spans, find_holes-complement}
use dwgrep.Coverage.Query.Covered.{contained, is_overlap_empty}
use dwgrep.Coverage.Query.Intersect.{straddles, covers-intersect}

abbrev two_ranges : List Range
two_ranges = range 10 5 ∷ range 20 4 ∷ []

abbrev bridge : List Range
bridge = range 13 9 ∷ []

two_ranges-IsCoverage : IsCoverage two_ranges
two_ranges-IsCoverage = ground arith

bridge-IsCoverage : IsCoverage bridge
bridge-IsCoverage = ground arith

covers-add_example :
    covers (add two_ranges 13 9) 17 ≡ (between 13 (13 + 9) 17 || covers two_ranges 17)
covers-add_example = covers-add two_ranges 13 9 17 two_ranges-IsCoverage (omega arith)

covers-remove_example :
    covers (remove two_ranges 13 9).0 14 ≡ (covers two_ranges 14 && not (between 13 (13 + 9) 14))
covers-remove_example = covers-remove two_ranges 13 9 14 two_ranges-IsCoverage (omega arith)

is_overlap_empty_example : is_overlap two_ranges 12 0 ≡ contained 12 12 two_ranges
is_overlap_empty_example = is_overlap_empty two_ranges 12 two_ranges-IsCoverage (omega arith)

covers-intersect_example :
    IsCoverage (intersect two_ranges 13 9)
    × ((a : ℕ)
        → covers (intersect two_ranges 13 9) a
          ≡ (covers two_ranges a && between 13 (13 + 9) a || straddles 13 two_ranges a && leb 13 a))
covers-intersect_example =
    covers-intersect two_ranges 13 9 two_ranges-IsCoverage (omega arith) (omega arith)

-- A callback that counts its calls.
abbrev counting : ℕ → ℕ → ℕ → Bool × ℕ
counting s len n = (true, n + 1)

find_holes-complement_example :
    (find_holes counting 0 30 two_ranges 0 ≡ find_ranges counting (holes 0 (0 + 30) two_ranges) 0)
    × ((a : ℕ)
        → covers (holes 0 (0 + 30) two_ranges) a
          ≡ (spans 0 (0 + 30) two_ranges a && not (covers two_ranges a)))
find_holes-complement_example =
    find_holes-complement counting 0 30 two_ranges 0 two_ranges-IsCoverage (omega arith)
      (omega arith)
