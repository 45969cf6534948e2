-- ===== src/Coverage/Ordered.antt =====
-- The invariant of a coverage, and the addresses that it covers.
use dwgrep.Base.{ℕ, suc, ◌+◌, ◌^◌, ◌<◌, ◌≤◌, Bool, false, ◌&&◌, ◌||◌, ltb, leb, List, [], ◌∷◌}
use dwgrep.Coverage.{Range}

-- The ranges are not empty, end within the address space, and lie in order at or above `lo`, with a
-- gap between each two.
abbrev pub Ordered : ℕ → List Range → Type 0
Ordered lo [] = Unit {0}
Ordered lo (r ∷ rs) =
    (lo ≤ r.start)
    × (0 < r.length)
    × (r.start + r.length < 2 ^ 64)
    × Ordered (suc (r.start + r.length)) rs

abbrev pub IsCoverage : List Range → Type 0
IsCoverage cov = Ordered 0 cov

-- Whether the address a lies in [s, e).
abbrev pub between : ℕ → ℕ → ℕ → Bool
between s e a = leb s a && ltb a e

abbrev pub covers : List Range → ℕ → Bool
covers [] a = false
covers (r ∷ rs) a = between r.start (r.start + r.length) a || covers rs a
