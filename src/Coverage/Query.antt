-- ===== src/Coverage/Query.antt =====
-- The queries of libzwerg/coverage.cc: is_covered, is_overlap, intersect, find_ranges, find_holes.
pub mod Covered
pub mod Intersect
pub mod Holes
use dwgrep.Base.{
  ℕ, zero, suc, ◌+◌, ◌-◌, min, Bool, true, false, ◌&&◌, ◌||◌, ltb, leb, ◌==◌, if◌then◌else◌, List,
  [], ◌∷◌, length, drop, add64, sub64,
}
use dwgrep.Coverage.{Range, range, end_, at, is_empty, find, add}

-- coverage::is_covered
unfoldable pub is_covered : List Range → ℕ → ℕ → Bool
unfolding find
is_covered cov start len =
    let r_i = find cov start in
    let a_end = add64 start len in
    if is_empty cov
    then false
    else if ltb r_i (length cov) && leb (at cov r_i).start start
    then leb a_end (end_ (at cov r_i))
    else if ltb 0 r_i
    then leb a_end (end_ (at cov (r_i - 1)))
    else false

-- The helper `overlaps` of the anonymous namespace.
pub overlaps : ℕ → ℕ → Range → Bool
overlaps start end r =
    (leb r.start start && ltb start (end_ r))
    || (ltb r.start end && leb end (end_ r))
    || (ltb start r.start && ltb (end_ r) end)

-- coverage::is_overlap
unfoldable pub is_overlap : List Range → ℕ → ℕ → Bool
unfolding is_covered overlaps find
is_overlap cov start len =
    let a_end = add64 start len in
    let r_i = find cov start in
    if is_empty cov
    then false
    else if len == 0
    then is_covered cov start len
    else if ltb r_i (length cov) && overlaps start a_end (at cov r_i)
    then true
    else if ltb 0 r_i
    then overlaps start a_end (at cov (r_i - 1))
    else false

-- The loop of `intersect`, over the ranges from r_i on.
pub intersect_loop : ℕ → List Range → List Range → List Range
intersect_loop a_end [] ret = ret
intersect_loop a_end (r ∷ rs) ret =
    let rest = intersect_loop a_end rs (add ret r.start (sub64 (min (end_ r) a_end) r.start)) in
    if ltb r.start a_end then rest else ret

-- "Handle intersection with previous range."
pub intersect_previous : List Range → ℕ → ℕ → List Range
intersect_previous cov start r_i =
    let j = at cov (r_i - 1) in
    if ltb 0 r_i && ltb start (end_ j) then add [] start (sub64 (end_ j) start) else []

-- coverage::intersect
unfoldable pub intersect : List Range → ℕ → ℕ → List Range
unfolding intersect_loop intersect_previous find add
intersect cov start len =
    if is_empty cov || len == 0
    then []
    else (let r_i = find cov start in
        intersect_loop (add64 start len) (drop r_i cov) (intersect_previous cov start r_i))

-- A callback is given a range and returns whether to go on. It keeps its state in S.
module _ {S : Type 0} (cb : ℕ → ℕ → S → Bool × S) where
  -- One call, and the rest if it returned true.
  abbrev pub and_then : Bool × S → (S → Bool × S) → Bool × S
  and_then (true, s) k = k s
  and_then (false, s) k = (false, s)

  -- coverage::find_ranges
  unfoldable pub find_ranges : List Range → S → Bool × S
  find_ranges [] s = (true, s)
  find_ranges (r ∷ rs) s = and_then (cb r.start r.length s) (find_ranges rs)

  -- The loop of `find_holes` over neighbours, and what follows it with the last range.
  unfoldable pub holes_between : ℕ → ℕ → Range → List Range → S → Bool × S
  holes_between start len r [] s =
      if ltb (end_ r) (add64 start len)
      then cb (end_ r) (sub64 (add64 start len) (end_ r)) s
      else (true, s)
  holes_between start len r (x ∷ xs) s =
      and_then (cb (end_ r) (sub64 x.start (end_ r)) s) (holes_between start len x xs)

  -- coverage::find_holes
  unfoldable pub find_holes : ℕ → ℕ → List Range → S → Bool × S
  unfolding holes_between
  find_holes start len [] s = if len == 0 then (true, s) else cb start len s
  find_holes start len (r ∷ rs) s =
      if len == 0
      then (true, s)
      else and_then (if ltb start r.start then cb start (sub64 r.start start) s else (true, s))
          (holes_between start len r rs)
