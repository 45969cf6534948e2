-- ===== src/Coverage/Remove.antt =====
-- coverage::remove, coverage::remove_all and operator- of libzwerg/coverage.cc.
pub mod Trim
pub mod Hole
pub mod Difference
pub mod Laws
use dwgrep.Base.{
  ℕ, zero, suc, ◌+◌, ◌-◌, Bool, true, false, ◌&&◌, ◌||◌, ltb, leb, ◌==◌, if◌then◌else◌, List, [],
  ◌∷◌, length, get_or, set, add64, sub64,
}
use dwgrep.Coverage.{Range, range, end_, at, is_empty, erase_between, find, add}

-- The variables of `remove`. erase_begin_i starts at `end ()`, the length, as a mark for unset.
pub record Removing : Type 0 where
  pub ranges : List Range
  pub r_i : ℕ
  pub erase_begin_i : ℕ
  pub erase_end_i : ℕ
  pub overlap : Bool

-- The first part of `remove` may return from it.
pub data Cut : Type 0 where
  returns : List Range → Cut
  continues : Removing → Cut

-- The code after the lengths of the previous range are set.
pub note_overlap : Removing → Cut
note_overlap st =
    let st' = record st { overlap = true } in
    continues (
      if (at st.ranges (st.r_i - 1)).length == 0
      then record st' { erase_begin_i = st.r_i - 1 }
      else st')

-- "Cut from previous range?"
pub cut_previous : ℕ → ℕ → Removing → Cut
unfolding note_overlap
cut_previous start a_end st =
    let p = at st.ranges (st.r_i - 1) in
    let r_end = end_ p in
    let shorten = λ (n : ℕ). record st { ranges = set st.ranges (st.r_i - 1) (range p.start n) } in
    if ltb 0 st.r_i && ltb start (end_ p)
    then (if start == p.start
        then note_overlap (shorten (if leb r_end a_end then 0 else sub64 r_end a_end))
        else if ltb a_end r_end
        then returns (add (shorten (sub64 start p.start)).ranges a_end (sub64 r_end a_end))
        else note_overlap (shorten (sub64 start p.start)))
    else continues st

-- The body of the loop "Cut from next range?"
pub cut_next : ℕ → Removing → Removing
cut_next a_end st =
    let r = at st.ranges st.r_i in
    if leb (end_ r) a_end
    then record st { overlap = true; erase_end_i = st.erase_end_i + 1; r_i = st.r_i + 1 }
    else record st {
      overlap = true;
      ranges = set st.ranges st.r_i (range a_end (sub64 (end_ r) a_end));
    }

-- The loop. Each round moves r_i or is the last but one.
pub cut_loop : ℕ → ℕ → Removing → Removing
cut_loop zero a_end st = st
cut_loop (suc fuel) a_end st =
    let rest = cut_loop fuel a_end (cut_next a_end st) in
    if ltb st.r_i (length st.ranges) && ltb (at st.ranges st.r_i).start a_end then rest else st

-- From `if (erase_begin_i == end ())` on.
pub cut_following : ℕ → Removing → List Range × Bool
unfolding cut_loop
cut_following a_end st =
    let begin = (if st.erase_begin_i == length st.ranges then st.r_i else st.erase_begin_i) in
    let st' =
      cut_loop (length st.ranges - st.r_i + 1) a_end (record st { erase_begin_i = begin }) in
    (
      if ltb st'.erase_begin_i st'.erase_end_i
          then erase_between st'.ranges st'.erase_begin_i st'.erase_end_i
          else st'.ranges,
      st'.overlap,
    )

pub after_cut : ℕ → Cut → List Range × Bool
unfolding cut_following
after_cut a_end (returns cov) = (cov, true)
after_cut a_end (continues st) = cut_following a_end st

abbrev pub start_removing : List Range → ℕ → Removing
start_removing cov i = record {
  ranges = cov;
  r_i = i;
  erase_begin_i = length cov;
  erase_end_i = i;
  overlap = false;
}

-- coverage::remove
unfoldable pub remove : List Range → ℕ → ℕ → List Range × Bool
unfolding after_cut cut_previous find
remove cov start len =
    if is_empty cov || len == 0
    then (cov, false)
    else after_cut (add64 start len)
        (cut_previous start (add64 start len) (start_removing cov (find cov start)))

-- coverage::remove_all
pub remove_all : List Range → List Range → List Range × Bool
unfolding remove
remove_all cov [] = (cov, false)
remove_all cov (r ∷ other) =
    let (cov', removed) = remove cov r.start r.length in
    let (cov'', ret) = remove_all cov' other in (cov'', removed || ret)

-- operator-
pub minus : List Range → List Range → List Range
unfolding remove_all
minus cov rhs = (remove_all cov rhs).0
