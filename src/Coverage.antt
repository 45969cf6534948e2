-- ===== src/Coverage.antt =====
-- The class coverage of libzwerg/coverage.hh and coverage.cc: a sorted vector of address ranges.
-- An iterator is its index, and `end ()` is the length. The addresses are uint64_t.
pub mod Find
pub mod Ordered
pub mod Absorb
pub mod Add
pub mod Union
pub mod Extensional
pub mod Remove
pub mod Query
mod Tests
use dwgrep.Base.{
  ℕ, zero, suc, ◌+◌, ◌-◌, ◌/◌, ◌*◌, min, Bool, true, false, not, ◌&&◌, ◌||◌, ltb, leb, ◌==◌,
  if◌then◌else◌, List, [], ◌∷◌, ◌++◌, length, get_or, set, take, drop, add64, sub64,
}

pub record Range : Type 0 where
  pub start : ℕ
  pub length : ℕ

abbrev pub range : ℕ → ℕ → Range
range s l = record { start = s; length = l }

-- cov_range::end
abbrev pub end_ : Range → ℕ
end_ r = add64 r.start r.length

-- The read `at (i)`; all reads of the code are within the vector.
abbrev pub at : List Range → ℕ → Range
at cov i = get_or cov i (range 0 0)

abbrev pub is_empty : List Range → Bool
is_empty cov = length cov == 0

-- vector::insert and vector::erase, by indices
abbrev pub insert_at : List Range → ℕ → Range → List Range
insert_at cov i r = take i cov ++ r ∷ drop i cov

abbrev pub erase_between : List Range → ℕ → ℕ → List Range
erase_between cov i j = take i cov ++ drop j cov

-- The loop of `find` over [a, b). The fuel bounds b - a.
pub find_loop : ℕ → List Range → ℕ → ℕ → ℕ → ℕ
find_loop zero cov start a b = a
find_loop (suc fuel) cov start a b =
    let i = (a + b) / 2 in
    let lower = find_loop fuel cov start a i in
    let upper = find_loop fuel cov start (i + 1) b in
    if ltb a b
    then (if ltb start (at cov i).start
        then lower
        else if ltb (at cov i).start start
        then upper
        else i)
    else a

-- coverage::find
pub find : List Range → ℕ → ℕ
unfolding find_loop
find cov start = find_loop (length cov) cov start 0 (length cov)

-- The pointers of `add`: to the local variable `nr`, or to an element.
pub data Pointer : Type 0 where
  null local : Pointer
  element : ℕ → Pointer

-- The variables of `add`; `to_insert` is &nr or NULL.
pub record Adding : Type 0 where
  pub ranges : List Range
  pub nr : Range
  pub to_insert : Bool
  pub coalesce : Pointer
  pub r_i : ℕ
  pub p_i : ℕ

abbrev pub deref : Adding → Range
deref st = elim st.coalesce [ null ↦ range 0 0 | local ↦ st.nr | element i ↦ at st.ranges i ]

-- `coalesce->length = n`
abbrev pub set_length : Adding → ℕ → Adding
set_length st n = elim st.coalesce [
  | null ↦ st
  | local ↦ record st { nr = range st.nr.start n }
  | element i ↦ record st { ranges = set st.ranges i (range (at st.ranges i).start n) }
]

-- "Coalesce with previous range?"
pub coalesce_previous : Adding → Adding
coalesce_previous st =
    let p = at st.ranges (st.r_i - 1) in
    let coalesce_end = end_ st.nr in
    if ltb 0 st.r_i && leb st.nr.start (end_ p)
    then (if ltb (end_ p) coalesce_end
        then record st {
          ranges = set st.ranges (st.r_i - 1) (range p.start (sub64 coalesce_end p.start));
          coalesce = element (st.r_i - 1);
          to_insert = false;
        }
        else record st { coalesce = null; to_insert = false })
    else st

-- The `if (p_end > …)` of the loop body.
pub extend : Adding → Adding
extend st =
    let p_end = end_ (at st.ranges st.p_i) in
    if ltb (end_ (deref st)) p_end then set_length st (sub64 p_end (deref st).start) else st

-- The `if (to_insert != NULL)` of the loop body.
pub place : Adding → Adding
place st =
    if st.to_insert
    then record st {
      ranges = set st.ranges st.p_i st.nr;
      to_insert = false;
      coalesce = element st.p_i;
      r_i = st.r_i + 1;
    }
    else st

-- The body of the loop over the following ranges.
pub absorb_next : Adding → Adding
unfolding extend place
absorb_next st = let st' = place (extend st) in record st' { p_i = st'.p_i + 1 }

-- The loop, with size - p_i ranges left.
pub absorb_loop : ℕ → Adding → Adding
absorb_loop zero st = st
absorb_loop (suc left) st =
    let rest = absorb_loop left (absorb_next st) in
    if leb (at st.ranges st.p_i).start (end_ (deref st)) then rest else st

-- "Coalesce with one or more following ranges?"
pub coalesce_following : Adding → Adding
unfolding absorb_loop
coalesce_following st = elim st.coalesce [
  | null ↦ st
  | _ ↦
      if st.r_i == length st.ranges
      then st
      else (let st' = absorb_loop (length st.ranges - st.r_i) (record st { p_i = st.r_i }) in
          if ltb st'.r_i st'.p_i
          then record st' { ranges = erase_between st'.ranges st'.r_i st'.p_i }
          else st')
]

pub insert_new : Adding → List Range
insert_new st = if st.to_insert then insert_at st.ranges st.r_i st.nr else st.ranges

abbrev pub start_adding : List Range → ℕ → ℕ → ℕ → Adding
start_adding cov start len i = record {
  ranges = cov;
  nr = range start len;
  to_insert = true;
  coalesce = local;
  r_i = i;
  p_i = 0;
}

-- coverage::add
unfoldable pub add : List Range → ℕ → ℕ → List Range
unfolding coalesce_previous coalesce_following insert_new find
add cov start len =
    if len == 0
    then cov
    else if is_empty cov
    then range start len ∷ []
    else insert_new
        (coalesce_following (coalesce_previous (start_adding cov start len (find cov start))))

-- coverage::add_all, over the ranges of `other`
pub add_all : List Range → List Range → List Range
add_all cov [] = cov
add_all cov (r ∷ other) = add_all (add cov r.start r.length) other

-- coverage::operator+
pub plus : List Range → List Range → List Range
unfolding add_all
plus cov rhs = add_all cov rhs
