-- ===== src/Coverage/Add.antt =====
-- `add` against a recursion over the list that joins the new range in.
use native.Mathlib.Nat.{add-sub_cancel, add-zero, zero-add}
use mathlib.Core.List.{append-nil, append_assoc}
use dwgrep.Base.{
  ℕ, suc, ◌+◌, ◌^◌, ◌<◌, ◌≤◌, ◌≡◌, refl, inl, inr, arith, ltb, false, if◌then◌else◌, List, [], ◌∷◌,
  ◌++◌, length, take_prefix, drop_prefix, length-append, Bool-cases,
}
use dwgrep.Coverage.{
  Range, range, insert_at, element, extend, place, absorb_next, absorb_loop, coalesce_previous,
  coalesce_following, insert_new, start_adding, add, find,
}
use dwgrep.Coverage.Ordered.{Ordered, IsCoverage}
use dwgrep.Coverage.Find.{lower_bound, find-lower_bound}
use dwgrep.Coverage.Absorb.{extended, absorb, running, at_here, set_here, absorb_loop-absorb}

-- The new range is swallowed by the range that it starts in, or swallows what it reaches itself.
unfoldable pub joined : Range → List Range → List Range
joined new [] = new ∷ []
joined new (r ∷ rs) =
    let rest = joined new rs in
    if ltb r.start new.start
    then (if ltb (r.start + r.length) new.start then r ∷ rest else absorb (extended r new) rs)
    else absorb new (r ∷ rs)

-- The code of `add` behind the search.
abbrev from_found : List Range → ℕ → ℕ → ℕ → List Range
from_found cov s len i =
    insert_new (coalesce_following (coalesce_previous (start_adding cov s len i)))

pub lower_bound_zero : (s lo : ℕ) (rs : List Range) → s ≤ lo → Ordered lo rs → lower_bound s rs ≡ 0
lower_bound_zero s lo [] h o = refl
lower_bound_zero s lo (r ∷ rs) h o = ground arith

first_clear :
    (cov : List Range) (s len : ℕ)
    → coalesce_previous (start_adding cov s len 0) ≡ start_adding cov s len 0
unfolding coalesce_previous
first_clear cov s len = refl

pub index_next : (n k : ℕ) → n + suc k ≡ n + 1 + k
index_next n k = omega arith

module _ (s len : ℕ) (pos : 0 < len) (fits : s + len < 2 ^ 64) where
  -- The first range that the new one reaches is overwritten by it.
  placed :
      (pre : List Range) (r : Range) (rs : List Range)
      → r.start + r.length < 2 ^ 64
      → s ≤ r.start
      → absorb_next (record (start_adding (pre ++ r ∷ rs) s len (length pre)) { p_i = length pre })
        ≡ running (extended (range s len) r) pre (extended (range s len) r) [] rs
  unfolding absorb_next extend place
  placed pre r rs hr h =
      ground (arith, at_here pre r rs, set_here pre r rs (extended (range s len) r))

  insert_here :
      (pre post : List Range) (v : Range) → insert_at (pre ++ post) (length pre) v ≡ pre ++ v ∷ post
  insert_here pre post v = rw (take_prefix pre post, drop_prefix pre post)

  -- No previous range is reached.
  following-new :
      (pre post : List Range) (lo : ℕ)
      → s ≤ lo
      → Ordered lo post
      → insert_new (coalesce_following (start_adding (pre ++ post) s len (length pre)))
        ≡ pre ++ absorb (range s len) post
  unfolding coalesce_following insert_new absorb absorb_loop
  following-new pre [] lo h o = ground (arith, insert_here pre [] (range s len), append-nil pre)
  following-new pre (r ∷ rs) lo h o = ground (
    arith,
    insert_here pre (r ∷ rs) (range s len),
    length-append pre (r ∷ rs),
    at_here pre r rs,
    placed pre r rs o.2,
    absorb_loop-absorb (extended (range s len) r) pre (extended (range s len) r) [] rs
        (suc (r.start + r.length)),
  )

  -- The range before is reached and lengthened.
  following-previous :
      (pre : List Range) (r : Range) (rs : List Range)
      → r.start + r.length < 2 ^ 64
      → Ordered (suc (r.start + r.length)) rs
      → r.start < s
      → insert_new (
          coalesce_following (record {
            ranges = pre ++ extended r (range s len) ∷ rs;
            nr = range s len;
            to_insert = false;
            coalesce = element (length pre);
            r_i = length pre + 1;
            p_i = 0;
          }))
        ≡ pre ++ absorb (extended r (range s len)) rs
  unfolding coalesce_following insert_new absorb absorb_loop
  following-previous pre r [] hr o h =
      ground (arith, length-append pre (extended r (range s len) ∷ []))
  following-previous pre r (x ∷ xs) hr o h = ground (
    arith,
    length-append pre (extended r (range s len) ∷ x ∷ xs),
    absorb_loop-absorb (range s len) pre (extended r (range s len)) [] (x ∷ xs)
        (suc (r.start + r.length)),
  )

  absorb_gap :
      (r : Range) (rs : List Range) → Ordered (suc (r.start + r.length)) rs → absorb r rs ≡ r ∷ rs
  unfolding absorb
  absorb_gap r [] o = refl
  absorb_gap r (x ∷ xs) o = ground arith

  -- The range before starts below the new one: three outcomes.
  previous-apart :
      (pre : List Range) (r : Range) (tail : List Range)
      → r.start + r.length < s
      → coalesce_previous (start_adding (pre ++ r ∷ tail) s len (length pre + 1))
        ≡ start_adding (pre ++ r ∷ tail) s len (length pre + 1)
  unfolding coalesce_previous
  previous-apart pre r tail h = ground (arith, at_here pre r tail)

  previous-longer :
      (pre : List Range) (r : Range) (rs : List Range)
      → r.start < s
      → s ≤ r.start + r.length
      → r.start + r.length < s + len
      → coalesce_previous (start_adding (pre ++ r ∷ rs) s len (length pre + 1)) ≡ record {
        ranges = pre ++ extended r (range s len) ∷ rs;
        nr = range s len;
        to_insert = false;
        coalesce = element (length pre);
        r_i = length pre + 1;
        p_i = 0;
      }
  unfolding coalesce_previous
  previous-longer pre r rs h k l =
      rw add-sub_cancel (rw at_here (ground (arith, set_here pre r rs (extended r (range s len)))))

  previous-covering :
      (pre : List Range) (r : Range) (rs : List Range)
      → r.start + r.length < 2 ^ 64
      → r.start < s
      → s + len ≤ r.start + r.length
      → from_found (pre ++ r ∷ rs) s len (length pre + 1) ≡ pre ++ r ∷ rs
  unfolding coalesce_previous coalesce_following insert_new
  previous-covering pre r rs hr h k = rw add-sub_cancel (rw at_here (ground arith))

  previous-joined :
      (pre : List Range) (r : Range) (rs : List Range)
      → r.start + r.length < 2 ^ 64
      → Ordered (suc (r.start + r.length)) rs
      → r.start < s
      → s ≤ r.start + r.length
      → from_found (pre ++ r ∷ rs) s len (length pre + 1)
        ≡ pre ++ absorb (extended r (range s len)) rs
  previous-joined pre r rs hr o h k = elim (Bool-cases (ltb (r.start + r.length) (s + len))) [
    | inl l ↦ rw (previous-longer pre r rs h k (ground arith)) (following-previous pre r rs hr o h)
    | inr l ↦ rw (l, absorb_gap r rs o) (previous-covering pre r rs hr h (ground arith))
  ]

  -- `pre` is passed over: no range of it reaches the new one.
  found-joined :
      (pre post : List Range) (lo : ℕ)
      → ((tail : List Range)
          → coalesce_previous (start_adding (pre ++ tail) s len (length pre))
            ≡ start_adding (pre ++ tail) s len (length pre))
      → Ordered lo post
      → from_found (pre ++ post) s len (length pre + lower_bound s post)
        ≡ pre ++ joined (range s len) post
  unfolding joined absorb
  found-joined pre [] lo clear o =
      rw (add-zero (length pre), clear []) (following-new pre [] s (omega arith) tt)
  found-joined pre (r ∷ rs) lo clear o = elim (Bool-cases (ltb r.start s)) [
    | inr above ↦
        rw (above, add-zero (length pre), clear (r ∷ rs))
          (following-new pre (r ∷ rs) r.start (ground arith) (omega arith, o.1, o.2, o.3))
    | inl below ↦ elim (Bool-cases (ltb (r.start + r.length) s)) [
      | inl apart ↦
          let one = length-append pre (r ∷ []) in
          let at_end = λ (tail : List Range). append_assoc pre (r ∷ []) tail in
          let later =
            found-joined (pre ++ r ∷ []) rs (suc (r.start + r.length))
              (λ tail. rw (at_end tail, one) (previous-apart pre r tail (ground arith))) o.3 in
          rw (below, apart, index_next (length pre) (lower_bound s rs))
            (rw (at_end rs, one, at_end (joined (range s len) rs)) at later)
      | inr reached ↦
          rw (below, reached, lower_bound_zero s (suc (r.start + r.length)) rs (ground arith) o.3)
            (previous-joined pre r rs o.2 o.3 (ground arith) (ground arith))
    ]
  ]

add-found :
    (r : Range) (rs : List Range) (s len : ℕ)
    → 0 < len
    → add (r ∷ rs) s len ≡ from_found (r ∷ rs) s len (find (r ∷ rs) s)
unfolding add
add-found r rs s len pos = ground arith

-- On a coverage that keeps the invariant, and with a range that is not empty and that ends within
-- the address space, `add` returns what `joined` does: a recursion that inserts the range, and
-- joins it with all that it overlaps or touches.
pub add-joined :
    (cov : List Range) (s len : ℕ)
    → IsCoverage cov
    → 0 < len
    → s + len < 2 ^ 64
    → add cov s len ≡ joined (range s len) cov
unfolding joined
add-joined [] s len o pos fits = unfold add in ground arith
add-joined (r ∷ rs) s len o pos fits =
    let found = found-joined s len pos fits [] (r ∷ rs) 0 (λ tail. first_clear tail s len) o in
    rw (add-found r rs s len pos, find-lower_bound s (r ∷ rs) o) (rw zero-add at found)
