-- ===== src/Coverage/Remove/Difference.antt =====
-- `remove` keeps the invariant, covers the difference, and says whether anything was removed.
use native.Mathlib.Nat.{add-zero, zero-add, add-sub_cancel}
use mathlib.Core.List.{append_assoc}
use dwgrep.Base.{
  ℕ, suc, ◌+◌, ◌-◌, ◌^◌, ◌<◌, ◌≤◌, ◌≡◌, refl, inl, inr, arith, ltb, leb, Bool, true, false, List,
  [], ◌∷◌, ◌++◌, length, length-append, add64, add64_fits, Bool-cases,
}
use dwgrep.Coverage.{Range, range, find, add}
use dwgrep.Coverage.Ordered.{Ordered, IsCoverage}
use dwgrep.Coverage.Find.{lower_bound, find-lower_bound}
use dwgrep.Coverage.Absorb.{at_here, set_here}
use dwgrep.Coverage.Add.{lower_bound_zero, index_next}
use dwgrep.Coverage.Remove.{
  continues, returns, cut_previous, note_overlap, cut_following, after_cut, start_removing, remove,
}
use dwgrep.Coverage.Remove.Trim.{trim, meets, trimmed, trim_beyond, cut_loop-trim}
use dwgrep.Coverage.Remove.Hole.{add_hole}

-- The code of `remove` behind the search.
abbrev from_search : List Range → ℕ → ℕ → ℕ → List Range × Bool
from_search cov s len i =
    after_cut (add64 s len) (cut_previous s (add64 s len) (start_removing cov i))

abbrev IsClear : List Range → ℕ → ℕ → Type 0
IsClear pre s e =
    (tail : List Range)
    → cut_previous s e (start_removing (pre ++ tail) (length pre))
      ≡ continues (start_removing (pre ++ tail) (length pre))

-- Writing an element leaves the length.
sizes :
    (pre : List Range) (r v : Range) (rs : List Range)
    → length (pre ++ r ∷ rs) ≡ length (pre ++ v ∷ rs)
sizes pre r v rs = omega (arith, length-append pre (r ∷ rs), length-append pre (v ∷ rs))

module _ (s len : ℕ) (pos : 0 < len) (fits : s + len < 2 ^ 64) where
  -- The rest of `remove`, from any state with nothing to erase yet.
  following-trim :
      (pre post : List Range) (lo : ℕ) (ov : Bool)
      → s ≤ lo
      → Ordered lo post
      → cut_following (s + len) (record {
        ranges = pre ++ post;
        r_i = length pre;
        erase_begin_i = length (pre ++ post);
        erase_end_i = length pre;
        overlap = ov;
      })
        ≡ trimmed s (s + len) pre post ov
  unfolding cut_following
  following-trim pre post lo ov h o = ground (
    arith,
    add-zero (length pre),
    length-append pre post,
    cut_loop-trim pre s (s + len) post (length post + 1) [] ov lo,
  )

  -- The previous range ends before the hole.
  previous-apart :
      (pre : List Range) (r : Range) (tail : List Range)
      → r.start + r.length < 2 ^ 64
      → r.start + r.length ≤ s
      → cut_previous s (s + len) (start_removing (pre ++ r ∷ tail) (length pre + 1))
        ≡ continues (start_removing (pre ++ r ∷ tail) (length pre + 1))
  unfolding cut_previous
  previous-apart pre r tail f h = rw add-sub_cancel (rw at_here (ground arith))

  module _ (pre : List Range) (r : Range) (rs : List Range) (f : r.start + r.length < 2 ^ 64)
      (o : Ordered (suc (r.start + r.length)) rs) (a : r.start < s)
      (b : s < r.start + r.length) where
    previous-hole :
        s + len < r.start + r.length
        → cut_previous s (s + len) (start_removing (pre ++ r ∷ rs) (length pre + 1))
          ≡ returns (
              add
                (pre ++ range r.start (s - r.start) ∷ rs)
                (s + len)
                (r.start + r.length - (s + len)))
    unfolding cut_previous
    previous-hole h =
        rw add-sub_cancel
          (rw at_here (ground (arith, set_here pre r rs (range r.start (s - r.start)))))

    previous-shortened :
        r.start + r.length ≤ s + len
        → cut_previous s (s + len) (start_removing (pre ++ r ∷ rs) (length pre + 1))
          ≡ continues (record {
            ranges = pre ++ range r.start (s - r.start) ∷ rs;
            r_i = length pre + 1;
            erase_begin_i = length (pre ++ r ∷ rs);
            erase_end_i = length pre + 1;
            overlap = true;
          })
    unfolding cut_previous note_overlap
    previous-shortened h = rw add-sub_cancel (
        rw at_here (
          ground (
            arith,
            set_here pre r rs (range r.start (s - r.start)),
            at_here pre (range r.start (s - r.start)) rs,
          )))

    -- The effect of each of the two on the result.
    trim_hole :
        s + len < r.start + r.length
        → trimmed s (s + len) pre (r ∷ rs) false ≡ (
          pre
              ++ range r.start (s - r.start)
                ∷ range (s + len) (r.start + r.length - (s + len))
                ∷ rs,
          true,
        )
    unfolding trim meets
    trim_hole h = ground (arith, trim_beyond s (s + len) (suc (r.start + r.length)) rs)

    trim_shortened :
        r.start + r.length ≤ s + len
        → trimmed s (s + len) pre (r ∷ rs) false
          ≡ (pre ++ range r.start (s - r.start) ∷ trim s (s + len) rs, true)
    unfolding trim meets
    trim_shortened h = ground arith

    following-shortened :
        r.start + r.length ≤ s + len
        → cut_following (s + len) (record {
          ranges = pre ++ range r.start (s - r.start) ∷ rs;
          r_i = length pre + 1;
          erase_begin_i = length (pre ++ r ∷ rs);
          erase_end_i = length pre + 1;
          overlap = true;
        })
          ≡ (pre ++ range r.start (s - r.start) ∷ trim s (s + len) rs, true)
    following-shortened h =
        let cut = range r.start (s - r.start) in
        let rest =
          following-trim (pre ++ cut ∷ []) rs (suc (r.start + r.length)) true (omega arith) o in
        rw
          (
            sizes pre r cut rs,
            ← append_assoc pre (cut ∷ []) rs,
            ← length-append pre (cut ∷ []),
            ← append_assoc pre (cut ∷ []) (trim s (s + len) rs),
          )
          rest

    previous-trim :
        IsCoverage (pre ++ r ∷ rs)
        → from_search (pre ++ r ∷ rs) s len (length pre + 1)
          ≡ trimmed s (s + len) pre (r ∷ rs) false
    unfolding after_cut
    previous-trim k = elim (Bool-cases (ltb (s + len) (r.start + r.length))) [
      | inl hole ↦ rw (
        add64_fits s len fits,
        previous-hole (ground arith),
        trim_hole (ground arith),
        after_cut,
        add_hole s (s + len) r rs a (omega arith) (ground arith) pre f k,
      )
      | inr whole ↦
          rw
            (
              add64_fits s len fits,
              previous-shortened (ground arith),
              trim_shortened (ground arith),
            )
            (unfold after_cut in following-shortened (ground arith))
    ]

  trim_passed :
      (pre : List Range) (r : Range) (rs : List Range)
      → ltb r.start s ≡ true
      → leb (r.start + r.length) s ≡ true
      → trimmed s (s + len) pre (r ∷ rs) false
        ≡ (pre ++ r ∷ trim s (s + len) rs, meets s (s + len) rs)
  unfolding trim meets
  trim_passed pre r rs h k = ground arith

  found-trim :
      (pre post : List Range) (lo : ℕ)
      → IsClear pre s (s + len)
      → IsCoverage (pre ++ post)
      → Ordered lo post
      → from_search (pre ++ post) s len (length pre + lower_bound s post)
        ≡ trimmed s (s + len) pre post false
  found-trim pre [] lo clear k o =
      rw (add-zero (length pre), add64_fits s len fits, clear [])
        (unfold after_cut in following-trim pre [] s false (omega arith) tt)
  found-trim pre (r ∷ rs) lo clear k o = elim (Bool-cases (ltb r.start s)) [
    | inr later ↦
        rw (later, add-zero (length pre), add64_fits s len fits, clear (r ∷ rs))
          (unfold after_cut in
            following-trim pre (r ∷ rs) r.start false (ground arith) (omega arith, o.1, o.2, o.3))
    | inl earlier ↦ elim (Bool-cases (leb (r.start + r.length) s)) [
      | inl apart ↦
          let one = length-append pre (r ∷ []) in
          let at_end = λ (tail : List Range). append_assoc pre (r ∷ []) tail in
          let rest =
            found-trim (pre ++ r ∷ []) rs (suc (r.start + r.length))
              (λ tail. rw (at_end tail, one) (previous-apart pre r tail o.2 (ground arith)))
              (rw (at_end rs) k) o.3 in
          rw
            (
              earlier,
              index_next (length pre) (lower_bound s rs),
              trim_passed pre r rs earlier apart,
            )
            (rw (at_end rs, one, at_end (trim s (s + len) rs)) at rest)
      | inr reached ↦
          rw (earlier, lower_bound_zero s (suc (r.start + r.length)) rs (ground arith) o.3)
            (previous-trim pre r rs o.2 o.3 (ground arith) (ground arith) k)
    ]
  ]

remove-search :
    (r : Range) (rs : List Range) (s len : ℕ)
    → 0 < len
    → remove (r ∷ rs) s len ≡ from_search (r ∷ rs) s len (find (r ∷ rs) s)
unfolding remove
remove-search r rs s len pos = ground arith

first-IsClear : (s e : ℕ) → IsClear [] s e
unfolding cut_previous
first-IsClear s e tail = refl

-- `remove` cuts [s, s + len) out of every range, and says whether there was anything to cut.
pub remove-trim :
    (cov : List Range) (s len : ℕ)
    → IsCoverage cov
    → 0 < len
    → s + len < 2 ^ 64
    → remove cov s len ≡ (trim s (s + len) cov, meets s (s + len) cov)
remove-trim [] s len o pos fits = unfold remove trim meets in refl
remove-trim (r ∷ rs) s len o pos fits =
    rw (remove-search r rs s len pos, find-lower_bound s (r ∷ rs) o)
      (rw zero-add at (found-trim s len pos fits [] (r ∷ rs) 0 (first-IsClear s (s + len)) o o))
