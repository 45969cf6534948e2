-- ===== src/Coverage/Remove/Trim.antt =====
-- The loop of `remove` over the following ranges, against a recursion over the list.
use mathlib.Core.List.{append_assoc}
use dwgrep.Base.{
  ℕ, zero, suc, ◌+◌, ◌-◌, ◌^◌, ◌<◌, ◌≤◌, ◌≡◌, refl, ap, ◌∙◌, inl, inr, arith, ltb, leb, Bool, true,
  false, ◌&&◌, ◌||◌, if◌then◌else◌, List, [], ◌∷◌, ◌++◌, length, set, take_prefix, drop_prefix,
  length-append, get_or-append, set-append, drop-append, Bool-cases,
}
use dwgrep.Coverage.{Range, range, at, erase_between}
use dwgrep.Coverage.Ordered.{Ordered}
use dwgrep.Coverage.Absorb.{at_here, set_here}
use dwgrep.Coverage.Remove.{Removing, cut_next, cut_loop}

-- What is left of r below s, and from e on.
abbrev pub below : ℕ → Range → List Range → List Range
below s r rest =
    if ltb r.start s
    then range r.start (if leb (r.start + r.length) s then r.length else s - r.start) ∷ rest
    else rest

abbrev pub above : ℕ → Range → List Range → List Range
above e r rest =
    if leb (r.start + r.length) e
    then rest
    else if leb e r.start
    then r ∷ rest
    else range e (r.start + r.length - e) ∷ rest

-- The ranges without [s, e).
unfoldable pub trim : ℕ → ℕ → List Range → List Range
trim s e [] = []
trim s e (r ∷ rs) = below s r (above e r (trim s e rs))

-- Whether a range shares an address with [s, e).
unfoldable pub meets : ℕ → ℕ → List Range → Bool
meets s e [] = false
meets s e (r ∷ rs) = (ltb r.start e && ltb s (r.start + r.length)) || meets s e rs

-- Where the loop stands: `gone` waits to be erased, behind `pre`.
abbrev pub cutting : List Range → List Range → List Range → ℕ → Bool → Removing
cutting pre gone post begin overlap = record {
  ranges = pre ++ (gone ++ post);
  r_i = length pre + length gone;
  erase_begin_i = begin;
  erase_end_i = length pre + length gone;
  overlap = overlap;
}

abbrev pub closing : Removing → List Range × Bool
closing st = (
  if ltb st.erase_begin_i st.erase_end_i
      then erase_between st.ranges st.erase_begin_i st.erase_end_i
      else st.ranges,
  st.overlap,
)

pub trim_beyond :
    (s e lo : ℕ) (rs : List Range)
    → s ≤ lo
    → e ≤ lo
    → Ordered lo rs
    → (trim s e rs ≡ rs) × (meets s e rs ≡ false)
unfolding trim meets
trim_beyond s e lo [] hs he o = (refl, refl)
trim_beyond s e lo (r ∷ rs) hs he o = ground (arith, trim_beyond s e (suc (r.start + r.length)) rs)

abbrev pub trimmed : ℕ → ℕ → List Range → List Range → Bool → List Range × Bool
trimmed s e pre post ov = (pre ++ trim s e post, ov || meets s e post)

module _ (pre : List Range) where
  at_post :
      (gone : List Range) (r : Range) (rs : List Range)
      → at (pre ++ (gone ++ r ∷ rs)) (length pre + length gone) ≡ r
  at_post gone r rs =
      get_or-append pre (gone ++ r ∷ rs) (length gone) (range 0 0) ∙ at_here gone r rs

  set_post :
      (gone : List Range) (r v : Range) (rs : List Range)
      → set (pre ++ (gone ++ r ∷ rs)) (length pre + length gone) v ≡ pre ++ (gone ++ v ∷ rs)
  set_post gone r v rs =
      set-append pre (gone ++ r ∷ rs) (length gone) v ∙ ap (λ l. pre ++ l) (set_here gone r rs v)

  length_post :
      (gone post : List Range)
      → length (pre ++ (gone ++ post)) ≡ length pre + length gone + length post
  length_post gone post = omega (arith, length-append pre (gone ++ post), length-append gone post)

  erase_gone :
      (gone post : List Range)
      → erase_between (pre ++ (gone ++ post)) (length pre) (length pre + length gone) ≡ pre ++ post
  erase_gone gone post = rw (
    take_prefix pre (gone ++ post),
    drop-append pre (gone ++ post) (length gone),
    drop_prefix gone post,
  )

  closing-cutting :
      (gone post : List Range) (ov : Bool)
      → closing (cutting pre gone post (length pre) ov) ≡ (pre ++ post, ov)
  closing-cutting [] post ov = ground arith
  closing-cutting (g ∷ gone) post ov = ground (arith, erase_gone (g ∷ gone) post)

  gone_next :
      (gone : List Range) (r : Range) (rs : List Range) (ov : Bool)
      → record (cutting pre gone (r ∷ rs) (length pre) ov) {
        overlap = true;
        erase_end_i = length pre + length gone + 1;
        r_i = length pre + length gone + 1;
      }
        ≡ cutting pre (gone ++ r ∷ []) rs (length pre) true
  gone_next gone r rs ov =
      ground (arith, append_assoc gone (r ∷ []) rs, length-append gone (r ∷ []))

  module _ (s e : ℕ) where
    -- One range is in the way and goes.
    cut_next-gone :
        (gone : List Range) (r : Range) (rs : List Range) (ov : Bool)
        → r.start + r.length < 2 ^ 64
        → r.start + r.length ≤ e
        → cut_next e (cutting pre gone (r ∷ rs) (length pre) ov)
          ≡ cutting pre (gone ++ r ∷ []) rs (length pre) true
    unfolding cut_next
    cut_next-gone gone r rs ov f h = rw (at_post gone r rs) (ground (arith, gone_next gone r rs ov))

    -- The last one in the way loses its beginning.
    cut_next-shrunk :
        (gone : List Range) (r : Range) (rs : List Range) (ov : Bool)
        → r.start + r.length < 2 ^ 64
        → r.start < e
        → e < r.start + r.length
        → cut_next e (cutting pre gone (r ∷ rs) (length pre) ov)
          ≡ cutting pre gone (range e (r.start + r.length - e) ∷ rs) (length pre) true
    unfolding cut_next
    cut_next-shrunk gone r rs ov f h k =
        rw (at_post gone r rs)
          (ground (arith, set_post gone r (range e (r.start + r.length - e)) rs))

    cut_loop-beyond :
        (fuel : ℕ) (gone : List Range) (r : Range) (rs : List Range) (ov : Bool)
        → e ≤ r.start
        → cut_loop fuel e (cutting pre gone (r ∷ rs) (length pre) ov)
          ≡ cutting pre gone (r ∷ rs) (length pre) ov
    unfolding cut_loop
    cut_loop-beyond zero gone r rs ov h = refl
    cut_loop-beyond (suc fuel) gone r rs ov h = ground (arith, at_post gone r rs)

    cut_loop_step :
        (fuel : ℕ) (gone : List Range) (r : Range) (rs : List Range) (ov : Bool)
        → r.start < e
        → cut_loop (suc fuel) e (cutting pre gone (r ∷ rs) (length pre) ov)
          ≡ cut_loop fuel e (cut_next e (cutting pre gone (r ∷ rs) (length pre) ov))
    unfolding cut_loop
    cut_loop_step fuel gone r rs ov h = ground (arith, at_post gone r rs, length_post gone (r ∷ rs))

    -- What a range that ends at or before e, or beyond it, adds to the result.
    trim_whole :
        (r : Range) (rs : List Range) (ov : Bool)
        → s ≤ r.start
        → 0 < r.length
        → r.start + r.length ≤ e
        → trimmed s e pre (r ∷ rs) ov ≡ (pre ++ trim s e rs, true)
    unfolding trim meets
    trim_whole r rs ov h p k = ground arith

    trim_part :
        (r : Range) (rs : List Range) (ov : Bool)
        → s ≤ r.start
        → r.start < e
        → e < r.start + r.length
        → Ordered (suc (r.start + r.length)) rs
        → trimmed s e pre (r ∷ rs) ov ≡ (pre ++ range e (r.start + r.length - e) ∷ rs, true)
    unfolding trim meets
    trim_part r rs ov h k l o = ground (arith, trim_beyond s e (suc (r.start + r.length)) rs)

    trim_far :
        (post : List Range) (ov : Bool) (lo : ℕ)
        → s ≤ lo
        → e ≤ lo
        → Ordered lo post
        → trimmed s e pre post ov ≡ (pre ++ post, ov)
    trim_far post ov lo h k o = ground (arith, trim_beyond s e lo post)

    -- The loop and the erasure trim the following ranges.
    pub cut_loop-trim :
        (post : List Range) (fuel : ℕ) (gone : List Range) (ov : Bool) (lo : ℕ)
        → length post < fuel
        → s ≤ lo
        → Ordered lo post
        → closing (cut_loop fuel e (cutting pre gone post (length pre) ov))
          ≡ trimmed s e pre post ov
    cut_loop-trim post zero gone ov lo l h o = absurd (omega arith)
    cut_loop-trim [] (suc fuel) gone ov lo l h o =
        unfold cut_loop trim meets in
        ground (arith, closing-cutting gone [] ov, length_post gone [])
    cut_loop-trim (r ∷ rs) (suc fuel) gone ov lo l h o = elim (Bool-cases (leb e r.start)) [
      | inl far ↦
          rw
            (
              cut_loop-beyond (suc fuel) gone r rs ov (ground arith),
              closing-cutting gone (r ∷ rs) ov,
              trim_far (r ∷ rs) ov r.start (omega arith) (ground arith)
                  (omega arith, o.1, o.2, o.3),
            )
            refl
      | inr near ↦ elim (Bool-cases (leb (r.start + r.length) e)) [
        | inl whole ↦
            rw
              (
                cut_loop_step fuel gone r rs ov (ground arith),
                cut_next-gone gone r rs ov o.2 (ground arith),
                trim_whole r rs ov (omega arith) o.1 (ground arith),
              )
              (cut_loop-trim rs fuel (gone ++ r ∷ []) true (suc (r.start + r.length)) (omega arith)
                (omega arith) o.3)
        | inr part ↦
            rw
              (
                cut_loop_step fuel gone r rs ov (ground arith),
                cut_next-shrunk gone r rs ov o.2 (ground arith) (ground arith),
                cut_loop-beyond fuel gone (range e (r.start + r.length - e)) rs true (omega arith),
                closing-cutting gone (range e (r.start + r.length - e) ∷ rs) true,
                trim_part r rs ov (omega arith) (ground arith) (ground arith) o.3,
              )
              refl
      ]
    ]
