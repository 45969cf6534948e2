-- ===== src/Coverage/Absorb.antt =====
-- The loop of `add` over the following ranges, against a recursion over the list.
use native.Mathlib.Nat.{add-zero}
use mathlib.Core.List.{append_assoc}
use dwgrep.Base.{
  ℕ, suc, ◌+◌, ◌-◌, ◌^◌, ◌<◌, ◌≤◌, ◌≡◌, sym, ap, ◌∙◌, arith, ltb, leb, false, if◌then◌else◌, List,
  [], ◌∷◌, ◌++◌, length, set, drop, length-append, get_or-append, set-append, take-append,
  drop-append,
}
use dwgrep.Coverage.{
  Range, range, at, erase_between, Adding, element, extend, place, absorb_next, absorb_loop,
  insert_new,
}
use dwgrep.Coverage.Ordered.{Ordered}

-- The range `cur`, lengthened to the end of r if that is beyond its own.
abbrev pub extended : Range → Range → Range
extended cur r =
    if ltb (cur.start + cur.length) (r.start + r.length)
    then range cur.start (r.start + r.length - cur.start)
    else cur

-- `cur` swallows the ranges that it reaches.
unfoldable pub absorb : Range → List Range → List Range
absorb cur [] = cur ∷ []
absorb cur (r ∷ rs) =
    let rest = absorb (extended cur r) rs in
    if leb r.start (cur.start + cur.length) then rest else cur ∷ r ∷ rs

-- Where the loop stands: it has lengthened `cur`, behind which `mid` waits to be erased.
abbrev pub running : Range → List Range → Range → List Range → List Range → Adding
running nr pre cur mid post = record {
  ranges = pre ++ cur ∷ (mid ++ post);
  nr = nr;
  to_insert = false;
  coalesce = element (length pre);
  r_i = length pre + 1;
  p_i = length pre + suc (length mid);
}

pub at_here :
    (pre : List Range) (cur : Range) (tail : List Range) → at (pre ++ cur ∷ tail) (length pre) ≡ cur
at_here pre cur tail =
    ap (at (pre ++ cur ∷ tail)) (sym (add-zero (length pre)))
    ∙ get_or-append pre (cur ∷ tail) 0 (range 0 0)

pub set_here :
    (pre : List Range) (cur : Range) (tail : List Range) (v : Range)
    → set (pre ++ cur ∷ tail) (length pre) v ≡ pre ++ v ∷ tail
set_here pre cur tail v =
    ap (λ i. set (pre ++ cur ∷ tail) i v) (sym (add-zero (length pre)))
    ∙ set-append pre (cur ∷ tail) 0 v

module _ (nr : Range) (pre : List Range) where
  at_next :
      (cur : Range) (mid : List Range) (r : Range) (rs : List Range)
      → at (pre ++ cur ∷ (mid ++ r ∷ rs)) (length pre + suc (length mid)) ≡ r
  at_next cur mid r rs =
      get_or-append pre (cur ∷ (mid ++ r ∷ rs)) (suc (length mid)) (range 0 0) ∙ at_here mid r rs

  running_next :
      (cur : Range) (mid : List Range) (r : Range) (rs : List Range)
      → record (running nr pre cur mid (r ∷ rs)) { p_i = length pre + suc (length mid) + 1 }
        ≡ running nr pre cur (mid ++ r ∷ []) rs
  running_next cur mid r rs =
      ground (arith, append_assoc mid (r ∷ []) rs, length-append mid (r ∷ []))

  -- One round: the end of `cur` moves, and one more range waits.
  absorb_next-running :
      (cur : Range) (mid : List Range) (r : Range) (rs : List Range)
      → cur.start + cur.length < 2 ^ 64
      → r.start + r.length < 2 ^ 64
      → absorb_next (running nr pre cur mid (r ∷ rs))
        ≡ running nr pre (extended cur r) (mid ++ r ∷ []) rs
  unfolding absorb_next extend place
  absorb_next-running cur mid r rs hc hr = ground (
    arith,
    at_next cur mid r rs,
    at_here pre cur (mid ++ r ∷ rs),
    set_here pre cur (mid ++ r ∷ rs) (extended cur r),
    running_next cur mid r rs,
    running_next (extended cur r) mid r rs,
  )

  -- The code behind the loop: the erasure, and no insertion.
  abbrev pub closing : Adding → List Range
  closing st = insert_new (
      if ltb st.r_i st.p_i
      then record st { ranges = erase_between st.ranges st.r_i st.p_i }
      else st)

  drop_mid : (mid post : List Range) → drop (length mid) (mid ++ post) ≡ post
  drop_mid mid post =
      ap (λ i. drop i (mid ++ post)) (sym (add-zero (length mid))) ∙ drop-append mid post 0

  erase_mid :
      (cur : Range) (mid post : List Range)
      → erase_between (pre ++ cur ∷ (mid ++ post)) (length pre + 1) (length pre + suc (length mid))
        ≡ pre ++ cur ∷ post
  erase_mid cur mid post = rw (
    take-append pre (cur ∷ (mid ++ post)) 1,
    drop-append pre (cur ∷ (mid ++ post)) (suc (length mid)),
    drop_mid mid post,
    append_assoc pre (cur ∷ []) post,
  )

  closing-running :
      (cur : Range) (mid post : List Range)
      → closing (running nr pre cur mid post) ≡ pre ++ cur ∷ post
  unfolding insert_new
  closing-running cur [] post = ground arith
  closing-running cur (m ∷ mid) post = ground (arith, erase_mid cur (m ∷ mid) post)

  -- The whole loop, with all that stands behind `mid` left to look at.
  pub absorb_loop-absorb :
      (cur : Range) (mid post : List Range) (lo : ℕ)
      → cur.start + cur.length < 2 ^ 64
      → cur.start ≤ lo
      → Ordered lo post
      → closing (absorb_loop (length post) (running nr pre cur mid post)) ≡ pre ++ absorb cur post
  unfolding absorb_loop absorb
  absorb_loop-absorb cur mid [] lo hc hl o = closing-running cur mid []
  absorb_loop-absorb cur mid (r ∷ rs) lo hc hl o = ground (
    arith,
    at_next cur mid r rs,
    at_here pre cur (mid ++ r ∷ rs),
    absorb_next-running cur mid r rs hc,
    closing-running cur mid (r ∷ rs),
    absorb_loop-absorb (extended cur r) (mid ++ r ∷ []) rs (suc (r.start + r.length)),
  )
