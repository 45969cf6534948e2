-- ===== src/Coverage/Query/Intersect.antt =====
-- What `intersect` covers. The piece of a range that begins before `start` is not cut at its end.
use mathlib.Core.Path.{ap₂}
use dwgrep.Base.{
  ℕ, zero, suc, ◌+◌, ◌-◌, ◌^◌, ◌<◌, ◌≤◌, ◌≡◌, refl, ap, ◌∙◌, inl, inr, min, arith, ltb, leb, Bool,
  true, false, ◌&&◌, ◌||◌, List, [], ◌∷◌, drop, add64, sub64, add64_fits, Bool-cases,
}
use dwgrep.Coverage.{Range, end_, find, add}
use dwgrep.Coverage.Ordered.{Ordered, IsCoverage, between, covers}
use dwgrep.Coverage.Find.{lower_bound, find-lower_bound}
use dwgrep.Coverage.Extensional.{covers-below}
use dwgrep.Coverage.Union.{add-IsCoverage, covers-add}
use dwgrep.Coverage.Query.{intersect, intersect_loop, intersect_previous}

-- The address lies in a range that begins before s.
unfoldable pub straddles : ℕ → List Range → ℕ → Bool
straddles s [] a = false
straddles s (r ∷ rs) a =
    (ltb r.start s && between r.start (r.start + r.length) a) || straddles s rs a

-- The address lies in a range that begins at s or behind it.
later : ℕ → List Range → ℕ → Bool
later s [] a = false
later s (r ∷ rs) a = (leb s r.start && between r.start (r.start + r.length) a) || later s rs a

Ordered-drop :
    (s lo : ℕ) (cov : List Range) → Ordered lo cov → Ordered s (drop (lower_bound s cov) cov)
Ordered-drop s lo [] o = tt
Ordered-drop s lo (r ∷ rs) o = ground (arith, Ordered-drop s (suc (r.start + r.length)) rs o.3)

later_all : (s lo a : ℕ) (cov : List Range) → s ≤ lo → Ordered lo cov → later s cov a ≡ covers cov a
unfolding later
later_all s lo a [] h o = refl
later_all s lo a (r ∷ rs) h o = ground (arith, later_all s (suc (r.start + r.length)) a rs)

covers-drop :
    (s lo a : ℕ) (cov : List Range)
    → Ordered lo cov
    → covers (drop (lower_bound s cov) cov) a ≡ later s cov a
unfolding later
covers-drop s lo a [] o = refl
covers-drop s lo a (r ∷ rs) o = ground (
  arith,
  covers-drop s (suc (r.start + r.length)) a rs o.3,
  later_all s (suc (r.start + r.length)) a rs,
)

covers-split : (s a : ℕ) (cov : List Range) → covers cov a ≡ (straddles s cov a || later s cov a)
unfolding straddles later
covers-split s a [] = refl
covers-split s a (r ∷ rs) = ground (arith, covers-split s a rs)

later-ge : (s a : ℕ) (cov : List Range) → later s cov a ≡ true → s ≤ a
unfolding later
later-ge s a [] h = absurd (ground arith)
later-ge s a (r ∷ rs) h = ground (arith, later-ge s a rs)

piece_exact :
    (e : ℕ) (r : Range)
    → r.start + r.length < 2 ^ 64
    → r.start < e
    → sub64 (min (end_ r) e) r.start ≡ min (r.start + r.length) e - r.start
piece_exact e r f h = omega arith

piece_covers :
    (e a : ℕ) (r : Range) (c t : Bool)
    → r.start < e
    → (between r.start (r.start + (min (r.start + r.length) e - r.start)) a || c || t && ltb a e)
      ≡ (c || (between r.start (r.start + r.length) a || t) && ltb a e)
piece_covers e a r c t h = ground arith

-- The loop adds what the ranges cover below e.
intersect_loop-covers :
    (e lo : ℕ) (rs ret : List Range)
    → e < 2 ^ 64
    → Ordered lo rs
    → IsCoverage ret
    → IsCoverage (intersect_loop e rs ret)
      × ((a : ℕ) → covers (intersect_loop e rs ret) a ≡ (covers ret a || covers rs a && ltb a e))
unfolding intersect_loop
intersect_loop-covers e lo [] ret f o k = (k, λ a. ground arith)
intersect_loop-covers e lo (r ∷ rs) ret f o k = elim (Bool-cases (ltb r.start e)) [
  | inl near ↦
      let piece = min (r.start + r.length) e - r.start in
      let (keeps, union) =
        intersect_loop-covers e (suc (r.start + r.length)) rs (add ret r.start piece) f o.3
          (add-IsCoverage ret r.start piece k (ground arith)) in
      rw (near, piece_exact e r o.2 (ground arith))
        (
          keeps,
          λ a.
              union a
              ∙ ap (λ c. c || covers rs a && ltb a e)
                  (covers-add ret r.start piece a k (ground arith))
              ∙ piece_covers e a r (covers ret a) (covers rs a) (ground arith),
        )
  | inr far ↦ rw far (k, λ a. ground (arith, covers-below (suc (r.start + r.length)) a rs o.3))
]

straddles_none :
    (s lo a : ℕ) (cov : List Range) → s ≤ lo → Ordered lo cov → straddles s cov a ≡ false
unfolding straddles
straddles_none s lo a [] h o = refl
straddles_none s lo a (r ∷ rs) h o =
    ground (arith, straddles_none s (suc (r.start + r.length)) a rs)

-- At an index the code adds the part from s on of the range before, if there is any.
abbrev Previous : ℕ → ℕ → List Range → ℕ → Type 0
Previous s a cov i =
    IsCoverage (intersect_previous cov s i)
    × (covers (intersect_previous cov s i) a ≡ (straddles s cov a && leb s a))

module _ (s a lo : ℕ) (r : Range) (rs : List Range) (o : Ordered lo (r ∷ rs)) where
  Previous-zero : s ≤ r.start → Previous s a (r ∷ rs) 0
  unfolding intersect_previous straddles
  Previous-zero h = ground (arith, straddles_none s (suc (r.start + r.length)) a rs)

  Previous-one : r.start < s → lower_bound s rs ≡ zero → Previous s a (r ∷ rs) 1
  unfolding intersect_previous straddles
  Previous-one h z =
      let part = r.start + r.length - s in
      ground
        (arith, add-IsCoverage [] s part tt, covers-add [] s part a tt, straddles_first rs o.3 z)
    where
      straddles_first :
          (xs : List Range)
          → Ordered (suc (r.start + r.length)) xs
          → lower_bound s xs ≡ zero
          → straddles s xs a ≡ false
      straddles_first [] k z = refl
      straddles_first (x ∷ xs) k z =
          ground (arith, straddles_none s (suc (x.start + x.length)) a xs)

  Previous-suc :
      (k : ℕ)
      → r.start < s
      → lower_bound s rs ≡ suc k
      → Previous s a rs (suc k)
      → Previous s a (r ∷ rs) (suc (suc k))
  unfolding intersect_previous straddles
  Previous-suc k h z p = ground (arith, passed rs o.3 z)
    where
      passed :
          (xs : List Range)
          → Ordered (suc (r.start + r.length)) xs
          → lower_bound s xs ≡ suc k
          → r.start + r.length < s
      passed [] o z = absurd (ground arith)
      passed (x ∷ xs) o z = ground arith

Previous-step :
    (s a lo : ℕ) (r : Range) (rs : List Range) (k : ℕ)
    → Ordered lo (r ∷ rs)
    → r.start < s
    → lower_bound s rs ≡ k
    → Previous s a rs (lower_bound s rs)
    → Previous s a (r ∷ rs) (suc (lower_bound s rs))
Previous-step s a lo r rs zero o h z p = rw z (Previous-one s a lo r rs o h z)
Previous-step s a lo r rs (suc k) o h z p = rw z (Previous-suc s a lo r rs o k h z (rw z at p))

covers-Previous :
    (s lo a : ℕ) (cov : List Range) → Ordered lo cov → Previous s a cov (lower_bound s cov)
covers-Previous s lo a [] o = unfold intersect_previous straddles in (tt, refl)
covers-Previous s lo a (r ∷ rs) o = elim (Bool-cases (ltb r.start s)) [
  | inr first ↦ rw first (Previous-zero s a lo r rs o (ground arith))
  | inl below ↦ rw below (
      Previous-step s a lo r rs (lower_bound s rs) o (ground arith) refl
        (covers-Previous s (suc (r.start + r.length)) a rs o.3))
]

combine :
    (s e a : ℕ) (c st l : Bool)
    → c ≡ (st || l)
    → (l ≡ true → s ≤ a)
    → (st && leb s a || l && ltb a e) ≡ (c && between s e a || st && leb s a)
combine s e a c st true d h = let k = h refl in ground arith
combine s e a c st false d h = ground arith

-- The code behind the search, on a coverage.
found-covers :
    (s e : ℕ) (cov : List Range)
    → IsCoverage cov
    → e < 2 ^ 64
    → let i = lower_bound s cov in
      let ret = intersect_loop e (drop i cov) (intersect_previous cov s i) in
      IsCoverage ret
      × ((a : ℕ) → covers ret a ≡ (covers cov a && between s e a || straddles s cov a && leb s a))
found-covers s e cov o f =
    let i = lower_bound s cov in
    let before = λ (a : ℕ). covers-Previous s 0 a cov o in
    let (keeps, union) =
      intersect_loop-covers e s (drop i cov) (intersect_previous cov s i) f (Ordered-drop s 0 cov o)
        ((before 0).0) in
    (
      keeps,
      λ a.
          union a
          ∙ ap₂ (λ b d. b || d && ltb a e) ((before a).1) (covers-drop s 0 a cov o)
          ∙ combine s e a (covers cov a) (straddles s cov a) (later s cov a) (covers-split s a cov)
              (later-ge s a cov),
    )

intersect-found :
    (r : Range) (rs : List Range) (s len : ℕ)
    → 0 < len
    → let i = find (r ∷ rs) s in
      intersect (r ∷ rs) s len
      ≡ intersect_loop (add64 s len) (drop i (r ∷ rs)) (intersect_previous (r ∷ rs) s i)
unfolding intersect
intersect-found r rs s len p = ground arith

-- On a coverage that keeps the invariant, and for a range [s, s + len) that is not empty and ends
-- within the address space, `intersect` returns a coverage that keeps it. It covers the covered
-- addresses of the range, and besides all addresses from s on of a range that begins before s,
-- also those from s + len on, and no others.
pub covers-intersect :
    (cov : List Range) (s len : ℕ)
    → IsCoverage cov
    → 0 < len
    → s + len < 2 ^ 64
    → IsCoverage (intersect cov s len)
      × ((a : ℕ)
          → covers (intersect cov s len) a
            ≡ (covers cov a && between s (s + len) a || straddles s cov a && leb s a))
covers-intersect [] s len o p f = unfold intersect straddles in (tt, λ a. refl)
covers-intersect (r ∷ rs) s len o p f =
    rw (intersect-found r rs s len p, find-lower_bound s (r ∷ rs) o, add64_fits s len f)
      (found-covers s (s + len) (r ∷ rs) o f)

-- So `intersect` returns an address from s + len on whenever one range begins before s and reaches
-- as far.
pub intersect_beyond :
    (cov : List Range) (s len a : ℕ)
    → IsCoverage cov
    → 0 < len
    → s + len < 2 ^ 64
    → straddles s cov a ≡ true
    → s + len ≤ a
    → covers (intersect cov s len) a ≡ true
intersect_beyond cov s len a o p f h k = ground (arith, (covers-intersect cov s len o p f).1 a)
