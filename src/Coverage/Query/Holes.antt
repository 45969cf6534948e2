-- ===== src/Coverage/Query/Holes.antt =====
-- The ranges that coverage::find_holes gives to its callback.
use dwgrep.Base.{
  sym, ℕ, suc, ◌+◌, ◌-◌, ◌^◌, ◌<◌, ◌≤◌, ◌≡◌, refl, arith, add64_fits, Bool, true, false, not, ◌&&◌,
  ◌||◌, ltb, leb, ◌==◌, if◌then◌else◌, List, [], ◌∷◌, Bool-cases, inl, inr, sub64,
}
use dwgrep.Coverage.{Range, range}
use dwgrep.Coverage.Ordered.{Ordered, IsCoverage, between, covers}
use dwgrep.Coverage.Extensional.{covers-below}
use dwgrep.Coverage.Query.{find_ranges, holes_between, find_holes, and_then}

-- The ranges from the end of r on, up to each of the next and then to `stop`.
pub gaps : ℕ → Range → List Range → List Range
gaps stop r [] =
    if ltb (r.start + r.length) stop
    then range (r.start + r.length) (stop - (r.start + r.length)) ∷ []
    else []
gaps stop r (x ∷ xs) = range (r.start + r.length) (x.start - (r.start + r.length)) ∷ gaps stop x xs

pub holes : ℕ → ℕ → List Range → List Range
unfolding gaps
holes start stop [] = range start (stop - start) ∷ []
holes start stop (r ∷ rs) =
    if ltb start r.start then range start (r.start - start) ∷ gaps stop r rs else gaps stop r rs

-- The end of the last range.
abbrev pub last_end : Range → List Range → ℕ
last_end r [] = r.start + r.length
last_end r (x ∷ xs) = last_end x xs

-- The span whose holes are given: [start, stop), and with it all that lies between ranges.
abbrev pub spans : ℕ → ℕ → List Range → ℕ → Bool
spans start stop [] a = between start stop a
spans start stop (r ∷ rs) a =
    (leb start a || leb r.start a) && (ltb a stop || ltb a (last_end r rs))

last_end-le :
    (r : Range) (xs : List Range)
    → Ordered (suc (r.start + r.length)) xs
    → r.start + r.length ≤ last_end r xs
last_end-le r [] o = omega arith
last_end-le r (x ∷ xs) o = omega (arith, last_end-le x xs o.3)

covers-gaps :
    (stop a : ℕ) (r : Range) (xs : List Range)
    → Ordered (suc (r.start + r.length)) xs
    → covers (gaps stop r xs) a
      ≡ (leb (r.start + r.length) a && (ltb a stop || ltb a (last_end r xs)) && not (covers xs a))
unfolding gaps
covers-gaps stop a r [] o = ground arith
covers-gaps stop a r (x ∷ xs) o = ground (
  arith,
  covers-gaps stop a x xs o.3,
  last_end-le x xs o.3,
  covers-below (suc (x.start + x.length)) a xs o.3,
)

covers-holes :
    (start stop a : ℕ) (cov : List Range)
    → IsCoverage cov
    → start ≤ stop
    → covers (holes start stop cov) a ≡ (spans start stop cov a && not (covers cov a))
unfolding holes
covers-holes start stop a [] o h = ground arith
covers-holes start stop a (r ∷ rs) o h = ground (
  arith,
  covers-gaps stop a r rs o.3,
  last_end-le r rs o.3,
  covers-below (suc (r.start + r.length)) a rs o.3,
)

ltb-le : {m n : ℕ} → ltb m n ≡ true → m ≤ n
ltb-le e = ground arith

sub64_fits : (a b : ℕ) → b ≤ a → a < 2 ^ 64 → sub64 a b ≡ a - b
sub64_fits a b h l = omega arith

==_pos : (n : ℕ) → 0 < n → (n == 0) ≡ false
==_pos n h = ground arith

add_sub : (a b : ℕ) → a + b - a ≡ b
add_sub a b = omega arith

module _ {S : Type 0} (cb : ℕ → ℕ → S → Bool × S) where
  and_then-eq :
      (r : Bool × S) (k k' : S → Bool × S)
      → ((s : S) → k s ≡ k' s)
      → and_then cb r k ≡ and_then cb r k'
  and_then-eq (true, s) k k' e = e s
  and_then-eq (false, s) k k' e = refl

  and_then-true : (r : Bool × S) → and_then cb r (λ s. (true, s)) ≡ r
  and_then-true (true, s) = refl
  and_then-true (false, s) = refl

  holes_between-gaps :
      (start len : ℕ) (r : Range) (xs : List Range)
      → start + len < 2 ^ 64
      → r.start + r.length < 2 ^ 64
      → Ordered (suc (r.start + r.length)) xs
      → (s : S) → holes_between cb start len r xs s ≡ find_ranges cb (gaps (start + len) r xs) s
  unfolding holes_between find_ranges gaps
  holes_between-gaps start len r [] f l o s =
      elim (Bool-cases (ltb (r.start + r.length) (start + len))) [
        | inl y ↦
            rw
              (
                add64_fits start len f,
                add64_fits r.start r.length l,
                y,
                sub64_fits (start + len) (r.start + r.length) (ltb-le y) f,
              )
              (sym (and_then-true (cb (r.start + r.length) (start + len - (r.start + r.length)) s)))
        | inr n ↦ rw (add64_fits start len f, add64_fits r.start r.length l, n) refl
      ]
  holes_between-gaps start len r (x ∷ xs) f l o s =
      rw
        (
          add64_fits r.start r.length l,
          sub64_fits x.start (r.start + r.length) (omega arith) (omega arith),
        )
        (and_then-eq (cb (r.start + r.length) (x.start - (r.start + r.length)) s)
          (holes_between cb start len x xs) (find_ranges cb (gaps (start + len) x xs))
          (holes_between-gaps start len x xs f o.2 o.3))

  -- `find_holes` calls the callback as `find_ranges` does on the list of holes.
  find_holes-find_ranges :
      (start len : ℕ) (cov : List Range)
      → IsCoverage cov
      → 0 < len
      → start + len < 2 ^ 64
      → (s : S) → find_holes cb start len cov s ≡ find_ranges cb (holes start (start + len) cov) s
  unfolding find_holes find_ranges holes
  find_holes-find_ranges start len [] o p f s =
      rw (==_pos len p, add_sub start len) (sym (and_then-true (cb start len s)))
  find_holes-find_ranges start len (r ∷ rs) o p f s = elim (Bool-cases (ltb start r.start)) [
    | inl y ↦
        rw (==_pos len p, y, sub64_fits r.start start (ltb-le y) (omega arith))
          (and_then-eq (cb start (r.start - start) s) (holes_between cb start len r rs)
            (find_ranges cb (gaps (start + len) r rs))
            (holes_between-gaps start len r rs f o.2 o.3))
    | inr n ↦ rw (==_pos len p, n) (holes_between-gaps start len r rs f o.2 o.3 s)
  ]

  -- On a coverage that keeps the invariant, and for a span that is not empty and ends within the
  -- address space, `find_holes` calls the callback on a list of ranges in order, up to the first
  -- for which it returns false. These cover just the addresses that the coverage does not cover,
  -- of the span and of all that lies between ranges of the coverage or between one and the span.
  pub find_holes-complement :
      (start len : ℕ) (cov : List Range) (s : S)
      → IsCoverage cov
      → 0 < len
      → start + len < 2 ^ 64
      → (find_holes cb start len cov s ≡ find_ranges cb (holes start (start + len) cov) s)
        × ((a : ℕ)
            → covers (holes start (start + len) cov) a
              ≡ (spans start (start + len) cov a && not (covers cov a)))
  find_holes-complement start len cov s o p f = (
    find_holes-find_ranges start len cov o p f s,
    λ a. covers-holes start (start + len) a cov o (omega arith),
  )
