-- ===== src/Coverage/Find.antt =====
-- The search of coverage::find, against the count of the ranges below the address.
use dwgrep.Base.{
  ℕ, zero, suc, ◌+◌, ◌/◌, ◌<◌, ◌≤◌, ◌≡◌, arith, ltb, if◌then◌else◌, List, [], ◌∷◌, length,
}
use dwgrep.Coverage.{Range, at, find_loop, find}
use dwgrep.Coverage.Ordered.{Ordered, IsCoverage}

-- The reference: count the leading ranges that start below.
abbrev pub lower_bound : ℕ → List Range → ℕ
lower_bound start [] = 0
lower_bound start (r ∷ rs) = let n = lower_bound start rs in if ltb r.start start then suc n else 0

pub lower_bound-le : (s : ℕ) (cov : List Range) → lower_bound s cov ≤ length cov
lower_bound-le s [] = omega arith
lower_bound-le s (r ∷ rs) = ground (arith, lower_bound-le s rs)

-- Below the lower bound the ranges start below the address.
at-lt : (s : ℕ) (cov : List Range) (i : ℕ) → i < lower_bound s cov → (at cov i).start < s
at-lt s [] i h = absurd (omega arith)
at-lt s (r ∷ rs) zero h = ground arith
at-lt s (r ∷ rs) (suc i) h = ground (arith, at-lt s rs i)

Ordered-at :
    (lo : ℕ) (cov : List Range) (i : ℕ) → Ordered lo cov → i < length cov → lo ≤ (at cov i).start
Ordered-at lo [] i o h = absurd (omega arith)
Ordered-at lo (r ∷ rs) zero o h = o.0
Ordered-at lo (r ∷ rs) (suc i) o h =
    omega (arith, Ordered-at (suc (r.start + r.length)) rs i o.3 (omega arith))

-- From the lower bound on they do not.
at-ge :
    (s lo : ℕ) (cov : List Range) (i : ℕ)
    → Ordered lo cov
    → lower_bound s cov ≤ i
    → i < length cov
    → s ≤ (at cov i).start
at-ge s lo [] i o h k = absurd (omega arith)
at-ge s lo (r ∷ rs) zero o h k = ground arith
at-ge s lo (r ∷ rs) (suc i) o h k = ground (
  arith,
  at-ge s (suc (r.start + r.length)) rs i o.3,
  Ordered-at (suc (r.start + r.length)) rs i o.3,
)

-- Two ranges that start alike are one.
at-inj_lt :
    (lo : ℕ) (cov : List Range) (i j : ℕ)
    → Ordered lo cov
    → i < j
    → j < length cov
    → (at cov i).start < (at cov j).start
at-inj_lt lo [] i j o h k = absurd (omega arith)
at-inj_lt lo (r ∷ rs) i zero o h k = absurd (omega arith)
at-inj_lt lo (r ∷ rs) zero (suc j) o h k =
    omega (arith, Ordered-at (suc (r.start + r.length)) rs j o.3 (omega arith))
at-inj_lt lo (r ∷ rs) (suc i) (suc j) o h k =
    at-inj_lt (suc (r.start + r.length)) rs i j o.3 (omega arith) (omega arith)

module _ (s : ℕ) (cov : List Range) (o : IsCoverage cov) where
  -- The lower bound stays between a and b.
  find_loop-lower_bound :
      (fuel a b : ℕ)
      → b ≤ a + fuel
      → b ≤ length cov
      → a ≤ lower_bound s cov
      → lower_bound s cov ≤ b
      → find_loop fuel cov s a b ≡ lower_bound s cov
  unfolding find_loop
  find_loop-lower_bound zero a b f n la lb = omega arith
  find_loop-lower_bound (suc fuel) a b f n la lb =
      let i = (a + b) / 2 in
      ground (
        arith,
        at-lt s cov i,
        at-ge s 0 cov i o,
        at-ge s 0 cov (lower_bound s cov) o,
        at-inj_lt 0 cov (lower_bound s cov) i o,
        find_loop-lower_bound fuel a i,
        find_loop-lower_bound fuel (i + 1) b,
      )

  -- On a coverage that keeps the invariant, the binary search of `find` returns the number of
  -- ranges that start below the address.
  pub find-lower_bound : find cov s ≡ lower_bound s cov
  unfolding find
  find-lower_bound =
      find_loop-lower_bound (length cov) 0 (length cov) (omega arith) (omega arith) (omega arith)
        (lower_bound-le s cov)
