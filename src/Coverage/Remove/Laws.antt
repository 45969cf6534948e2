-- ===== src/Coverage/Remove/Laws.antt =====
-- The addresses that a coverage covers after coverage::remove, and after operator-.
use dwgrep.Base.{
  ℕ, zero, suc, ◌+◌, ◌^◌, ◌<◌, ◌≡◌, ◌↔◌, refl, arith, ltb, leb, Bool, true, not, ◌&&◌, ◌||◌, List,
  [], ◌∷◌, inl, inr, Bool-cases,
}
use dwgrep.Coverage.{Range, plus}
use dwgrep.Coverage.Ordered.{Ordered, IsCoverage, between, covers}
use dwgrep.Coverage.Union.{plus-union, Ordered-lower}
use dwgrep.Coverage.Extensional.{coverage_ext}
use dwgrep.Coverage.Remove.{remove, remove_all, minus}
use dwgrep.Coverage.Remove.Trim.{trim, meets, below, above}
use dwgrep.Coverage.Remove.Difference.{remove-trim}

trim-Ordered : (s e lo : ℕ) (cov : List Range) → s < e → Ordered lo cov → Ordered lo (trim s e cov)
unfolding trim
trim-Ordered s e lo [] h o = tt
trim-Ordered s e lo (r ∷ rs) h o =
    let rest = trim-Ordered s e (suc (r.start + r.length)) rs h o.3 in
    ground (
      arith,
      rest,
      Ordered-lower lo (suc (r.start + r.length)) (trim s e rs),
      Ordered-lower (suc s) (suc (r.start + r.length)) (trim s e rs),
    )

abbrev inside : Range → ℕ → Bool
inside r a = between r.start (r.start + r.length) a

covers_left :
    (s a : ℕ) (r : Range) (rest : List Range)
    → covers (below s r rest) a ≡ (inside r a && ltb a s || covers rest a)
covers_left s a r rest = ground arith

covers_right :
    (e a : ℕ) (r : Range) (rest : List Range)
    → covers (above e r rest) a ≡ (inside r a && leb e a || covers rest a)
covers_right e a r rest = ground arith

outside :
    (s e a : ℕ) (i c : Bool)
    → s < e
    → (i && ltb a s || (i && leb e a || c && not (between s e a)))
      ≡ ((i || c) && not (between s e a))
outside s e a i c h = ground arith

covers-trim :
    (s e lo a : ℕ) (cov : List Range)
    → s < e
    → Ordered lo cov
    → covers (trim s e cov) a ≡ (covers cov a && not (between s e a))
unfolding trim
covers-trim s e lo a [] h o = refl
covers-trim s e lo a (r ∷ rs) h o =
    rw
      (
        covers_left s a r (above e r (trim s e rs)),
        covers_right e a r (trim s e rs),
        covers-trim s e (suc (r.start + r.length)) a rs h o.3,
      )
      (outside s e a (inside r a) (covers rs a) h)

-- An address of [s, e) that is covered, if `meets` says that there is one.
meets-covers :
    (s e lo : ℕ) (cov : List Range)
    → s < e
    → Ordered lo cov
    → meets s e cov ≡ true
    → (a : ℕ) × (between s e a ≡ true) × (covers cov a ≡ true)
unfolding meets
meets-covers s e lo [] h o m = cc
meets-covers s e lo (r ∷ rs) h o m =
    elim (Bool-cases (ltb r.start e && ltb s (r.start + r.length))) [
      | inl here ↦ elim (Bool-cases (ltb r.start s)) [
        | inl l ↦ (s, ground arith, ground arith)
        | inr l ↦ (r.start, ground arith, ground arith)
      ]
      | inr there ↦
          let (a, x, y) = meets-covers s e (suc (r.start + r.length)) rs h o.3 (rw there at m) in
          (a, x, ground arith)
    ]

covers-meets :
    (s e lo a : ℕ) (cov : List Range)
    → Ordered lo cov
    → between s e a ≡ true
    → covers cov a ≡ true
    → meets s e cov ≡ true
unfolding meets
covers-meets s e lo a [] o x y = cc
covers-meets s e lo a (r ∷ rs) o x y =
    ground (arith, covers-meets s e (suc (r.start + r.length)) a rs o.3)

-- On a coverage that keeps the invariant, and with a range that ends within the address space,
-- `remove` keeps the invariant.
pub remove-IsCoverage :
    (cov : List Range) (s len : ℕ)
    → IsCoverage cov
    → s + len < 2 ^ 64
    → IsCoverage (remove cov s len).0
remove-IsCoverage cov s zero o f = unfold remove in ground arith
remove-IsCoverage cov s (suc n) o f =
    rw (remove-trim cov s (suc n) o (omega arith) f)
      (trim-Ordered s (s + suc n) 0 cov (omega arith) o)

-- On a coverage that keeps the invariant, and with a range that ends within the address space,
-- `remove` leaves covered just the old addresses outside the range.
pub covers-remove :
    (cov : List Range) (s len a : ℕ)
    → IsCoverage cov
    → s + len < 2 ^ 64
    → covers (remove cov s len).0 a ≡ (covers cov a && not (between s (s + len) a))
covers-remove cov s zero a o f = unfold remove in ground arith
covers-remove cov s (suc n) a o f =
    rw (remove-trim cov s (suc n) o (omega arith) f)
      (covers-trim s (s + suc n) 0 a cov (omega arith) o)

-- On a coverage that keeps the invariant, and with a range that ends within the address space,
-- `remove` returns true just when some address of the range was covered.
pub remove-reports :
    (cov : List Range) (s len : ℕ)
    → IsCoverage cov
    → s + len < 2 ^ 64
    → ((remove cov s len).1 ≡ true)
      ↔ ((a : ℕ) × (between s (s + len) a ≡ true) × (covers cov a ≡ true))
remove-reports cov s zero o f =
    (unfold remove in λ h. absurd (ground arith), λ (a, x, y). absurd (ground arith))
remove-reports cov s (suc n) o f = rw (remove-trim cov s (suc n) o (omega arith) f) (
  meets-covers s (s + suc n) 0 cov (omega arith) o,
  λ (a, x, y). covers-meets s (s + suc n) 0 a cov o x y,
)

-- operator- of two coverages that keep the invariant keeps it too, and covers just the addresses
-- that the first covers and the second does not.
pub minus-difference :
    (cov rhs : List Range)
    → IsCoverage cov
    → IsCoverage rhs
    → IsCoverage (minus cov rhs)
      × ((a : ℕ) → covers (minus cov rhs) a ≡ (covers cov a && not (covers rhs a)))
unfolding minus remove_all
minus-difference cov [] o h = (o, λ a. ground arith)
minus-difference cov (r ∷ rs) o h =
    let (keeps, diff) =
      minus-difference (remove cov r.start r.length).0 rs
        (remove-IsCoverage cov r.start r.length o h.2)
        (Ordered-lower 0 (suc (r.start + r.length)) rs (omega arith) h.3) in
    (keeps, λ a. ground (arith, diff a, covers-remove cov r.start r.length a o h.2))

-- For two coverages that keep the invariant, taking the second from their sum leaves the same
-- ranges as taking it from the first.
pub minus-plus :
    (cov rhs : List Range)
    → IsCoverage cov
    → IsCoverage rhs
    → minus (plus cov rhs) rhs ≡ minus cov rhs
minus-plus cov rhs o h =
    let (op, union) = plus-union cov rhs o h in
    let (ol, left) = minus-difference (plus cov rhs) rhs op h in
    let (or, right) = minus-difference cov rhs o h in
    coverage_ext (minus (plus cov rhs) rhs) (minus cov rhs) ol or
      (λ a. ground (arith, left a, right a, union a))
