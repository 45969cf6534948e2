-- ===== src/Coverage/Extensional.antt =====
-- The invariant makes the representation canonical: the covered addresses determine the ranges.
use mathlib.Core.Path.{ap₂, subst}
use dwgrep.Base.{ℕ, suc, ◌+◌, ◌<◌, ◌≤◌, ◌≡◌, refl, sym, ap, ◌∙◌, arith, false, List, [], ◌∷◌}
use dwgrep.Coverage.{Range, plus}
use dwgrep.Coverage.Ordered.{Ordered, IsCoverage, covers}
use dwgrep.Coverage.Union.{plus-union}

pub covers-below : (lo a : ℕ) (cov : List Range) → Ordered lo cov → a < lo → covers cov a ≡ false
covers-below lo a [] o h = refl
covers-below lo a (r ∷ rs) o h = ground (arith, covers-below (suc (r.start + r.length)) a rs o.3)

covers_tail :
    (r : Range) (rs : List Range) (a : ℕ) → r.start + r.length ≤ a → covers (r ∷ rs) a ≡ covers rs a
covers_tail r rs a h = ground arith

module _ (x y : Range) (xs ys : List Range) (lo : ℕ) (ox : Ordered lo (x ∷ xs))
    (oy : Ordered lo (y ∷ ys)) where
  -- A range that starts, or ends, first shows at that address.
  start-le : covers (x ∷ xs) x.start ≡ covers (y ∷ ys) x.start → y.start ≤ x.start
  start-le e = ground (arith, covers-below (suc (y.start + y.length)) x.start ys oy.3)

  end-le :
      x.start ≡ y.start
      → covers (x ∷ xs) (x.start + x.length) ≡ covers (y ∷ ys) (x.start + x.length)
      → y.length ≤ x.length
  end-le s e = ground (arith, covers-below (suc (x.start + x.length)) (x.start + x.length) xs ox.3)

range_ext : (x y : Range) → x.start ≡ y.start → x.length ≡ y.length → x ≡ y
range_ext x y s l = ground arith

heads-eq :
    (x y : Range) (xs ys : List Range) (lo : ℕ)
    → Ordered lo (x ∷ xs)
    → Ordered lo (y ∷ ys)
    → ((a : ℕ) → covers (x ∷ xs) a ≡ covers (y ∷ ys) a)
    → x ≡ y
heads-eq x y xs ys lo ox oy e =
    let starts : x.start ≡ y.start = omega (
      arith,
      start-le x y xs ys lo ox oy (e x.start),
      start-le y x ys xs lo oy ox (sym (e y.start)),
    ) in
    let lengths : x.length ≡ y.length = omega (
      arith,
      end-le x y xs ys lo ox oy starts (e (x.start + x.length)),
      end-le y x ys xs lo oy ox (sym starts) (sym (e (y.start + y.length))),
    ) in
    range_ext x y starts lengths

tails-eq :
    (x : Range) (xs ys : List Range)
    → Ordered (suc (x.start + x.length)) xs
    → Ordered (suc (x.start + x.length)) ys
    → ((a : ℕ) → covers (x ∷ xs) a ≡ covers (x ∷ ys) a)
    → (a : ℕ) → covers xs a ≡ covers ys a
tails-eq x xs ys ox oy e a = ground (
  arith,
  e a,
  covers-below (suc (x.start + x.length)) a xs ox,
  covers-below (suc (x.start + x.length)) a ys oy,
)

-- A head that equals x can be replaced by it.
same-head :
    (x y : Range) (ys : List Range) (lo : ℕ) → x ≡ y → Ordered lo (y ∷ ys) → Ordered lo (x ∷ ys)
same-head x y ys lo h o = subst (λ r. Ordered lo (r ∷ ys)) (sym h) o

Ordered-ext :
    (xs ys : List Range) (lo : ℕ)
    → Ordered lo xs
    → Ordered lo ys
    → ((a : ℕ) → covers xs a ≡ covers ys a)
    → xs ≡ ys
Ordered-ext [] [] lo ox oy e = refl
Ordered-ext [] (y ∷ ys) lo ox oy e = absurd (ground (arith, e y.start))
Ordered-ext (x ∷ xs) [] lo ox oy e = absurd (ground (arith, e x.start))
Ordered-ext (x ∷ xs) (y ∷ ys) lo ox oy e =
    let same = heads-eq x y xs ys lo ox oy e in
    let oy' = same-head x y ys lo same oy in
    ap₂ ◌∷◌ same (
      Ordered-ext xs ys (suc (x.start + x.length)) ox.3 oy'.3
        (tails-eq x xs ys ox.3 oy'.3 (λ a. e a ∙ ap (λ r. covers (r ∷ ys) a) (sym same))))

pub coverage_ext :
    (xs ys : List Range)
    → IsCoverage xs
    → IsCoverage ys
    → ((a : ℕ) → covers xs a ≡ covers ys a)
    → xs ≡ ys
coverage_ext xs ys = Ordered-ext xs ys 0

-- The sum of two coverages that keep the invariant consists of the same ranges in either order.
pub plus_comm :
    (cov rhs : List Range) → IsCoverage cov → IsCoverage rhs → plus cov rhs ≡ plus rhs cov
plus_comm cov rhs o h =
    let (ol, left) = plus-union cov rhs o h in
    let (or, right) = plus-union rhs cov h o in
    coverage_ext (plus cov rhs) (plus rhs cov) ol or (λ a. ground (arith, left a, right a))
