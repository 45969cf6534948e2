-- ===== src/Coverage/Union.antt =====
-- The addresses that a coverage covers after coverage::add, and after operator+.
use dwgrep.Base.{ℕ, zero, suc, ◌+◌, ◌^◌, ◌<◌, ◌≤◌, ◌≡◌, refl, arith, ◌||◌, List, [], ◌∷◌}
use dwgrep.Coverage.{Range, range, add, add_all, plus}
use dwgrep.Coverage.Ordered.{Ordered, IsCoverage, between, covers}
use dwgrep.Coverage.Absorb.{extended, absorb}
use dwgrep.Coverage.Add.{joined, add-joined}

absorb-Ordered :
    (cur : Range) (rs : List Range) (lo lo' : ℕ)
    → lo ≤ cur.start
    → 0 < cur.length
    → cur.start + cur.length < 2 ^ 64
    → cur.start ≤ lo'
    → Ordered lo' rs
    → Ordered lo (absorb cur rs)
unfolding absorb
absorb-Ordered cur [] lo lo' h p f k o = omega arith
absorb-Ordered cur (r ∷ rs) lo lo' h p f k o =
    ground (arith, absorb-Ordered (extended cur r) rs lo (suc (r.start + r.length)))

joined-Ordered :
    (new : Range) (cov : List Range) (lo : ℕ)
    → lo ≤ new.start
    → 0 < new.length
    → new.start + new.length < 2 ^ 64
    → Ordered lo cov
    → Ordered lo (joined new cov)
unfolding joined
joined-Ordered new [] lo h p f o = omega arith
joined-Ordered new (r ∷ rs) lo h p f o = ground (
  arith,
  joined-Ordered new rs (suc (r.start + r.length)),
  absorb-Ordered (extended r new) rs lo (suc (r.start + r.length)),
  absorb-Ordered new (r ∷ rs) lo r.start,
)

covers-absorb :
    (cur : Range) (rs : List Range) (lo' a : ℕ)
    → cur.start ≤ lo'
    → Ordered lo' rs
    → covers (absorb cur rs) a ≡ (between cur.start (cur.start + cur.length) a || covers rs a)
unfolding absorb
covers-absorb cur [] lo' a k o = refl
covers-absorb cur (r ∷ rs) lo' a k o =
    ground (arith, covers-absorb (extended cur r) rs (suc (r.start + r.length)) a)

covers-joined :
    (new : Range) (cov : List Range) (lo a : ℕ)
    → Ordered lo cov
    → covers (joined new cov) a ≡ (between new.start (new.start + new.length) a || covers cov a)
unfolding joined
covers-joined new [] lo a o = refl
covers-joined new (r ∷ rs) lo a o = ground (
  arith,
  covers-joined new rs (suc (r.start + r.length)) a,
  covers-absorb (extended r new) rs (suc (r.start + r.length)) a,
  covers-absorb new (r ∷ rs) r.start a,
)

-- On a coverage that keeps the invariant, and with a range that ends within the address space,
-- `add` keeps the invariant.
pub add-IsCoverage :
    (cov : List Range) (s len : ℕ) → IsCoverage cov → s + len < 2 ^ 64 → IsCoverage (add cov s len)
add-IsCoverage cov s zero o f = unfold add in o
add-IsCoverage cov s (suc n) o f =
    rw (add-joined cov s (suc n) o (omega arith) f)
      (joined-Ordered (range s (suc n)) cov 0 (omega arith) (omega arith) f o)

-- On a coverage that keeps the invariant, and with a range that ends within the address space,
-- `add` leaves covered just the old addresses and those of the range.
pub covers-add :
    (cov : List Range) (s len a : ℕ)
    → IsCoverage cov
    → s + len < 2 ^ 64
    → covers (add cov s len) a ≡ (between s (s + len) a || covers cov a)
covers-add cov s zero a o f = unfold add in ground arith
covers-add cov s (suc n) a o f =
    rw (add-joined cov s (suc n) o (omega arith) f) (covers-joined (range s (suc n)) cov 0 a o)

pub Ordered-lower : (lo lo' : ℕ) (cov : List Range) → lo ≤ lo' → Ordered lo' cov → Ordered lo cov
Ordered-lower lo lo' [] h o = o
Ordered-lower lo lo' (r ∷ rs) h o = (omega arith, o.1, o.2, o.3)

-- operator+ of two coverages that keep the invariant keeps it too, and covers just the addresses
-- that one of them covers.
pub plus-union :
    (cov rhs : List Range)
    → IsCoverage cov
    → IsCoverage rhs
    → IsCoverage (plus cov rhs)
      × ((a : ℕ) → covers (plus cov rhs) a ≡ (covers cov a || covers rhs a))
unfolding plus add_all
plus-union cov [] o h = (o, λ a. ground arith)
plus-union cov (r ∷ rs) o h =
    let (keeps, union) =
      plus-union (add cov r.start r.length) rs (add-IsCoverage cov r.start r.length o h.2)
        (Ordered-lower 0 (suc (r.start + r.length)) rs (omega arith) h.3) in
    (keeps, λ a. ground (arith, union a, covers-add cov r.start r.length a o h.2))
