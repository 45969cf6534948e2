-- ===== src/Layout/Reserve.antt =====
-- The locations that a layout gives out: they are aligned and do not overlap.
use mathlib.Core.Path.{subst}
use native.Mathlib.Nat.{mul-mod_left, div-add-mod', mod-lt, mod-eq_of_lt}
use dwgrep.Base.{
  ℕ, ◌+◌, ◌-◌, ◌*◌, ◌/◌, ◌%◌, ◌^◌, ◌≤◌, ◌<◌, ◌≡◌, refl, ap, arith, ltb, if◌then◌else◌, List, [],
  ◌∷◌,
}
use dwgrep.Layout.{align_to, reserve, reserve_all, add_union}
use dwgrep.Layout.Align.{bit_and-high, pow_pos}

-- A multiple of b next to y from below
multiple : (y b : ℕ) → 0 < b → (y / b * b % b ≡ 0) × (y / b * b ≤ y) × (y < y / b * b + b)
multiple y b h = (
  mul-mod_left (y / b) b,
  omega (arith, div-add-mod' y b),
  omega (arith, div-add-mod' y b, mod-lt y h),
)

module _ (j k : ℕ) (whole : 2 ^ (j + k) ≡ 2 ^ 64) where
  aligned : (m : ℕ) → m + 2 ^ k ≤ 2 ^ 64 → align_to m (2 ^ k) ≡ (m + (2 ^ k - 1)) / 2 ^ k * 2 ^ k
  unfolding align_to
  aligned m h =
      let low : (m + (2 ^ k - 1)) % 2 ^ 64 ≡ m + (2 ^ k - 1) =
        mod-eq_of_lt (omega (arith, pow_pos k)) in
      let mask : (2 ^ 64 - 2 ^ k) % 2 ^ 64 ≡ 2 ^ 64 - 2 ^ k =
        mod-eq_of_lt (omega (arith, pow_pos k)) in
      rw (low, mask, ← whole)
        (bit_and-high j k (m + (2 ^ k - 1)) (rw whole (omega (arith, pow_pos k))))

  -- The next location for a size and an alignment of a power of two lies at the end of what is
  -- reserved or above, by less than the alignment, is a multiple of it, and what is reserved ends
  -- with the place for the size.
  reserve-Places :
      (m size : ℕ)
      → m + 2 ^ k + size < 2 ^ 64
      → ((reserve m size (2 ^ k)).0 % 2 ^ k ≡ 0)
        × (m ≤ (reserve m size (2 ^ k)).0)
        × ((reserve m size (2 ^ k)).0 < m + 2 ^ k)
        × ((reserve m size (2 ^ k)).1 ≡ (reserve m size (2 ^ k)).0 + size)
  unfolding reserve
  reserve-Places m size h =
      let (a, b, c) = multiple (m + (2 ^ k - 1)) (2 ^ k) (pow_pos k) in
      rw (aligned m (omega arith)) (
        a,
        omega (arith, pow_pos k),
        omega (arith, pow_pos k),
        mod-eq_of_lt (omega (arith, pow_pos k)),
      )

-- Requests: a size, and an alignment of 2 to the power of the second number
abbrev pub requests : List (ℕ × ℕ) → List (ℕ × ℕ)
requests [] = []
requests ((size, k) ∷ rs) = (size, 2 ^ k) ∷ requests rs

-- The memory that the requests take at most
abbrev pub needs : List (ℕ × ℕ) → ℕ
needs [] = 0
needs ((size, k) ∷ rs) = 2 ^ k + size + needs rs

abbrev pub AreAlignments : List (ℕ × ℕ) → Type 0
AreAlignments [] = Unit {0}
AreAlignments ((size, k) ∷ rs) = (k ≤ 64) × AreAlignments rs

-- From m on, the locations follow one another: each is aligned, and above the place of the one
-- before. The last place ends at `end`.
abbrev pub AreLaid : ℕ → List (ℕ × ℕ) → List ℕ → ℕ → Type 0
AreLaid m [] [] end = m ≡ end
AreLaid m [] (loc ∷ locs) end = ⊥
AreLaid m ((size, k) ∷ rs) [] end = ⊥
AreLaid m ((size, k) ∷ rs) (loc ∷ locs) end =
    (loc % 2 ^ k ≡ 0) × (m ≤ loc) × AreLaid (loc + size) rs locs end

exponents : (k : ℕ) → k ≤ 64 → 2 ^ (64 - k + k) ≡ 2 ^ 64
exponents k h = let sum : 64 - k + k ≡ 64 = omega arith in ap (λ n. 2 ^ n) sum

-- The states that a layout reserves, with alignments that are powers of two, lie one above the
-- other from the end of what was reserved before, do not overlap, are aligned, and end where the
-- layout ends, if they all fit into the address space.
pub reserve_all-AreLaid :
    (rs : List (ℕ × ℕ)) (m : ℕ)
    → AreAlignments rs
    → m + needs rs < 2 ^ 64
    → AreLaid m rs (reserve_all (requests rs) m).0 (reserve_all (requests rs) m).1
unfolding reserve_all
reserve_all-AreLaid [] m a h = refl
reserve_all-AreLaid ((size, k) ∷ rs) m a h =
    let (low, above, below, end) =
      reserve-Places (64 - k) k (exponents k a.0) m size (omega arith) in
    (
      low,
      above,
      subst
          (λ e.
            AreLaid e rs (reserve_all (requests rs) (reserve m size (2 ^ k)).1).0
              (reserve_all (requests rs) (reserve m size (2 ^ k)).1).1)
          end (reserve_all-AreLaid rs (reserve m size (2 ^ k)).1 a.1 (omega (arith, end, below))),
    )

abbrev pub AllAtMost : ℕ → List ℕ → Type 0
AllAtMost n [] = Unit {0}
AllAtMost n (size ∷ sizes) = (size ≤ n) × AllAtMost n sizes

larger :
    (m size : ℕ)
    → (size ≤ (if ltb m size then size else m)) × (m ≤ (if ltb m size then size else m))
larger m size = ground arith

-- The union of layouts is as large as each of them and as the layout before it.
pub add_union-AllAtMost :
    (sizes : List ℕ) (m : ℕ) → AllAtMost (add_union sizes m) sizes × (m ≤ add_union sizes m)
unfolding add_union
add_union-AllAtMost [] m = (tt, omega arith)
add_union-AllAtMost (size ∷ sizes) m =
    let (b, c) = larger m size in
    let (a, d) = add_union-AllAtMost sizes (if ltb m size then size else m) in
    ((omega (arith, b, d), a), omega (arith, c, d))
