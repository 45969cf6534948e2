-- ===== src/Coverage/Remove/Hole.antt =====
-- The branch of `remove` that shoots a hole into one range, and calls `add` for what is behind it.
use dwgrep.Base.{ℕ, suc, ◌+◌, ◌-◌, ◌^◌, ◌<◌, ◌≤◌, ◌≡◌, refl, arith, List, [], ◌∷◌, ◌++◌}
use dwgrep.Coverage.{Range, range, add}
use dwgrep.Coverage.Ordered.{Ordered, IsCoverage}
use dwgrep.Coverage.Absorb.{absorb}
use dwgrep.Coverage.Add.{joined, add-joined}

module _ (s e : ℕ) (r : Range) (rs : List Range) (a : r.start < s) (b : s < e)
    (c : e < r.start + r.length) where
  Ordered-shortened :
      (lo : ℕ) (pre : List Range)
      → Ordered lo (pre ++ r ∷ rs)
      → Ordered lo (pre ++ range r.start (s - r.start) ∷ rs)
  Ordered-shortened lo [] o = (o.0, omega arith, omega arith, raise rs o.3)
    where
      raise :
          (xs : List Range)
          → Ordered (suc (r.start + r.length)) xs
          → Ordered (suc (r.start + (s - r.start))) xs
      raise [] k = k
      raise (x ∷ xs) k = (omega arith, k.1, k.2, k.3)
  Ordered-shortened lo (x ∷ pre) o =
      (o.0, o.1, o.2, Ordered-shortened (suc (x.start + x.length)) pre o.3)

  joined_behind :
      (xs : List Range)
      → Ordered (suc (r.start + r.length)) xs
      → joined (range e (r.start + r.length - e)) xs ≡ range e (r.start + r.length - e) ∷ xs
  unfolding joined absorb
  joined_behind [] o = refl
  joined_behind (x ∷ xs) o = ground arith

  joined_hole :
      (lo : ℕ) (pre : List Range)
      → Ordered lo (pre ++ r ∷ rs)
      → joined (range e (r.start + r.length - e)) (pre ++ range r.start (s - r.start) ∷ rs)
        ≡ pre ++ range r.start (s - r.start) ∷ range e (r.start + r.length - e) ∷ rs
  unfolding joined
  joined_hole lo [] o = ground (arith, joined_behind rs o.3)
  joined_hole lo (x ∷ pre) o = ground (
    arith,
    joined_hole (suc (x.start + x.length)) pre o.3,
    before (suc (x.start + x.length)) pre o.3,
  )
    where
      before : (lo : ℕ) (pre : List Range) → Ordered lo (pre ++ r ∷ rs) → lo ≤ r.start
      before lo [] o = o.0
      before lo (y ∷ ys) o = omega (arith, before (suc (y.start + y.length)) ys o.3)

  pub add_hole :
      (pre : List Range)
      → r.start + r.length < 2 ^ 64
      → IsCoverage (pre ++ r ∷ rs)
      → add (pre ++ range r.start (s - r.start) ∷ rs) e (r.start + r.length - e)
        ≡ pre ++ range r.start (s - r.start) ∷ range e (r.start + r.length - e) ∷ rs
  add_hole pre f o =
      rw
        (add-joined (pre ++ range r.start (s - r.start) ∷ rs) e (r.start + r.length - e)
          (Ordered-shortened 0 pre o) (omega arith) (omega arith))
        (joined_hole 0 pre o)
