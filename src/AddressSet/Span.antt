-- ===== src/AddressSet/Span.antt =====
-- The word `aset` on two constants.
use mathlib.Core.Path.{ap₂, subst}
use Prim.Native.Nat.{max}
use dwgrep.Base.{
  min, ℕ, ◌+◌, ◌-◌, ◌^◌, ◌<◌, ◌≤◌, ◌≡◌, refl, sym, ltb, ◌∙◌, arith, true, false, [], inl, inr,
  Bool-cases,
}
use dwgrep.Base.Int.{ltb_ℤ, pos, pos_part, ◌-ℤ◌}
use dwgrep.Mpz.{Mpz, Result, ok, err, lt, sub, gt, ◌>>=◌}
use dwgrep.Mpz.Value.{IsWord, value, le-value, Lands}
use dwgrep.Mpz.Sum.{sub-Lands}
use dwgrep.Coverage.{add}
use dwgrep.Coverage.Ordered.{between, covers}
use dwgrep.Coverage.Union.{covers-add}
use dwgrep.AddressSet.{Aset, value_aset, addressify, aset_between, op_aset_cst_cst}

-- The address that stands for a constant: its value, or 0 for a negative one
abbrev pub bound : Mpz → ℕ
bound v = pos_part (value v)

addressify-bound :
    (v : Mpz)
    → IsWord v
    → IsWord (addressify v)
      × (value (addressify v) ≡ pos (bound v))
      × ((addressify v).bits ≡ bound v)
unfolding addressify lt
addressify-bound v w = ground arith

abbrev Spans : ℕ → ℕ → Result Aset → Type 0
Spans lo hi res = (s : Aset) × (res ≡ ok s) × ((x : ℕ) → covers s.cov x ≡ between lo hi x)

difference : (lo hi : ℕ) → lo ≤ hi → pos hi -ℤ pos lo ≡ pos (hi - lo)
unfolding ◌-ℤ◌
difference lo hi h = ground arith

landed-Spans :
    (lo hi : ℕ) (res : Result Mpz)
    → lo ≤ hi
    → hi < 2 ^ 64
    → Lands (pos hi -ℤ pos lo) res
    → Spans lo hi (res >>= (λ d. ok (value_aset (add [] lo d.bits) 0)))
landed-Spans lo hi (err e) h f l = absurd (ground (arith, difference lo hi h))
landed-Spans lo hi (ok d) h f l =
    let bits : lo + d.bits ≡ hi = ground (arith, difference lo hi h) in
    (
      value_aset (add [] lo d.bits) 0,
      refl,
      λ x. covers-add [] lo d.bits x tt (omega arith) ∙ ground arith,
    )

aset_between-Spans :
    (av bv : Mpz) (lo hi : ℕ)
    → IsWord av
    → IsWord bv
    → value av ≡ pos lo
    → value bv ≡ pos hi
    → av.bits ≡ lo
    → bv.bits ≡ hi
    → lo ≤ hi
    → Spans lo hi (aset_between av bv)
aset_between-Spans av bv lo hi wa wb va vb la hb h =
    let lands = sub-Lands bv av wb wa in
    subst (λ n. Spans lo hi (sub bv av >>= (λ d. ok (value_aset (add [] n d.bits) 0)))) (sym la)
      (landed-Spans lo hi (sub bv av) h (omega arith)
        (subst (λ z. Lands z (sub bv av)) (ap₂ ◌-ℤ◌ vb va) lands))

respan :
    (lo hi lo' hi' : ℕ) (res : Result Aset)
    → lo ≡ lo'
    → hi ≡ hi'
    → Spans lo hi res
    → Spans lo' hi' res
respan lo hi lo' hi' res p q (s, e, c) = (s, e, λ x. c x ∙ ap₂ (λ m n. between m n x) p q)

ordered : (x y : Mpz) → IsWord x → IsWord y → gt x y ≡ ltb_ℤ (value y) (value x)
unfolding gt
ordered x y wx wy = ground (arith, le-value x y)

ltb_pos : (m n : ℕ) → ltb_ℤ (pos m) (pos n) ≡ ltb m n
ltb_pos m n = ground arith

ltb-le : (m n : ℕ) → ltb m n ≡ true → m ≤ n
ltb-le m n e = ground arith

ltb-ge : (m n : ℕ) → ltb m n ≡ false → n ≤ m
ltb-ge m n e = ground arith

-- For two constants of 64 bits, `aset` does not fail. The set that it makes covers the addresses
-- from the smaller bound on that are below the larger one; the bound for a constant is its value,
-- or 0 when it is negative.
pub op_aset_cst_cst-covers :
    (a b : Mpz)
    → IsWord a
    → IsWord b
    → (s : Aset) × (op_aset_cst_cst a b ≡ ok s)
      × ((x : ℕ) → covers s.cov x ≡ between (min (bound a) (bound b)) (max (bound a) (bound b)) x)
unfolding op_aset_cst_cst
op_aset_cst_cst-covers a b wa wb =
    let (wa', va, la) = addressify-bound a wa in
    let (wb', vb, lb) = addressify-bound b wb in
    let test = ordered (addressify a) (addressify b) wa' wb' in
    let gt_bounds = test ∙ ap₂ ltb_ℤ vb va in
    elim (Bool-cases (ltb (bound b) (bound a))) [
      | inl e ↦
          let l = ltb-le (bound b) (bound a) e in
          rw (gt_bounds ∙ ltb_pos (bound b) (bound a) ∙ e) (
            respan (bound b) (bound a) (min (bound a) (bound b)) (max (bound a) (bound b))
              (aset_between (addressify b) (addressify a)) (omega arith) (omega arith)
              (aset_between-Spans (addressify b) (addressify a) (bound b) (bound a) wb' wa' vb va lb
                la (omega arith)))
      | inr e ↦
          let l = ltb-ge (bound b) (bound a) e in
          rw (gt_bounds ∙ ltb_pos (bound b) (bound a) ∙ e) (
            respan (bound a) (bound b) (min (bound a) (bound b)) (max (bound a) (bound b))
              (aset_between (addressify a) (addressify b)) (omega arith) (omega arith)
              (aset_between-Spans (addressify a) (addressify b) (bound a) (bound b) wa' wb' va vb la
                lb (omega arith)))
    ]
