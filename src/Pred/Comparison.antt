-- ===== src/Pred/Comparison.antt =====
-- The comparison words ?eq, ?lt and ?gt of libzwerg/builtin-cmp.cc.
mod Tests
use dwgrep.Base.{
  ◌≡◌, ◌≢◌, ℕ, List, refl, sym, ◌∙◌, ap, arith, ◌⊎◌, inl, inr, Bool, true, false, ◌∷◌,
}
use dwgrep.Constant.{Domains}
use dwgrep.Value.{Value, TypeCodes, code}
use dwgrep.Value.Compare.{
  CmpResult, less, equal, greater, fail, ForeignCmp, compare_type, cmp, and_then,
}
use dwgrep.Value.Compare.Laws.{
  ForeignLaws, AreDistinct, IsProper, flipped, compare_nat-eq-equal, compare_nat-flipped,
  compare-ne-fail, eq_or_ne, compare_nat_at,
}
use dwgrep.Value.Compare.Order.{cmp_returns, as_sequences, as_sequences_eq}
use dwgrep.Stack.{Stack, Result, ok, ◌>>=◌, get, nth}
use dwgrep.Pred.{PredResult, no, yes, fail as fail_pred, Pred}

abbrev pub same_result : CmpResult → CmpResult → Bool
same_result less less = true
same_result equal equal = true
same_result greater greater = true
same_result fail fail = true
same_result r want = false

-- The constructor pred_result (bool)
abbrev pub verdict : Bool → PredResult
verdict true = yes
verdict false = no

-- The end of comparison_result, from vb.cmp (va)
abbrev pub judge : CmpResult → CmpResult → PredResult
judge want fail = fail_pred
judge want less = verdict (same_result less want)
judge want equal = verdict (same_result equal want)
judge want greater = verdict (same_result greater want)

-- The two tests of the types, from the comparison of ta to tb, before what follows them
abbrev pub by_type : CmpResult → CmpResult → CmpResult → PredResult
by_type want less r = verdict (same_result want less)
by_type want greater r = verdict (same_result want greater)
by_type want equal r = judge want r
by_type want fail r = judge want r

-- An answer for two values of one type
same_case :
    (want r r' s : CmpResult)
    → r ≡ equal
    → r' ≡ equal
    → by_type want r s ≡ judge want (and_then r' s)
same_case want r r' s e e' = rw (e, e') refl

-- An answer of the two tests of the types, for types that differ
apart_case :
    (want r r' s s' : CmpResult)
    → r ≢ equal
    → r ≢ fail
    → r ≡ flipped r'
    → (by_type want r s ≡ judge want (flipped (and_then r' s'))) × (and_then r' s' ≢ equal)
apart_case want less r' s s' h k e = ground arith
apart_case want equal r' s s' h k e = absurd (h refl)
apart_case want greater r' s s' h k e = ground arith
apart_case want fail r' s s' h k e = absurd (k refl)

module _ (t : TypeCodes) (ds : Domains) (foreign : ForeignCmp) where
  -- comparison_result, from the two values
  unfoldable pub compared : CmpResult → Value → Value → PredResult
  compared want va vb = by_type want (compare_type t va vb) (cmp t ds foreign vb va)

  -- comparison_result
  unfoldable pub comparison_result : CmpResult → Stack → Result PredResult
  unfolding compared
  comparison_result want stk = get stk 0 >>= (λ va. get stk 1 >>= (λ vb. ok (compared want va vb)))

  -- pred_eq, pred_lt and pred_gt
  abbrev pub pred_eq : Pred
  pred_eq n stk = comparison_result equal stk

  abbrev pub pred_lt : Pred
  pred_lt n stk = comparison_result less stk

  abbrev pub pred_gt : Pred
  pred_gt n stk = comparison_result greater stk

  -- The results of ?lt, ?eq and ?gt on a stack
  abbrev pub Outcomes : ℕ → Stack → PredResult → PredResult → PredResult → Type 0
  Outcomes n stk l e g = (pred_lt n stk ≡ ok l) × (pred_eq n stk ≡ ok e) × (pred_gt n stk ≡ ok g)

  module _ (laws : ForeignLaws foreign) (distinct : AreDistinct t) where
    verdicts_of :
        (r s : CmpResult)
        → r ≢ fail
        → (r ≡ equal → s ≢ fail)
        → ((by_type less r s ≡ yes) × (by_type equal r s ≡ no) × (by_type greater r s ≡ no))
          ⊎ (((by_type less r s ≡ no) × (by_type equal r s ≡ yes) × (by_type greater r s ≡ no))
              ⊎ ((by_type less r s ≡ no) × (by_type equal r s ≡ no) × (by_type greater r s ≡ yes)))
    verdicts_of less s n m = inl (refl, refl, refl)
    verdicts_of greater s n m = inr (inr (refl, refl, refl))
    verdicts_of equal less n m = inl (refl, refl, refl)
    verdicts_of equal equal n m = inr (inl (refl, refl, refl))
    verdicts_of equal greater n m = inr (inr (refl, refl, refl))
    verdicts_of equal fail n m = absurd (m refl refl)
    verdicts_of fail s n m = absurd (n refl)

    type-ne-fail : (va vb : Value) → compare_type t va vb ≢ fail
    type-ne-fail va vb = compare-ne-fail _ _

    -- On a stack of two values or more, where the topmost two are of 64 bits and each class has a
    -- type code of its own, exactly one of ?lt, ?eq and ?gt holds, and the other two do not hold and
    -- do not fail.
    pub comparison_trichotomy :
        (n : ℕ) (va vb : Value) (vs : List Value) (p : ℕ)
        → IsProper t va
        → IsProper t vb
        → Outcomes n (record { values = va ∷ vb ∷ vs; profile = p }) yes no no
          ⊎ (Outcomes n (record { values = va ∷ vb ∷ vs; profile = p }) no yes no
              ⊎ Outcomes n (record { values = va ∷ vb ∷ vs; profile = p }) no no yes)
    unfolding comparison_result compared get nth
    comparison_trichotomy n va vb vs p h k =
        let alone =
          verdicts_of (compare_type t va vb) (cmp t ds foreign vb va) (type-ne-fail va vb) (λ e.
            cmp_returns t ds foreign laws distinct vb va k h
              (sym (compare_nat-eq-equal (code t va) (code t vb) e))) in
        elim alone [
          | inl (a, b, c) ↦ inl (ap ok a, ap ok b, ap ok c)
          | inr (inl (a, b, c)) ↦ inr (inl (ap ok a, ap ok b, ap ok c))
          | inr (inr (a, b, c)) ↦ inr (inr (ap ok a, ap ok b, ap ok c))
        ]

  -- On a stack of two values or more, a comparison word answers as the comparison of the sequences
  -- [vb] and [va] of the value below the top and the top one, if they are of one type. If they
  -- are of different types, the answer is that of the reversed comparison, and neither is
  -- `equal`.
  pub comparison_as_sequences :
      (want : CmpResult) (va vb : Value) (vs : List Value) (p : ℕ)
      → ((code t va ≡ code t vb)
          × (comparison_result want (record { values = va ∷ vb ∷ vs; profile = p })
              ≡ ok (judge want (as_sequences t ds foreign vb va))))
        ⊎ ((code t va ≢ code t vb)
            × (comparison_result want (record { values = va ∷ vb ∷ vs; profile = p })
                ≡ ok (judge want (flipped (as_sequences t ds foreign vb va))))
            × (as_sequences t ds foreign vb va ≢ equal))
  unfolding comparison_result compared get nth
  comparison_as_sequences want va vb vs p =
      let q = as_sequences_eq t ds foreign vb va in
      elim (eq_or_ne (code t va) (code t vb)) [
        | inl e ↦
            let same =
              same_case want (compare_type t va vb) (compare_type t vb va) (cmp t ds foreign vb va)
                (compare_nat_at (code t va) (code t vb) e)
                (compare_nat_at (code t vb) (code t va) (sym e)) in
            inl (e, ap ok (same ∙ ap (judge want) (sym q)))
        | inr n ↦
            let apart =
              apart_case want (compare_type t va vb) (compare_type t vb va) (cmp t ds foreign vb va)
                (cmp t ds foreign vb va) (λ e. n (compare_nat-eq-equal (code t va) (code t vb) e))
                (compare-ne-fail _ _) (compare_nat-flipped (code t vb) (code t va)) in
            inr (
              n,
              ap ok (apart.0 ∙ ap (λ r. judge want (flipped r)) (sym q)),
              λ e. apart.1 (sym q ∙ e),
            )
      ]
