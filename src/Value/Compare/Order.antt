-- ===== src/Value/Compare/Order.antt =====
-- The comparison of values is that of an order: exchanging the values exchanges the answers, and
-- values of one type can be compared.
use dwgrep.Base.{ℕ, ◌≡◌, ◌≢◌, refl, sym, ◌∙◌, ltb, some}
use dwgrep.Mpz.{Mpz}
use dwgrep.Mpz.Value.{IsWord}
use dwgrep.Constant.{Domains, constant, less as constant_less}
use dwgrep.Constant.Order.{less_asym}
use dwgrep.Value.{Value, Values, cst, str, seq, other, nil, cons, TypeCodes, code}
use dwgrep.Value.Compare.{
  CmpResult, equal, fail, and_then, string_less, size, ForeignCmp, compare_type, compare_types,
  cmp_cst, cmp_str, cmp_other, cmp, compare_values,
}
use dwgrep.Value.Compare.Laws.{
  flipped, string_less_asym, compare-flipped, and_then-flipped, and_then-ne-fail, and_then-eq-equal,
  compare-ne-fail, ForeignLaws, AreDistinct, IsProper, AreProper, compare_nat-flipped,
  compare_nat-eq-equal, compare_nat_self, compare_asym_self, size_cons, size_tail, if_same_self,
  if_same_at, if_same-flipped, and_then-flat, compare_types-flipped, compare_types_self,
}

module _ (t : TypeCodes) where
  module _ (ds : Domains) (foreign : ForeignCmp) (laws : ForeignLaws foreign) where
    cmp_cst_self : (n : Mpz) (d p : ℕ) → IsWord n → cmp_cst t ds foreign n d (cst n d p) ≡ equal
    unfolding cmp_cst
    cmp_cst_self n d p h =
        compare_asym_self (constant_less ds (constant n (some d)) (constant n (some d)))
          (less_asym ds (constant n (some d)) (constant n (some d)) h h)

    mutual
      unfolding cmp compare_values cmp_cst cmp_str cmp_other IsProper AreProper

      pub cmp_same : (v : Value) → IsProper t v → cmp t ds foreign v v ≡ equal
      cmp_same (cst n d p) h = cmp_cst_self n d p h
      cmp_same (str s p) h = compare_asym_self (string_less s s) (string_less_asym s s)
      cmp_same (other c i p) h = if_same_self c (foreign c i i) ∙ laws.same c i
      cmp_same (seq vs p) h =
          rw (compare_nat_self (size vs), compare_types_self t vs) (compare_values_same vs h)

      pub compare_values_same :
          (vs : Values) → AreProper t vs → compare_values t ds foreign vs vs ≡ equal
      compare_values_same nil h = refl
      compare_values_same (cons v vs) h = rw (cmp_same v h.0) (compare_values_same vs h.1)

    cmp_cst-flipped :
        (n m : Mpz) (d e p q : ℕ)
        → IsWord n
        → IsWord m
        → cmp_cst t ds foreign m e (cst n d p) ≡ flipped (cmp_cst t ds foreign n d (cst m e q))
    unfolding cmp_cst
    cmp_cst-flipped n m d e p q h k =
        compare-flipped (constant_less ds (constant n (some d)) (constant m (some e)))
          (constant_less ds (constant m (some e)) (constant n (some d)))
          (less_asym ds (constant n (some d)) (constant m (some e)) h k)

    other_flipped :
        (c d i j : ℕ) (p q : ℕ)
        → cmp_other t ds foreign d j (other c i p)
          ≡ flipped (cmp_other t ds foreign c i (other d j q))
    unfolding cmp_other
    other_flipped c d i j p q =
        if_same-flipped c d (foreign c i j) (foreign d j i) (λ e. rw e (laws.flips d i j))

    mutual
      unfolding cmp compare_values cmp_cst cmp_str cmp_other IsProper AreProper

      pub cmp_flip :
          (v w : Value)
          → IsProper t v
          → IsProper t w
          → cmp t ds foreign w v ≡ flipped (cmp t ds foreign v w)
      cmp_flip (cst n d p) (cst m e q) h k = cmp_cst-flipped n m d e p q h k
      cmp_flip (cst n d p) (str s q) h k = refl
      cmp_flip (cst n d p) (seq ws q) h k = refl
      cmp_flip (cst n d p) (other c i q) h k = refl
      cmp_flip (str s p) (cst m e q) h k = refl
      cmp_flip (str s p) (str s' q) h k =
          compare-flipped (string_less s s') (string_less s' s) (string_less_asym s s')
      cmp_flip (str s p) (seq ws q) h k = refl
      cmp_flip (str s p) (other c i q) h k = refl
      cmp_flip (seq vs p) (cst m e q) h k = refl
      cmp_flip (seq vs p) (str s' q) h k = refl
      cmp_flip (seq vs p) (seq ws q) h k =
          and_then-flipped _ _ _ _ (compare_nat-flipped (size vs) (size ws)) (λ e.
            let sizes = compare_nat-eq-equal (size vs) (size ws) e in
            and_then-flipped (compare_types t vs ws) _ _ _ (compare_types-flipped t vs ws sizes)
              (λ _. compare_values_flip vs ws h k sizes))
      cmp_flip (seq vs p) (other c i q) h k = refl
      cmp_flip (other c i p) (cst m e q) h k = refl
      cmp_flip (other c i p) (str s' q) h k = refl
      cmp_flip (other c i p) (seq ws q) h k = refl
      cmp_flip (other c i p) (other d j q) h k = other_flipped c d i j p q

      pub compare_values_flip :
          (vs ws : Values)
          → AreProper t vs
          → AreProper t ws
          → size vs ≡ size ws
          → compare_values t ds foreign ws vs ≡ flipped (compare_values t ds foreign vs ws)
      compare_values_flip nil nil h k e = refl
      compare_values_flip nil (cons w ws) h k e = absurd (size_cons w ws e)
      compare_values_flip (cons v vs) nil h k e = absurd (size_cons v vs (sym e))
      compare_values_flip (cons v vs) (cons w ws) h k e =
          and_then-flipped _ _ _ _ (cmp_flip v w h.0 k.0)
            (λ _. compare_values_flip vs ws h.1 k.1 (size_tail v w vs ws e))

    module _ (distinct : AreDistinct t) where
      pub types-ne-fail : (vs ws : Values) → size vs ≡ size ws → compare_types t vs ws ≢ fail
      unfolding compare_types
      types-ne-fail nil ws e = cc
      types-ne-fail (cons v vs) nil e = absurd (size_cons v vs (sym e))
      types-ne-fail (cons v vs) (cons w ws) e =
          and_then-ne-fail (compare_type t v w) (compare_types t vs ws)
            (compare-ne-fail (ltb (code t v) (code t w)) (ltb (code t w) (code t v)))
            (λ _. types-ne-fail vs ws (size_tail v w vs ws e))

      mutual
        unfolding cmp compare_values cmp_cst cmp_str cmp_other IsProper AreProper code compare_types

        pub cmp_returns :
            (v w : Value)
            → IsProper t v
            → IsProper t w
            → code t v ≡ code t w
            → cmp t ds foreign v w ≢ fail
        cmp_returns (cst n d p) (cst m e q) h k l = compare-ne-fail _ _
        cmp_returns (cst n d p) (str s q) h k l = absurd (distinct.cst_str l)
        cmp_returns (cst n d p) (seq ws q) h k l = absurd (distinct.cst_seq l)
        cmp_returns (cst n d p) (other c i q) h k l = absurd (k.0 (sym l))
        cmp_returns (str s p) (cst m e q) h k l = absurd (distinct.cst_str (sym l))
        cmp_returns (str s p) (str s' q) h k l = compare-ne-fail _ _
        cmp_returns (str s p) (seq ws q) h k l = absurd (distinct.str_seq l)
        cmp_returns (str s p) (other c i q) h k l = absurd (k.1 (sym l))
        cmp_returns (seq vs p) (cst m e q) h k l = absurd (distinct.cst_seq (sym l))
        cmp_returns (seq vs p) (str s' q) h k l = absurd (distinct.str_seq (sym l))
        cmp_returns (seq vs p) (seq ws q) h k l = and_then-ne-fail _ _ (compare-ne-fail _ _) (λ e.
            let sizes = compare_nat-eq-equal (size vs) (size ws) e in
            and_then-ne-fail _ _ (types-ne-fail vs ws sizes)
              (λ same. compare_values_returns vs ws h k sizes same))
        cmp_returns (seq vs p) (other c i q) h k l = absurd (k.2 (sym l))
        cmp_returns (other c i p) (cst m e q) h k l = absurd (h.0 l)
        cmp_returns (other c i p) (str s' q) h k l = absurd (h.1 l)
        cmp_returns (other c i p) (seq ws q) h k l = absurd (h.2 l)
        cmp_returns (other c i p) (other d j q) h k l =
            λ e. laws.returns c i j (sym (if_same_at c d (foreign c i j) l) ∙ e)

        pub compare_values_returns :
            (vs ws : Values)
            → AreProper t vs
            → AreProper t ws
            → size vs ≡ size ws
            → compare_types t vs ws ≡ equal
            → compare_values t ds foreign vs ws ≢ fail
        compare_values_returns nil ws h k e l = cc
        compare_values_returns (cons v vs) nil h k e l = absurd (size_cons v vs (sym e))
        compare_values_returns (cons v vs) (cons w ws) h k e l =
            let (first, rest) = and_then-eq-equal (compare_type t v w) (compare_types t vs ws) l in
            and_then-ne-fail _ _
              (cmp_returns v w h.0 k.0 (compare_nat-eq-equal (code t v) (code t w) first))
              (λ _. compare_values_returns vs ws h.1 k.1 (size_tail v w vs ws e) rest)

  module _ (ds : Domains) (foreign : ForeignCmp) where
    -- The comparison of the sequences of one value each
    abbrev pub as_sequences : Value → Value → CmpResult
    as_sequences v w = cmp t ds foreign (seq (cons v nil) 0) (seq (cons w nil) 0)

    pub as_sequences_eq :
        (v w : Value) → as_sequences v w ≡ and_then (compare_type t v w) (cmp t ds foreign v w)
    unfolding cmp compare_types compare_values size
    as_sequences_eq v w = and_then-flat (compare_type t v w) (cmp t ds foreign v w)
