-- ===== src/Stack/Compare.antt =====
-- compare_stack of libzwerg/stack.cc with the operators < and == on stacks. No slot of a stack holds
-- nullptr, so the pass that looks for one is left out.
mod Tests
use dwgrep.Base.{◌≡◌, ◌≢◌, refl, ◌⊎◌, inl, inr, Bool, true, false, ltb, reverse}
use dwgrep.Constant.{Domains}
use dwgrep.Value.{Values, TypeCodes, values}
use dwgrep.Value.Compare.{
  CmpResult, less, equal, greater, fail, compare, and_then, size, ForeignCmp, compare_types,
  compare_values,
}
use dwgrep.Value.Compare.Laws.{
  flipped, ForeignLaws, AreDistinct, AreProper, and_then-flipped, and_then-ne-fail, compare-ne-fail,
  compare_nat-flipped, compare_nat-eq-equal, compare_nat_self, compare_types-flipped,
  compare_types_self,
}
use dwgrep.Value.Compare.Order.{
  compare_values_same, compare_values_flip, compare_values_returns, types-ne-fail,
}
use dwgrep.Stack.{Stack}

-- The vector m_values, from the bottom of the stack.
abbrev pub m_values : Stack → Values
m_values s = values (reverse s.values)

-- The return values -1, 0 and 1 as less, equal and greater; `fail` stands for the call of abort.
abbrev pub is_less : CmpResult → Bool
is_less less = true
is_less equal = false
is_less greater = false
is_less fail = false

abbrev pub is_equal : CmpResult → Bool
is_equal equal = true
is_equal less = false
is_equal greater = false
is_equal fail = false

module _ (t : TypeCodes) (ds : Domains) (foreign : ForeignCmp) where
  -- The loops of compare_stack over two vectors
  pub compare_vectors : Values → Values → CmpResult
  compare_vectors a b =
      and_then (compare (ltb (size a) (size b)) (ltb (size b) (size a)))
        (and_then (compare_types t a b) (compare_values t ds foreign a b))

  -- compare_stack
  unfoldable pub compare_stack : Stack → Stack → CmpResult
  unfolding compare_vectors
  compare_stack a b = compare_vectors (m_values a) (m_values b)

  -- stack::operator<
  unfoldable pub stack_less : Stack → Stack → Bool
  unfolding compare_stack
  stack_less a b = is_less (compare_stack a b)

  -- stack::operator==
  unfoldable pub stack_equal : Stack → Stack → Bool
  unfolding compare_stack
  stack_equal a b = is_equal (compare_stack a b)

  -- The values on the stack are of 64 bits, and those of the Dwarf library have type codes of their
  -- own.
  abbrev pub IsProperStack : Stack → Type 0
  IsProperStack s = AreProper t (m_values s)

  module _ (laws : ForeignLaws foreign) where
    vectors_flipped :
        (a b : Values)
        → AreProper t a
        → AreProper t b
        → compare_vectors b a ≡ flipped (compare_vectors a b)
    unfolding compare_vectors
    vectors_flipped a b h k = and_then-flipped _ _ _ _ (compare_nat-flipped (size a) (size b)) λ e.
        let sizes = compare_nat-eq-equal (size a) (size b) e in
        and_then-flipped (compare_types t a b) _ _ _ (compare_types-flipped t a b sizes)
          (λ _. compare_values_flip t ds foreign laws a b h k sizes)

    vectors_returns :
        (a b : Values) → AreDistinct t → AreProper t a → AreProper t b → compare_vectors a b ≢ fail
    unfolding compare_vectors
    vectors_returns a b d h k = and_then-ne-fail _ _ (compare-ne-fail _ _) λ e.
        let sizes = compare_nat-eq-equal (size a) (size b) e in
        and_then-ne-fail _ _ (types-ne-fail t ds foreign laws d a b sizes)
          (λ types. compare_values_returns t ds foreign laws d a b h k sizes types)

    pub compare_stack_self : (a : Stack) → IsProperStack a → compare_stack a a ≡ equal
    unfolding compare_stack compare_vectors
    compare_stack_self a h =
        rw (compare_nat_self (size (m_values a)), compare_types_self t (m_values a))
          (compare_values_same t ds foreign laws (m_values a) h)

    -- The answers of a < b, a == b and b < a
    abbrev pub Answers : Stack → Stack → Bool → Bool → Bool → Type 0
    Answers a b l e g = (stack_less a b ≡ l) × (stack_equal a b ≡ e) × (stack_less b a ≡ g)

    answers_of :
        (r r' : CmpResult)
        → r' ≡ flipped r
        → r ≢ fail
        → ((is_less r ≡ true) × (is_equal r ≡ false) × (is_less r' ≡ false))
          ⊎ (((is_less r ≡ false) × (is_equal r ≡ true) × (is_less r' ≡ false))
              ⊎ ((is_less r ≡ false) × (is_equal r ≡ false) × (is_less r' ≡ true)))
    answers_of less r' e n = inl (refl, refl, rw e refl)
    answers_of equal r' e n = inr (inl (refl, refl, rw e refl))
    answers_of greater r' e n = inr (inr (refl, refl, rw e refl))
    answers_of fail r' e n = absurd (n refl)

    -- On stacks of values of 64 bits, where each class has a type code of its own and the
    -- comparisons of the classes of the Dwarf library are those of orders, compare_stack never
    -- aborts, the comparison of b to a is that of a to b exchanged, and exactly one of a < b,
    -- a == b and b < a holds.
    pub compare_stack_trichotomy :
        (a b : Stack)
        → AreDistinct t
        → IsProperStack a
        → IsProperStack b
        → (compare_stack a b ≢ fail)
          × (compare_stack b a ≡ flipped (compare_stack a b))
          × (Answers a b true false false
              ⊎ (Answers a b false true false ⊎ Answers a b false false true))
    unfolding compare_stack stack_less stack_equal
    compare_stack_trichotomy a b d h k =
        let returns = vectors_returns (m_values a) (m_values b) d h k in
        let flips = vectors_flipped (m_values a) (m_values b) h k in
        (returns, flips, answers_of _ _ flips returns)
