-- ===== src/Value/Compare/Laws.antt =====
-- The laws of an order, for the parts of the comparison of values.
use native.Mathlib.Decide.{ℕ_discrete}
use dwgrep.Base.{◌⊎◌, inl, inr, Bool, ℕ, ◌≡◌, ◌≢◌, refl, arith, true, false, ltb, List, [], ◌∷◌}
use dwgrep.Mpz.Value.{IsWord}
use dwgrep.Value.{Value, Values, cst, str, seq, other, nil, cons, TypeCodes, code}
use dwgrep.Value.Compare.{
  CmpResult, less, equal, greater, fail, compare, and_then, if_same, string_less, size, ForeignCmp,
  compare_type, compare_types,
}

abbrev pub flipped : CmpResult → CmpResult
flipped less = greater
flipped equal = equal
flipped greater = less
flipped fail = fail

pub string_less_asym : (s s' : List ℕ) → string_less s s' ≡ true → string_less s' s ≡ false
unfolding string_less
string_less_asym s [] h = cc
string_less_asym [] (y ∷ ys) h = refl
string_less_asym (x ∷ xs) (y ∷ ys) h = ground (arith, string_less_asym xs ys)

pub compare-flipped : (a b : Bool) → (a ≡ true → b ≡ false) → compare b a ≡ flipped (compare a b)
compare-flipped true true h = absurd (ground (arith, h refl))
compare-flipped true false h = refl
compare-flipped false true h = refl
compare-flipped false false h = refl

pub and_then-flipped :
    (r r' s s' : CmpResult)
    → r' ≡ flipped r
    → (r ≡ equal → s' ≡ flipped s)
    → and_then r' s' ≡ flipped (and_then r s)
and_then-flipped less r' s s' e f = ground arith
and_then-flipped equal r' s s' e f = ground (arith, f refl)
and_then-flipped greater r' s s' e f = ground arith
and_then-flipped fail r' s s' e f = ground arith

pub and_then-ne-fail : (r s : CmpResult) → r ≢ fail → (r ≡ equal → s ≢ fail) → and_then r s ≢ fail
and_then-ne-fail less s e f = cc
and_then-ne-fail equal s e f = f refl
and_then-ne-fail greater s e f = cc
and_then-ne-fail fail s e f = absurd (e refl)

pub and_then-eq-equal : (r s : CmpResult) → and_then r s ≡ equal → (r ≡ equal) × (s ≡ equal)
and_then-eq-equal less s e = absurd (cc)
and_then-eq-equal equal s e = (refl, e)
and_then-eq-equal greater s e = absurd (cc)
and_then-eq-equal fail s e = absurd (cc)

pub compare-ne-fail : (a b : Bool) → compare a b ≢ fail
compare-ne-fail true b = cc
compare-ne-fail false true = cc
compare-ne-fail false false = cc

-- What is relied on of the classes of the Dwarf library: their comparisons of values of one class
-- are those of an order.
pub record ForeignLaws (foreign : ForeignCmp) : Type 0 where
  pub flips : (c i j : ℕ) → foreign c j i ≡ flipped (foreign c i j)
  pub returns : (c i j : ℕ) → foreign c i j ≢ fail
  pub same : (c i : ℕ) → foreign c i i ≡ equal

-- Each class has a code of its own.
pub record AreDistinct (t : TypeCodes) : Type 0 where
  pub cst_str : t.cst_code ≢ t.str_code
  pub cst_seq : t.cst_code ≢ t.seq_code
  pub str_seq : t.str_code ≢ t.seq_code

-- The integers are of 64 bits, and the classes of the Dwarf library have codes of their own.
module _ (t : TypeCodes) where
  unfoldable mutual
    pub IsProper : Value → Type 0
    IsProper (cst n d p) = IsWord n
    IsProper (str s p) = Unit {0}
    IsProper (seq vs p) = AreProper vs
    IsProper (other c i p) = (c ≢ t.cst_code) × (c ≢ t.str_code) × (c ≢ t.seq_code)

    pub AreProper : Values → Type 0
    AreProper nil = Unit {0}
    AreProper (cons v vs) = IsProper v × AreProper vs

pub and_then-flat :
    (r s : CmpResult) → and_then (and_then r equal) (and_then s equal) ≡ and_then r s
and_then-flat less s = refl
and_then-flat greater s = refl
and_then-flat fail s = refl
and_then-flat equal less = refl
and_then-flat equal equal = refl
and_then-flat equal greater = refl
and_then-flat equal fail = refl

pub eq_or_ne : (a b : ℕ) → (a ≡ b) ⊎ (a ≢ b)
eq_or_ne a b = elim (ℕ_discrete a b) [ yes e ↦ inl e | no n ↦ inr n ]

pub compare_nat-flipped :
    (a b : ℕ) → compare (ltb b a) (ltb a b) ≡ flipped (compare (ltb a b) (ltb b a))
compare_nat-flipped a b = compare-flipped (ltb a b) (ltb b a) (λ h. ground arith)

pub compare_nat-eq-equal : (a b : ℕ) → compare (ltb a b) (ltb b a) ≡ equal → a ≡ b
compare_nat-eq-equal a b h = ground arith

pub compare_nat_at : (a b : ℕ) → a ≡ b → compare (ltb a b) (ltb b a) ≡ equal
compare_nat_at a b h = ground arith

pub compare_nat_self : (a : ℕ) → compare (ltb a a) (ltb a a) ≡ equal
compare_nat_self a = ground arith

pub compare_asym_self : (b : Bool) → (b ≡ true → b ≡ false) → compare b b ≡ equal
compare_asym_self true h = absurd (ground (arith, h refl))
compare_asym_self false h = refl

pub size_cons : (v : Value) (vs : Values) → ¬ (size nil ≡ size (cons v vs))
unfolding size
size_cons v vs e = omega arith

pub size_tail :
    (v w : Value) (vs ws : Values) → size (cons v vs) ≡ size (cons w ws) → size vs ≡ size ws
unfolding size
size_tail v w vs ws e = omega arith

pub if_same_self : (c : ℕ) (r : CmpResult) → if_same (compare (ltb c c) (ltb c c)) r ≡ r
if_same_self c r = ground arith

pub if_same_at : (c d : ℕ) (r : CmpResult) → c ≡ d → if_same (compare (ltb c d) (ltb d c)) r ≡ r
if_same_at c d r h = ground arith

pub if_same-flipped :
    (c d : ℕ) (r r' : CmpResult)
    → (c ≡ d → r' ≡ flipped r)
    → if_same (compare (ltb d c) (ltb c d)) r' ≡ flipped (if_same (compare (ltb c d) (ltb d c)) r)
if_same-flipped c d r r' h = ground (arith, λ (e : c ≡ d). h e)

module _ (t : TypeCodes) where
  pub compare_types-flipped :
      (vs ws : Values) → size vs ≡ size ws → compare_types t ws vs ≡ flipped (compare_types t vs ws)
  unfolding compare_types size
  compare_types-flipped nil nil e = refl
  compare_types-flipped nil (cons w ws) e = absurd (omega arith)
  compare_types-flipped (cons v vs) nil e = absurd (omega arith)
  compare_types-flipped (cons v vs) (cons w ws) e =
      and_then-flipped (compare_type t v w) (compare_type t w v) (compare_types t vs ws)
        (compare_types t ws vs) (compare_nat-flipped (code t v) (code t w))
        (λ _. compare_types-flipped vs ws (omega arith))

  pub compare_types_self : (vs : Values) → compare_types t vs vs ≡ equal
  unfolding compare_types
  compare_types_self nil = refl
  compare_types_self (cons v vs) = rw (compare_nat_self (code t v)) (compare_types_self vs)
