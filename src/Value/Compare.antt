-- ===== src/Value/Compare.antt =====
-- The comparison of values: zw_value::cmp of libzwerg/value-cst.cc, value-str.cc and value-seq.cc,
-- with the template `compare` of libzwerg/value.hh.
pub mod Laws
pub mod Order
use dwgrep.Base.{ℕ, suc, Bool, true, false, ltb, if◌then◌else◌, List, [], ◌∷◌, some}
use dwgrep.Mpz.{Mpz}
use dwgrep.Constant.{Domains, constant, less as constant_less}
use dwgrep.Value.{Value, Values, cst, str, seq, other, nil, cons, TypeCodes, code}

pub data CmpResult : Type 0 where
  less equal greater fail : CmpResult

-- The template `compare`, from the answers of a < b and b < a
abbrev pub compare : Bool → Bool → CmpResult
compare a_lt_b b_lt_a = if a_lt_b then less else if b_lt_a then greater else equal

-- `if (ret != cmp_result::equal) return ret;` and what follows
abbrev pub and_then : CmpResult → CmpResult → CmpResult
and_then equal r = r
and_then less r = less
and_then greater r = greater
and_then fail r = fail

-- `if (auto v = value::as <...> (&that)) return ...; else return cmp_result::fail;`, from the
-- comparison of the two type codes
abbrev pub if_same : CmpResult → CmpResult → CmpResult
if_same equal r = r
if_same less r = fail
if_same greater r = fail
if_same fail r = fail

-- operator< of std::string
pub string_less : List ℕ → List ℕ → Bool
string_less s [] = false
string_less [] (y ∷ ys) = true
string_less (x ∷ xs) (y ∷ ys) =
    let rest = string_less xs ys in if ltb x y then true else if ltb y x then false else rest

pub size : Values → ℕ
size nil = 0
size (cons v vs) = suc (size vs)

-- The classes of the Dwarf library compare two values of one class; the arguments are the type code
-- and the two identities.
abbrev pub ForeignCmp : Type 0
ForeignCmp = ℕ → ℕ → ℕ → CmpResult

module _ (t : TypeCodes) where
  -- compare on two value_types
  abbrev pub compare_type : Value → Value → CmpResult
  compare_type v w = compare (ltb (code t v) (code t w)) (ltb (code t w) (code t v))

  -- compare_sequences with the first callback of value_seq::cmp. The sequences have one size, so no
  -- step leaves the second one early; `fail` stands for such a step.
  pub compare_types : Values → Values → CmpResult
  compare_types nil ws = equal
  compare_types (cons v vs) nil = fail
  compare_types (cons v vs) (cons w ws) = and_then (compare_type v w) (compare_types vs ws)

  module _ (ds : Domains) (foreign : ForeignCmp) where
    -- value_cst::cmp
    pub cmp_cst : Mpz → ℕ → Value → CmpResult
    cmp_cst n d (cst m e q) =
        compare (constant_less ds (constant n (some d)) (constant m (some e)))
          (constant_less ds (constant m (some e)) (constant n (some d)))
    cmp_cst n d (str s q) = fail
    cmp_cst n d (seq ws q) = fail
    cmp_cst n d (other c i q) = fail

    -- value_str::cmp
    pub cmp_str : List ℕ → Value → CmpResult
    cmp_str s (str s' q) = compare (string_less s s') (string_less s' s)
    cmp_str s (cst m e q) = fail
    cmp_str s (seq ws q) = fail
    cmp_str s (other c i q) = fail

    -- The comparison of a class of the Dwarf library
    pub cmp_other : ℕ → ℕ → Value → CmpResult
    cmp_other c i (other d j q) = if_same (compare (ltb c d) (ltb d c)) (foreign c i j)
    cmp_other c i (cst m e q) = fail
    cmp_other c i (str s q) = fail
    cmp_other c i (seq ws q) = fail

    mutual
      -- zw_value::cmp, with value_seq::cmp in place
      pub cmp : Value → Value → CmpResult
      cmp (cst n d p) w = cmp_cst n d w
      cmp (str s p) w = cmp_str s w
      cmp (other c i p) w = cmp_other c i w
      cmp (seq vs p) (seq ws q) =
          and_then (compare (ltb (size vs) (size ws)) (ltb (size ws) (size vs)))
            (and_then (compare_types vs ws) (compare_values vs ws))
      cmp (seq vs p) (cst m e q) = fail
      cmp (seq vs p) (str s q) = fail
      cmp (seq vs p) (other c i q) = fail

      -- compare_sequences with the second callback of value_seq::cmp
      pub compare_values : Values → Values → CmpResult
      compare_values nil ws = equal
      compare_values (cons v vs) nil = fail
      compare_values (cons v vs) (cons w ws) = and_then (cmp v w) (compare_values vs ws)
