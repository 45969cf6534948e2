-- ===== src/Value/Search.antt =====
-- The tests ?starts, ?ends and ?find on sequences and on strings: libzwerg/value-seq.cc and
-- libzwerg/value-str.cc. The standard library's algorithms have the test of two elements as an
-- argument.
pub mod Laws
pub mod Splits
mod Tests
use dwgrep.Base.{
  ℕ, zero, suc, ◌-◌, Bool, true, false, not, ◌&&◌, ltb, leb, ◌==◌, if◌then◌else◌, List, [], ◌∷◌,
  Option, none, some, length, take, drop,
}
use dwgrep.Constant.{Domains}
use dwgrep.Value.{Value, Values, TypeCodes, nil, cons}
use dwgrep.Value.Compare.{ForeignCmp, CmpResult, less, equal, greater, fail, cmp}

-- An index in the hay without its first element
abbrev pub one_later : Option ℕ → Option ℕ
one_later none = none
one_later (some i) = some (suc i)

module _ {A : Type 0} (eq : A → A → Bool) where
  -- std::equal, which stops at the end of the first range
  unfoldable pub equal_ranges : List A → List A → Bool
  equal_ranges [] ys = true
  equal_ranges (x ∷ xs) [] = false
  equal_ranges (x ∷ xs) (y ∷ ys) = eq x y && equal_ranges xs ys

  -- Whether the first range begins with the second one
  unfoldable pub begins_with : List A → List A → Bool
  begins_with xs [] = true
  begins_with [] (y ∷ ys) = false
  begins_with (x ∷ xs) (y ∷ ys) = eq x y && begins_with xs ys

  -- std::search, as an index; the length stands for the end.
  unfoldable pub search_index : List A → List A → ℕ
  unfolding begins_with
  search_index [] need = 0
  search_index (x ∷ hay) need =
      let rest = suc (search_index hay need) in if begins_with (x ∷ hay) need then 0 else rest

  -- std::basic_string::find; `none` stands for npos.
  unfoldable pub string_find : List A → List A → Option ℕ
  unfolding begins_with
  string_find [] [] = some 0
  string_find [] (y ∷ need) = none
  string_find (x ∷ hay) need =
      let rest = one_later (string_find hay need) in
      if begins_with (x ∷ hay) need then some 0 else rest

  -- pred_starts_seq::result and pred_starts_str::result
  unfoldable pub starts : List A → List A → Bool
  unfolding equal_ranges
  starts hay need = leb (length need) (length hay) && equal_ranges (take (length need) hay) need

  -- pred_ends_seq::result and pred_ends_str::result
  unfoldable pub ends : List A → List A → Bool
  unfolding equal_ranges
  ends hay need =
      leb (length need) (length hay) && equal_ranges (drop (length hay - length need) hay) need

  -- pred_find_seq::result
  unfoldable pub find_in_seq : List A → List A → Bool
  unfolding search_index
  find_in_seq hay need = not (search_index hay need == length hay)

-- pred_find_str::result
abbrev pub is_some : Option ℕ → Bool
is_some none = false
is_some (some i) = true

unfoldable pub find_in_str : List ℕ → List ℕ → Bool
unfolding string_find
find_in_str hay need = is_some (string_find ◌==◌ hay need)

-- `a->cmp (*b) == cmp_result::equal`
abbrev pub is_equal : CmpResult → Bool
is_equal equal = true
is_equal less = false
is_equal greater = false
is_equal fail = false

unfoldable pub cmp_equal : TypeCodes → Domains → ForeignCmp → Value → Value → Bool
cmp_equal t ds foreign a b = is_equal (cmp t ds foreign a b)

-- The elements of a vector
abbrev pub elements : Values → List Value
elements nil = []
elements (cons v vs) = v ∷ elements vs
