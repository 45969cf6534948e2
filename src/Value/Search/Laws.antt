-- ===== src/Value/Search/Laws.antt =====
-- What the tests on sequences and strings say.
use dwgrep.Base.{
  ℕ, ◌-◌, ◌≤◌, ◌≡◌, refl, ap, ◌∙◌, arith, ◌⊎◌, inl, inr, Bool, true, false, ◌&&◌, ◌||◌, leb, ◌==◌,
  List, [], ◌∷◌, ◌++◌, length, take, drop, length-append,
}
use dwgrep.Value.Search.{
  equal_ranges, begins_with, search_index, string_find, starts, find_in_seq, find_in_str, is_some,
}

drop-append : {A : Type 0} (xs ys : List A) → drop (length xs) (xs ++ ys) ≡ ys
drop-append [] ys = refl
drop-append (x ∷ xs) ys = drop-append xs ys

module _ {A : Type 0} (eq : A → A → Bool) where
  -- The needle stands somewhere in the hay: the description of ?find.
  unfoldable pub contains : List A → List A → Bool
  contains [] need = begins_with eq [] need
  contains (x ∷ hay) need = begins_with eq (x ∷ hay) need || contains hay need

  equal-begins :
      (hay need : List A)
      → leb (length need) (length hay) && equal_ranges eq (take (length need) hay) need
        ≡ begins_with eq hay need
  unfolding equal_ranges begins_with
  equal-begins hay [] = ground arith
  equal-begins [] (y ∷ need) = ground arith
  equal-begins (x ∷ hay) (y ∷ need) = ground (arith, equal-begins hay need)

  search_le : (hay need : List A) → search_index eq hay need ≤ length hay
  unfolding search_index
  search_le [] need = omega arith
  search_le (x ∷ hay) need = ground (arith, search_le hay need)

  find_contains :
      (x : A) (hay need : List A) → find_in_seq eq (x ∷ hay) need ≡ contains (x ∷ hay) need
  unfolding find_in_seq search_index contains begins_with
  find_contains x [] [] = refl
  find_contains x [] (z ∷ need) = ground arith
  find_contains x (y ∷ hay) need = ground (arith, find_contains y hay need)

  pub find_in_seq-contains :
      (hay need : List A)
      → (find_in_seq eq hay need ≡ contains hay need)
        ⊎ ((hay ≡ [])
            × (need ≡ [])
            × (find_in_seq eq hay need ≡ false)
            × (contains hay need ≡ true))
  unfolding contains begins_with find_in_seq search_index
  find_in_seq-contains (x ∷ hay) need = inl (find_contains x hay need)
  find_in_seq-contains [] (y ∷ need) = inl refl
  find_in_seq-contains [] [] = inr (refl, refl, refl, refl)

  pub drop_left : (xs ys : List A) → drop (length (xs ++ ys) - length ys) (xs ++ ys) ≡ ys
  drop_left xs ys =
      ap (λ n. drop n (xs ++ ys)) (omega (arith, length-append {0} xs ys)) ∙ drop-append xs ys

  pub begins-contains :
      (hay need : List A) → begins_with eq hay need ≡ true → contains hay need ≡ true
  unfolding contains
  begins-contains [] need h = h
  begins-contains (x ∷ hay) need h = rw h refl

string_found : (hay need : List ℕ) → is_some (string_find ◌==◌ hay need) ≡ contains ◌==◌ hay need
unfolding string_find contains begins_with
string_found [] [] = refl
string_found [] (y ∷ need) = refl
string_found (x ∷ hay) need = ground (arith, string_found hay need)

-- ?find on strings tells whether the needle stands somewhere in the hay.
pub find_in_str-contains : (hay need : List ℕ) → find_in_str hay need ≡ contains ◌==◌ hay need
unfolding find_in_str
find_in_str-contains hay need = string_found hay need

-- ?starts compares the elements from the first one on, as many as the needle has.
pub starts-begins :
    {A : Type 0} (eq : A → A → Bool) (hay need : List A)
    → starts eq hay need ≡ begins_with eq hay need
unfolding starts
starts-begins eq hay need = equal-begins eq hay need
