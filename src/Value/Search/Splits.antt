-- ===== src/Value/Search/Splits.antt =====
-- The tests on sequences and strings against what they ask for: a part of the hay that agrees with the
-- needle.
use mathlib.Core.Path.{subst}
use dwgrep.Base.{
  ℕ, suc, ◌+◌, ◌-◌, ◌<◌, ◌≡◌, ◌↔◌, refl, sym, ap, ◌∙◌, arith, inl, inr, Bool, true, ◌&&◌, leb, ◌==◌,
  List, [], ◌∷◌, ◌++◌, length, take, drop, length-append, length-drop, take-append-drop, Bool-cases,
}
use dwgrep.Value.Search.{
  equal_ranges, begins_with, search_index, starts, ends, find_in_seq, find_in_str,
}
use dwgrep.Value.Search.Laws.{
  contains, drop_left, begins-contains, starts-begins, find_in_seq-contains, find_in_str-contains,
}

module _ {A : Type 0} (eq : A → A → Bool) where
  -- The lists have the same length, and the test holds of their elements, pair by pair.
  abbrev pub Agree : List A → List A → Type 0
  Agree [] [] = Unit {0}
  Agree [] (y ∷ ys) = ⊥
  Agree (x ∷ xs) [] = ⊥
  Agree (x ∷ xs) (y ∷ ys) = (eq x y ≡ true) × Agree xs ys

  -- The first part of the hay agrees with the needle, the last one does, or any one does.
  abbrev pub StartsWith : List A → List A → Type 0
  StartsWith hay need =
      (front : List A) × (rest : List A) × (hay ≡ front ++ rest) × Agree front need

  abbrev pub EndsWith : List A → List A → Type 0
  EndsWith hay need = (rest : List A) × (back : List A) × (hay ≡ rest ++ back) × Agree back need

  abbrev pub Contains : List A → List A → Type 0
  Contains hay need =
      (before : List A) × (part : List A) × (after : List A) × (hay ≡ before ++ (part ++ after))
      × Agree part need

  Agree-length : (xs ys : List A) → Agree xs ys → length xs ≡ length ys
  Agree-length [] [] h = refl
  Agree-length [] (y ∷ ys) h = elim h [ ]
  Agree-length (x ∷ xs) [] h = elim h [ ]
  Agree-length (x ∷ xs) (y ∷ ys) (e, h) = ap suc (Agree-length xs ys h)

  Agree-equal : (xs ys : List A) → Agree xs ys → equal_ranges eq xs ys ≡ true
  unfolding equal_ranges
  Agree-equal [] [] h = refl
  Agree-equal [] (y ∷ ys) h = elim h [ ]
  Agree-equal (x ∷ xs) [] h = elim h [ ]
  Agree-equal (x ∷ xs) (y ∷ ys) (e, h) = rw e (Agree-equal xs ys h)

  equal-Agree :
      (xs ys : List A) → length xs ≡ length ys → equal_ranges eq xs ys ≡ true → Agree xs ys
  unfolding equal_ranges
  equal-Agree [] [] l h = tt
  equal-Agree [] (y ∷ ys) l h = absurd (omega (arith, l))
  equal-Agree (x ∷ xs) [] l h = absurd (omega (arith, l))
  equal-Agree (x ∷ xs) (y ∷ ys) l h =
      (ground (arith, h), equal-Agree xs ys (omega (arith, l)) (ground (arith, h)))

  begins-StartsWith : (hay need : List A) → begins_with eq hay need ≡ true → StartsWith hay need
  unfolding begins_with
  begins-StartsWith hay [] h = ([], hay, refl, tt)
  begins-StartsWith [] (y ∷ need) h = absurd (ground (arith, h))
  begins-StartsWith (x ∷ hay) (y ∷ need) h =
      let (front, rest, q, a) = begins-StartsWith hay need (ground (arith, h)) in
      (x ∷ front, rest, ap (◌∷◌ x) q, (ground (arith, h), a))

  Agree-begins :
      (front rest need : List A) → Agree front need → begins_with eq (front ++ rest) need ≡ true
  unfolding begins_with
  Agree-begins [] rest [] a = begins_nothing rest
    where
      begins_nothing : (xs : List A) → begins_with eq xs [] ≡ true
      begins_nothing [] = refl
      begins_nothing (x ∷ xs) = refl
  Agree-begins [] rest (y ∷ need) a = elim a [ ]
  Agree-begins (x ∷ front) rest [] a = elim a [ ]
  Agree-begins (x ∷ front) rest (y ∷ need) (e, a) = rw e (Agree-begins front rest need a)

  starts_iff : (hay need : List A) → (starts eq hay need ≡ true) ↔ StartsWith hay need
  starts_iff hay need = (
    λ h. begins-StartsWith hay need (sym (starts-begins eq hay need) ∙ h),
    λ (front, rest, q, a).
        starts-begins eq hay need
        ∙ ap (λ xs. begins_with eq xs need) q
        ∙ Agree-begins front rest need a,
  )

  -- What stands behind all but as many elements as the needle has
  ends-EndsWith : (hay need : List A) → ends eq hay need ≡ true → EndsWith hay need
  unfolding ends
  ends-EndsWith hay need h = (
    take (length hay - length need) hay,
    drop (length hay - length need) hay,
    sym (take-append-drop (length hay - length need) hay),
    equal-Agree (drop (length hay - length need) hay) need
        (length-drop (length hay - length need) hay ∙ ground (arith, h)) (ground (arith, h)),
  )

  Agree-ends : (rest back need : List A) → Agree back need → ends eq (rest ++ back) need ≡ true
  unfolding ends
  Agree-ends rest back need a =
      subst
        (λ n.
          (leb n (length (rest ++ back))
            && equal_ranges eq (drop (length (rest ++ back) - n) (rest ++ back)) need)
          ≡ true)
        (Agree-length back need a)
        (rw (drop_left eq rest back, Agree-equal back need a)
          (ground (arith, length-append {0} rest back)))

  ends_iff : (hay need : List A) → (ends eq hay need ≡ true) ↔ EndsWith hay need
  ends_iff hay need = (
    ends-EndsWith hay need,
    λ (rest, back, q, a). ap (λ xs. ends eq xs need) q ∙ Agree-ends rest back need a,
  )

  contains-Contains : (hay need : List A) → contains eq hay need ≡ true → Contains hay need
  unfolding contains
  contains-Contains [] need h =
      let (front, rest, q, a) = begins-StartsWith [] need h in ([], front, rest, q, a)
  contains-Contains (x ∷ hay) need h = elim (Bool-cases (begins_with eq (x ∷ hay) need)) [
    | inl e ↦
        let (front, rest, q, a) = begins-StartsWith (x ∷ hay) need e in ([], front, rest, q, a)
    | inr e ↦
        let (before, part, after, q, a) = contains-Contains hay need (ground (arith, e, h)) in
        (x ∷ before, part, after, ap (◌∷◌ x) q, a)
  ]

  Agree-contains :
      (before part after need : List A)
      → Agree part need
      → contains eq (before ++ (part ++ after)) need ≡ true
  unfolding contains
  Agree-contains [] part after need a =
      begins-contains eq (part ++ after) need (Agree-begins part after need a)
  Agree-contains (x ∷ before) part after need a =
      ground (arith, Agree-contains before part after need a)

  contains_iff : (hay need : List A) → (contains eq hay need ≡ true) ↔ Contains hay need
  contains_iff hay need = (
    contains-Contains hay need,
    λ (before, part, after, q, a).
        ap (λ xs. contains eq xs need) q ∙ Agree-contains before part after need a,
  )

  -- Either list has an element.
  abbrev pub HasElement : List A → List A → Type 0
  HasElement hay need = 0 < length hay + length need

  find_in_seq-HasElement :
      (hay need : List A) → find_in_seq eq hay need ≡ true → HasElement hay need
  unfolding find_in_seq search_index
  find_in_seq-HasElement [] [] h = absurd (ground (arith, h))
  find_in_seq-HasElement [] (y ∷ need) h = omega arith
  find_in_seq-HasElement (x ∷ hay) need h = omega arith

  find_in_seq_iff :
      (hay need : List A)
      → (find_in_seq eq hay need ≡ true) ↔ (Contains hay need × HasElement hay need)
  find_in_seq_iff hay need = elim (find_in_seq-contains eq hay need) [
    | inl e ↦ (
      λ h. (contains-Contains hay need (sym e ∙ h), find_in_seq-HasElement hay need h),
      λ (c, l). e ∙ (contains_iff hay need).1 c,
    )
    | inr (p, q, n, m) ↦ (
      λ h. absurd (ground (arith, h, n)),
      λ (c, l). absurd (omega (arith, l, ap length p, ap length q)),
    )
  ]

find_in_str_iff : (hay need : List ℕ) → (find_in_str hay need ≡ true) ↔ Contains ◌==◌ hay need
find_in_str_iff hay need = (
  λ h. contains-Contains ◌==◌ hay need (sym (find_in_str-contains hay need) ∙ h),
  λ c. find_in_str-contains hay need ∙ (contains_iff ◌==◌ hay need).1 c,
)

-- ?starts holds just where the hay is a part that agrees with the needle and a rest after it, ?ends just
-- where it is a rest and such a part after it. ?find on sequences holds just where the hay is such a part
-- between two others and one of hay and needle is not empty, and ?find on strings just where it is such a
-- part between two others. A part agrees with the needle if they have the same length and the test of
-- elements holds of each pair.
pub searched_parts :
    {A : Type 0} (eq : A → A → Bool) (hay need : List A) (text word : List ℕ)
    → ((starts eq hay need ≡ true) ↔ StartsWith eq hay need)
      × ((ends eq hay need ≡ true) ↔ EndsWith eq hay need)
      × ((find_in_seq eq hay need ≡ true) ↔ (Contains eq hay need × HasElement eq hay need))
      × ((find_in_str text word ≡ true) ↔ Contains ◌==◌ text word)
searched_parts eq hay need text word = (
  starts_iff eq hay need,
  ends_iff eq hay need,
  find_in_seq_iff eq hay need,
  find_in_str_iff text word,
)
