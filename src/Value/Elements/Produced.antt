-- ===== src/Value/Elements/Produced.antt =====
-- What the producers of `elem` and `relem` produce.
use mathlib.Core.Path.{subst}
use mathlib.Core.List.{reverse-cons}
use native.Mathlib.Decide.{dec_lt}
use dwgrep.Base.{
  ℕ, zero, suc, ◌-◌, ◌<◌, ◌≤◌, ◌≡◌, refl, sym, ap, ◌∙◌, arith, ltb, if◌then◌else◌, List, [], ◌∷◌,
  ◌++◌, Option, none, some, length, get_elem?, drop, reverse, length-append,
}
use dwgrep.Value.{Value}
use dwgrep.Value.Elements.{Producer, produced, elem_next, relem_next, producer_of}

-- From the producer on, `next` returns the values, one after the other, and then nullptr.
abbrev pub Produces : {P : Type 0} → (P → Option (Value × P)) → P → List Value → Type 0
Produces next p [] = next p ≡ none
Produces {P} next p (v ∷ vs) = (p' : P) × (next p ≡ some (v, p')) × Produces next p' vs

module _ {A : Type 0} where
  at_index :
      (items : List A) (i : ℕ) (a : A) (rest : List A)
      → drop i items ≡ a ∷ rest
      → (get_elem? items i ≡ some a) × (drop (suc i) items ≡ rest) × (i < length items)
  at_index [] zero a rest h = absurd (cc)
  at_index [] (suc i) a rest h = absurd (cc)
  at_index (x ∷ items) zero a rest h = ground arith
  at_index (x ∷ items) (suc i) a rest h =
      let (e, d, l) = at_index items i a rest h in (e, d, omega arith)

  past_end : (items : List A) (i : ℕ) → drop i items ≡ [] → length items ≤ i
  past_end [] i h = omega arith
  past_end (x ∷ items) zero h = absurd (cc)
  past_end (x ∷ items) (suc i) h = omega (arith, past_end items i h)

  length-reverse : (items : List A) → length (reverse items) ≡ length items
  length-reverse [] = refl
  length-reverse (x ∷ items) =
      ap length (reverse-cons x items)
      ∙ omega (arith, length-append {0} (reverse items) (x ∷ []), length-reverse items)

  get_elem?-append_left :
      (xs ys : List A) (i : ℕ) → i < length xs → get_elem? (xs ++ ys) i ≡ get_elem? xs i
  get_elem?-append_left [] ys i l = absurd (omega arith)
  get_elem?-append_left (x ∷ xs) ys zero l = refl
  get_elem?-append_left (x ∷ xs) ys (suc i) l = get_elem?-append_left xs ys i (omega arith)

  get_elem?-append_last :
      (xs : List A) (y : A) (i : ℕ) → i ≡ length xs → get_elem? (xs ++ y ∷ []) i ≡ some y
  get_elem?-append_last [] y i l = rw l refl
  get_elem?-append_last (x ∷ xs) y zero l = absurd (omega arith)
  get_elem?-append_last (x ∷ xs) y (suc i) l = get_elem?-append_last xs y i (omega arith)

  get_elem?-reverse :
      (items : List A) (i : ℕ)
      → i < length items
      → get_elem? items (length items - 1 - i) ≡ get_elem? (reverse items) i
  get_elem?-reverse [] i l = absurd (omega arith)
  get_elem?-reverse (x ∷ items) i l = rw (reverse-cons x items) (elim (dec_lt i (length items)) [
    | yes h ↦
        let earlier : suc (length items) - 1 - i ≡ suc (length items - 1 - i) = omega arith in
        ap (get_elem? (x ∷ items)) earlier
        ∙ get_elem?-reverse items i h
        ∙ sym
            (get_elem?-append_left (reverse items) (x ∷ []) i (omega (arith, length-reverse items)))
    | no h ↦
        let first : suc (length items) - 1 - i ≡ 0 = omega arith in
        ap (get_elem? (x ∷ items)) first
        ∙ sym (get_elem?-append_last (reverse items) x i (omega (arith, length-reverse items)))
  ])

within : {B : Type 0} (n i : ℕ) (x y : Option B) → i < n → x ≡ y → (if ltb i n then x else none) ≡ y
within n i x y l e = ground arith

module _ {A : Type 0} (make : A → ℕ → Value) where
  -- The values of the items, with their positions from i on
  unfoldable pub numbered : ℕ → List A → List Value
  numbered i [] = []
  numbered i (a ∷ items) = make a i ∷ numbered (suc i) items

  after_all :
      {n i : ℕ} → n ≤ i → (x : Option (Value × Producer A)) → (if ltb i n then x else none) ≡ none
  after_all l x = ground arith

  pub elem_from :
      (items : List A) (i : ℕ) (rest : List A)
      → drop i items ≡ rest
      → Produces (elem_next make) (record { items = items; idx = i }) (numbered i rest)
  unfolding elem_next numbered
  elem_from items i [] d = after_all (past_end items i d) _
  elem_from items i (a ∷ rest) d =
      let (e, d', l) = at_index items i a rest d in
      (
        record { items = items; idx = suc i },
        within (length items) i _ _ l (ap (produced make (record { items = items; idx = i })) e),
        elem_from items (suc i) rest d',
      )

  pub relem_from :
      (items : List A) (i : ℕ) (rest : List A)
      → drop i (reverse items) ≡ rest
      → Produces (relem_next make) (record { items = items; idx = i }) (numbered i rest)
  unfolding relem_next numbered
  relem_from items i [] d =
      after_all (subst (λ n. n ≤ i) (length-reverse items) (past_end (reverse items) i d)) _
  relem_from items i (a ∷ rest) d =
      let (e, d', l) = at_index (reverse items) i a rest d in
      let l' = subst (λ n. i < n) (length-reverse items) l in
      (
        record { items = items; idx = suc i },
        within (length items) i _ _ l' (
            ap (produced make (record { items = items; idx = i }))
              (get_elem?-reverse items i l' ∙ e)),
        relem_from items (suc i) rest d',
      )

  -- `elem` produces the elements from the first to the last, `relem` from the last to the first,
  -- each of them once and with the positions 0, 1, 2 and so on, and then no more.
  pub elements_produced :
      (items : List A)
      → Produces (elem_next make) (producer_of items) (numbered 0 items)
        × Produces (relem_next make) (producer_of items) (numbered 0 (reverse items))
  elements_produced items = (elem_from items 0 items refl, relem_from items 0 (reverse items) refl)
