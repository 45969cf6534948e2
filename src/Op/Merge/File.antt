-- ===== src/Op/Merge/File.antt =====
-- The copies in m_file: from an index on, going round, some branches still have theirs.
use dwgrep.Base.{
  ℕ, zero, suc, ◌+◌, ◌-◌, ◌<◌, ◌≤◌, ◌≡◌, ◌==◌, refl, ap, ◌∙◌, arith, Bool, true, false, ltb, leb,
  if◌then◌else◌, List, [], ◌∷◌, Option, none, some, length, get_or, set,
}
use dwgrep.Stack.{Stack}
use dwgrep.Op.Merge.{copies, all_null}

-- Whether j is one of the k indices from i on, where 0 follows on size - 1
abbrev pub in_window : ℕ → ℕ → ℕ → ℕ → Bool
in_window size i k j = ltb (if leb i j then j - i else j + size - i) k

-- The k branches from i on have a copy of x, and the others none.
abbrev pub Holds : ℕ → ℕ → ℕ → Stack → List (Option Stack) → Type 0
Holds size i k x file =
    (length file ≡ size)
    × ((j : ℕ) → j < size → get_or file j none ≡ (if in_window size i k j then some x else none))

abbrev pub following : ℕ → ℕ → ℕ
following size i = if suc i == size then 0 else suc i

get_or-set :
    (file : List (Option Stack)) (i j : ℕ) (v : Option Stack)
    → i < length file
    → get_or (set file i v) j none ≡ (if i == j then v else get_or file j none)
get_or-set [] i j v l = absurd (omega arith)
get_or-set (p ∷ file) zero zero v l = refl
get_or-set (p ∷ file) zero (suc j) v l = ground arith
get_or-set (p ∷ file) (suc i) zero v l = ground arith
get_or-set (p ∷ file) (suc i) (suc j) v l = ground (arith, get_or-set file i j v)

length-set :
    (file : List (Option Stack)) (i : ℕ) (v : Option Stack) → length (set file i v) ≡ length file
length-set [] i v = refl
length-set (p ∷ file) zero v = refl
length-set (p ∷ file) (suc i) v = ap suc (length-set file i v)

length-copies : (n : ℕ) (p : Option Stack) → length (copies n p) ≡ n
length-copies zero p = refl
length-copies (suc n) p = ap suc (length-copies n p)

get_or-copies : (n j : ℕ) (p : Option Stack) → j < n → get_or (copies n p) j none ≡ p
get_or-copies zero j p l = absurd (omega arith)
get_or-copies (suc n) zero p l = refl
get_or-copies (suc n) (suc j) p l = get_or-copies n j p (omega arith)

pub all_null-copies : (n : ℕ) → all_null (copies n none) ≡ true
unfolding all_null
all_null-copies zero = refl
all_null-copies (suc n) = all_null-copies n

pub all_null-true :
    (file : List (Option Stack))
    → ((j : ℕ) → j < length file → get_or file j none ≡ none)
    → all_null file ≡ true
unfolding all_null
all_null-true [] h = refl
all_null-true (none ∷ file) h = all_null-true file (λ j l. h (suc j) (omega arith))
all_null-true (some x ∷ file) h = absurd (ground (arith, h 0))

pub all_null-false :
    (file : List (Option Stack)) (j : ℕ) (x : Stack)
    → get_or file j none ≡ some x
    → all_null file ≡ false
unfolding all_null
all_null-false [] j x h = absurd (ground arith)
all_null-false (some y ∷ file) j x h = refl
all_null-false (none ∷ file) zero x h = absurd (ground arith)
all_null-false (none ∷ file) (suc j) x h = all_null-false file j x h

module _ (size i : ℕ) (x : Stack) (file : List (Option Stack)) (inside : i < size) where
  pub Holds-copies : Holds size i size x (copies size (some x))
  Holds-copies =
      (length-copies size (some x), λ j l. ground (arith, get_or-copies size j (some x) l))

  pub Holds-get : (k : ℕ) → Holds size i (suc k) x file → get_or file i none ≡ some x
  Holds-get k (n, h) = ground (arith, h i)

  pub Holds-full : (k : ℕ) → Holds size i (suc k) x file → all_null file ≡ false
  Holds-full k h = all_null-false file i x (Holds-get k h)

  -- The branch at i takes its copy.
  pub Holds-set :
      (k : ℕ)
      → suc k ≤ size
      → Holds size i (suc k) x file
      → Holds size (following size i) k x (set file i none)
  Holds-set k l (n, h) =
      (length-set file i none ∙ n, λ j m. ground (arith, get_or-set file i j none, h j))

  -- After that it has none, while another may have one.
  pub Holds-none :
      (k : ℕ) → suc k ≤ size → Holds size (following size i) k x file → get_or file i none ≡ none
  Holds-none k l (n, h) = ground (arith, h i)

  pub Holds-some : (k : ℕ) → Holds size (following size i) (suc k) x file → all_null file ≡ false
  Holds-some k (n, h) =
      all_null-false file (following size i) x (ground (arith, h (following size i)))

  pub Holds-empty : Holds size (following size i) 0 x file → all_null file ≡ true
  Holds-empty (n, h) = all_null-true file (λ j l. ground (arith, h j))

  -- It looks for one in vain.
  pub Holds-again :
      (k : ℕ)
      → suc k ≤ size
      → Holds size (following size i) k x file
      → Holds size (following size i) k x (set file i none)
  Holds-again k l (n, h) =
      (length-set file i none ∙ n, λ j m. ground (arith, get_or-set file i j none, h j))
