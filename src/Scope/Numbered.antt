-- ===== src/Scope/Numbered.antt =====
-- The ids that uprefs::find gives to names.
use dwgrep.Base.{
  ℕ, zero, suc, ◌<◌, ◌≡◌, refl, ap, sym, ◌∙◌, ◌==◌, ltb, arith, Bool, true, false, not, ◌||◌,
  if◌then◌else◌, List, [], ◌∷◌, ◌++◌, length, get_elem?, some, Bool-cases, inl, inr,
}
use dwgrep.Scope.{
  Name, Map, same_name, lookup, replace, Upref, is_builtin, is_used, mark_used, Uprefs, put,
  refd_loop, refd_ids, seconds,
}
use dwgrep.Scope.Names.{same_name_eq}

-- The ids in the result of refd_ids are less than k,
abbrev IdsBelow : ℕ → List (ℕ × Name) → Type 0
IdsBelow k [] = Unit {0}
IdsBelow k ((id, name) ∷ ret) = (id < k) × IdsBelow k ret

-- and those in m_ids.
abbrev pub UsedBelow : ℕ → Map Upref → Type 0
UsedBelow k [] = Unit {0}
UsedBelow k ((key, r) ∷ els) = ((not (is_used r) || ltb r.id k) ≡ true) × UsedBelow k els

put_last :
    (k : ℕ) (b : Name) (ret : List (ℕ × Name)) → IdsBelow k ret → put k b ret ≡ ret ++ (k, b) ∷ []
put_last k b [] h = refl
put_last k b ((j, n) ∷ ret) (l, h) = ground (arith, put_last k b ret h)

put-append :
    (i k : ℕ) (a b : Name) (ret : List (ℕ × Name))
    → i < k
    → put i a (ret ++ (k, b) ∷ []) ≡ put i a ret ++ (k, b) ∷ []
put-append i k a b [] l = ground arith
put-append i k a b ((j, n) ∷ ret) l = ground (arith, put-append i k a b ret l)

either_below :
    (k : ℕ) (c : Bool) (xs ys : List (ℕ × Name))
    → IdsBelow k xs
    → IdsBelow k ys
    → IdsBelow k (if c then xs else ys)
either_below k true xs ys h g = h
either_below k false xs ys h g = g

put-IdsBelow :
    (i k : ℕ) (a : Name) (ret : List (ℕ × Name)) → i < k → IdsBelow k ret → IdsBelow k (put i a ret)
put-IdsBelow i k a [] l h = (l, tt)
put-IdsBelow i k a ((j, n) ∷ ret) l (m, h) =
    either_below k (i == j) ((i, a) ∷ ret)
      (if ltb i j then (i, a) ∷ (j, n) ∷ ret else (j, n) ∷ put i a ret) (l, h)
      (either_below k (ltb i j) ((i, a) ∷ (j, n) ∷ ret) ((j, n) ∷ put i a ret) (l, (m, h))
        (m, put-IdsBelow i k a ret l h))

refd_loop-append :
    (k : ℕ) (b : Name) (ret : List (ℕ × Name)) (els : Map Upref)
    → UsedBelow k els
    → refd_loop (ret ++ (k, b) ∷ []) els ≡ refd_loop ret els ++ (k, b) ∷ []
refd_loop-append k b ret [] h = refl
refd_loop-append k b ret ((key, r) ∷ els) (l, h) =
    ap (λ z. refd_loop z els) step
    ∙ refd_loop-append k b (if is_used r then put r.id key ret else ret) els h
  where
    step :
        (if is_used r then put r.id key (ret ++ (k, b) ∷ []) else ret ++ (k, b) ∷ [])
        ≡ (if is_used r then put r.id key ret else ret) ++ (k, b) ∷ []
    step = ground (arith, put-append r.id k key b ret)

next_ret-IdsBelow :
    (k : ℕ) (key : Name) (r : Upref) (ret : List (ℕ × Name))
    → (not (is_used r) || ltb r.id k) ≡ true
    → IdsBelow k ret
    → IdsBelow k (if is_used r then put r.id key ret else ret)
next_ret-IdsBelow k key r ret l h = elim (Bool-cases (is_used r)) [
  | inl e ↦ rw e (put-IdsBelow r.id k key ret (ground (arith, l, e)) h)
  | inr e ↦ rw e h
]

pub some-injective : {A : Type 0} → (a b : A) → some a ≡ some b → a ≡ b
some-injective a b q = cc

replaced_here :
    (k : ℕ) (name key : Name) (r r' : Upref) (ret : List (ℕ × Name)) (els : Map Upref)
    → lookup name ((key, r') ∷ els) ≡ some r
    → same_name key name ≡ true
    → is_used r ≡ false
    → is_builtin r ≡ false
    → UsedBelow k els
    → IdsBelow k ret
    → refd_loop (if is_used (mark_used k r) then put k key ret else ret) els
      ≡ refd_loop (if is_used r' then put r'.id key ret else ret) els ++ (k, name) ∷ []
replaced_here k name key r r' ret els q e u b h g =
    ap (λ z. refd_loop z els) now
    ∙ refd_loop-append k key ret els h
    ∙ ap (λ z. refd_loop ret els ++ (k, z) ∷ []) (same_name_eq key name e)
    ∙ ap (λ z. refd_loop z els ++ (k, name) ∷ []) (sym before)
  where
    same : r' ≡ r
    same = some-injective r' r (ground (arith, q, e))

    now : (if is_used (mark_used k r) then put k key ret else ret) ≡ ret ++ (k, key) ∷ []
    now = ground (arith, b, put_last k key ret g)

    before : (if is_used r' then put r'.id key ret else ret) ≡ ret
    before = ground (arith, ap is_used same ∙ u)

pub refd_loop-replace :
    (k : ℕ) (name : Name) (r : Upref) (ret : List (ℕ × Name)) (els : Map Upref)
    → lookup name els ≡ some r
    → is_used r ≡ false
    → is_builtin r ≡ false
    → UsedBelow k els
    → IdsBelow k ret
    → refd_loop ret (replace name (mark_used k r) els) ≡ refd_loop ret els ++ (k, name) ∷ []
refd_loop-replace k name r ret [] q u b h g = absurd (ground arith)
refd_loop-replace k name r ret ((key, r') ∷ els) q u b (l, h) g =
    elim (Bool-cases (same_name key name)) [
      | inl e ↦ rw e (replaced_here k name key r r' ret els q e u b h g)
      | inr e ↦ rw e (
          refd_loop-replace k name r (if is_used r' then put r'.id key ret else ret) els
            (ground (arith, q, e)) u b h (next_ret-IdsBelow k key r' ret l g))
    ]

UsedBelow-suc : (k : ℕ) (els : Map Upref) → UsedBelow k els → UsedBelow (suc k) els
UsedBelow-suc k [] h = tt
UsedBelow-suc k ((key, r) ∷ els) (l, h) = (ground (arith, l), UsedBelow-suc k els h)

pub replace-UsedBelow :
    (k : ℕ) (name : Name) (r : Upref) (els : Map Upref)
    → UsedBelow k els
    → UsedBelow (suc k) (replace name (mark_used k r) els)
replace-UsedBelow k name r [] h = tt
replace-UsedBelow k name r ((key, r') ∷ els) (l, h) = elim (Bool-cases (same_name key name)) [
  | inl e ↦ rw e (ground arith, UsedBelow-suc k els h)
  | inr e ↦ rw e (ground (arith, l), replace-UsedBelow k name r els h)
]

-- The name that has an id stands at that index.
abbrev pub AreRecorded : List Name → Map Upref → Type 0
AreRecorded names els =
    (name : Name) (r : Upref)
    → lookup name els ≡ some r
    → is_used r ≡ true
    → get_elem? names r.id ≡ some name

-- The ids are the numbers from 0 on, in the order in which they have been given.
pub record IsNumbered (u : Uprefs) : Type 0 where
  pub used : UsedBelow u.next_id u.ids
  pub counted : length (refd_ids u) ≡ u.next_id
  pub recorded : AreRecorded (seconds (refd_ids u)) u.ids

pub length-seconds : (ids : List (ℕ × Name)) → length (seconds ids) ≡ length ids
length-seconds [] = refl
length-seconds ((i, n) ∷ ids) = ap suc (length-seconds ids)

pub seconds-append :
    (ids : List (ℕ × Name)) (k : ℕ) (name : Name)
    → seconds (ids ++ (k, name) ∷ []) ≡ seconds ids ++ name ∷ []
seconds-append [] k name = refl
seconds-append ((i, n) ∷ ids) k name = ap (◌∷◌ n) (seconds-append ids k name)

pub get_elem?-before :
    {A : Type 0}
    → (xs ys : List A) (i : ℕ) (v : A) → get_elem? xs i ≡ some v
    → get_elem? (xs ++ ys) i ≡ some v
get_elem?-before [] ys i v h = absurd (ground arith)
get_elem?-before (x ∷ xs) ys zero v h = h
get_elem?-before (x ∷ xs) ys (suc i) v h = get_elem?-before xs ys i v h

pub get_elem?-behind :
    {A : Type 0} → (xs : List A) (v : A) → get_elem? (xs ++ v ∷ []) (length xs) ≡ some v
get_elem?-behind [] v = refl
get_elem?-behind (x ∷ xs) v = get_elem?-behind xs v
