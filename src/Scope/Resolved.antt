-- ===== src/Scope/Resolved.antt =====
-- What a name stands for: in a scope after a binding, and in a block.
use dwgrep.Base.{
  ℕ, ◌≡◌, refl, ap, ◌∙◌, arith, Bool, true, false, ◌||◌, if◌then◌else◌, List, [], ◌∷◌, Option, none,
  some, Bool-cases, inl, inr,
}
use dwgrep.Scope.{
  Name, Map, same_name, lookup, emplace, keys, Binding, bind_at, Bindings, root, scope, is_bound,
  bind, or_in, find, insert_name, insert_names, names_loop, names_closure, Upref, upref_of, from,
  Uprefs, uprefs, emplace_found, add_bound, add_super,
}
use dwgrep.Scope.Names.{same_name_self, same_name_eq}

abbrev pub or_else : {A : Type 0} → Option A → Option A → Option A
or_else none o = o
or_else (some v) o = some v

abbrev pub map_some : {A B : Type 0} → (A → B) → Option A → Option B
map_some f none = none
map_some f (some v) = some (f v)

lookup-emplace :
    {A : Type 0}
    → (k n : Name) (v : A) (m : Map A)
    → lookup k (emplace n v m) ≡ or_else (lookup k m) (if same_name n k then some v else none)
lookup-emplace k n v [] = refl
lookup-emplace k n v ((key, w) ∷ m) = ground (
  arith,
  lookup-emplace k n v m,
  same_name_eq key n,
  same_name_eq key k,
  same_name_eq n k,
  same_name_self n,
  same_name_self k,
)

abbrev is_in : Name → List Name → Bool
is_in k [] = false
is_in k (n ∷ names) = same_name n k || is_in k names

is_in-insert_name :
    (k n : Name) (names : List Name)
    → is_in k (insert_name n names) ≡ same_name n k || is_in k names
is_in-insert_name k n [] = refl
is_in-insert_name k n (m ∷ names) =
    ground
      (arith, is_in-insert_name k n names, same_name_eq m n, same_name_eq m k, same_name_eq n k)

is_in-insert_names :
    (k : Name) (ns names : List Name)
    → is_in k (insert_names ns names) ≡ is_in k ns || is_in k names
is_in-insert_names k [] names = refl
is_in-insert_names k (n ∷ ns) names =
    ground (arith, is_in-insert_names k ns (insert_name n names), is_in-insert_name k n names)

is_in-keys : (k : Name) (m : Map Binding) → is_in k (keys m) ≡ is_bound (lookup k m)
is_in-keys k [] = refl
is_in-keys k ((key, b) ∷ m) = ground (arith, is_in-keys k m)

is_in-names_loop :
    (k : Name) (bns : Bindings) (names : List Name)
    → is_in k (names_loop bns names) ≡ is_bound (find k bns) || is_in k names
unfolding find
is_in-names_loop k (root m) names =
    ground (arith, is_in-insert_names k (keys m) names, is_in-keys k m)
is_in-names_loop k (scope m super) names =
    is_in-names_loop k super (insert_names (keys m) names)
    ∙ ap (λ z. is_bound (find k super) || z) (is_in-insert_names k (keys m) names)
    ∙ ap (λ z. is_bound (find k super) || (z || is_in k names)) (is_in-keys k m)
    ∙ either (lookup k m) (find k super) (is_in k names)
  where
    either :
        (a b : Option Binding) (c : Bool)
        → (is_bound b || (is_bound a || c)) ≡ (is_bound (or_in a b) || c)
    either none b c = refl
    either (some x) none c = refl
    either (some x) (some y) c = refl

or_else_assoc :
    {A : Type 0} → (a b c : Option A) → or_else (or_else a b) c ≡ or_else a (or_else b c)
or_else_assoc none b c = refl
or_else_assoc (some v) b c = refl

lookup-emplace_found :
    (k n : Name) (b : Option Binding) (m : Map Upref)
    → lookup k (emplace_found n b m)
      ≡ or_else (lookup k m) (if same_name n k then map_some upref_of b else none)
lookup-emplace_found k n none m = nothing (lookup k m) (same_name n k)
  where
    nothing : (o : Option Upref) (c : Bool) → o ≡ or_else o (if c then none else none)
    nothing none true = refl
    nothing none false = refl
    nothing (some v) c = refl
lookup-emplace_found k n (some b) m = lookup-emplace k n (upref_of b) m

lookup-add_bound :
    (k : Name) (bns : Bindings) (names : List Name) (m : Map Upref)
    → lookup k (add_bound bns names m)
      ≡ or_else (lookup k m) (if is_in k names then map_some upref_of (find k bns) else none)
lookup-add_bound k bns [] m = last (lookup k m)
  where
    last : (o : Option Upref) → o ≡ or_else o none
    last none = refl
    last (some v) = refl
lookup-add_bound k bns (n ∷ names) m =
    lookup-add_bound k bns names (emplace_found n (find n bns) m)
    ∙ ap (λ z. or_else z (if is_in k names then map_some upref_of (find k bns) else none))
        (lookup-emplace_found k n (find n bns) m)
    ∙ or_else_assoc (lookup k m) _ _
    ∙ ap (or_else (lookup k m)) here
  where
    one : (c : Bool) (o : Option Upref) → or_else o (if c then o else none) ≡ o
    one true none = refl
    one false none = refl
    one c (some v) = refl

    here :
        or_else
          (if same_name n k then map_some upref_of (find n bns) else none)
          (if is_in k names then map_some upref_of (find k bns) else none)
        ≡ (if same_name n k || is_in k names then map_some upref_of (find k bns) else none)
    here = elim (Bool-cases (same_name n k)) [
      | inl e ↦ rw (e, same_name_eq n k e) (one (is_in k names) (map_some upref_of (find k bns)))
      | inr e ↦ rw e refl
    ]

lookup-add_super :
    (k : Name) (els m : Map Upref)
    → lookup k (add_super els m) ≡ or_else (lookup k m) (map_some from (lookup k els))
lookup-add_super k [] m = last (lookup k m)
  where
    last : (o : Option Upref) → o ≡ or_else o none
    last none = refl
    last (some v) = refl
lookup-add_super k ((key, r) ∷ els) m =
    lookup-add_super k els (emplace key (from r) m)
    ∙ ap (λ z. or_else z (map_some from (lookup k els))) (lookup-emplace k key (from r) m)
    ∙ or_else_assoc (lookup k m) _ _
    ∙ ap (or_else (lookup k m)) here
  where
    here :
        or_else (if same_name key k then some (from r) else none) (map_some from (lookup k els))
        ≡ map_some from (if same_name key k then some r else lookup k els)
    here = elim (Bool-cases (same_name key k)) [ inl e ↦ rw e refl | inr e ↦ rw e refl ]

if_bound :
    (o : Option Binding)
    → (if is_bound o || false then map_some upref_of o else none) ≡ map_some upref_of o
if_bound none = refl
if_bound (some b) = refl

-- In a block a name stands for what it is bound to in the innermost scope around the block that binds
-- it, and else for what it stands for in the block around that, as a reference without an id.
pub uprefs-resolved :
    (name : Name) (bns : Bindings) (super : Uprefs)
    → lookup name (uprefs bns super).ids
      ≡ or_else (map_some upref_of (find name bns)) (map_some from (lookup name super.ids))
unfolding uprefs names_closure
uprefs-resolved name bns super =
    lookup-add_super name super.ids (add_bound bns (names_closure bns) [])
    ∙ ap (λ z. or_else z (map_some from (lookup name super.ids)))
        (lookup-add_bound name bns (names_closure bns) []
          ∙ ap (λ c. if c then map_some upref_of (find name bns) else none)
              (is_in-names_loop name bns [])
          ∙ if_bound (find name bns))

abbrev pub innermost : Bindings → Map Binding
innermost (root m) = m
innermost (scope m super) = m

lookup-emplace_new :
    (k n : Name) (b : Binding) (m : Map Binding)
    → is_bound (lookup n m) ≡ false
    → lookup k (emplace n b m) ≡ (if same_name n k then some b else lookup k m)
lookup-emplace_new k n b m h = ground (arith, lookup-emplace k n b m, same_name_eq n k)

if-or_in :
    (c : Bool) (b : Binding) (a o : Option Binding)
    → or_in (if c then some b else a) o ≡ (if c then some b else or_in a o)
if-or_in true b a o = refl
if-or_in false b a o = refl

-- Binding a name that the innermost scope has is an error. Otherwise the name stands for the new op
-- from then on, also where an outer scope binds it, and the other names for what they stood for.
pub bind-find :
    (k name : Name) (op : ℕ) (bns : Bindings)
    → map_some (find k) (bind name op bns) ≡ (
        if is_bound (lookup name (innermost bns))
        then none
        else some (if same_name name k then some (bind_at op) else find k bns))
unfolding bind find
bind-find k name op (root m) = elim (Bool-cases (is_bound (lookup name m))) [
  | inl e ↦ rw e refl
  | inr e ↦ rw e (ap some (lookup-emplace_new k name (bind_at op) m e))
]
bind-find k name op (scope m super) = elim (Bool-cases (is_bound (lookup name m))) [
  | inl e ↦ rw e refl
  | inr e ↦ rw e (
      ap some (
        ap (λ z. or_in z (find k super)) (lookup-emplace_new k name (bind_at op) m e)
        ∙ if-or_in (same_name name k) (bind_at op) (lookup k m) (find k super)))
]
