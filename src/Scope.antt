-- ===== src/Scope.antt =====
-- The names of a query: libzwerg/bindings.cc, and how build_exec of libzwerg/build.cc uses them for a
-- block, whose closure takes along the values of the names that its body reads.
pub mod Names
pub mod Numbered
pub mod Found
pub mod Fresh
pub mod Closed
pub mod Resolved
mod Tests
use dwgrep.Base.{
  ℕ, zero, suc, ◌+◌, ◌%◌, ◌^◌, ◌==◌, ltb, Bool, true, false, not, ◌&&◌, ◌||◌, if◌then◌else◌, List,
  [], ◌∷◌, ◌++◌, reverse, length, get_elem?, Option, none, some,
}
use dwgrep.Value.{Value, TypeCodes}
use dwgrep.Stack.{Stack, Result, ok, err, aborted, push, pop, ◌>>=◌}

abbrev pub Name : Type 0
Name = List ℕ

abbrev pub same_name : Name → Name → Bool
same_name [] [] = true
same_name [] (b ∷ ys) = false
same_name (a ∷ xs) [] = false
same_name (a ∷ xs) (b ∷ ys) = (a == b) && same_name xs ys

-- A std::map with names as keys, whose order is not used
abbrev pub Map : Type 0 → Type 0
Map A = List (Name × A)

module _ {A : Type 0} where
  abbrev pub lookup : Name → Map A → Option A
  lookup name [] = none
  lookup name ((key, v) ∷ m) = if same_name key name then some v else lookup name m

  -- emplace, which keeps a value that is there
  abbrev pub emplace : Name → A → Map A → Map A
  emplace name v [] = (name, v) ∷ []
  emplace name v ((key, w) ∷ m) =
      if same_name key name then (key, w) ∷ m else (key, w) ∷ emplace name v m

  -- A change of the value that `it` points at
  abbrev pub replace : Name → A → Map A → Map A
  replace name v [] = []
  replace name v ((key, w) ∷ m) =
      if same_name key name then (key, v) ∷ m else (key, w) ∷ replace name v m

  abbrev pub keys : Map A → List Name
  keys [] = []
  keys ((key, v) ∷ m) = key ∷ keys m

-- class binding: an op_bind, or a builtin, by its identity
pub data Binding : Type 0 where
  bind_at builtin_at : ℕ → Binding

-- class bindings: m_bindings, and m_super where it is not nullptr
pub data Bindings : Type 0 where
  root : Map Binding → Bindings
  scope : Map Binding → Bindings → Bindings

abbrev pub is_bound : Option Binding → Bool
is_bound none = false
is_bound (some b) = true

-- bindings::bind. `none` is the std::runtime_error that the name is rebound.
unfoldable pub bind : Name → ℕ → Bindings → Option Bindings
bind name op (root m) =
    if is_bound (lookup name m) then none else some (root (emplace name (bind_at op) m))
bind name op (scope m super) =
    if is_bound (lookup name m) then none else some (scope (emplace name (bind_at op) m) super)

abbrev pub or_in : Option Binding → Option Binding → Option Binding
or_in none r = r
or_in (some b) r = some b

-- bindings::find
unfoldable pub find : Name → Bindings → Option Binding
find name (root m) = lookup name m
find name (scope m super) = or_in (lookup name m) (find name super)

-- std::set::insert
abbrev pub insert_name : Name → List Name → List Name
insert_name name [] = name ∷ []
insert_name name (n ∷ names) = if same_name n name then n ∷ names else n ∷ insert_name name names

abbrev pub insert_names : List Name → List Name → List Name
insert_names [] names = names
insert_names (n ∷ ns) names = insert_names ns (insert_name n names)

-- bindings::names_closure
abbrev pub names_loop : Bindings → List Name → List Name
names_loop (root m) names = insert_names (keys m) names
names_loop (scope m super) names = names_loop super (insert_names (keys m) names)

unfoldable pub names_closure : Bindings → List Name
names_closure bns = names_loop bns []

-- class upref
pub record Upref : Type 0 where
  pub id_used : Bool
  pub id : ℕ
  pub bi : Option ℕ

abbrev pub is_builtin : Upref → Bool
is_builtin r = elim r.bi [ none ↦ false | some b ↦ true ]

-- upref::upref. m_id is set when the name is used.
abbrev pub upref_of : Binding → Upref
upref_of (bind_at op) = record { id_used = false; id = 0; bi = none }
upref_of (builtin_at b) = record { id_used = false; id = 0; bi = some b }

-- upref::from
abbrev pub from : Upref → Upref
from r = record { id_used = false; id = 0; bi = r.bi }

-- upref::mark_used
abbrev pub mark_used : ℕ → Upref → Upref
mark_used id r = record { id_used = true; id = id; bi = r.bi }

-- class uprefs
pub record Uprefs : Type 0 where
  pub ids : Map Upref
  pub next_id : ℕ

-- The loops of uprefs::uprefs. Each name of names_closure is bound.
abbrev pub emplace_found : Name → Option Binding → Map Upref → Map Upref
emplace_found name none m = m
emplace_found name (some b) m = emplace name (upref_of b) m

abbrev pub add_bound : Bindings → List Name → Map Upref → Map Upref
add_bound bns [] m = m
add_bound bns (n ∷ names) m = add_bound bns names (emplace_found n (find n bns) m)

abbrev pub add_super : Map Upref → Map Upref → Map Upref
add_super [] m = m
add_super ((key, r) ∷ els) m = add_super els (emplace key (from r) m)

-- uprefs::uprefs
unfoldable pub uprefs : Bindings → Uprefs → Uprefs
unfolding names_closure
uprefs bns super = record {
  ids = add_super super.ids (add_bound bns (names_closure bns) []);
  next_id = 0;
}

-- uprefs::find, with the state after it. m_nextid is an unsigned.
abbrev pub found : Name → Option Upref → Uprefs → Option Upref × Uprefs
found name none u = (none, u)
found name (some r) u =
    if not (is_builtin r) && not r.id_used
    then (
      some (mark_used u.next_id r),
      record {
        ids = replace name (mark_used u.next_id r) u.ids;
        next_id = (u.next_id + 1) % 2 ^ 32;
      },
    )
    else (some r, u)

unfoldable pub find_upref : Name → Uprefs → Option Upref × Uprefs
find_upref name u = found name (lookup name u.ids) u

-- `ret[id] = name` on a std::map with ids as keys, in their order
abbrev pub put : ℕ → Name → List (ℕ × Name) → List (ℕ × Name)
put id name [] = (id, name) ∷ []
put id name ((j, n) ∷ ret) =
    if id == j
    then (id, name) ∷ ret
    else if ltb id j
    then (id, name) ∷ (j, n) ∷ ret
    else (j, n) ∷ put id name ret

abbrev pub is_used : Upref → Bool
is_used r = not (is_builtin r) && r.id_used

abbrev pub refd_loop : List (ℕ × Name) → Map Upref → List (ℕ × Name)
refd_loop ret [] = ret
refd_loop ret ((key, r) ∷ els) = refd_loop (if is_used r then put r.id key ret else ret) els

-- uprefs::refd_ids
unfoldable pub refd_ids : Uprefs → List (ℕ × Name)
refd_ids u = refd_loop [] u.ids

abbrev pub seconds : List (ℕ × Name) → List Name
seconds [] = []
seconds ((id, name) ∷ ids) = name ∷ seconds ids

-- What the body of a block looks up, one after the other
unfoldable pub look_up : List Name → Uprefs → Uprefs
unfolding find_upref
look_up [] u = u
look_up (n ∷ names) u = let (r, u') = find_upref n u in look_up names u'

module _ (t : TypeCodes) where
  -- The chain that the case tree_type::BLOCK puts in front of the closure: it reads the names in the
  -- backward order of their ids. `value_of` says which value each read pushes.
  abbrev pub read_all : (Name → Value) → List Name → Stack → Stack
  read_all value_of [] stk = stk
  read_all value_of (n ∷ names) stk = read_all value_of names (push t (value_of n) stk)

  -- The loop of op_lex_closure::next: the environment, and the stack that is left
  pub env_loop : ℕ → List Value → Stack → Result (List Value × Stack)
  env_loop zero env stk = ok (env, stk)
  env_loop (suc n) env stk = pop t stk >>= (λ (v, stk'). env_loop n (env ++ v ∷ []) stk')

  -- What a closure takes along when its body has been built with the uprefs
  pub captured : (Name → Value) → Uprefs → Stack → Result (List Value × Stack)
  unfolding refd_ids env_loop
  captured value_of u stk =
      env_loop (length (refd_ids u)) [] (read_all value_of (reverse (seconds (refd_ids u))) stk)

  -- op_upread::next on the closure's environment
  abbrev pub upread_value : Option Value → Stack → Result Stack
  upread_value none stk = err aborted
  upread_value (some v) stk = ok (push t v stk)

  pub upread_on : List Value → ℕ → Stack → Result Stack
  upread_on env id stk = upread_value (get_elem? env id) stk
