-- ===== src/Overload/Dispatch.antt =====
-- Which overload a stack gets.
use dwgrep.Base.{
  ℕ, suc, ◌≤◌, ◌≡◌, refl, inl, inr, true, false, Bool-cases, if◌then◌else◌, List, [], ◌∷◌, Option,
  none, some, length, reverse,
}
use dwgrep.Value.{TypeCodes}
use dwgrep.Stack.{Stack, width}
use dwgrep.Stack.Profile.{IsProfiled}
use dwgrep.Op.{Op}
use dwgrep.Op.Stream.{Stream, ends, Computes}
use dwgrep.Selector.{Selector, selector_of, profile_of, matches}
use dwgrep.Selector.Matches.{AreCodes, has_types, selector-matches}
use dwgrep.Overload.{
  Overload, find_from, find_selector, selectors, to_right, start_at, start_found, start,
}

-- An overload for a list of types, and what its op computes
pub record Handler : Type 1 where
  pub types : List ℕ
  pub exec : Op
  pub yield : Stack → Stream
  pub computes : Computes exec yield

abbrev pub overload : Handler → Overload
overload h = record { selector = selector_of h.types; exec = h.exec }

abbrev pub overloads : List Handler → List Overload
overloads [] = []
overloads (h ∷ hs) = overload h ∷ overloads hs

-- What the first overload yields whose selector matches the stack.
unfoldable pub selected : List Handler → Stack → Stream
selected [] x = ends
selected (h ∷ hs) x =
    if matches (selector_of h.types) (profile_of x) then h.yield x else selected hs x

-- What the first overload yields whose types the topmost values have.
pub dispatched : TypeCodes → List Handler → Stack → Stream
dispatched t [] x = ends
dispatched t (h ∷ hs) x =
    if has_types t (reverse h.types) x.values then h.yield x else dispatched t hs x

-- The overloads are for four values at most, whose codes are bytes other than zero.
abbrev pub AreValid : List Handler → Type 0
AreValid [] = Unit {0}
AreValid (h ∷ hs) = (length h.types ≤ width) × AreCodes h.types × AreValid hs

-- The overload that the selectors choose by the profile is the first one whose types the topmost
-- values of the stack have, in their order; there is none if no overload has the types.
pub selected-dispatched :
    (t : TypeCodes) (hs : List Handler) (x : Stack)
    → AreValid hs
    → IsProfiled t x
    → selected hs x ≡ dispatched t hs x
unfolding selected dispatched
selected-dispatched t [] x h p = refl
selected-dispatched t (h ∷ hs) x (l, c, v) p =
    rw (selector-matches t h.types x l c p, selected-dispatched t hs x v p) refl

abbrev next_index : Option ℕ → Option ℕ
next_index none = none
next_index (some k) = some (suc k)

find_from-suc :
    (p : Selector) (sels : List Selector) (k : ℕ)
    → find_from p sels (suc k) ≡ next_index (find_from p sels k)
unfolding find_from
find_from-suc p [] k = refl
find_from-suc p (sel ∷ sels) k = elim (Bool-cases (matches sel p)) [
  | inl yes_ ↦ rw yes_ refl
  | inr no_ ↦ rw no_ (find_from-suc p sels (suc k))
]

start_later :
    (o : Overload) (os : List Overload) (x : Stack) (r : Option ℕ)
    → start_found (o ∷ os) (next_index r) x ≡ to_right (start_found os r x)
unfolding start_at
start_later o os x none = refl
start_later o os x (some k) = refl

pub start_first :
    (o : Overload) (os : List Overload) (x : Stack)
    → matches o.selector (profile_of x) ≡ true
    → start (o ∷ os) x ≡ some (inl (o.exec.set_next x o.exec.init))
unfolding start find_selector find_from start_at
start_first o os x e = rw e refl

pub start_rest :
    (o : Overload) (os : List Overload) (x : Stack)
    → matches o.selector (profile_of x) ≡ false
    → start (o ∷ os) x ≡ to_right (start os x)
unfolding start find_selector find_from
start_rest o os x e =
    rw (e, find_from-suc (profile_of x) (selectors os) 0)
      (start_later o os x (find_from (profile_of x) (selectors os) 0))
