-- ===== src/Scope/Fresh.antt =====
-- The uprefs of a block before its body is built.
use dwgrep.Base.{
  ℕ, ◌≡◌, refl, arith, false, List, [], ◌∷◌, Option, none, some, Bool-cases, inl, inr,
}
use dwgrep.Scope.{
  Name, Map, same_name, emplace, Binding, bind_at, builtin_at, Bindings, find, Upref, is_used,
  upref_of, from, Uprefs, uprefs, emplace_found, add_bound, add_super, refd_loop, refd_ids, seconds,
  names_closure,
}
use dwgrep.Scope.Numbered.{UsedBelow, AreRecorded, IsNumbered}

-- No name has an id.
abbrev AreUnused : Map Upref → Type 0
AreUnused [] = Unit {0}
AreUnused ((key, r) ∷ els) = (is_used r ≡ false) × AreUnused els

emplace-AreUnused :
    (name : Name) (r : Upref) (els : Map Upref)
    → is_used r ≡ false
    → AreUnused els
    → AreUnused (emplace name r els)
emplace-AreUnused name r [] u h = (u, tt)
emplace-AreUnused name r ((key, r') ∷ els) u (v, h) = elim (Bool-cases (same_name key name)) [
  | inl e ↦ rw e (v, h)
  | inr e ↦ rw e (v, emplace-AreUnused name r els u h)
]

upref_of_unused : (b : Binding) → is_used (upref_of b) ≡ false
upref_of_unused (bind_at op) = refl
upref_of_unused (builtin_at op) = refl

emplace_found-AreUnused :
    (name : Name) (b : Option Binding) (m : Map Upref)
    → AreUnused m
    → AreUnused (emplace_found name b m)
emplace_found-AreUnused name none m h = h
emplace_found-AreUnused name (some b) m h =
    emplace-AreUnused name (upref_of b) m (upref_of_unused b) h

add_bound-AreUnused :
    (bns : Bindings) (names : List Name) (m : Map Upref)
    → AreUnused m
    → AreUnused (add_bound bns names m)
add_bound-AreUnused bns [] m h = h
add_bound-AreUnused bns (n ∷ names) m h =
    add_bound-AreUnused bns names (emplace_found n (find n bns) m)
      (emplace_found-AreUnused n (find n bns) m h)

add_super-AreUnused : (els m : Map Upref) → AreUnused m → AreUnused (add_super els m)
add_super-AreUnused [] m h = h
add_super-AreUnused ((key, r) ∷ els) m h =
    add_super-AreUnused els (emplace key (from r) m)
      (emplace-AreUnused key (from r) m (ground arith) h)

unused-UsedBelow : (k : ℕ) (els : Map Upref) → AreUnused els → UsedBelow k els
unused-UsedBelow k [] h = tt
unused-UsedBelow k ((key, r) ∷ els) (u, h) = (ground (arith, u), unused-UsedBelow k els h)

unused-refd_loop : (els : Map Upref) → AreUnused els → refd_loop [] els ≡ []
unused-refd_loop [] h = refl
unused-refd_loop ((key, r) ∷ els) (u, h) = rw u (unused-refd_loop els h)

unused-AreRecorded : (names : List Name) (els : Map Upref) → AreUnused els → AreRecorded names els
unused-AreRecorded names [] h k r e v = absurd (ground arith)
unused-AreRecorded names ((key, r') ∷ els) (u, h) k r e v = elim (Bool-cases (same_name key k)) [
  | inl s ↦ absurd (ground (arith, s, e, u, v))
  | inr s ↦ unused-AreRecorded names els h k r (ground (arith, s, e)) v
]

pub uprefs-IsNumbered : (bns : Bindings) (super : Uprefs) → IsNumbered (uprefs bns super)
unfolding uprefs refd_ids
uprefs-IsNumbered bns super = record {
  used = unused-UsedBelow 0 els unused;
  counted = rw (unused-refd_loop els unused) refl;
  recorded = unused-AreRecorded (seconds (refd_loop [] els)) els unused;
}
  where
    els : Map Upref
    els = add_super super.ids (add_bound bns (names_closure bns) [])

    unused : AreUnused els
    unused =
        add_super-AreUnused super.ids (add_bound bns (names_closure bns) [])
          (add_bound-AreUnused bns (names_closure bns) [] tt)
