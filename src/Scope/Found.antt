-- ===== src/Scope/Found.antt =====
-- What uprefs::find does with a name, and a sequence of such calls.
use mathlib.Core.Path.{subst}
use mathlib.Core.List.{append-nil, append_assoc}
use dwgrep.Base.{
  ℕ, suc, ◌+◌, ◌%◌, ◌^◌, ◌<◌, ◌≤◌, ◌≡◌, refl, ap, sym, ◌∙◌, arith, false, not, ◌&&◌, List, [], ◌∷◌,
  ◌++◌, length, get_elem?, Option, none, some, Bool-cases, inl, inr,
}
use dwgrep.Scope.{
  Name, same_name, lookup, replace, Upref, is_builtin, is_used, mark_used, Uprefs, refd_ids,
  seconds, found, find_upref, look_up,
}
use dwgrep.Scope.Names.{same_name_eq, lookup-replace}
use dwgrep.Scope.Numbered.{
  UsedBelow, AreRecorded, IsNumbered, refd_loop-replace, replace-UsedBelow, length-seconds,
  seconds-append, get_elem?-before, get_elem?-behind, some-injective,
}

-- Names get ids after those that have one.
pub record Grows (u u' : Uprefs) : Type 0 where
  pub numbered : IsNumbered u'
  pub more : List Name
  pub kept : seconds (refd_ids u') ≡ seconds (refd_ids u) ++ more
  pub few : u'.next_id ≤ suc u.next_id

-- The name has an id, unless it is a builtin.
abbrev pub HasId : Name → Option Upref → Uprefs → Type 0
HasId name o u =
    (r : Upref)
    → o ≡ some r
    → is_builtin r ≡ false
    → get_elem? (seconds (refd_ids u)) r.id ≡ some name

stays : (u : Uprefs) → IsNumbered u → Grows u u
stays u h = record {
  numbered = h;
  more = [];
  kept = sym (append-nil (seconds (refd_ids u)));
  few = omega arith;
}

module _ (name : Name) (r : Upref) (u : Uprefs) (q : lookup name u.ids ≡ some r)
    (b : is_builtin r ≡ false) (n : r.id_used ≡ false) (h : IsNumbered u)
    (l : suc u.next_id < 2 ^ 32) where
  abbrev marked : Uprefs
  marked = record {
    ids = replace name (mark_used u.next_id r) u.ids;
    next_id = (u.next_id + 1) % 2 ^ 32;
  }

  next_id-eq : (u.next_id + 1) % 2 ^ 32 ≡ suc u.next_id
  next_id-eq = omega (arith, l)

  refd_ids-marked : refd_ids marked ≡ refd_ids u ++ (u.next_id, name) ∷ []
  unfolding refd_ids
  refd_ids-marked = refd_loop-replace u.next_id name r [] u.ids q (ground (arith, n)) b h.used tt

  names-marked : seconds (refd_ids marked) ≡ seconds (refd_ids u) ++ name ∷ []
  names-marked = ap seconds refd_ids-marked ∙ seconds-append (refd_ids u) u.next_id name

  new_id : get_elem? (seconds (refd_ids u) ++ name ∷ []) u.next_id ≡ some name
  new_id =
      subst (λ i. get_elem? (seconds (refd_ids u) ++ name ∷ []) i ≡ some name)
        (length-seconds (refd_ids u) ∙ h.counted) (get_elem?-behind (seconds (refd_ids u)) name)

  recorded-marked : AreRecorded (seconds (refd_ids u) ++ name ∷ []) marked.ids
  recorded-marked k r' e v = elim (Bool-cases (same_name name k)) [
    | inl s ↦
        subst (λ z. get_elem? (seconds (refd_ids u) ++ name ∷ []) z.id ≡ some k)
          (some-injective (mark_used u.next_id r) r'
            (sym (rw s refl) ∙ sym (lookup-replace name k (mark_used u.next_id r) r u.ids q) ∙ e))
          (new_id ∙ ap some (same_name_eq name k s))
    | inr s ↦ get_elem?-before (seconds (refd_ids u)) (name ∷ []) r'.id k (
        h.recorded k r'
          (ground (arith, s, e, lookup-replace name k (mark_used u.next_id r) r u.ids q)) v)
  ]

  length-snoc : (ids : List (ℕ × Name)) (x : ℕ × Name) → length (ids ++ x ∷ []) ≡ suc (length ids)
  length-snoc [] x = refl
  length-snoc (i ∷ ids) x = ap suc (length-snoc ids x)

  marked-Grows : Grows u marked
  marked-Grows = record {
    numbered = record {
      used =
          subst (λ k. UsedBelow k marked.ids) (sym next_id-eq)
            (replace-UsedBelow u.next_id name r u.ids h.used);
      counted =
          ap length refd_ids-marked
          ∙ length-snoc (refd_ids u) (u.next_id, name)
          ∙ ap suc h.counted
          ∙ sym next_id-eq;
      recorded = subst (λ ns. AreRecorded ns marked.ids) (sym names-marked) recorded-marked;
    };
    more = name ∷ [];
    kept = names-marked;
    few = omega (arith, next_id-eq);
  }

  marked-HasId : HasId name (some (mark_used u.next_id r)) marked
  marked-HasId r' e c =
      subst (λ z. get_elem? (seconds (refd_ids marked)) z.id ≡ some name)
        (some-injective (mark_used u.next_id r) r' e) (rw names-marked new_id)

known-HasId :
    (name : Name) (r : Upref) (u : Uprefs)
    → lookup name u.ids ≡ some r
    → (not (is_builtin r) && not r.id_used) ≡ false
    → IsNumbered u
    → HasId name (some r) u
known-HasId name r u q v h r' e c = h.recorded name r' (q ∙ e) (
    ground (arith, v, c, ap is_builtin (some-injective r r' e), ap is_used (some-injective r r' e)))

found-Grows :
    (name : Name) (o : Option Upref) (u : Uprefs)
    → lookup name u.ids ≡ o
    → IsNumbered u
    → suc u.next_id < 2 ^ 32
    → Grows u (found name o u).1 × HasId name (found name o u).0 (found name o u).1
found-Grows name none u q h l = (stays u h, λ r e c. absurd cc)
found-Grows name (some r) u q h l = elim (Bool-cases (not (is_builtin r) && not r.id_used)) [
  | inl e ↦ rw e (
    marked-Grows name r u q (ground (arith, e)) (ground (arith, e)) h l,
    marked-HasId name r u q (ground (arith, e)) (ground (arith, e)) h l,
  )
  | inr e ↦ rw e (stays u h, known-HasId name r u q e h)
]

pub find_upref-Grows :
    (name : Name) (u : Uprefs)
    → IsNumbered u
    → suc u.next_id < 2 ^ 32
    → Grows u (find_upref name u).1 × HasId name (find_upref name u).0 (find_upref name u).1
unfolding find_upref
find_upref-Grows name u h l = found-Grows name (lookup name u.ids) u refl h l

-- The same for the names one after the other.
pub record GrowsBy (k : ℕ) (u u' : Uprefs) : Type 0 where
  pub numbered : IsNumbered u'
  pub more : List Name
  pub kept : seconds (refd_ids u') ≡ seconds (refd_ids u) ++ more
  pub few : u'.next_id ≤ u.next_id + k

then_GrowsBy : (k : ℕ) (u v w : Uprefs) → Grows u v → GrowsBy k v w → GrowsBy (suc k) u w
then_GrowsBy k u v w g r = record {
  numbered = r.numbered;
  more = g.more ++ r.more;
  kept = r.kept ∙ ap (λ z. z ++ r.more) g.kept ∙ append_assoc (seconds (refd_ids u)) g.more r.more;
  few = omega (arith, g.few, r.few);
}

pub look_up-GrowsBy :
    (names : List Name) (u : Uprefs)
    → IsNumbered u
    → u.next_id + length names < 2 ^ 32
    → GrowsBy (length names) u (look_up names u)
unfolding look_up
look_up-GrowsBy [] u h l = record {
  numbered = h;
  more = [];
  kept = sym (append-nil (seconds (refd_ids u)));
  few = omega arith;
}
look_up-GrowsBy (n ∷ names) u h l =
    let (g, i) = find_upref-Grows n u h (omega (arith, l)) in
    then_GrowsBy (length names) u (find_upref n u).1 (look_up names (find_upref n u).1) g
      (look_up-GrowsBy names (find_upref n u).1 g.numbered (omega (arith, l, g.few)))
