-- ===== src/Scope/Closed.antt =====
-- The values that a closure takes along, and what the body reads of them.
use mathlib.Core.Path.{subst}
use mathlib.Core.List.{append_assoc, append-nil, reverse_aux}
use dwgrep.Base.{
  ℕ, zero, suc, ◌+◌, ◌^◌, ◌<◌, ◌≡◌, refl, ap, sym, ◌∙◌, arith, false, List, [], ◌∷◌, ◌++◌, map,
  reverse, length, get_elem?, some,
}
use dwgrep.Value.{Value, TypeCodes}
use dwgrep.Stack.{Stack, ok, ◌>>=◌, push, pop, pop_values, refill, shr8}
use dwgrep.Scope.{
  Name, Upref, is_builtin, Uprefs, uprefs, Bindings, refd_ids, seconds, find_upref, look_up,
  read_all, env_loop, captured, upread_value, upread_on,
}
use dwgrep.Scope.Numbered.{IsNumbered, get_elem?-before}
use dwgrep.Scope.Found.{find_upref-Grows, look_up-GrowsBy}
use dwgrep.Scope.Fresh.{uprefs-IsNumbered}

module _ (t : TypeCodes) where
  -- The topmost values of the stack are taken, the top one first.
  env_loop-takes :
      (env vs ws : List Value) (stk : Stack)
      → stk.values ≡ vs ++ ws
      → (stk' : Stack) × (env_loop t (length vs) env stk ≡ ok (env ++ vs, stk'))
  unfolding env_loop pop pop_values
  env_loop-takes env [] ws stk q = (stk, ap (λ z. ok (z, stk)) (sym (append-nil env)))
  env_loop-takes env (v ∷ vs) ws stk q =
      let (stk', e) =
        env_loop-takes (env ++ v ∷ []) vs ws
          (record { values = vs ++ ws; profile = refill t (vs ++ ws) (shr8 stk.profile) }) refl in
      (stk', rw q (e ∙ ap (λ z. ok (z, stk')) (append_assoc env (v ∷ []) vs)))

  read_all-values :
      (value_of : Name → Value) (names : List Name) (stk : Stack)
      → (read_all t value_of names stk).values ≡ reverse_aux (map value_of names) stk.values
  unfolding push
  read_all-values value_of [] stk = refl
  read_all-values value_of (n ∷ names) stk =
      read_all-values value_of names (push t (value_of n) stk)

  reverse_aux-map :
      (f : Name → Value) (names done : List Name) (ws : List Value)
      → reverse_aux (map f (reverse_aux names done)) ws
        ≡ reverse_aux (map f done) (map f names ++ ws)
  reverse_aux-map f [] done ws = refl
  reverse_aux-map f (n ∷ names) done ws = reverse_aux-map f names (n ∷ done) ws

  length-map-seconds :
      (f : Name → Value) (ids : List (ℕ × Name)) → length (map f (seconds ids)) ≡ length ids
  length-map-seconds f [] = refl
  length-map-seconds f ((i, n) ∷ ids) = ap suc (length-map-seconds f ids)

  -- The environment has the values of the names in the order of their ids.
  captured-names :
      (f : Name → Value) (u : Uprefs) (stk : Stack)
      → (stk' : Stack) × (captured t f u stk ≡ ok (map f (seconds (refd_ids u)), stk'))
  unfolding captured
  captured-names f u stk =
      subst
        (λ k.
          (stk' : Stack) × (env_loop t k [] (read_all t f (reverse (seconds (refd_ids u))) stk)
            ≡ ok (map f (seconds (refd_ids u)), stk')))
        (length-map-seconds f (refd_ids u))
        (env_loop-takes [] (map f (seconds (refd_ids u))) stk.values
          (read_all t f (reverse (seconds (refd_ids u))) stk)
          (read_all-values f (reverse (seconds (refd_ids u))) stk
            ∙ reverse_aux-map f (seconds (refd_ids u)) [] stk.values))

  get_elem?-map :
      (f : Name → Value) (names : List Name) (i : ℕ) (n : Name)
      → get_elem? names i ≡ some n
      → get_elem? (map f names) i ≡ some (f n)
  get_elem?-map f [] i n h = absurd (ground arith)
  get_elem?-map f (m ∷ names) zero n h = ground (arith, h)
  get_elem?-map f (m ∷ names) (suc i) n h = get_elem?-map f names i n h

  recorded_after :
      (u : Uprefs) (after : List Name) (i : ℕ) (name : Name)
      → IsNumbered u
      → u.next_id + length after < 2 ^ 32
      → get_elem? (seconds (refd_ids u)) i ≡ some name
      → get_elem? (seconds (refd_ids (look_up after u))) i ≡ some name
  recorded_after u after i name h l e =
      let g = look_up-GrowsBy after u h l in
      rw g.kept (get_elem?-before (seconds (refd_ids u)) g.more i name e)

  -- The body of a block looks up names one after the other, and gets for one of them a reference that
  -- is not to a builtin. When the closure is made after all of the body has been built, reading its
  -- environment at the id of that reference pushes the value that the name had where the closure was
  -- made. The ids have 32 bits; there are fewer look-ups than that.
  pub captured-upread :
      (value_of : Name → Value) (bns : Bindings) (super : Uprefs) (before after : List Name)
      (name : Name) (r : Upref) (stk inner : Stack)
      → length before + length after + 1 < 2 ^ 32
      → (find_upref name (look_up before (uprefs bns super))).0 ≡ some r
      → is_builtin r ≡ false
      → (captured t value_of
            (look_up after (find_upref name (look_up before (uprefs bns super))).1)
            stk
          >>= (λ (env, stk'). upread_on t env r.id inner))
        ≡ ok (push t (value_of name) inner)
  unfolding upread_on uprefs
  captured-upread value_of bns super before after name r stk inner l q b =
      let first =
        look_up-GrowsBy before (uprefs bns super) (uprefs-IsNumbered bns super)
          (omega (arith, l)) in
      let (second, id) =
        find_upref-Grows name (look_up before (uprefs bns super)) first.numbered
          (omega (arith, l, first.few)) in
      let (stk', e) =
        captured-names value_of
          (look_up after (find_upref name (look_up before (uprefs bns super))).1) stk in
      rw e (
        ap (λ v. upread_value t v inner)
          (get_elem?-map value_of
            (seconds
              (refd_ids (look_up after (find_upref name (look_up before (uprefs bns super))).1)))
            r.id name
            (recorded_after (find_upref name (look_up before (uprefs bns super))).1 after r.id name
              second.numbered (omega (arith, l, first.few, second.few)) (id r q b))))
