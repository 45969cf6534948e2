-- ===== src/Scope/Tests.antt =====
-- A block whose body reads two names: `x`, which is bound outside, and `y`, which the block around has.
use dwgrep.Base.{[], ◌∷◌, ◌≡◌, refl, arith, none, some, true, if◌then◌else◌}
use dwgrep.Samples.{codes, one_value, two_values}
use dwgrep.Value.{Value, str}
use dwgrep.Stack.{ok, push, ◌>>=◌}
use dwgrep.Scope.{
  Name, bind_at, builtin_at, Bindings, root, scope, bind, find, same_name, lookup, is_bound,
  upref_of, from, Uprefs, uprefs, find_upref, look_up, captured, upread_on, names_closure,
}
use dwgrep.Scope.Closed.{captured-upread}
use dwgrep.Scope.Resolved.{or_else, map_some, innermost, uprefs-resolved, bind-find}

abbrev x : Name
x = 120 ∷ []

abbrev y : Name
y = 121 ∷ []

abbrev names : Bindings
names = scope ((x, bind_at 0) ∷ []) (root ((100 ∷ [], builtin_at 0) ∷ []))

abbrev around : Uprefs
around = record { ids = (y, record { id_used = true; id = 0; bi = none }) ∷ []; next_id = 1 }

abbrev value_of : Name → Value
value_of name = str name 0

y_found :
    (find_upref y (look_up (x ∷ []) (uprefs names around))).0
    ≡ some (record { id_used = true; id = 1; bi = none })
unfolding uprefs find_upref look_up find names_closure
y_found = refl

captured-upread_example :
    (captured codes value_of
        (look_up (x ∷ []) (find_upref y (look_up (x ∷ []) (uprefs names around))).1)
        two_values
      >>= (λ (env, stk). upread_on codes env 1 one_value))
    ≡ ok (push codes (str y 0) one_value)
captured-upread_example =
    captured-upread codes value_of names around (x ∷ []) (x ∷ []) y
      (record { id_used = true; id = 1; bi = none }) two_values one_value (omega arith) y_found refl

uprefs-resolved_example :
    lookup y (uprefs names around).ids
    ≡ or_else (map_some upref_of (find y names)) (map_some from (lookup y around.ids))
uprefs-resolved_example = uprefs-resolved y names around

bind-find_example : map_some (find x) (bind y 1 names) ≡ (
    if is_bound (lookup y (innermost names))
    then none
    else some (if same_name y x then some (bind_at 1) else find x names))
bind-find_example = bind-find x y 1 names
