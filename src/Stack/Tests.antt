-- ===== src/Stack/Tests.antt =====
-- The stack operations at a stack of five values.
use dwgrep.Base.{◌+◌, ◌*◌, ◌≡◌, ◌⊎◌, arith, [], ◌∷◌}
use dwgrep.Mpz.{mpz, unsign}
use dwgrep.Value.{Value, TypeCodes, code, cst, str, seq, nil}
use dwgrep.Stack.{Stack, pop, ok, err, stack_overflow}
use dwgrep.Stack.Profile.{IsProfiled, pop-IsProfiled}

abbrev codes : TypeCodes
codes = record { cst_code = 1; str_code = 2; seq_code = 3 }

abbrev one : Value
one = cst (mpz 1 unsign) 0 0

abbrev five_values : Stack
five_values = record {
  values = one ∷ str [] 0 ∷ seq nil 0 ∷ one ∷ str [] 1 ∷ [];
  profile = ((1 * 256 + 3) * 256 + 2) * 256 + 1;
}

five_values-IsProfiled : IsProfiled codes five_values
five_values-IsProfiled = unfold code in ground arith

pop-IsProfiled_example :
    ((five_values.values ≡ []) × (pop codes five_values ≡ err stack_overflow))
    ⊎ ((v : Value) × (s' : Stack) × (pop codes five_values ≡ ok (v, s'))
        × (five_values.values ≡ v ∷ s'.values)
        × IsProfiled codes s')
pop-IsProfiled_example = pop-IsProfiled codes five_values five_values-IsProfiled
