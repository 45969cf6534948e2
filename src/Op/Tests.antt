-- ===== src/Op/Tests.antt =====
-- The ops on a stack of two values.
use dwgrep.Base.{◌*◌, ◌+◌, arith, [], ◌∷◌}
use dwgrep.Mpz.{mpz, unsign}
use dwgrep.Value.{TypeCodes, code, cst, str}
use dwgrep.Stack.{Stack}
use dwgrep.Stack.Profile.{IsProfiled}
use dwgrep.Op.Words.{drop_on, swap_on, dup_on, over_on, rot_on}
use dwgrep.Op.Words.Shuffle.{Leaves, dropped, swapped, doubled, overed, rotated, shuffle-Leaves}

abbrev codes : TypeCodes
codes = record { cst_code = 1; str_code = 2; seq_code = 3 }

abbrev two_values : Stack
two_values = record { values = cst (mpz 7 unsign) 0 0 ∷ str [] 1 ∷ []; profile = 2 * 256 + 1 }

two_values-IsProfiled : IsProfiled codes two_values
two_values-IsProfiled = unfold code in ground arith

shuffle-Leaves_example :
    Leaves codes (drop_on codes two_values) (dropped two_values.values)
    × Leaves codes (swap_on codes two_values) (swapped two_values.values)
    × Leaves codes (dup_on codes two_values) (doubled two_values.values)
    × Leaves codes (over_on codes two_values) (overed two_values.values)
    × Leaves codes (rot_on codes two_values) (rotated two_values.values)
shuffle-Leaves_example = shuffle-Leaves codes two_values two_values-IsProfiled
