-- ===== src/Overload/Tests.antt =====
-- A word with an overload for integers and one for strings.
use dwgrep.Base.{◌-◌, ◌^◌, ◌≡◌, arith, List, [], ◌∷◌, reverse, if◌then◌else◌}
use dwgrep.Value.{code, cst}
use dwgrep.Samples.{codes, safe_domains, two_values}
use dwgrep.Stack.{pop}
use dwgrep.Stack.Profile.{IsProfiled}
use dwgrep.Op.{op_origin, mapping}
use dwgrep.Op.Stream.{single, bind, Computes, Computes-eq, append-ends}
use dwgrep.Op.Mapping.{returned, op_origin-Computes, mapping-Computes}
use dwgrep.Op.Words.{drop_on}
use dwgrep.Base.Int.{◌+ℤ◌, ◌-ℤ◌, ◌*ℤ◌}
use dwgrep.Mpz.{Mpz, mpz, unsign, sign}
use dwgrep.Mpz.Value.{value}
use dwgrep.Overload.Operate.{operate_two}
use dwgrep.Overload.Elements.{
  op_elem_seq, op_relem_seq, op_elem_str, op_relem_str, for_seq, for_str, elem-Computes,
}
use dwgrep.Overload.Arithmetic.{Answers, add_cst, sub_cst, mul_cst, arith-Answers}
use dwgrep.Overload.{overload_op}
use dwgrep.Overload.Dispatch.{Handler, overloads, selected, dispatched, selected-dispatched}
use dwgrep.Overload.Computes.{overload_op-Computes}

abbrev for_integers : Handler
for_integers = record {
  types = 1 ∷ [];
  exec = mapping (drop_on codes) op_origin;
  yield = λ x. returned (drop_on codes x);
  computes =
      Computes-eq (mapping (drop_on codes) op_origin)
        (λ x. bind (single x) (λ y. returned (drop_on codes y))) (λ x. returned (drop_on codes x))
        (λ x. append-ends (returned (drop_on codes x)))
        (mapping-Computes (drop_on codes) op_origin single op_origin-Computes);
}

abbrev for_strings : Handler
for_strings = record {
  types = 2 ∷ [];
  exec = op_origin;
  yield = single;
  computes = op_origin-Computes;
}

abbrev handlers : List Handler
handlers = for_strings ∷ for_integers ∷ []

two_values-IsProfiled : IsProfiled codes two_values
two_values-IsProfiled = unfold code in ground arith

selected-dispatched_example : selected handlers two_values ≡ dispatched codes handlers two_values
selected-dispatched_example =
    selected-dispatched codes handlers two_values
      (
        omega arith,
        (omega arith, omega arith, tt),
        (omega arith, (omega arith, omega arith, tt), tt),
      )
      two_values-IsProfiled

overload_op-Computes_example :
    Computes (overload_op (overloads handlers) op_origin) (λ x. bind (single x) (selected handlers))
overload_op-Computes_example = overload_op-Computes handlers op_origin single op_origin-Computes

elem-Computes_example :
    Computes
      (op_elem_seq codes op_origin)
      (λ x. bind (single x) (λ y. for_seq codes (λ vs. vs) (pop codes y)))
    × Computes
        (op_relem_seq codes op_origin)
        (λ x. bind (single x) (λ y. for_seq codes reverse (pop codes y)))
    × Computes
        (op_elem_str codes op_origin)
        (λ x. bind (single x) (λ y. for_str codes (λ cs. cs) (pop codes y)))
    × Computes
        (op_relem_str codes op_origin)
        (λ x. bind (single x) (λ y. for_str codes reverse (pop codes y)))
elem-Computes_example = elem-Computes codes op_origin single op_origin-Computes

abbrev seven : Mpz
seven = mpz 7 unsign

abbrev minus_two : Mpz
minus_two = mpz (2 ^ 64 - 2) sign

arith-Answers_example :
    Answers safe_domains codes
      (operate_two codes
        (add_cst safe_domains)
        (record { values = cst minus_two 1 0 ∷ cst seven 0 0 ∷ []; profile = 257 }))
      (value seven +ℤ value minus_two)
      (if safe_domains.plain 0 then 1 else 0)
      []
    × Answers safe_domains codes
        (operate_two codes
          (sub_cst safe_domains)
          (record { values = cst minus_two 1 0 ∷ cst seven 0 0 ∷ []; profile = 257 }))
        (value seven -ℤ value minus_two)
        (if safe_domains.plain 0 then 1 else 0)
        []
    × Answers safe_domains codes
        (operate_two codes
          (mul_cst safe_domains)
          (record { values = cst minus_two 1 0 ∷ cst seven 0 0 ∷ []; profile = 257 }))
        (value seven *ℤ value minus_two)
        (if safe_domains.plain 0 then 1 else 0)
        []
arith-Answers_example =
    arith-Answers safe_domains codes seven minus_two 0 1 0 0 [] 257 (omega arith) (omega arith)
