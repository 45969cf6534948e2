-- ===== src/Overload/Arithmetic.antt =====
-- The words `add`, `sub`, `mul`, `div` and `mod` on constants: libzwerg/value-cst.cc.
use dwgrep.Base.{ℕ, ◌≡◌, refl, ◌⊎◌, inl, inr, if◌then◌else◌, List, ◌∷◌, Option, none, some}
use dwgrep.Base.Int.{ℤ, ◌+ℤ◌, ◌-ℤ◌, ◌*ℤ◌}
use dwgrep.Mpz.{Mpz, Result, ok, err}
use dwgrep.Mpz
use dwgrep.Mpz.Value.{IsWord, value, Lands, OutOfRange}
use dwgrep.Mpz.Sum.{add-Lands, sub-Lands}
use dwgrep.Mpz.Product.{mul-Lands}
use dwgrep.Constant.{Domains}
use dwgrep.Value.{Value, TypeCodes, cst, str, seq, other}
use dwgrep.Stack.{Stack, pop, pop_values, push}
use dwgrep.Stack as Stacks
use dwgrep.Overload.Operate.{operate_two, push_some}

module _ (ds : Domains) where
  -- The domain of the result: that of the other constant, if that of the first one is plain.
  abbrev pub result_dom : ℕ → ℕ → ℕ
  result_dom d e = if ds.plain d then e else d

  -- The value that simple_arith_op makes. An exception is a std::domain_error, which it catches.
  abbrev pub arith_value : Result Mpz → ℕ → Option Value
  arith_value (ok r) d = some (cst r d 0)
  arith_value (err e) d = none

  -- simple_arith_op of an operator on mpz_class, with the assertions on the types of the arguments
  pub simple_arith_op : (Mpz → Mpz → Result Mpz) → Value → Value → Stacks.Result (Option Value)
  simple_arith_op f (cst n d p) (cst m e q) = Stacks.ok (arith_value (f n m) (result_dom d e))
  simple_arith_op f (cst n d p) (str s q) = Stacks.err Stacks.aborted
  simple_arith_op f (cst n d p) (seq vs q) = Stacks.err Stacks.aborted
  simple_arith_op f (cst n d p) (other c i q) = Stacks.err Stacks.aborted
  simple_arith_op f (str s p) w = Stacks.err Stacks.aborted
  simple_arith_op f (seq vs p) w = Stacks.err Stacks.aborted
  simple_arith_op f (other c i p) w = Stacks.err Stacks.aborted

  -- The calls of `operate` of op_add_cst, op_sub_cst, op_mul_cst, op_div_cst and op_mod_cst
  abbrev pub add_cst : Value → Value → Stacks.Result (Option Value)
  add_cst = simple_arith_op Mpz.add

  abbrev pub sub_cst : Value → Value → Stacks.Result (Option Value)
  sub_cst = simple_arith_op Mpz.sub

  abbrev pub mul_cst : Value → Value → Stacks.Result (Option Value)
  mul_cst = simple_arith_op Mpz.mul

  abbrev pub div_cst : Value → Value → Stacks.Result (Option Value)
  div_cst = simple_arith_op Mpz.div

  abbrev pub mod_cst : Value → Value → Stacks.Result (Option Value)
  mod_cst = simple_arith_op Mpz.rem

  module _ (t : TypeCodes) where
    -- The stack of the values below the arguments with a constant for z on top, or no stack and z
    -- is no number of 64 bits.
    abbrev pub Answers : Stacks.Result (Option Stack) → ℤ → ℕ → List Value → Type 0
    Answers r z d vs =
        ((n : Mpz) × (rest : Stack) × (r ≡ Stacks.ok (some (push t (cst n d 0) rest)))
          × IsWord n
          × (value n ≡ z)
          × (rest.values ≡ vs))
        ⊎ ((r ≡ Stacks.ok none) × OutOfRange z)

    answers :
        (r : Result Mpz) (z : ℤ) (d : ℕ) (vs : List Value) (rest : Stack)
        → rest.values ≡ vs
        → Lands z r
        → Answers
            (Stacks.◌>>=◌ (Stacks.ok (arith_value r d)) (λ v. Stacks.ok (push_some t rest v)))
            z
            d
            vs
    answers (ok n) z d vs rest e l = inl (n, rest, refl, l.0, l.1, e)
    answers (err x) z d vs rest e l = inr (refl, l.1)

    -- On a stack of two constants of 64 bits or more values, `add`, `sub` and `mul` put a constant
    -- in the place of the two that stands for the exact sum, difference or product of the lower and
    -- the upper one, in the domain of the lower one or, if that is plain, of the upper one; or the
    -- exact result is below -2^63 or above 2^64 - 1, and there is no result.
    pub arith-Answers :
        (n m : Mpz) (d e p q : ℕ) (vs : List Value) (profile : ℕ)
        → IsWord n
        → IsWord m
        → Answers
            (operate_two t add_cst
              (record { values = cst m e q ∷ cst n d p ∷ vs; profile = profile }))
            (value n +ℤ value m)
            (if ds.plain d then e else d)
            vs
          × Answers
              (operate_two t sub_cst
                (record { values = cst m e q ∷ cst n d p ∷ vs; profile = profile }))
              (value n -ℤ value m)
              (if ds.plain d then e else d)
              vs
          × Answers
              (operate_two t mul_cst
                (record { values = cst m e q ∷ cst n d p ∷ vs; profile = profile }))
              (value n *ℤ value m)
              (if ds.plain d then e else d)
              vs
    unfolding operate_two pop pop_values simple_arith_op
    arith-Answers n m d e p q vs profile h k = (
      answers (Mpz.add n m) _ _ vs _ refl (add-Lands n m h k),
      answers (Mpz.sub n m) _ _ vs _ refl (sub-Lands n m h k),
      answers (Mpz.mul n m) _ _ vs _ refl (mul-Lands n m h k),
    )
