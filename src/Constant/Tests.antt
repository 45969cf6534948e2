-- ===== src/Constant/Tests.antt =====
-- Constants of three domains.
use dwgrep.Base.{◌≡◌, refl, arith, true, false, ◌==◌, if◌then◌else◌, some}
use dwgrep.Mpz.{mpz, unsign, lt}
use dwgrep.Constant.{Domains, Constant, constant, less}
use dwgrep.Constant.Order.{less_cycle}

-- The domain 2 is not safe for arithmetic, and each domain encloses itself.
abbrev three_domains : Domains
three_domains = record {
  safe_arith = λ d. if d == 2 then false else true;
  most_enclosing = λ d n. d;
  plain = λ d. d == 1;
}

abbrev five : Constant
five = constant (mpz 5 unsign) (some 1)

abbrev named : Constant
named = constant (mpz 3 unsign) (some 2)

lt_example : lt (mpz 1 unsign) (mpz 5 unsign) ≡ true
unfolding lt
lt_example = refl

less_cycle_example :
    (less three_domains (constant (mpz 5 unsign) (some 1)) (constant (mpz 3 unsign) (some 2))
      ≡ true)
    × (less three_domains (constant (mpz 3 unsign) (some 2)) (constant (mpz 1 unsign) (some 3))
        ≡ true)
    × (less three_domains (constant (mpz 1 unsign) (some 3)) (constant (mpz 5 unsign) (some 1))
        ≡ true)
less_cycle_example =
    less_cycle three_domains (mpz 5 unsign) (mpz 3 unsign) (mpz 1 unsign) 1 2 3 refl refl refl
      (omega arith) (omega arith) refl refl lt_example
