-- ===== src/Constant.antt =====
-- The class constant of libzwerg/constant.hh and its comparison in libzwerg/constant.cc.
pub mod Order
mod Tests
use dwgrep.Base.{
  ℕ, Bool, true, false, not, ◌&&◌, ◌||◌, ltb, ◌==◌, if◌then◌else◌, Option, none, some,
}
use dwgrep.Mpz.{Mpz}
use dwgrep.Mpz

-- The virtual functions of zw_cdom that the comparison and the arithmetic call. A domain is its address.
pub record Domains : Type 0 where
  pub safe_arith : ℕ → Bool
  pub most_enclosing : ℕ → Mpz → ℕ
  pub plain : ℕ → Bool

-- m_dom is `none` for nullptr.
pub record Constant : Type 0 where
  pub value : Mpz
  pub dom : Option ℕ

abbrev pub constant : Mpz → Option ℕ → Constant
constant n d = record { value = n; dom = d }

module _ (ds : Domains) where
  -- The second `if` with `||` of constant::operator<, for two domains that are not one
  abbrev pub comparable : ℕ → Mpz → ℕ → Mpz → Bool
  comparable d1 v1 d2 v2 =
      (ds.safe_arith d1 && ds.safe_arith d2) || (ds.most_enclosing d1 v1 == ds.most_enclosing d2 v2)

  abbrev pub lt_dom : Mpz → Option ℕ → Mpz → Option ℕ → Bool
  lt_dom v1 none v2 none = Mpz.lt v1 v2
  lt_dom v1 none v2 (some d2) = true
  lt_dom v1 (some d1) v2 none = false
  lt_dom v1 (some d1) v2 (some d2) =
      if d1 == d2 then Mpz.lt v1 v2 else if comparable d1 v1 d2 v2 then Mpz.lt v1 v2 else ltb d1 d2

  -- constant::operator<
  pub less : Constant → Constant → Bool
  less c1 c2 = lt_dom c1.value c1.dom c2.value c2.dom

  -- constant::operator>, <=, >=, != and ==
  pub greater : Constant → Constant → Bool
  unfolding less
  greater c1 c2 = less c2 c1

  pub less_eq : Constant → Constant → Bool
  unfolding less
  less_eq c1 c2 = not (less c2 c1)

  pub greater_eq : Constant → Constant → Bool
  unfolding less
  greater_eq c1 c2 = not (less c1 c2)

  pub differs : Constant → Constant → Bool
  unfolding less
  differs c1 c2 = less c1 c2 || less c2 c1

  pub equals : Constant → Constant → Bool
  unfolding differs
  equals c1 c2 = not (differs c1 c2)
