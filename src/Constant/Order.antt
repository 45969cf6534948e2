-- ===== src/Constant/Order.antt =====
-- Where the comparison of constants is an order, and where it is not.
use dwgrep.Base.{
  ◌⊎◌, inl, inr, Bool-cases, ℕ, ◌<◌, ◌≡◌, refl, arith, Bool, true, false, not, ◌==◌, Option, none,
  some,
}
use dwgrep.Mpz.{Mpz, lt}
use dwgrep.Mpz.Value.{IsWord, lt-value}
use dwgrep.Constant.{
  Domains, Constant, constant, lt_dom, less, greater, less_eq, greater_eq, differs, equals,
}

lt_asym : (a b : Mpz) → IsWord a → IsWord b → lt a b ≡ true → lt b a ≡ false
lt_asym a b ha hb h = ground (arith, lt-value a b, lt-value b a)

module _ (ds : Domains) where
  dom_asym :
      (a b : Mpz) (d e : Option ℕ)
      → IsWord a
      → IsWord b
      → lt_dom ds a d b e ≡ true
      → lt_dom ds b e a d ≡ false
  dom_asym a b none none ha hb h = lt_asym a b ha hb h
  dom_asym a b none (some e) ha hb h = refl
  dom_asym a b (some d) none ha hb h = absurd (ground arith)
  dom_asym a b (some d) (some e) ha hb h = ground (arith, lt_asym a b ha hb)

  -- The answers of <, == and > on two constants.
  abbrev pub Answers : Constant → Constant → Bool → Bool → Bool → Type 0
  Answers a b l e g = (less ds a b ≡ l) × (equals ds a b ≡ e) × (greater ds a b ≡ g)

  pub less_asym :
      (a b : Constant) → IsWord a.value → IsWord b.value → less ds a b ≡ true → less ds b a ≡ false
  unfolding less
  less_asym a b ha hb h = dom_asym a.value b.value a.dom b.dom ha hb h

  -- For constants of 64 bits, exactly one of <, == and > holds, and >= and <= are the negations of <
  -- and >.
  pub less_trichotomy :
      (a b : Constant)
      → IsWord a.value
      → IsWord b.value
      → (Answers a b true false false
          ⊎ (Answers a b false true false ⊎ Answers a b false false true))
        × (greater_eq ds a b ≡ not (less ds a b))
        × (less_eq ds a b ≡ not (greater ds a b))
  unfolding less greater less_eq greater_eq differs equals
  less_trichotomy a b ha hb = (
    elim (Bool-cases (lt_dom ds a.value a.dom b.value b.dom)) [
      | inl y ↦ let n = dom_asym a.value b.value a.dom b.dom ha hb y in inl (y, rw y refl, n)
      | inr n ↦ elim (Bool-cases (lt_dom ds b.value b.dom a.value a.dom)) [
        | inl y ↦ inr (inr (n, rw (n, y) refl, y))
        | inr m ↦ inr (inl (n, rw (n, m) refl, m))
      ]
    ],
    refl,
    refl,
  )

  -- With two domains that are safe for arithmetic, of which one has a smaller and the other a
  -- larger address than a domain that is not safe, and with constants of theirs for which the
  -- domain in between encloses neither together with the other, a first value above the last gives
  -- a cycle: each of the three constants is less than the next, and the last less than the first.
  pub less_cycle :
      (a b c : Mpz) (d x e : ℕ)
      → ds.safe_arith d ≡ true
      → ds.safe_arith e ≡ true
      → ds.safe_arith x ≡ false
      → d < x
      → x < e
      → (ds.most_enclosing d a == ds.most_enclosing x b) ≡ false
      → (ds.most_enclosing x b == ds.most_enclosing e c) ≡ false
      → lt c a ≡ true
      → (less ds (constant a (some d)) (constant b (some x)) ≡ true)
        × (less ds (constant b (some x)) (constant c (some e)) ≡ true)
        × (less ds (constant c (some e)) (constant a (some d)) ≡ true)
  unfolding less
  less_cycle a b c d x e sd se sx l m n1 n2 h = ground arith
