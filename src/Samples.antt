-- ===== src/Samples.antt =====
-- Type codes, domains and stacks to run the definitions on.
use dwgrep.Base.{ℕ, List, ◌*◌, ◌+◌, arith, true, ltb, ◌==◌, [], ◌∷◌}
use dwgrep.Mpz.{mpz, unsign}
use dwgrep.Constant.{Domains}
use dwgrep.Value.{Value, TypeCodes, cst, str, seq, other}
use dwgrep.Value.Compare.{compare, ForeignCmp}
use dwgrep.Value.Compare.Laws.{
  ForeignLaws, AreDistinct, compare_nat-flipped, compare_nat_self, compare-ne-fail,
}
use dwgrep.Stack.{Stack}

abbrev pub codes : TypeCodes
codes = record { cst_code = 1; str_code = 2; seq_code = 3 }

pub codes-AreDistinct : AreDistinct codes
codes-AreDistinct = record {
  cst_str = λ h. absurd (omega arith);
  cst_seq = λ h. absurd (omega arith);
  str_seq = λ h. absurd (omega arith);
}

-- Each domain is safe for arithmetic, and encloses itself; the domain 0 is plain.
abbrev pub safe_domains : Domains
safe_domains = record { safe_arith = λ d. true; most_enclosing = λ d n. d; plain = λ d. d == 0 }

-- Values of one class of the Dwarf library, by their identities
abbrev pub by_identity : ForeignCmp
by_identity c i j = compare (ltb i j) (ltb j i)

pub by_identity-Laws : ForeignLaws by_identity
by_identity-Laws = record {
  flips = λ c i j. compare_nat-flipped i j;
  returns = λ c i j. compare-ne-fail (ltb i j) (ltb j i);
  same = λ c i. compare_nat_self i;
}

-- The constant 7 on an empty string
abbrev pub two_values : Stack
two_values = record { values = cst (mpz 7 unsign) 0 0 ∷ str [] 1 ∷ []; profile = 2 * 256 + 1 }

abbrev pub one_value : Stack
one_value = record { values = str [] 1 ∷ []; profile = 2 }

-- A text for each value: a string itself, and for the others one character
abbrev pub show_value : Value → List ℕ
show_value (cst n dom pos) = (48 + n.bits) ∷ []
show_value (str s pos) = s
show_value (seq vs pos) = 91 ∷ []
show_value (other c id pos) = 63 ∷ []
