-- ===== src/Value.antt =====
-- The classes of values: libzwerg/value.hh, value-cst.hh, value-str.hh and value-seq.hh.
pub mod Compare
pub mod Search
pub mod Elements
use dwgrep.Base.{ℕ, List, [], ◌∷◌}
use dwgrep.Mpz.{Mpz}

-- A value with its position `m_pos`. A domain of constants is an address, and `other` is a value of
-- a class that the Dwarf library defines: its type code and its identity.
mutual
  pub data Value : Type 0 where
    cst : Mpz → ℕ → ℕ → Value
    str : List ℕ → ℕ → Value
    seq : Values → ℕ → Value
    other : ℕ → ℕ → ℕ → Value

  pub data Values : Type 0 where
    nil : Values
    cons : Value → Values → Values

-- The vector of a value_seq, from a list.
abbrev pub values : List Value → Values
values [] = nil
values (v ∷ vs) = cons v (values vs)

-- The codes that value_type::alloc gave to the types. They depend on the order in which the vtype
-- objects of the files were made, so they are a parameter.
pub record TypeCodes : Type 0 where
  pub cst_code : ℕ
  pub str_code : ℕ
  pub seq_code : ℕ

-- zw_value::get_type ().code (), a uint8_t
unfoldable pub code : TypeCodes → Value → ℕ
code t (cst n dom pos) = t.cst_code
code t (str s pos) = t.str_code
code t (seq vs pos) = t.seq_code
code t (other c id pos) = c

-- zw_value::get_pos
pub get_pos : Value → ℕ
get_pos (cst n dom pos) = pos
get_pos (str s pos) = pos
get_pos (seq vs pos) = pos
get_pos (other c id pos) = pos

-- zw_value::set_pos
unfoldable pub set_pos : ℕ → Value → Value
set_pos p (cst n dom pos) = cst n dom p
set_pos p (str s pos) = str s p
set_pos p (seq vs pos) = seq vs p
set_pos p (other c id pos) = other c id p
