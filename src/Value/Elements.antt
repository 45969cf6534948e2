-- ===== src/Value/Elements.antt =====
-- The producers of the words `elem` and `relem` on sequences and strings, from
-- libzwerg/value-seq.cc and libzwerg/value-str.cc.
pub mod Produced
use dwgrep.Base.{
  ℕ, zero, suc, ◌-◌, ltb, if◌then◌else◌, List, [], ◌∷◌, ◌++◌, Option, none, some, length, get_elem?,
}
use dwgrep.Mpz.{mpz, unsign}
use dwgrep.Value.{Value, cst, str, set_pos}

-- A value_producer that goes over a vector: the vector and m_idx
pub record Producer (A : Type 0) : Type 0 where
  pub items : List A
  pub idx : ℕ

module _ {A : Type 0} (make : A → ℕ → Value) where
  -- The value for the item that was found at the index, and the producer after it
  abbrev pub produced : Producer A → Option A → Option (Value × Producer A)
  produced p none = none
  produced p (some a) = some (make a p.idx, record p { idx = suc p.idx })

  -- seq_elem_producer::next and str_elem_producer::next
  pub elem_next : Producer A → Option (Value × Producer A)
  elem_next p = if ltb p.idx (length p.items) then produced p (get_elem? p.items p.idx) else none

  -- seq_relem_producer::next and str_relem_producer::next
  pub relem_next : Producer A → Option (Value × Producer A)
  relem_next p =
      if ltb p.idx (length p.items)
      then produced p (get_elem? p.items (length p.items - 1 - p.idx))
      else none

-- `v->set_pos (m_idx++)` on the clone of an element
abbrev pub at_position : Value → ℕ → Value
at_position v i = set_pos i v

-- `std::string {c}` with the position
abbrev pub as_string : ℕ → ℕ → Value
as_string c i = str (c ∷ []) i

-- op_elem_seq::operate, op_relem_seq::operate, and those of strings
abbrev pub producer_of : {A : Type 0} → List A → Producer A
producer_of items = record { items = items; idx = 0 }
