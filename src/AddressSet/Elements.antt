-- ===== src/AddressSet/Elements.antt =====
-- The words `elem` and `relem` on address sets: elem_aset_producer of libzwerg/builtin-aset.cc.
pub mod Produced
use dwgrep.Base.{
  ℕ, zero, suc, ◌+◌, ◌-◌, Bool, leb, if◌then◌else◌, List, [], ◌∷◌, Option, none, some, length,
  add64, sub64,
}
use dwgrep.Mpz.{mpz, unsign}
use dwgrep.Value.{Value, cst}
use dwgrep.Coverage.{Range, at}
use dwgrep.AddressSet.{Aset}

pub record Producer : Type 0 where
  pub cov : List Range
  pub idx : ℕ
  pub ai : ℕ
  pub i : ℕ
  pub forward : Bool

-- `cov.at (idx ())`
abbrev pub at_idx : Producer → Range
at_idx p = at p.cov (if p.forward then p.idx else length p.cov - 1 - p.idx)

module _ (address_dom : ℕ) where
  -- The end of `next`, from the address on
  pub emit : Producer → Option (Value × Producer)
  emit p =
      let ai = if p.forward then p.ai else sub64 (sub64 (at_idx p).length 1) p.ai in
      some (
        cst (mpz (add64 (at_idx p).start ai) unsign) address_dom p.i,
        record p { ai = suc p.ai; i = suc p.i },
      )

  -- elem_aset_producer::next
  pub aset_next : Producer → Option (Value × Producer)
  unfolding emit
  aset_next p =
      if leb (length p.cov) p.idx
      then none
      else if leb (at_idx p).length p.ai
      then (if leb (length p.cov) (suc p.idx)
          then none
          else emit (record p { idx = suc p.idx; ai = 0 }))
      else emit p

-- op_elem_aset::operate and op_relem_aset::operate
abbrev pub producer_of : List Range → Bool → Producer
producer_of c f = record { cov = c; idx = 0; ai = 0; i = 0; forward = f }
