-- ===== src/AddressSet.antt =====
-- The address sets of libzwerg/value-aset.cc and the words on them in libzwerg/builtin-aset.cc. The
-- coverage of a value is a list of ranges.
pub mod Compare
pub mod Contains
pub mod Visited
pub mod Listing
pub mod Elements
pub mod Length
pub mod Overlaps
pub mod Span
mod Tests
use dwgrep.Base.{
  ℕ, suc, ◌+◌, ◌-◌, Bool, leb, if◌then◌else◌, List, [], ◌∷◌, Option, none, some, length, ltb, add64,
}
use dwgrep.Mpz.{Mpz, mpz, unsign, sign, Result, ok, ◌>>=◌}
use dwgrep.Mpz
use dwgrep.Value.{Value, cst}
use dwgrep.Value.Compare.{CmpResult, equal, compare, and_then}
use dwgrep.Coverage.{Range, at, is_empty, end_, add, add_all}
use dwgrep.Coverage.Remove.{remove, remove_all}
use dwgrep.Coverage.Query.{is_covered, is_overlap, intersect}
use dwgrep.Pred.{PredResult, yes, no}

-- value_aset, with its position `m_pos`
pub record Aset : Type 0 where
  pub cov : List Range
  pub pos : ℕ

abbrev pub value_aset : List Range → ℕ → Aset
value_aset c i = record { cov = c; pos = i }

-- The value of the constant, or 0 for a negative one. The warnings are left out.
pub addressify : Mpz → Mpz
addressify v = if Mpz.lt v (mpz 0 sign) then mpz 0 sign else v

-- The span from the lower to the higher bound
abbrev pub aset_between : Mpz → Mpz → Result Aset
aset_between av bv = Mpz.sub bv av >>= (λ d. ok (value_aset (add [] av.bits d.bits) 0))

-- op_aset_cst_cst::operate
pub op_aset_cst_cst : Mpz → Mpz → Result Aset
op_aset_cst_cst a b =
    let av = addressify a in
    let bv = addressify b in if Mpz.gt av bv then aset_between bv av else aset_between av bv

-- op_add_aset_cst::operate and op_add_aset_aset::operate
pub op_add_aset_cst : Aset → Mpz → Aset
op_add_aset_cst a b = value_aset (add a.cov (addressify b).bits 1) 0

pub op_add_aset_aset : Aset → Aset → Aset
op_add_aset_aset a b = value_aset (add_all a.cov b.cov) 0

-- op_sub_aset_cst::operate and op_sub_aset_aset::operate
pub op_sub_aset_cst : Aset → Mpz → Aset
op_sub_aset_cst a b = value_aset (remove a.cov (addressify b).bits 1).0 0

pub op_sub_aset_aset : Aset → Aset → Aset
op_sub_aset_aset a b = value_aset (remove_all a.cov b.cov).0 0

-- The loop of op_length_aset::operate
pub length_loop : ℕ → List Range → ℕ
length_loop n [] = n
length_loop n (r ∷ rs) = length_loop (add64 n r.length) rs

-- op_length_aset::operate, op_low_aset::operate and op_high_aset::operate, with the address of the
-- domain of the constant that is made
pub op_length_aset : ℕ → Aset → Value
unfolding length_loop
op_length_aset dec_dom a = cst (mpz (length_loop 0 a.cov) unsign) dec_dom 0

pub op_low_aset : ℕ → Aset → Option Value
op_low_aset address_dom a =
    if is_empty a.cov then none else some (cst (mpz (at a.cov 0).start unsign) address_dom 0)

pub op_high_aset : ℕ → Aset → Option Value
op_high_aset address_dom a =
    if is_empty a.cov
    then none
    else some (cst (mpz (end_ (at a.cov (length a.cov - 1))) unsign) address_dom 0)

-- aset_range_producer: the value and m_i
pub record Ranges : Type 0 where
  pub a : Aset
  pub i : ℕ

-- aset_range_producer::next
pub range_next : Ranges → Option (Aset × Ranges)
range_next p =
    let r = at p.a.cov p.i in
    if leb (length p.a.cov) p.i
    then none
    else some (value_aset (add [] r.start r.length) p.i, record p { i = suc p.i })

-- op_range_aset::operate
abbrev pub op_range_aset : Aset → Ranges
op_range_aset a = record { a = a; i = 0 }

-- pred_containsp_aset_cst::result
pub contains_cst : Aset → Mpz → PredResult
contains_cst a b = if is_covered a.cov (addressify b).bits 1 then yes else no

-- The loop of pred_containsp_aset_aset::result, over the ranges of B
pub contains_loop : List Range → List Range → PredResult
contains_loop a [] = yes
contains_loop a (r ∷ rs) =
    let rest = contains_loop a rs in if is_covered a r.start r.length then rest else no

-- pred_containsp_aset_aset::result
pub contains_aset : Aset → Aset → PredResult
unfolding contains_loop
contains_aset a b = contains_loop a.cov b.cov

-- The loop of pred_overlapsp_aset_aset::result, over the ranges of B
pub overlaps_loop : List Range → List Range → PredResult
overlaps_loop a [] = no
overlaps_loop a (r ∷ rs) =
    let rest = overlaps_loop a rs in if is_overlap a r.start r.length then yes else rest

-- pred_overlapsp_aset_aset::result
pub overlaps_aset : Aset → Aset → PredResult
unfolding overlaps_loop
overlaps_aset a b = overlaps_loop a.cov b.cov

-- The loop of op_overlap_aset_aset::operate, over the ranges of B
pub overlap_loop : List Range → List Range → List Range → List Range
overlap_loop a ret [] = ret
overlap_loop a ret (r ∷ rs) = overlap_loop a (add_all ret (intersect a r.start r.length)) rs

-- op_overlap_aset_aset::operate
pub op_overlap_aset_aset : Aset → Aset → Aset
unfolding overlap_loop
op_overlap_aset_aset a b = value_aset (overlap_loop a.cov [] b.cov) 0

-- pred_emptyp_aset::result
pub empty_aset : Aset → PredResult
empty_aset a = if is_empty a.cov then yes else no

-- The loop of value_aset::cmp, over the ranges of two coverages of one size
pub cmp_ranges : List Range → List Range → CmpResult
cmp_ranges [] ys = equal
cmp_ranges (x ∷ xs) [] = equal
cmp_ranges (x ∷ xs) (y ∷ ys) =
    and_then (compare (ltb x.start y.start) (ltb y.start x.start))
      (and_then (compare (ltb x.length y.length) (ltb y.length x.length)) (cmp_ranges xs ys))

-- value_aset::cmp, for another value_aset
pub cmp_aset : Aset → Aset → CmpResult
unfolding cmp_ranges
cmp_aset a b =
    and_then (compare (ltb (length a.cov) (length b.cov)) (ltb (length b.cov) (length a.cov)))
      (cmp_ranges a.cov b.cov)
