-- ===== src/Dies.antt =====
-- The iterators over the DIEs of a Dwarf file: libzwerg/dwit.cc. A DIE is given by its offset, and the
-- functions of elfutils are the fields of a record.
pub mod Preorder
pub mod Children
mod Tests
use dwgrep.Base.{
  ℕ, zero, suc, ◌+◌, ◌-◌, ◌%◌, ◌^◌, ◌==◌, ◌&&◌, Bool, true, false, if◌then◌else◌, List, [], ◌∷◌,
  Option, none, some,
}
use dwgrep.Stack.{Result, ok, err, aborted, stuck, libdw_failed, ◌>>=◌}

-- What dwarf_child and dwarf_siblingof return: -1, 0 with a DIE, or 1
pub data Neighbour : Type 0 where
  failed no_die : Neighbour
  found : ℕ → Neighbour

-- dwarf_nextcu returns 0 with the offset of the unit after the one at the given offset and with the
-- size of the header, or something else; dwarf_offdie a DIE or nullptr.
pub record Libdw : Type 0 where
  pub child : ℕ → Neighbour
  pub sibling : ℕ → Neighbour
  pub next_cu : ℕ → Option (ℕ × ℕ)
  pub offdie : ℕ → Option ℕ

-- m_offset, m_old_offset and m_cudie of cu_iterator
pub record CuIterator : Type 0 where
  pub offset : ℕ
  pub old_offset : ℕ
  pub cudie : ℕ

-- (Dwarf_Off) -1
abbrev pub no_offset : ℕ
no_offset = 2 ^ 64 - 1

-- cu_iterator::end
abbrev pub cu_end : CuIterator
cu_end = record { offset = no_offset; old_offset = 0; cudie = 0 }

-- m_cuit, m_stack with its back as the head, and m_die of all_dies_iterator
pub record AllDiesIterator : Type 0 where
  pub cuit : CuIterator
  pub stack : List ℕ
  pub die : ℕ

abbrev pub is_empty : List ℕ → Bool
is_empty [] = true
is_empty (p ∷ ps) = false

-- all_dies_iterator::operator== with end (), whose stack is empty
pub is_end : AllDiesIterator → Bool
is_end it = (it.cuit.offset == no_offset) && is_empty it.stack

module _ (dw : Libdw) where
  -- `continue` in `do ... while (false)` leaves the loop, with the DIE of before.
  abbrev pub cu_die : ℕ → ℕ → Option ℕ → CuIterator → CuIterator
  cu_die next old (some d) it = record { offset = next; old_offset = old; cudie = d }
  cu_die next old none it = record { offset = next; old_offset = old; cudie = it.cudie }

  abbrev pub cu_found : Option (ℕ × ℕ) → CuIterator → CuIterator
  cu_found none it = cu_end
  cu_found (some (next, hsize)) it =
      cu_die next it.offset (dw.offdie ((it.offset + hsize) % 2 ^ 64)) it

  -- cu_iterator::move
  pub move : CuIterator → Result CuIterator
  move it = if it.offset == no_offset then err aborted else ok (cu_found (dw.next_cu it.offset) it)

  -- The switch on dwarf_siblingof in operator++, with what happens when there is no sibling
  abbrev pub pick : Neighbour → List ℕ → Result (Option (ℕ × List ℕ)) → Result (Option (ℕ × List ℕ))
  pick failed ps rest = err libdw_failed
  pick (found d) ps rest = ok (some (d, ps))
  pick no_die ps rest = rest

  -- One level up, where the loop goes on unless the stack is empty then
  abbrev pub one_up :
      Option ℕ → List ℕ → Result (Option (ℕ × List ℕ)) → Result (Option (ℕ × List ℕ))
  one_up none ps rest = err libdw_failed
  one_up (some d) [] rest = ok none
  one_up (some d) (p ∷ ps) rest = pick (dw.sibling d) (p ∷ ps) rest

  abbrev pub level_up : List ℕ → Result (Option (ℕ × List ℕ))
  level_up [] = ok none
  level_up (p ∷ ps) = one_up (dw.offdie p) ps (level_up ps)

  -- The loop: a DIE with the stack for it, or `none` when the loop ends
  pub climb : ℕ → List ℕ → Result (Option (ℕ × List ℕ))
  climb d ps = pick (dw.sibling d) ps (level_up ps)

  -- `m_die = **++m_cuit;`, unless the loop has returned
  abbrev pub landed : CuIterator → Option (ℕ × List ℕ) → Result AllDiesIterator
  landed cuit (some (d, ps)) = ok (record { cuit = cuit; stack = ps; die = d })
  landed cuit none =
      move cuit >>= (λ cuit'. ok (record { cuit = cuit'; stack = []; die = cuit'.cudie }))

  abbrev pub descend : Neighbour → AllDiesIterator → Result AllDiesIterator
  descend failed it = err libdw_failed
  descend (found d) it = ok (record it { stack = it.die ∷ it.stack; die = d })
  descend no_die it = climb it.die it.stack >>= landed it.cuit

  -- all_dies_iterator::operator++
  pub advance : AllDiesIterator → Result AllDiesIterator
  unfolding climb move
  advance it = descend (dw.child it.die) it

  -- all_dies_iterator::all_dies_iterator on a Dwarf
  pub all_dies : Result AllDiesIterator
  unfolding move
  all_dies =
      move (record { offset = 0; old_offset = 0; cudie = 0 })
      >>= (λ cuit. ok (record { cuit = cuit; stack = []; die = cuit.cudie }))

  -- The DIEs from an iterator on up to end ()
  pub dies_from : ℕ → AllDiesIterator → Result (List ℕ)
  unfolding is_end advance
  dies_from zero it = err stuck
  dies_from (suc n) it =
      let rest = advance it >>= dies_from n >>= (λ ds. ok (it.die ∷ ds)) in
      if is_end it then ok [] else rest

  -- dwpp_child and dwpp_siblingof of libzwerg/dwpp.hh
  abbrev pub dwpp : Neighbour → Result (Option ℕ)
  dwpp failed = err libdw_failed
  dwpp (found d) = ok (some d)
  dwpp no_die = ok none

  -- child_iterator::child_iterator; `none` is end ().
  pub child_begin : ℕ → Result (Option ℕ)
  child_begin parent = dwpp (dw.child parent)

  -- child_iterator::operator++
  pub child_advance : Option ℕ → Result (Option ℕ)
  child_advance none = err aborted
  child_advance (some d) = dwpp (dw.sibling d)

  -- The DIEs from a child_iterator on up to end ()
  pub children_from : ℕ → Option ℕ → Result (List ℕ)
  unfolding child_advance
  children_from zero it = err stuck
  children_from (suc n) none = ok []
  children_from (suc n) (some d) =
      child_advance (some d) >>= children_from n >>= (λ ds. ok (d ∷ ds))
