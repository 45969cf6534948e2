-- ===== src/Layout.antt =====
-- The class layout of libzwerg/layout.hh and libzwerg/layout.cc, which places the states of the ops
-- in one buffer.
pub mod Align
pub mod Reserve
mod Tests
use Prim.Native.Nat.{bit_and}
use dwgrep.Base.{ℕ, ◌+◌, ◌-◌, ◌%◌, ◌^◌, ltb, if◌then◌else◌, List, [], ◌∷◌}

-- `align` of layout.cc, on size_t: `-align` is 2^64 - align.
unfoldable pub align_to : ℕ → ℕ → ℕ
align_to top align = bit_and ((top + (align - 1)) % 2 ^ 64) ((2 ^ 64 - align) % 2 ^ 64)

-- layout::reserve, from m_size: the location and the new m_size
unfoldable pub reserve : ℕ → ℕ → ℕ → ℕ × ℕ
unfolding align_to
reserve m_size size align = let loc = align_to m_size align in (loc, (loc + size) % 2 ^ 64)

-- The locations for a sequence of calls of `reserve`, each for a size and an alignment, and m_size
-- after them
pub reserve_all : List (ℕ × ℕ) → ℕ → List ℕ × ℕ
reserve_all [] m_size = ([], m_size)
reserve_all ((size, align) ∷ states) m_size =
    let (loc, m_size1) = reserve m_size size align in
    let (locs, m_size2) = reserve_all states m_size1 in (loc ∷ locs, m_size2)

-- layout::add_union, from m_size and those of the layouts
pub add_union : List ℕ → ℕ → ℕ
add_union [] m_size = m_size
add_union (size ∷ layouts) m_size = add_union layouts (if ltb m_size size then size else m_size)
