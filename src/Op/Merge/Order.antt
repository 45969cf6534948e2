-- ===== src/Op/Merge/Order.antt =====
-- In which order the branches of a merge take the stacks. The branch that takes the last copy of a stack
-- asks for the next stack in the same turn, so that the branches take that one from there on.
use dwgrep.Base.{ℕ, zero, suc, ◌+◌, ◌-◌, ◌<◌, ◌≡◌, ◌==◌, ltb, ◌∙◌, arith, if◌then◌else◌, List}
use dwgrep.Stack.{Stack}
use dwgrep.Op.{Op}
use dwgrep.Op.Stream.{Stream, ends, fails, yields, append}
use dwgrep.Op.Merge.File.{following}
use dwgrep.Op.Merge.Arms.{Arm, yield_at}

abbrev pub preceding : ℕ → ℕ → ℕ
preceding size i = if i == 0 then size - 1 else i - 1

module _ (up : Op) (size : ℕ) (arms : List (Arm up size)) where
  -- What k branches yield for x, from the one at the index i on.
  abbrev pub to_each : ℕ → ℕ → Stack → Stream
  to_each zero i x = ends
  to_each (suc k) i x = append (yield_at up size arms i x) (to_each k (following size i) x)

  -- For each stack what all branches yield, where the branch that was the last for a stack is the
  -- first for the next one.
  abbrev pub merged : ℕ → Stream → Stream
  merged i ends = ends
  merged i (fails e) = fails e
  merged i (yields x xs) = append (to_each size i x) (merged (preceding size i) xs)

abbrev pub last_of : ℕ → ℕ → ℕ → ℕ
last_of size zero i = i
last_of size (suc k) i = last_of size k (following size i)

last_of-eq :
    (size k i : ℕ)
    → i < size
    → k < size
    → last_of size k i ≡ (if ltb (i + k) size then i + k else i + k - size)
last_of-eq size zero i l m = ground arith
last_of-eq size (suc k) i l m =
    ground (arith, last_of-eq size k (following size i) (ground arith) (omega arith))

pub last_of-preceding :
    (m i : ℕ) → i < suc (suc m) → last_of (suc (suc m)) (suc m) i ≡ preceding (suc (suc m)) i
last_of-preceding m i l = last_of-eq (suc (suc m)) (suc m) i l (omega arith) ∙ ground arith
