-- ===== src/Op/Words.antt =====
-- The ops of libzwerg/op.cc and libzwerg/builtin-shf.cc that change each stack of their upstream by
-- itself.
pub mod Shuffle
use dwgrep.Base.{ℕ, Option, none, some}
use dwgrep.Value.{Value, TypeCodes}
use dwgrep.Stack.{Stack, Result, ok, err, ◌>>=◌, push, pop, drop_top, get, top}
use dwgrep.Op.{Op, mapping}

module _ (t : TypeCodes) where
  -- What op_const::next does with a stack.
  unfoldable pub const_on : Value → Stack → Result Stack
  const_on v stk = ok (push t v stk)

  -- op_drop::next
  unfoldable pub drop_on : Stack → Result Stack
  drop_on stk = do (v, stk1) ← pop t stk; ok stk1

  -- op_swap::next
  pub swap_on : Stack → Result Stack
  swap_on stk = do (a, stk1) ← pop t stk; (b, stk2) ← pop t stk1; ok (push t b (push t a stk2))

  -- op_dup::next
  pub dup_on : Stack → Result Stack
  dup_on stk = do v ← top stk; ok (push t v stk)

  -- op_over::next
  pub over_on : Stack → Result Stack
  over_on stk = do v ← get stk 1; ok (push t v stk)

  -- op_rot::next
  pub rot_on : Stack → Result Stack
  rot_on stk = do
    (a, stk1) ← pop t stk
    (b, stk2) ← pop t stk1
    (c, stk3) ← pop t stk2
    ok (push t c (push t a (push t b stk3)))

  -- op_drop_below::next
  pub drop_below_on : ℕ → Stack → Result Stack
  drop_below_on n stk = do (tos, stk1) ← pop t stk; stk2 ← drop_top t n stk1; ok (push t tos stk2)

  abbrev pub op_const : Value → Op → Op
  op_const v up = mapping (const_on v) up

  abbrev pub op_drop_below : ℕ → Op → Op
  op_drop_below n up = mapping (drop_below_on n) up

-- op_f_debug returns each stack as it is; what it prints is left out.
abbrev pub op_f_debug : Op → Op
op_f_debug up = mapping (λ stk. ok stk) up
