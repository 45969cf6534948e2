-- ===== src/Tree.antt =====
-- The trees of libzwerg/tree.hh and their building into ops by libzwerg/build.cc, without the trees
-- for alternation, and for names and blocks.
pub mod Meaning
pub mod Build
pub mod Profiled
pub mod Simplify
use dwgrep.Base.{ℕ, Bool, true, false, List, [], ◌∷◌, Option, none, some}
use dwgrep.Mpz.{Mpz}
use dwgrep.Value.{Value, TypeCodes, cst, str, seq, nil}
use dwgrep.Stack.{Stack, Result}
use dwgrep.Op.{Op, op_origin, op_nop, mapping}
use dwgrep.Op.Words
use dwgrep.Op.Assert.{op_assert}
use dwgrep.Op.Subx.{op_subx}
use dwgrep.Op.Capture.{op_capture}
use dwgrep.Op.Ifelse.{op_ifelse}
use dwgrep.Op.Or.{op_or}
use dwgrep.Op.Format.{Stringer, stringer_origin, stringer_lit, stringer_op, op_format}
use dwgrep.Op.Closure.{ClosureKind, op_tr_closure}
use dwgrep.Pred
use dwgrep.Pred.{Pred}
use dwgrep.Pred.Comparison.{pred_eq, pred_lt, pred_gt}
use dwgrep.Constant.{Domains}
use dwgrep.Value.Compare.{ForeignCmp}

-- The builtins of libzwerg/builtin-shf.cc
pub data Word : Type 0 where
  drop swap dup over rot : Word

-- The builtins builtin_eq, builtin_lt and builtin_gt of libzwerg/builtin-cmp.cc
pub data Relation : Type 0 where
  eq lt gt : Relation

mutual
  -- A tree of type PRED_*, or of type F_BUILTIN with a predicate: `pred_pos` has m_positive and
  -- m_pos of builtin_pred_pos, `pred_cmp` m_positive of the comparison.
  pub data PredTree : Type 0 where
    pred_not : PredTree → PredTree
    pred_or pred_and : PredTree → PredTree → PredTree
    pred_subx_any : Tree → PredTree
    pred_pos : Bool → ℕ → PredTree
    pred_cmp : Relation → Bool → PredTree

  pub data Tree : Type 0 where
    nop f_debug empty_list : Tree
    constant : Mpz → ℕ → Tree
    text : List ℕ → Tree
    f_builtin : Word → Tree
    assertion : PredTree → Tree
    cat alternative format : Trees → Tree
    capture scope : Tree → Tree
    subx_eval : Tree → ℕ → Tree
    ifelse : Tree → Tree → Tree → Tree
    close : ClosureKind → Tree → Tree

  -- m_children
  pub data Trees : Type 0 where
    no_trees : Trees
    and_trees : Tree → Trees → Trees

-- The text of a tree of type STR
abbrev pub literal : Tree → Option (List ℕ)
literal (text s) = some s
literal nop = none
literal f_debug = none
literal empty_list = none
literal (constant n dom) = none
literal (f_builtin w) = none
literal (assertion a) = none
literal (cat ts) = none
literal (alternative ts) = none
literal (format ts) = none
literal (capture a) = none
literal (scope a) = none
literal (subx_eval a keep) = none
literal (ifelse c a b) = none
literal (close k a) = none

-- The object that build_pred makes, in the universe of the ops.
pub record PredObject : Type 1 where
  pub result : Pred

abbrev pub object : Pred → PredObject
object p = record { result = p }

-- builtin::maybe_invert
abbrev pub maybe_invert : Pred → Bool → Pred
maybe_invert p true = p
maybe_invert p false = Pred.pred_not p

module _ (t : TypeCodes) where
  -- What the op of a builtin does with a stack.
  abbrev pub word_on : Word → Stack → Result Stack
  word_on drop = Words.drop_on t
  word_on swap = Words.swap_on t
  word_on dup = Words.dup_on t
  word_on over = Words.over_on t
  word_on rot = Words.rot_on t

  -- A stringer for a child of a FORMAT: a literal for one of type STR, else its op
  abbrev pub stringer_for : (Value → List ℕ) → Option (List ℕ) → Op → Stringer → Stringer
  stringer_for show (some s) op up = stringer_lit s up
  stringer_for show none op up = stringer_op t show op up

  module _ (ds : Domains) (foreign : ForeignCmp) where
    -- The predicate of the comparison
    abbrev pub related : Relation → Pred
    related eq = pred_eq t ds foreign
    related lt = pred_lt t ds foreign
    related gt = pred_gt t ds foreign

    module _ (show : Value → List ℕ) where
      mutual
        -- build_pred
        pub build_pred : PredTree → PredObject
        build_pred (pred_not a) = object (Pred.pred_not (build_pred a).result)
        build_pred (pred_or a b) = object (Pred.pred_or (build_pred a).result (build_pred b).result)
        build_pred (pred_and a b) =
            object (Pred.pred_and (build_pred a).result (build_pred b).result)
        build_pred (pred_subx_any a) = object (Pred.pred_subx_any (build_exec a op_origin))
        build_pred (pred_pos positive pos) = object (maybe_invert (Pred.pred_pos pos) positive)
        build_pred (pred_cmp r positive) = object (maybe_invert (related r) positive)

        -- build_exec
        pub build_exec : Tree → Op → Op
        build_exec nop up = op_nop up
        build_exec f_debug up = Words.op_f_debug up
        build_exec empty_list up = Words.op_const t (seq nil 0) up
        build_exec (constant n dom) up = Words.op_const t (cst n dom 0) up
        build_exec (text s) up = Words.op_const t (str s 0) up
        build_exec (f_builtin w) up = mapping (word_on w) up
        build_exec (assertion a) up = op_assert (build_pred a).result up
        build_exec (cat ts) up = build_cat ts up
        build_exec (alternative ts) up = op_or (build_branches ts) up
        build_exec (format ts) up = op_format t show (build_stringer ts) up
        build_exec (capture a) up = op_capture t (build_exec a op_origin) up
        build_exec (scope a) up = build_exec a up
        build_exec (subx_eval a keep) up = op_subx t keep (build_exec a op_origin) up
        build_exec (ifelse c a b) up =
            op_ifelse (build_exec c op_origin) (build_exec a op_origin) (build_exec b op_origin) up
        build_exec (close k a) up = op_tr_closure t ds foreign k (build_exec a op_origin) up

        -- The loop of the case CAT
        pub build_cat : Trees → Op → Op
        build_cat no_trees up = up
        build_cat (and_trees a ts) up = build_cat ts (build_exec a up)

        -- The branches that the case OR adds
        pub build_branches : Trees → List Op
        build_branches no_trees = []
        build_branches (and_trees a ts) = build_exec a op_origin ∷ build_branches ts

        -- The stringers of the case FORMAT, from the last child on
        pub build_stringer : Trees → Stringer
        build_stringer no_trees = stringer_origin
        build_stringer (and_trees a ts) =
            stringer_for show (literal a) (build_exec a op_origin) (build_stringer ts)
