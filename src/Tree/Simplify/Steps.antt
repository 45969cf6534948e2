-- ===== src/Tree/Simplify/Steps.antt =====
-- The other steps of `simplify`: an only child, a format string that is a literal, and NOPs.
use dwgrep.Base.{
  ℕ, suc, ◌≤◌, ◌<◌, ◌≡◌, ◌==◌, refl, sym, ap, ◌∙◌, arith, true, false, List, inl, inr, Bool-cases,
  some,
}
use mathlib.Core.List.{append-nil}
use dwgrep.Value.{Value, TypeCodes, str}
use dwgrep.Value.Compare.{ForeignCmp}
use dwgrep.Constant.{Domains}
use dwgrep.Stack.{Stack, push}
use dwgrep.Op.Stream.{Stream, ends, yields, append-ends, bind-single}
use dwgrep.Op.Words.{const_on}
use dwgrep.Op.Closure.{ClosureKind}
use dwgrep.Tree.{Tree, Trees, and_trees, no_trees, literal}
use dwgrep.Tree.Meaning.{meaning, in_turn, texts}
use dwgrep.Tree.Simplify.{trees_size, is_nop, format_of, count_trees, without_nops}
use dwgrep.Tree.Simplify.Promote.{turns, turns_behind, tree_size_pos}

pub format_of-some : (a : Tree) (us : Trees) → format_of a ≡ some us → a ≡ Tree.format us
format_of-some Tree.nop us q = absurd (cc)
format_of-some (Tree.format ts) us q = cc
format_of-some _ us q = absurd (cc)

pub literal-some : (a : Tree) (s : List ℕ) → literal a ≡ some s → a ≡ Tree.text s
literal-some Tree.nop s q = absurd (cc)
literal-some (Tree.text s') s q = cc
literal-some _ s q = absurd (cc)

is_nop-true : (a : Tree) → is_nop a ≡ true → a ≡ Tree.nop
is_nop-true Tree.nop q = refl
is_nop-true Tree.f_debug q = absurd (cc)
is_nop-true _ q = absurd (cc)

count-le : (ts : Trees) → count_trees (without_nops ts) ≤ count_trees ts
unfolding without_nops
count-le no_trees = omega arith
count-le (and_trees a ts) = elim (Bool-cases (is_nop a)) [
  | inl e ↦ rw e (omega (arith, count-le ts))
  | inr e ↦ rw e (omega (arith, count-le ts))
]

size-le : (ts : Trees) → trees_size (without_nops ts) ≤ trees_size ts
unfolding without_nops trees_size
size-le no_trees = omega arith
size-le (and_trees a ts) = elim (Bool-cases (is_nop a)) [
  | inl e ↦ rw e (omega (arith, size-le ts))
  | inr e ↦ rw e (omega (arith, size-le ts))
]

size-lt :
    (ts : Trees)
    → count_trees (without_nops ts) < count_trees ts
    → trees_size (without_nops ts) < trees_size ts
unfolding without_nops trees_size
size-lt no_trees l = absurd (omega arith)
size-lt (and_trees a ts) l = elim (Bool-cases (is_nop a)) [
  | inl e ↦ rw e (omega (arith, size-le ts, tree_size_pos a))
  | inr e ↦ rw e (omega (arith, size-lt ts (fewer a ts e l)))
]
  where
    fewer :
        (a : Tree) (ts : Trees)
        → is_nop a ≡ false
        → count_trees (without_nops (and_trees a ts)) < suc (count_trees ts)
        → count_trees (without_nops ts) < count_trees ts
    fewer a ts e l = ground arith

-- If a NOP was removed, there are fewer nodes.
pub without_nops_smaller :
    (ts : Trees)
    → (count_trees (without_nops ts) == count_trees ts) ≡ false
    → trees_size (without_nops ts) < trees_size ts
without_nops_smaller ts q = size-lt ts (ground (arith, count-le ts))

module _ (t : TypeCodes) (ds : Domains) (foreign : ForeignCmp) (show : Value → List ℕ)
    (rounds : ClosureKind → Tree → Stack → ℕ) where
  abbrev m : Tree → Stack → Stream
  m a = meaning t ds foreign show rounds a

  abbrev ts_mean : Trees → Stack → Stream
  ts_mean = turns t ds foreign show rounds

  pub turns_only : (a : Tree) (x : Stack) → m a x ≡ ts_mean (and_trees a no_trees) x
  unfolding in_turn
  turns_only a x = sym (bind-single (m a x))

  nop_first :
      (a : Tree) (ts us : Trees) (x : Stack)
      → is_nop a ≡ true
      → ts_mean us x ≡ ts_mean ts x
      → ts_mean us x ≡ ts_mean (and_trees a ts) x
  nop_first a ts us x e h =
      h ∙ rw (is_nop-true a e) (unfold meaning in_turn in sym (append-ends (ts_mean ts x)))

  pub turns-without_nops : (ts : Trees) (x : Stack) → ts_mean (without_nops ts) x ≡ ts_mean ts x
  unfolding without_nops
  turns-without_nops no_trees x = refl
  turns-without_nops (and_trees a ts) x = elim (Bool-cases (is_nop a)) [
    | inl e ↦ rw e (nop_first a ts (without_nops ts) x e (turns-without_nops ts x))
    | inr e ↦
        rw e
          (turns_behind t ds foreign show rounds a ts (without_nops ts) (turns-without_nops ts) x)
  ]

  -- A format string of one literal is that string.
  pub format_literal :
      (a : Tree) (s : List ℕ) (x : Stack)
      → literal a ≡ some s
      → m a x ≡ m (Tree.format (and_trees a no_trees)) x
  format_literal a s x q = rw (literal-some a s q) (
      unfold meaning texts const_on in
      ap (λ w. yields (push t (str w 0) x) ends) (sym (append-nil s)))
