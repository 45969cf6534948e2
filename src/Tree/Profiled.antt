-- ===== src/Tree/Profiled.antt =====
-- The profiles of the stacks that a tree yields.
use dwgrep.Base.{ℕ, ◌<◌, List, Option, none, some}
use dwgrep.Value.{Value, TypeCodes, code, cst, str, seq, nil}
use dwgrep.Value.Compare.{ForeignCmp}
use dwgrep.Constant.{Domains}
use dwgrep.Stack.{Stack, Result, ok, err}
use dwgrep.Stack.Profile.{IsProfiled, push-IsProfiled}
use dwgrep.Op.Stream.{Stream, ends, fails, yields}
use dwgrep.Op.Mapping.{returned}
use dwgrep.Op.Words.{const_on}
use dwgrep.Op.Words.Shuffle.{shuffle-Leaves, dropped, swapped, doubled, overed, rotated}
use dwgrep.Op.Assert.{asserted}
use dwgrep.Op.Subx.{keep_on}
use dwgrep.Op.Capture.{tops}
use dwgrep.Op.Ifelse.{chosen}
use dwgrep.Op.Or.{either_of}
use dwgrep.Op.Closure.{ClosureKind}
use dwgrep.Op.Format.Texts.{Texts}
use dwgrep.Op.Format.Profiled.{
  TextsProfiled, prefixed-TextsProfiled, shown_each-TextsProfiled, pushed-AreProfiled,
}
use dwgrep.Op.Profiled.{
  CodesAreBytes, Ensures, AreProfiled, Keeps, bind-AreProfiled, returned-AreProfiled,
  Leaves-Ensures, keep_on-Ensures, captured-Ensures, closure-AreProfiled,
}
use dwgrep.Pred.{PredResult, yes, no, fail}
use dwgrep.Tree.{Tree, Trees, Word, drop, swap, dup, over, rot, word_on, literal}
use dwgrep.Tree.Meaning.{holds, meaning, in_turn, first_of_all, texts, with_child}

module _ (t : TypeCodes) (bytes : CodesAreBytes t) where
  const-AreProfiled : (v : Value) → code t v < 256 → Keeps t (λ x. returned (const_on t v x))
  unfolding const_on
  const-AreProfiled v b x h = (push-IsProfiled t v x b h, tt)

  word-Ensures : (w : Word) (x : Stack) → IsProfiled t x → Ensures (IsProfiled t) (word_on t w x)
  word-Ensures drop x h = Leaves-Ensures t _ (dropped x.values) (shuffle-Leaves t x h).0
  word-Ensures swap x h = Leaves-Ensures t _ (swapped x.values) (shuffle-Leaves t x h).1
  word-Ensures dup x h = Leaves-Ensures t _ (doubled x.values) (shuffle-Leaves t x h).2
  word-Ensures over x h = Leaves-Ensures t _ (overed x.values) (shuffle-Leaves t x h).3
  word-Ensures rot x h = Leaves-Ensures t _ (rotated x.values) (shuffle-Leaves t x h).4

  asserted-AreProfiled :
      (x : Stack) (r : Result PredResult) → IsProfiled t x → AreProfiled t (asserted x r)
  asserted-AreProfiled x (ok yes) h = (h, tt)
  asserted-AreProfiled x (ok no) h = tt
  asserted-AreProfiled x (ok fail) h = tt
  asserted-AreProfiled x (err e) h = tt

  chosen-AreProfiled :
      (c a b : Stream) → AreProfiled t a → AreProfiled t b → AreProfiled t (chosen c a b)
  chosen-AreProfiled ends a b h k = k
  chosen-AreProfiled (fails e) a b h k = tt
  chosen-AreProfiled (yields y ys) a b h k = h

  either-AreProfiled :
      (xs ys : Stream) → AreProfiled t xs → AreProfiled t ys → AreProfiled t (either_of xs ys)
  either-AreProfiled ends ys h k = k
  either-AreProfiled (fails e) ys h k = tt
  either-AreProfiled (yields x xs) ys h k = h

  child-TextsProfiled :
      (show : Value → List ℕ) (l : Option (List ℕ)) (m : Stack → Stream) (xs : Texts)
      → Keeps t m
      → TextsProfiled t show xs
      → TextsProfiled t show (with_child t show l m xs)
  child-TextsProfiled show (some s) m xs k h = prefixed-TextsProfiled t show s xs h
  child-TextsProfiled show none m xs k h = shown_each-TextsProfiled t show m k xs h

  module _ (ds : Domains) (foreign : ForeignCmp) (show : Value → List ℕ)
      (rounds : ClosureKind → Tree → Stack → ℕ) where
    mutual
      unfolding meaning in_turn first_of_all texts const_on code

      keeps : (a : Tree) → Keeps t (meaning t ds foreign show rounds a)
      keeps Tree.nop x h = (h, tt)
      keeps Tree.f_debug x h = (h, tt)
      keeps Tree.empty_list x h = const-AreProfiled (seq nil 0) bytes.seq_byte x h
      keeps (Tree.constant n dom) x h = const-AreProfiled (cst n dom 0) bytes.cst_byte x h
      keeps (Tree.text s) x h = const-AreProfiled (str s 0) bytes.str_byte x h
      keeps (Tree.f_builtin w) x h = returned-AreProfiled t (word_on t w x) (word-Ensures w x h)
      keeps (Tree.assertion a) x h = asserted-AreProfiled x (holds t ds foreign show rounds a x) h
      keeps (Tree.cat ts) x h = kept_in_turn ts x h
      keeps (Tree.alternative ts) x h = kept_first ts x h
      keeps (Tree.format ts) x h =
          pushed-AreProfiled t show 0 (texts t ds foreign show rounds ts x) bytes.str_byte
            (kept_texts ts x h)
      keeps (Tree.capture a) x h =
          returned-AreProfiled t _
            (captured-Ensures t (tops t (meaning t ds foreign show rounds a x)) x bytes.seq_byte h)
      keeps (Tree.scope a) x h = keeps a x h
      keeps (Tree.subx_eval a keep) x h =
          bind-AreProfiled t (meaning t ds foreign show rounds a x)
            (λ y. returned (keep_on t keep x y)) (keeps a x h)
            (λ y k. returned-AreProfiled t (keep_on t keep x y) (keep_on-Ensures t keep x y h k))
      keeps (Tree.ifelse c a b) x h =
          chosen-AreProfiled (meaning t ds foreign show rounds c x)
            (meaning t ds foreign show rounds a x) (meaning t ds foreign show rounds b x)
            (keeps a x h) (keeps b x h)
      keeps (Tree.close k a) x h =
          closure-AreProfiled t ds foreign (meaning t ds foreign show rounds a) (keeps a) k
            (rounds k a x) x h

      kept_in_turn : (ts : Trees) → Keeps t (in_turn t ds foreign show rounds ts)
      kept_in_turn Trees.no_trees x h = (h, tt)
      kept_in_turn (Trees.and_trees a ts) x h =
          bind-AreProfiled t (meaning t ds foreign show rounds a x)
            (in_turn t ds foreign show rounds ts) (keeps a x h) (kept_in_turn ts)

      kept_first : (ts : Trees) → Keeps t (first_of_all t ds foreign show rounds ts)
      kept_first Trees.no_trees x h = tt
      kept_first (Trees.and_trees a ts) x h =
          either-AreProfiled (meaning t ds foreign show rounds a x)
            (first_of_all t ds foreign show rounds ts x) (keeps a x h) (kept_first ts x h)

      kept_texts :
          (ts : Trees) (x : Stack)
          → IsProfiled t x
          → TextsProfiled t show (texts t ds foreign show rounds ts x)
      kept_texts Trees.no_trees x h = (h, tt)
      kept_texts (Trees.and_trees a ts) x h =
          child-TextsProfiled show (literal a) (meaning t ds foreign show rounds a)
            (texts t ds foreign show rounds ts x) (keeps a) (kept_texts ts x h)

    -- Each stack that a tree yields for a stack with a right profile has a right profile: it packs
    -- the type codes of the topmost four values, which are bytes.
    pub meaning-AreProfiled :
        (a : Tree) (x : Stack)
        → IsProfiled t x
        → AreProfiled t (meaning t ds foreign show rounds a x)
    meaning-AreProfiled a x h = keeps a x h

    pub texts-TextsProfiled :
        (ts : Trees) (x : Stack)
        → IsProfiled t x
        → TextsProfiled t show (texts t ds foreign show rounds ts x)
    texts-TextsProfiled ts x h = kept_texts ts x h
