-- ===== src/Tree/Simplify/Congruence.antt =====
-- Trees whose children are replaced by simpler ones.
use dwgrep.Base.{ℕ, ◌≤◌, ◌≡◌, refl, sym, ap, ◌∙◌, arith, List, Option, none, some}
use dwgrep.Value.{Value, TypeCodes, str}
use dwgrep.Value.Compare.{ForeignCmp}
use dwgrep.Constant.{Domains}
use dwgrep.Stack.{Stack}
use dwgrep.Stack.Profile.{IsProfiled}
use dwgrep.Op.Stream.{Stream, bind}
use dwgrep.Op.Words.{const_on}
use dwgrep.Op.Or.{either_of}
use dwgrep.Op.Closure.{ClosureKind}
use dwgrep.Op.Profiled.{CodesAreBytes, Agree, bind-Agree}
use dwgrep.Op.Format.Texts.{Texts, shown_each}
use dwgrep.Op.Format.Profiled.{TextsProfiled, shown_each-Agree, shown_each-prefixed}
use dwgrep.Tree.{Tree, Trees, PredTree, literal}
use dwgrep.Tree.Meaning.{holds, meaning, in_turn, first_of_all, texts, with_child}
use dwgrep.Tree.Profiled.{meaning-AreProfiled, texts-TextsProfiled}
use dwgrep.Tree.Simplify.{tree_size, pred_size, trees_size}

-- A value_str is shown as its text.
abbrev pub ShowsStrings : (Value → List ℕ) → Type 0
ShowsStrings show = (s : List ℕ) (p : ℕ) → show (str s p) ≡ s

-- `visits` bounds the visits of every closure in a tree.
module _ (t : TypeCodes) (bytes : CodesAreBytes t) (ds : Domains) (foreign : ForeignCmp)
    (show : Value → List ℕ) (shows : ShowsStrings show) (visits : ClosureKind → Stack → ℕ) where
  abbrev pub bounds : ClosureKind → Tree → Stack → ℕ
  bounds k a x = visits k x

  abbrev pub m : Tree → Stack → Stream
  m a = meaning t ds foreign show bounds a

  abbrev pub turns : Trees → Stack → Stream
  turns ts = in_turn t ds foreign show bounds ts

  -- No more nodes, and the same meaning on the stacks with right profiles
  abbrev pub Simpler : Tree → Tree → Type 0
  Simpler a a' = (tree_size a' ≤ tree_size a) × Agree t (m a') (m a)

  abbrev pub SimplerPred : PredTree → PredTree → Type 0
  SimplerPred p p' =
      (pred_size p' ≤ pred_size p)
      × ((x : Stack)
          → IsProfiled t x
          → holds t ds foreign show bounds p' x ≡ holds t ds foreign show bounds p x)

  abbrev pub SimplerAll : Trees → Trees → Type 0
  SimplerAll Trees.no_trees Trees.no_trees = Unit {0}
  SimplerAll (Trees.and_trees a ts) (Trees.and_trees a' ts') = Simpler a a' × SimplerAll ts ts'
  SimplerAll Trees.no_trees (Trees.and_trees a' ts') = ⊥
  SimplerAll (Trees.and_trees a ts) Trees.no_trees = ⊥

  pub Simpler-self : (a : Tree) → Simpler a a
  Simpler-self a = (omega arith, λ x h. refl)

  pub Simpler-trans : (a b c : Tree) → Simpler a b → Simpler b c → Simpler a c
  Simpler-trans a b c h k = (omega (arith, h.0, k.0), λ x p. k.1 x p ∙ h.1 x p)

  pub trees_size-le : (ts ts' : Trees) → SimplerAll ts ts' → trees_size ts' ≤ trees_size ts
  unfolding trees_size
  trees_size-le Trees.no_trees Trees.no_trees h = omega arith
  trees_size-le (Trees.and_trees a ts) (Trees.and_trees a' ts') h =
      omega (arith, h.0.0, trees_size-le ts ts' h.1)
  trees_size-le Trees.no_trees (Trees.and_trees a' ts') h = absurd h
  trees_size-le (Trees.and_trees a ts) Trees.no_trees h = absurd h

  pub turns-Agree : (ts ts' : Trees) → SimplerAll ts ts' → Agree t (turns ts') (turns ts)
  unfolding in_turn
  turns-Agree Trees.no_trees Trees.no_trees h x p = refl
  turns-Agree (Trees.and_trees a ts) (Trees.and_trees a' ts') h x p =
      ap (λ ys. bind ys (turns ts')) (h.0.1 x p)
      ∙ bind-Agree t (m a x) (turns ts') (turns ts)
          (meaning-AreProfiled t bytes ds foreign show bounds a x p) (turns-Agree ts ts' h.1)
  turns-Agree Trees.no_trees (Trees.and_trees a' ts') h x p = absurd h
  turns-Agree (Trees.and_trees a ts) Trees.no_trees h x p = absurd h

  pub firsts-Agree :
      (ts ts' : Trees)
      → SimplerAll ts ts'
      → Agree t
          (first_of_all t ds foreign show bounds ts')
          (first_of_all t ds foreign show bounds ts)
  unfolding first_of_all
  firsts-Agree Trees.no_trees Trees.no_trees h x p = refl
  firsts-Agree (Trees.and_trees a ts) (Trees.and_trees a' ts') h x p =
      ap (λ ys. either_of ys (first_of_all t ds foreign show bounds ts' x)) (h.0.1 x p)
      ∙ ap (either_of (m a x)) (firsts-Agree ts ts' h.1 x p)
  firsts-Agree Trees.no_trees (Trees.and_trees a' ts') h x p = absurd h
  firsts-Agree (Trees.and_trees a ts) Trees.no_trees h x p = absurd h

  -- A literal does what the op for its string would do.
  child-shown :
      (a : Tree) (l : Option (List ℕ)) (xs : Texts)
      → literal a ≡ l
      → TextsProfiled t show xs
      → with_child t show l (m a) xs ≡ shown_each t show (m a) xs
  child-shown a none xs q h = refl
  child-shown a (some s) xs q h =
      let e : a ≡ Tree.text s = text_of_literal a s q in
      rw e (
        unfold meaning const_on in sym (shown_each-prefixed t show s (shows s) bytes.str_byte xs h))
    where
      text_of_literal : (a : Tree) (s : List ℕ) → literal a ≡ some s → a ≡ Tree.text s
      text_of_literal Tree.nop s q = absurd (cc)
      text_of_literal (Tree.text s') s q = cc
      text_of_literal _ s q = absurd (cc)

  pub texts-Agree :
      (ts ts' : Trees) (x : Stack)
      → SimplerAll ts ts'
      → IsProfiled t x
      → texts t ds foreign show bounds ts' x ≡ texts t ds foreign show bounds ts x
  unfolding texts
  texts-Agree Trees.no_trees Trees.no_trees x h p = refl
  texts-Agree (Trees.and_trees a ts) (Trees.and_trees a' ts') x h p =
      let behind = texts t ds foreign show bounds ts x in
      let fine = texts-TextsProfiled t bytes ds foreign show bounds ts x p in
      ap (with_child t show (literal a') (m a')) (texts-Agree ts ts' x h.1 p)
      ∙ child-shown a' (literal a') behind refl fine
      ∙ shown_each-Agree t show (m a') (m a) h.0.1 behind fine
      ∙ sym (child-shown a (literal a) behind refl fine)
  texts-Agree Trees.no_trees (Trees.and_trees a' ts') x h p = absurd h
  texts-Agree (Trees.and_trees a ts) Trees.no_trees x h p = absurd h
