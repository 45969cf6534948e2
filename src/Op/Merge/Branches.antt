-- ===== src/Op/Merge/Branches.antt =====
-- The branches of a merge: how a branch works on what its tine hands out.
use mathlib.Core.Path.{subst}
use dwgrep.Base.{ℕ, ◌≡◌, refl, sym, ap, false, List, [], ◌∷◌, none, some}
use dwgrep.Stack.{Stack, Result, ok, err, Error}
use dwgrep.Op.{Op, map_next, mapping}
use dwgrep.Op.Stream.{
  Stream, ends, fails, yields, append, Eventually, Eventually-const, Eventually-bind,
  Eventually-err,
}
use dwgrep.Op.Mapping.{returned}
use dwgrep.Op.Merge.{Branch, Sharing, tine_next, op_tine}

module _ (up : Op) (size : ℕ) where
  -- From the state s the branch yields the stream, and stops with nothing left of its own. As long as
  -- it yields, the shared state is not done. At the end the shared state has Q.
  abbrev pub BranchDrains :
      (b : Branch (Sharing up size))
      → (b.op.State → Type 0)
      → (Sharing up size → Type 0)
      → b.op.State
      → Stream
      → Type 0
  BranchDrains b Idle Q s ends =
      (s' : b.op.State) × Eventually (λ n. b.op.next n s) (ok (none, s'))
      × Idle s'
      × Q (b.shared s')
  BranchDrains b Idle Q s (fails e) = Eventually (λ n. b.op.next n s) (err e)
  BranchDrains b Idle Q s (yields x xs) =
      (s' : b.op.State) × Eventually (λ n. b.op.next n s) (ok (some x, s'))
      × ((b.shared s').done ≡ false)
      × BranchDrains b Idle Q s' xs

  -- A branch that yields g x for each stack x that its tine hands out, before it asks for the next.
  pub record Serves (id : ℕ) (b : Branch (Sharing up size)) (g : Stack → Stream) : Type 1 where
    pub Idle : b.op.State → Type 0
    pub starts : Idle b.op.init
    pub gives : (s : Sharing up size) (z : b.op.State) → Idle z → Idle (b.give s z)
    pub shared-give : (s : Sharing up size) (z : b.op.State) → b.shared (b.give s z) ≡ s
    pub give-shared : (z : b.op.State) → b.give (b.shared z) z ≡ z
    pub stops :
        (z : b.op.State) (s : Sharing up size)
        → Idle z
        → Eventually (λ n. tine_next up size id n (b.shared z)) (ok (none, s))
        → (z' : b.op.State) × Eventually (λ n. b.op.next n z) (ok (none, z'))
          × Idle z'
          × (b.shared z' ≡ s)
    pub throws :
        (z : b.op.State) (e : Error)
        → Idle z
        → Eventually (λ n. tine_next up size id n (b.shared z)) (err e)
        → Eventually (λ n. b.op.next n z) (err e)
    pub goes :
        (z : b.op.State) (s : Sharing up size) (x : Stack) (ys : Stream)
        (Q : Sharing up size → Type 0)
        → Idle z
        → Eventually (λ n. tine_next up size id n (b.shared z)) (ok (some x, s))
        → s.done ≡ false
        → ((z' : b.op.State) → Idle z' → b.shared z' ≡ s → BranchDrains b Idle Q z' ys)
        → BranchDrains b Idle Q z (append (g x) ys)

  -- A branch that changes each stack, such as one of words and constants.
  abbrev pub mapping_branch : ℕ → (Stack → Result Stack) → Branch (Sharing up size)
  mapping_branch id f = record {
    op = mapping f (op_tine up size id);
    shared = λ s. s;
    give = λ s z. s;
  }

  module _ (id : ℕ) (f : Stack → Result Stack) where
    mapped :
        (z : Sharing up size) (s : Sharing up size) (x : Stack) (r : Result Stack) (ys : Stream)
        (Q : Sharing up size → Type 0)
        → f x ≡ r
        → Eventually (λ n. tine_next up size id n z) (ok (some x, s))
        → s.done ≡ false
        → BranchDrains (mapping_branch id f) (λ z'. Unit {0}) Q s ys
        → BranchDrains (mapping_branch id f) (λ z'. Unit {0}) Q z (append (returned r) ys)
    mapped z s x (ok y) ys Q q e d k = (
      s,
      Eventually-bind (λ n. tine_next up size id n z) (λ n. map_next f) (some x, s) (ok (some y, s))
          e (rw q (Eventually-const _)),
      d,
      k,
    )
    mapped z s x (err b) ys Q q e d k =
        Eventually-bind (λ n. tine_next up size id n z) (λ n. map_next f) (some x, s) (err b) e
          (rw q (Eventually-const _))

    pub mapping_branch-Serves : Serves id (mapping_branch id f) (λ x. returned (f x))
    mapping_branch-Serves = record {
      Idle = λ z. Unit {0};
      starts = tt;
      gives = λ s z i. tt;
      shared-give = λ s z. refl;
      give-shared = λ z. refl;
      stops = λ z s i e. (
        s,
        Eventually-bind (λ n. tine_next up size id n z) (λ n. map_next f) (none, s) (ok (none, s)) e
            (Eventually-const _),
        tt,
        refl,
      );
      throws = λ z e i h. Eventually-err (λ n. tine_next up size id n z) (λ n. map_next f) e h;
      goes = λ z s x ys Q i e d k. mapped z s x (f x) ys Q refl e d (k s tt refl);
    }

  -- What a tine hands out one after the other, and then nothing, or an exception.
  abbrev pub Feeds : ℕ → Sharing up size → List Stack → Result (Sharing up size) → Type 0
  Feeds id s [] (ok s') = Eventually (λ n. tine_next up size id n s) (ok (none, s'))
  Feeds id s [] (err e) = Eventually (λ n. tine_next up size id n s) (err e)
  Feeds id s (x ∷ xs) r =
      (s' : Sharing up size) × Eventually (λ n. tine_next up size id n s) (ok (some x, s'))
      × (s'.done ≡ false)
      × Feeds id s' xs r

  abbrev pub ended : Result (Sharing up size) → Stream
  ended (ok s) = ends
  ended (err e) = fails e

  abbrev pub yields_for : (Stack → Stream) → List Stack → Stream → Stream
  yields_for g [] ys = ys
  yields_for g (x ∷ xs) ys = append (g x) (yields_for g xs ys)

  module _ (id : ℕ) (b : Branch (Sharing up size)) (g : Stack → Stream) (c : Serves id b g) where
    pub fed :
        (z : b.op.State) (s : Sharing up size) (xs : List Stack) (r : Result (Sharing up size))
        → c.Idle z
        → b.shared z ≡ s
        → Feeds id s xs r
        → BranchDrains b c.Idle (λ s'. ok s' ≡ r) z (yields_for g xs (ended r))
    fed z s [] (ok s') i q e =
        let (z', e', i', q') =
          c.stops z s' i
            (subst (λ v. Eventually (λ n. tine_next up size id n v) (ok (none, s'))) (sym q) e) in
        (z', e', i', ap ok q')
    fed z s [] (err x) i q e =
        c.throws z x i (subst (λ v. Eventually (λ n. tine_next up size id n v) (err x)) (sym q) e)
    fed z s (x ∷ xs) r i q (s', e, d, k) =
        c.goes z s' x (yields_for g xs (ended r)) (λ v. ok v ≡ r) i
          (subst (λ v. Eventually (λ n. tine_next up size id n v) (ok (some x, s'))) (sym q) e) d
          (λ z' i' q'. fed z' s' xs r i' q' k)
