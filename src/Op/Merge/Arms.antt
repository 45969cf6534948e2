-- ===== src/Op/Merge/Arms.antt =====
-- The branches of a merge together: one of them is asked, and the others keep their states.
use mathlib.Core.Path.{subst}
use dwgrep.Base.{
  ℕ, zero, suc, ◌+◌, ◌<◌, ◌≡◌, refl, sym, ap, arith, false, List, [], ◌∷◌, none, some, length,
}
use dwgrep.Stack.{Stack, Result, ok, err}
use dwgrep.Op.{Op}
use dwgrep.Op.Stream.{
  Stream, ends, fails, yields, Eventually, Eventually-const, Eventually-bind, Eventually-err,
}
use dwgrep.Op.Merge.{Branch, States, inits, Sharing, ask}
use dwgrep.Op.Merge.Branches.{BranchDrains, Serves, Feeds, ended, yields_for, fed}

module _ (up : Op) (size : ℕ) where
  -- What is built as a branch for a tine with a given id, and what it yields for a stack
  pub record Arm : Type 1 where
    pub branch : ℕ → Branch (Sharing up size)
    pub yield : Stack → Stream
    pub serves : (id : ℕ) → Serves up size id (branch id) yield

  abbrev pub branches : ℕ → List Arm → List (Branch (Sharing up size))
  branches id [] = []
  branches id (a ∷ arms) = a.branch id ∷ branches (suc id) arms

  abbrev pub yield_at : List Arm → ℕ → Stack → Stream
  yield_at [] i x = ends
  yield_at (a ∷ arms) zero x = a.yield x
  yield_at (a ∷ arms) (suc i) x = yield_at arms i x

  -- Nothing is left in any branch.
  abbrev pub AllIdle : (id : ℕ) (arms : List Arm) → States (branches id arms) → Type 0
  AllIdle id [] ss = Unit {0}
  AllIdle id (a ∷ arms) (own, ss) = Serves.Idle (a.serves id) own × AllIdle (suc id) arms ss

  pub AllIdle-inits : (id : ℕ) (arms : List Arm) → AllIdle id arms (inits (branches id arms))
  AllIdle-inits id [] = tt
  AllIdle-inits id (a ∷ arms) = (Serves.starts (a.serves id), AllIdle-inits (suc id) arms)

  pub length-branches : (id : ℕ) (arms : List Arm) → length (branches id arms) ≡ length arms
  length-branches id [] = refl
  length-branches id (a ∷ arms) = ap suc (length-branches (suc id) arms)

  -- BranchDrains for the branch at the index i
  abbrev pub AskDrains :
      (id : ℕ) (arms : List Arm)
      → ℕ
      → (Sharing up size → Type 0)
      → Sharing up size
      → States (branches id arms)
      → Stream
      → Type 0
  AskDrains id arms i Q s ss ends =
      (s' : Sharing up size) × (ss' : States (branches id arms)) × Eventually
        (λ n. ask up size (branches id arms) i n s ss) (ok (none, (s', ss')))
      × AllIdle id arms ss'
      × Q s'
  AskDrains id arms i Q s ss (fails e) =
      Eventually (λ n. ask up size (branches id arms) i n s ss) (err e)
  AskDrains id arms i Q s ss (yields y ys) =
      (s' : Sharing up size) × (ss' : States (branches id arms)) × Eventually
        (λ n. ask up size (branches id arms) i n s ss) (ok (some y, (s', ss')))
      × (s'.done ≡ false)
      × AskDrains id arms i Q s' ss' ys

  module _ (id : ℕ) (a : Arm) (arms : List Arm) (Q : Sharing up size → Type 0) where
    abbrev b : Branch (Sharing up size)
    b = a.branch id

    here :
        (s : Sharing up size) (own z : b.op.State) (ss : States (branches (suc id) arms))
        (ys : Stream)
        → b.give s own ≡ z
        → AllIdle (suc id) arms ss
        → BranchDrains up size b (Serves.Idle (a.serves id)) Q z ys
        → AskDrains id (a ∷ arms) zero Q s (own, ss) ys
    unfolding ask
    here s own z ss ends q r (z', e, i, h) = (
      b.shared z',
      (z', ss),
      Eventually-bind (λ n. b.op.next n (b.give s own))
          (λ n (x, own'). ok (x, (b.shared own', (own', ss)))) (none, z')
          (ok (none, (b.shared z', (z', ss))))
          (subst (λ v. Eventually (λ n. b.op.next n v) (ok (none, z'))) (sym q) e)
          (Eventually-const _),
      (i, r),
      h,
    )
    here s own z ss (fails x) q r e =
        Eventually-err (λ n. b.op.next n (b.give s own))
          (λ n (x, own'). ok (x, (b.shared own', (own', ss)))) x
          (subst (λ v. Eventually (λ n. b.op.next n v) (err x)) (sym q) e)
    here s own z ss (yields y ys) q r (z', e, d, k) = (
      b.shared z',
      (z', ss),
      Eventually-bind (λ n. b.op.next n (b.give s own))
          (λ n (x, own'). ok (x, (b.shared own', (own', ss)))) (some y, z')
          (ok (some y, (b.shared z', (z', ss))))
          (subst (λ v. Eventually (λ n. b.op.next n v) (ok (some y, z'))) (sym q) e)
          (Eventually-const _),
      d,
      here (b.shared z') z' z' ss ys (Serves.give-shared (a.serves id) z') r k,
    )

    there :
        (i : ℕ) (s : Sharing up size) (own : b.op.State) (ss : States (branches (suc id) arms))
        (ys : Stream)
        → Serves.Idle (a.serves id) own
        → AskDrains (suc id) arms i Q s ss ys
        → AskDrains id (a ∷ arms) (suc i) Q s (own, ss) ys
    unfolding ask
    there i s own ss ends o (s', ss', e, r, h) = (
      s',
      (own, ss'),
      Eventually-bind (λ n. ask up size (branches (suc id) arms) i n s ss)
          (λ n (x, (s', ss')). ok (x, (s', (own, ss')))) (none, (s', ss'))
          (ok (none, (s', (own, ss')))) e (Eventually-const _),
      (o, r),
      h,
    )
    there i s own ss (fails x) o e =
        Eventually-err (λ n. ask up size (branches (suc id) arms) i n s ss)
          (λ n (x, (s', ss')). ok (x, (s', (own, ss')))) x e
    there i s own ss (yields y ys) o (s', ss', e, d, k) = (
      s',
      (own, ss'),
      Eventually-bind (λ n. ask up size (branches (suc id) arms) i n s ss)
          (λ n (x, (s', ss')). ok (x, (s', (own, ss')))) (some y, (s', ss'))
          (ok (some y, (s', (own, ss')))) e (Eventually-const _),
      d,
      there i s' own ss' ys o k,
    )

  -- The branch at the index i yields all for what its tine hands out.
  pub ask_drains :
      (id : ℕ) (arms : List Arm) (i j : ℕ) (s : Sharing up size) (ss : States (branches id arms))
      (xs : List Stack) (r : Result (Sharing up size))
      → i < length arms
      → j ≡ id + i
      → AllIdle id arms ss
      → Feeds up size j s xs r
      → AskDrains id arms i
          (λ s'. ok s' ≡ r)
          s
          ss
          (yields_for up size (yield_at arms i) xs (ended up size r))
  ask_drains id [] i j s ss xs r l q o k = absurd (omega arith)
  ask_drains id (a ∷ arms) zero j s (own, ss) xs r l q (o, os) k =
      here id a arms (λ s'. ok s' ≡ r) s own (Branch.give (a.branch id) s own) ss
        (yields_for up size a.yield xs (ended up size r)) refl os
        (fed up size id (a.branch id) a.yield (a.serves id) (Branch.give (a.branch id) s own) s xs r
          (Serves.gives (a.serves id) s own o) (Serves.shared-give (a.serves id) s own)
          (subst (λ v. Feeds up size v s xs r) (ground (arith, q)) k))
  ask_drains id (a ∷ arms) (suc i) j s (own, ss) xs r l q (o, os) k =
      there id a arms (λ s'. ok s' ≡ r) i s own ss
        (yields_for up size (yield_at arms i) xs (ended up size r)) o
        (ask_drains (suc id) arms i j s ss xs r (omega arith) (omega (arith, q)) os k)
