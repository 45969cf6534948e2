-- ===== src/Op/Merge/Handed.antt =====
-- The turns of the branches of a merge, by what the tines hand out in them.
use mathlib.Core.Path.{subst}
use dwgrep.Base.{
  ℕ, suc, ◌<◌, ◌≤◌, ◌≡◌, ◌==◌, refl, sym, ap, ◌∙◌, arith, false, if◌then◌else◌, List, [], ◌∷◌, ◌++◌,
  none, some, length, set,
}
use dwgrep.Stack.{Stack, ok, err, Error}
use dwgrep.Op.{Op}
use dwgrep.Op.Stream.{Stream, ends, fails, append, append_assoc, append-ends, Eventually, Drains}
use dwgrep.Op.Merge.{States, Sharing, tine_next, next_idx}
use dwgrep.Op.Merge.File.{Holds, following, Holds-get, Holds-none, Holds-some, Holds-full}
use dwgrep.Op.Merge.Branches.{Feeds, yields_for}
use dwgrep.Op.Merge.Arms.{Arm, yield_at, AllIdle, ask_drains, length-branches}
use dwgrep.Op.Merge.Turns.{bs, merge, Finished, turn, takes}

pub yields_for-eq :
    (up : Op) (size : ℕ) (g : Stack → Stream) (ws : List Stack) (ys : Stream)
    → yields_for up size g ws ys ≡ append (yields_for up size g ws ends) ys
yields_for-eq up size g [] ys = refl
yields_for-eq up size g (w ∷ ws) ys =
    ap (append (g w)) (yields_for-eq up size g ws ys)
    ∙ sym (append_assoc (g w) (yields_for up size g ws ends) ys)

pub yields_for-append :
    (up : Op) (size : ℕ) (g : Stack → Stream) (ws vs : List Stack) (ys : Stream)
    → yields_for up size g (ws ++ vs) ys ≡ yields_for up size g ws (yields_for up size g vs ys)
yields_for-append up size g [] vs ys = refl
yields_for-append up size g (w ∷ ws) vs ys =
    ap (append (g w)) (yields_for-append up size g ws vs ys)

module _ (up : Op) (m : ℕ) (arms : List (Arm up (suc (suc m)))) where
  abbrev pub size : ℕ
  size = suc (suc m)

  abbrev pub Left : ℕ → Sharing up size → States (bs up size arms) → Stream → Type 0
  Left i s ss ys = Drains (merge up size arms) (i, (s, ss)) ys (Finished up size arms)

  abbrev pub emptied : ℕ → Sharing up size → Sharing up size
  emptied i s = record s { file = set s.file i none }

  -- The tine of a branch that has a copy of x hands it out,
  pub handed :
      (i k : ℕ) (x : Stack) (s : Sharing up size)
      → i < size
      → s.done ≡ false
      → Holds size i (suc k) x s.file
      → Eventually (λ n. tine_next up size i n s) (ok (some x, emptied i s))
  handed i k x s l d h =
      subst (λ p. Eventually (λ n. tine_next up size i n s) (ok (p, emptied i s)))
        (Holds-get size i x s.file l k h) (takes up size i s d (Holds-full size i x s.file l k h))

  -- and then nothing, as long as another branch has a copy.
  pub refused :
      (i k : ℕ) (x : Stack) (s : Sharing up size)
      → i < size
      → s.done ≡ false
      → suc (suc k) ≤ size
      → Holds size (following size i) (suc k) x s.file
      → Eventually (λ n. tine_next up size i n s) (ok (none, emptied i s))
  refused i k x s l d g h =
      subst (λ p. Eventually (λ n. tine_next up size i n s) (ok (p, emptied i s)))
        (Holds-none size i x s.file l (suc k) g h)
        (takes up size i s d (Holds-some size i x s.file l k h))

  pub ok-injective : {A : Type 0} → (a b : A) → ok a ≡ ok b → a ≡ b
  ok-injective a b q = cc

  module _ (full : length arms ≡ size) (i : ℕ) (s : Sharing up size) (ss : States (bs up size arms))
      (l : i < size) (o : AllIdle up size 0 arms ss) (d : s.done ≡ false) where
    abbrev pub g : Stack → Stream
    g = yield_at up size arms i

    next_idx-eq : next_idx up size (bs up size arms) i ≡ following size i
    next_idx-eq = ap (λ z. if suc i == z then 0 else suc i) (length-branches up size 0 arms ∙ full)

    -- The turn of a branch that is handed the stacks of ws
    pub run_turn :
        (ws : List Stack) (t : Sharing up size) (zs : Stream)
        → Feeds up size i s ws (ok t)
        → ((ss' : States (bs up size arms))
            → AllIdle up size 0 arms ss'
            → Left (following size i) t ss' zs)
        → Left i s ss (append (yields_for up size g ws ends) zs)
    run_turn ws t zs f k =
        turn up size arms i s ss (yields_for up size g ws ends) zs (λ v. ok v ≡ ok t)
          (Finished up size arms) d
          (ask_drains up size 0 arms i i s ss ws (ok t) (rw full l) (omega arith) o f)
          (λ t' ss' o' q.
            subst (λ j. Left j t' ss' zs) (sym next_idx-eq)
              (subst (λ v. Left (following size i) v ss' zs) (sym (ok-injective t' t q))
                (k ss' o')))

    -- The same when the upstream throws an exception in it.
    pub throw_turn :
        (ws : List Stack) (e : Error)
        → Feeds up size i s ws (err e)
        → Left i s ss (append (yields_for up size g ws ends) (fails e))
    throw_turn ws e f =
        subst (Left i s ss)
          (append-ends (yields_for up size g ws (fails e)) ∙ yields_for-eq up size g ws (fails e))
          (turn up size arms i s ss (yields_for up size g ws (fails e)) ends (λ v. ok v ≡ err e)
            (Finished up size arms) d
            (ask_drains up size 0 arms i i s ss ws (err e) (rw full l) (omega arith) o f)
            (λ t' ss' o' q. absurd cc))
