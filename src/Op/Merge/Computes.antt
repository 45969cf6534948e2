-- ===== src/Op/Merge/Computes.antt =====
-- What op_merge yields.
use mathlib.Core.List.{append-nil}
use mathlib.Core.Path.{subst}
use dwgrep.Base.{
  ℕ, zero, suc, ◌<◌, ◌≤◌, ◌≡◌, refl, sym, arith, true, false, List, [], ◌∷◌, ◌++◌, none, some,
  length, set,
}
use dwgrep.Stack.{Stack, Result, ok, err}
use dwgrep.Op.{Op}
use dwgrep.Op.Stream.{
  Stream, ends, fails, yields, append, append_assoc, append-ends, Eventually, Drains, Drains-weaken,
  Computes,
}
use dwgrep.Op.Merge.{
  States, inits, Sharing, fresh, tine_next, copies, all_null, set_upstream, MergeState,
}
use dwgrep.Op.Merge.File.{
  Holds, following, Holds-copies, Holds-get, Holds-set, Holds-empty, Holds-again, all_null-copies,
}
use dwgrep.Op.Merge.Branches.{Feeds, yields_for}
use dwgrep.Op.Merge.Arms.{Arm, yield_at, AllIdle, AllIdle-inits}
use dwgrep.Op.Merge.Turns.{bs, merge, Finished, after_done, asks, asks_in_vain}
use dwgrep.Op.Merge.Order.{preceding, to_each, merged, last_of, last_of-preceding}
use dwgrep.Op.Merge.Handed.{
  size, Left, emptied, yields_for-eq, yields_for-append, handed, refused, run_turn, throw_turn,
}

following_lt : (size i : ℕ) → i < size → following size i < size
following_lt size i l = ground arith

module _ (up : Op) (m : ℕ) (arms : List (Arm up (suc (suc m))))
    (full : length arms ≡ suc (suc m)) where
  abbrev N : ℕ
  N = suc (suc m)

  -- From a state where there are no copies, and the tine of the branch is asked for another stack.
  abbrev Pulls : Stream → Type 0
  Pulls xs =
      (i : ℕ) (s t : Sharing up N) (ss : States (bs up N arms)) (pre : List Stack)
      → i < N
      → AllIdle up N 0 arms ss
      → s.done ≡ false
      → t.done ≡ false
      → all_null t.file ≡ true
      → Drains up t.upstream xs (λ u. Unit {0})
      → ((ws : List Stack) (r : Result (Sharing up N))
          → Feeds up N i t ws r
          → Feeds up N i s (pre ++ ws) r)
      → Left up m arms i s ss
          (append (yields_for up N (yield_at up N arms i) pre ends) (merged up N arms i xs))

  module _ (xs : Stream) (pulls_xs : Pulls xs) where
    holds :
        (k i : ℕ) (x : Stack) (s : Sharing up N) (ss : States (bs up N arms))
        → i < N
        → AllIdle up N 0 arms ss
        → s.done ≡ false
        → suc k ≤ N
        → Holds N i (suc k) x s.file
        → Drains up s.upstream xs (λ u. Unit {0})
        → Left up m arms i s ss
            (append (to_each up N arms (suc k) i x) (merged up N arms (last_of N k i) xs))
    holds zero i x s ss l o d c h k =
        pulls_xs i s (emptied up m arms i s) ss (x ∷ []) l o d d
          (Holds-empty N i x (set s.file i none) l (Holds-set N i x s.file l 0 c h)) k
          (λ ws r f. (emptied up m arms i s, handed up m arms i 0 x s l d h, d, f))
    holds (suc k) i x s ss l o d c h e = subst (Left up m arms i s ss) eq (
        run_turn up m arms full i s ss l o d (x ∷ []) (emptied up m arms i t) rest
          (
            t,
            handed up m arms i (suc k) x s l d h,
            d,
            refused up m arms i k x t l d c (Holds-set N i x s.file l (suc k) c h),
          )
          (λ ss' o'.
            holds k (following N i) x (emptied up m arms i t) ss' (following_lt N i l) o' d
              (omega (arith, c)) h2 e))
      where
        t : Sharing up N
        t = emptied up m arms i s

        rest : Stream
        rest =
            append (to_each up N arms (suc k) (following N i) x)
              (merged up N arms (last_of N k (following N i)) xs)

        h2 : Holds N (following N i) (suc k) x (set t.file i none)
        h2 = Holds-again N i x t.file l (suc k) c (Holds-set N i x s.file l (suc k) c h)

        eq :
            append (append (yield_at up N arms i x) ends) rest
            ≡ append
                (to_each up N arms (suc (suc k)) i x)
                (merged up N arms (last_of N (suc k) i) xs)
        eq =
            rw (append-ends (yield_at up N arms i x))
              (sym (append_assoc (yield_at up N arms i x) _ _))

  -- The copies that the upstream's stack x is made into, without that of the branch at i
  abbrev handed_out : ℕ → Stack → Sharing up N → up.State → Sharing up N
  handed_out i x t u = record t { file = set (copies N (some x)) i none; upstream = u }

  rotate :
      (i : ℕ) (x : Stack) (ws : List Stack) (ys : Stream)
      → i < N
      → append (yields_for up N (yield_at up N arms i) (ws ++ x ∷ []) ends) (
          append
            (to_each up N arms (suc m) (following N i) x)
            (merged up N arms (last_of N m (following N i)) ys))
        ≡ append (yields_for up N (yield_at up N arms i) ws ends) (merged up N arms i (yields x ys))
  rotate i x ws ys l =
      rw
        (
          yields_for-append up N g ws (x ∷ []) ends,
          append-ends (g x),
          yields_for-eq up N g ws (g x),
          append_assoc (yields_for up N g ws ends) (g x) (
              append (to_each up N arms (suc m) (following N i) x)
                (merged up N arms (last_of N m (following N i)) ys)),
          last_of-preceding m i l,
          append_assoc (g x) (to_each up N arms (suc m) (following N i) x)
              (merged up N arms (preceding N i) ys),
        )
        refl
    where
      g : Stack → Stream
      g = yield_at up N arms i

  pulls : (xs : Stream) → Pulls xs
  pulls ends i s t ss pre l o d f n (u, e, p) k =
      subst
        (λ ws. Left up m arms i s ss (append (yields_for up N (yield_at up N arms i) ws ends) ends))
        (append-nil pre)
        (run_turn up m arms full i s ss l o d (pre ++ []) (record t { done = true; upstream = u })
          ends (k [] (ok (record t { done = true; upstream = u })) (asks up N i t f (none, u) n e))
          (λ ss' o'.
            after_done up N arms (following N i) (record t { done = true; upstream = u }) ss' refl))
  pulls (fails x) i s t ss pre l o d f n e k =
      subst
        (λ ws.
          Left up m arms i s ss (append (yields_for up N (yield_at up N arms i) ws ends) (fails x)))
        (append-nil pre)
        (throw_turn up m arms full i s ss l o d (pre ++ []) x
          (k [] (err x) (asks_in_vain up N i t f x n e)))
  pulls (yields x xs) i s t ss pre l o d f n (u, e, k') k =
      subst (Left up m arms i s ss) (rotate i x pre xs l) (
        run_turn up m arms full i s ss l o d (pre ++ x ∷ []) (emptied up m arms i t1)
          (append (to_each up N arms (suc m) (following N i) x)
            (merged up N arms (last_of N m (following N i)) xs))
          (k (x ∷ []) (ok (emptied up m arms i t1))
            (t1, taken, f, refused up m arms i m x t1 l f (omega arith) h))
          (λ ss' o'.
            holds xs (pulls xs) m (following N i) x (emptied up m arms i t1) ss'
              (following_lt N i l) o' f (omega arith)
              (Holds-again N i x t1.file l (suc m) (omega arith) h) k'))
    where
      t1 : Sharing up N
      t1 = handed_out i x t u

      h : Holds N (following N i) (suc m) x t1.file
      h = Holds-set N i x (copies N (some x)) l (suc m) (omega arith) (Holds-copies N i x [] l)

      taken : Eventually (λ n. tine_next up N i n t) (ok (some x, t1))
      taken =
          subst (λ p. Eventually (λ n. tine_next up N i n t) (ok (p, t1)))
            (Holds-get N i x (copies N (some x)) l (suc m) (Holds-copies N i x [] l))
            (asks up N i t f (some x, u) n e)

  merge_drains :
      (f : Stack → Stream) (c : Computes up f) (x : Stack)
      → Drains
          (merge up N arms)
          ((merge up N arms).set_next x (merge up N arms).init)
          (merged up N arms 0 (f x))
          (Finished up N arms)
  merge_drains f c x =
      pulls (f x) 0 (set_upstream up N x (fresh up N)) (set_upstream up N x (fresh up N))
        (inits (bs up N arms)) [] (omega arith) (AllIdle-inits up N 0 arms) refl refl
        (all_null-copies N)
        (Drains-weaken up (up.set_next x up.init) (f x) c.Ready (λ u. Unit {0}) (λ u r. tt)
          (c.runs x up.init c.starts))
        (λ ws r k. k)

  no_more :
      (y : Stack) (s : MergeState up N (bs up N arms))
      → Finished up N arms s
      → Drains (merge up N arms) ((merge up N arms).set_next y s) ends (Finished up N arms)
  no_more y (i, (s, ss)) d = after_done up N arms i (set_upstream up N y s) ss d

-- A merge with two branches or more, each of which serves its tine, hands for each stack that its upstream
-- yields a copy to every branch, and yields what they yield for it, in the order of the branches from
-- the first one on for the first stack, and for each later stack from the branch on that was the last
-- for the stack before. After the end the merge yields nothing for any later stack of its origin.
pub op_merge-Drains :
    (up : Op) (f : Stack → Stream) (c : Computes up f) (m : ℕ) (arms : List (Arm up (suc (suc m))))
    (x y : Stack)
    → length arms ≡ suc (suc m)
    → Drains
        (merge up (suc (suc m)) arms)
        ((merge up (suc (suc m)) arms).set_next x (merge up (suc (suc m)) arms).init)
        (merged up (suc (suc m)) arms 0 (f x))
        (λ s.
          Drains
            (merge up (suc (suc m)) arms)
            ((merge up (suc (suc m)) arms).set_next y s)
            ends
            (Finished up (suc (suc m)) arms))
op_merge-Drains up f c m arms x y full =
    Drains-weaken (merge up (suc (suc m)) arms)
      ((merge up (suc (suc m)) arms).set_next x (merge up (suc (suc m)) arms).init)
      (merged up (suc (suc m)) arms 0 (f x)) (Finished up (suc (suc m)) arms)
      (λ s.
        Drains (merge up (suc (suc m)) arms) ((merge up (suc (suc m)) arms).set_next y s) ends
          (Finished up (suc (suc m)) arms))
      (no_more up m arms full y) (merge_drains up m arms full f c x)
