-- ===== src/Op/Merge/Turns.antt =====
-- A turn of a branch in the loop of op_merge::next, and the tine that the branch asks.
use dwgrep.Base.{ℕ, zero, suc, ◌≤◌, ◌≡◌, refl, arith, true, false, List, Option, none, some}
use dwgrep.Stack.{Stack, ok, err, Error, ◌>>=◌}
use dwgrep.Op.{Op}
use dwgrep.Op.Stream.{
  Stream, ends, fails, yields, append, Eventually, Eventually-const, Eventually-bind,
  Eventually-err, Eventually-eq, Eventually-round, Eventually-throw, Drains, Drains-step,
}
use dwgrep.Op.Merge.{
  Branch, States, Sharing, tine_next, tine_pull, moved, all_null, ask, merge_loop, merge_step,
  op_merge, MergeState, next_idx,
}
use dwgrep.Op.Merge.Arms.{Arm, branches, AllIdle, AskDrains}

module _ (up : Op) (size : ℕ) (arms : List (Arm up size)) where
  abbrev pub bs : List (Branch (Sharing up size))
  bs = branches up size 0 arms

  abbrev pub merge : Op
  merge = op_merge up size bs

  abbrev pub Finished : MergeState up size bs → Type 0
  Finished (i, (s, ss)) = s.done ≡ true

  going :
      (n i : ℕ) (s : Sharing up size) (ss : States bs)
      → s.done ≡ false
      → merge_loop up size bs (suc n) (i, (s, ss))
        ≡ (ask up size bs i n s ss >>= merge_step up size bs (merge_loop up size bs n) i)
  unfolding merge_loop
  going n i s ss d = rw d refl

  stopped :
      (n i : ℕ) (s : Sharing up size) (ss : States bs)
      → s.done ≡ true
      → 1 ≤ n
      → merge_loop up size bs n (i, (s, ss)) ≡ ok (none, (i, (s, ss)))
  unfolding merge_loop
  stopped zero i s ss d h = absurd (omega arith)
  stopped (suc n) i s ss d h = rw d refl

  -- When the shared state is done, there are no more stacks.
  pub after_done :
      (i : ℕ) (s : Sharing up size) (ss : States bs)
      → s.done ≡ true
      → Drains merge (i, (s, ss)) ends Finished
  after_done i s ss d = ((i, (s, ss)), (1, λ n h. stopped n i s ss d h), d)

  -- What the branch yields, and then what the merge yields from the next branch on.
  pub turn :
      (i : ℕ) (s : Sharing up size) (ss : States bs) (ys zs : Stream) (Q : Sharing up size → Type 0)
      (P : MergeState up size bs → Type 0)
      → s.done ≡ false
      → AskDrains up size 0 arms i Q s ss ys
      → ((s' : Sharing up size) (ss' : States bs)
          → AllIdle up size 0 arms ss'
          → Q s'
          → Drains merge (next_idx up size bs i, (s', ss')) zs P)
      → Drains merge (i, (s, ss)) (append ys zs) P
  turn i s ss ends zs Q P d (s', ss', e, o, q) k =
      Drains-step merge (i, (s, ss)) (next_idx up size bs i, (s', ss')) zs P
        (λ r h.
          Eventually-round (λ n. merge_loop up size bs n (i, (s, ss)))
            (λ n. ask up size bs i n s ss) (λ n. merge_step up size bs (merge_loop up size bs n) i)
            (none, (s', ss')) r (λ n. going n i s ss d) e h)
        (k s' ss' o q)
  turn i s ss (fails x) zs Q P d e k =
      Eventually-throw (λ n. merge_loop up size bs n (i, (s, ss))) (λ n. ask up size bs i n s ss)
        (λ n. merge_step up size bs (merge_loop up size bs n) i) x (λ n. going n i s ss d) e
  turn i s ss (yields y ys) zs Q P d (s', ss', e, d', h) k = (
    (i, (s', ss')),
    Eventually-round (λ n. merge_loop up size bs n (i, (s, ss))) (λ n. ask up size bs i n s ss)
        (λ n. merge_step up size bs (merge_loop up size bs n) i) (some y, (s', ss'))
        (ok (some y, (i, (s', ss')))) (λ n. going n i s ss d) e (Eventually-const _),
    turn i s' ss' ys zs Q P d' h k,
  )

module _ (up : Op) (size i : ℕ) (s : Sharing up size) (d : s.done ≡ false) where
  -- A tine takes its copy,
  pub takes :
      all_null s.file ≡ false → Eventually (λ n. tine_next up size i n s) (moved up size i s)
  unfolding tine_next
  takes h = Eventually-eq _ (λ n. moved up size i s) _ (λ n. rw (d, h) refl) (Eventually-const _)

  -- or asks the upstream of the merge.
  pub asks :
      (a : Option Stack × up.State)
      → all_null s.file ≡ true
      → Eventually (λ n. up.next n s.upstream) (ok a)
      → Eventually (λ n. tine_next up size i n s) (tine_pull up size i s a)
  unfolding tine_next
  asks a h e =
      Eventually-eq _ (λ n. up.next n s.upstream >>= tine_pull up size i s) _ (λ n. rw (d, h) refl)
        (Eventually-bind (λ n. up.next n s.upstream) (λ n. tine_pull up size i s) a _ e
          (Eventually-const _))

  pub asks_in_vain :
      (x : Error)
      → all_null s.file ≡ true
      → Eventually (λ n. up.next n s.upstream) (err x)
      → Eventually (λ n. tine_next up size i n s) (err x)
  unfolding tine_next
  asks_in_vain x h e =
      Eventually-eq _ (λ n. up.next n s.upstream >>= tine_pull up size i s) _ (λ n. rw (d, h) refl)
        (Eventually-err (λ n. up.next n s.upstream) (λ n. tine_pull up size i s) x e)
