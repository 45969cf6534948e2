-- ===== src/Op/Closure/Computes.antt =====
-- What op_tr_closure computes.
use mathlib.Core.Path.{subst}
use dwgrep.Base.{
  ℕ, zero, suc, ◌≡◌, refl, sym, ap, Bool, true, false, List, [], ◌∷◌, Option, none, some,
  if◌then◌else◌,
}
use dwgrep.Constant.{Domains}
use dwgrep.Value.{TypeCodes}
use dwgrep.Value.Compare.{ForeignCmp}
use dwgrep.Stack.{Stack, ok, err, Error}
use dwgrep.Op.{Op, Answer}
use dwgrep.Op.Stream.{
  Stream, ends, fails, yields, append, bind, Eventually, Eventually-at, Eventually-const,
  Eventually-round, Eventually-throw, Eventually-suc, Drains, Drains-at, Drains-step, Computes,
}
use dwgrep.Op.Over.{Over, Over-Computes}
use dwgrep.Op.Closure.{
  ClosureKind, star, plus, ClosureState, state, is_seen, yield_and_cache, from_op, from_upstream,
  closure_loop, op_tr_closure,
}
use dwgrep.Op.Closure.Explore.{sweep, explore, finishes, closure_of, closes}

-- A choice of streams and of conditions by one test
either_way :
    (D : Stream → Type 0) (b f g : Bool) (xs ys : Stream)
    → (if b then f else g) ≡ true
    → (b ≡ true → f ≡ true → D xs)
    → (b ≡ false → g ≡ true → D ys)
    → D (if b then xs else ys)
either_way D true f g xs ys h k l = k refl h
either_way D false f g xs ys h k l = l refl h

module _ (t : TypeCodes) (ds : Domains) (foreign : ForeignCmp) (kind : ClosureKind)
    (op up : Op) where
  abbrev State : Type 0
  State = ClosureState op.State up.State

  abbrev loop : ℕ → State → Answer State
  loop = closure_loop t ds foreign kind op up

  abbrev over : Op
  over = op_tr_closure t ds foreign kind op up

  draining :
      (seen stks : List Stack) (i : op.State) (u : up.State) (a : Option Stack × op.State)
      (r : Answer State)
      → Eventually (λ n. op.next n i) (ok a)
      → Eventually (λ n. from_op t ds foreign kind op up (loop n) seen stks u a) r
      → Eventually (λ n. loop n (state seen stks false i u)) r
  unfolding closure_loop
  draining seen stks i u a r e h =
      Eventually-round (λ n. loop n (state seen stks false i u)) (λ n. op.next n i)
        (λ n. from_op t ds foreign kind op up (loop n) seen stks u) a r (λ n. refl) e h

  op_throws :
      (seen stks : List Stack) (i : op.State) (u : up.State) (e : Error)
      → Eventually (λ n. op.next n i) (err e)
      → Eventually (λ n. loop n (state seen stks false i u)) (err e)
  unfolding closure_loop
  op_throws seen stks i u e h =
      Eventually-throw (λ n. loop n (state seen stks false i u)) (λ n. op.next n i)
        (λ n. from_op t ds foreign kind op up (loop n) seen stks u) e (λ n. refl) h

  pulled :
      (seen : List Stack) (i : op.State) (u : up.State) (a : Option Stack × up.State)
      (r : Answer State)
      → Eventually (λ n. up.next n u) (ok a)
      → Eventually (λ n. from_upstream t ds foreign kind op up kind (loop n) i a) r
      → Eventually (λ n. loop n (state seen [] true i u)) r
  unfolding closure_loop
  pulled seen i u a r e h =
      Eventually-round (λ n. loop n (state seen [] true i u)) (λ n. up.next n u)
        (λ n. from_upstream t ds foreign kind op up kind (loop n) i) a r (λ n. refl) e h

  pulled_as :
      (k : ClosureKind)
      → kind ≡ k
      → (seen : List Stack) (i : op.State) (u : up.State) (a : Option Stack × up.State)
        (r : Answer State)
      → Eventually (λ n. up.next n u) (ok a)
      → Eventually (λ n. from_upstream t ds foreign kind op up k (loop n) i a) r
      → Eventually (λ n. loop n (state seen [] true i u)) r
  pulled_as k q seen i u a r e h = pulled seen i u a r e (
      subst (λ z. Eventually (λ n. from_upstream t ds foreign kind op up z (loop n) i a) r) (sym q)
        h)

  up_throws :
      (seen : List Stack) (i : op.State) (u : up.State) (e : Error)
      → Eventually (λ n. up.next n u) (err e)
      → Eventually (λ n. loop n (state seen [] true i u)) (err e)
  unfolding closure_loop
  up_throws seen i u e h =
      Eventually-throw (λ n. loop n (state seen [] true i u)) (λ n. up.next n u)
        (λ n. from_upstream t ds foreign kind op up kind (loop n) i) e (λ n. refl) h

  visiting :
      (seen stks : List Stack) (x : Stack) (i : op.State) (u : up.State) (r : Answer State)
      → Eventually (λ n. loop n (state seen stks false (op.set_next x i) u)) r
      → Eventually (λ n. loop n (state seen (x ∷ stks) true i u)) r
  unfolding closure_loop
  visiting seen stks x i u r h = Eventually-suc (λ n. loop n (state seen (x ∷ stks) true i u)) r h

  module _ (h : Stack → Stream) (c : Computes op h) where
    -- A state in which the op has nothing left, and what the chain yields from there.
    abbrev Goes :
        up.State
        → (List Stack → List Stack → Stream)
        → Stream
        → (State → Type 0)
        → List Stack
        → List Stack
        → Type 0
    Goes u go ys P seen stks =
        (i : op.State)
        → c.Ready i
        → Drains over (state seen stks true i u) (append (go seen stks) ys) P

    sweeps :
        (zs : Stream) (go : List Stack → List Stack → Stream) (fin : List Stack → List Stack → Bool)
        (seen stks : List Stack) (i : op.State) (u : up.State) (ys : Stream) (P : State → Type 0)
        → ((seen' stks' : List Stack) → fin seen' stks' ≡ true → Goes u go ys P seen' stks')
        → Drains op i zs c.Ready
        → sweep t ds foreign (λ e. true) (λ y b. b) fin zs seen stks ≡ true
        → Drains over
            (state seen stks false i u)
            (append (sweep t ds foreign fails yields go zs seen stks) ys)
            P
    unfolding sweep yield_and_cache
    sweeps ends go fin seen stks i u ys P k (i', e, ready) f =
        Drains-step over (state seen stks false i u) (state seen stks true i' u)
          (append (go seen stks) ys) P (λ r l. draining seen stks i u (none, i') r e l)
          (k seen stks f i' ready)
    sweeps (fails x) go fin seen stks i u ys P k d f = op_throws seen stks i u x d
    sweeps (yields y zs) go fin seen stks i u ys P k (i', e, d) f =
        either_way (λ zs. Drains over (state seen stks false i u) (append zs ys) P)
          (is_seen t ds foreign y seen) _ _ _ _ f
          (λ old g.
            Drains-step over (state seen stks false i u) (state seen stks false i' u) _ P
              (λ r l. draining seen stks i u (some y, i') r e (rw old l))
              (sweeps zs go fin seen stks i' u ys P k d g))
          (λ new g. (
            state (y ∷ seen) (y ∷ stks) false i' u,
            draining seen stks i u (some y, i') _ e (rw new (Eventually-const _)),
            sweeps zs go fin (y ∷ seen) (y ∷ stks) i' u ys P k d g,
          ))

    explores :
        (n : ℕ) (seen stks : List Stack) (u : up.State) (ys : Stream) (P : State → Type 0)
        → ((seen' : List Stack) → Goes u (λ s l. ends) ys P seen' [])
        → finishes t ds foreign h n seen stks ≡ true
        → Goes u (explore t ds foreign h n) ys P seen stks
    unfolding explore finishes
    explores zero seen stks u ys P k f i ready = absurd (cc)
    explores (suc n) seen [] u ys P k f i ready = k seen i ready
    explores (suc n) seen (x ∷ stks) u ys P k f i ready =
        Drains-step over (state seen (x ∷ stks) true i u)
          (state seen stks false (op.set_next x i) u) _ P (λ r l. visiting seen stks x i u r l)
          (sweeps (h x) (explore t ds foreign h n) (finishes t ds foreign h n) seen stks
            (op.set_next x i) u ys P (λ seen' stks' g. explores n seen' stks' u ys P k g)
            (c.runs x i ready) f)

    searches :
        (k : ClosureKind) (q : kind ≡ k) (n : ℕ) (x : Stack) (seen : List Stack) (i : op.State)
        (u u' : up.State) (ys : Stream) (P : State → Type 0)
        → c.Ready i
        → Eventually (λ n. up.next n u) (ok (some x, u'))
        → ((seen' : List Stack) → Goes u' (λ s l. ends) ys P seen' [])
        → closes t ds foreign h k n x ≡ true
        → Drains over (state seen [] true i u) (append (closure_of t ds foreign h k n x) ys) P
    unfolding explore finishes yield_and_cache
    searches star q n x seen i u u' ys P ready e k f = (
      state (x ∷ []) (x ∷ []) true i u',
      pulled_as star q seen i u (some x, u') _ e (Eventually-const _),
      explores n (x ∷ []) (x ∷ []) u' ys P k f i ready,
    )
    searches plus q zero x seen i u u' ys P ready e k f = absurd (cc)
    searches plus q (suc n) x seen i u u' ys P ready e k f =
        Drains-step over (state seen [] true i u) (state [] [] false (op.set_next x i) u') _ P
          (λ r l. pulled_as plus q seen i u (some x, u') r e l)
          (sweeps (h x) (explore t ds foreign h n) (finishes t ds foreign h n) [] []
            (op.set_next x i) u' ys P (λ seen' stks' g. explores n seen' stks' u' ys P k g)
            (c.runs x i ready) f)

    module _ (rounds : Stack → ℕ)
        (closed : (x : Stack) → closes t ds foreign h kind (rounds x) x ≡ true) where
      abbrev closure : Stack → Stream
      closure x = closure_of t ds foreign h kind (rounds x) x

      -- Between two stacks no stack is left to visit and the op has nothing left.
      closure-Over : Over up over closure
      closure-Over = record {
        Idle =
            λ u s. (seen : List Stack) × (i : op.State) × (s ≡ state seen [] true i u) × c.Ready i;
        inits = ([], op.init, refl, c.starts);
        sets = λ x u s (seen, i, q, ready). (seen, i, ap (over.set_next x) q, ready);
        stops = λ u u' s (seen, i, q, ready) e. (
          state [] [] true i u',
          Eventually-at over (sym q) (
              pulled seen i u (none, u') (ok (none, state [] [] true i u')) e (Eventually-const _)),
          ([], i, refl, ready),
        );
        throws = λ u s e (seen, i, q, ready) l. Eventually-at over (sym q) (up_throws seen i u e l);
        goes = λ u u' s x ys P (seen, i, q, ready) e k.
            Drains-at over (append (closure x) ys) P (sym q) (
              searches kind refl (rounds x) x seen i u u' ys P ready e
                (λ seen' i' ready'. k (state seen' [] true i' u') (seen', i', refl, ready'))
                (closed x));
      }

      -- Where the search from each stack ends after some number of visits, `op_tr_closure` yields
      -- the closure of each stack that the upstream computes, in their order, and each as if
      -- nothing had been seen before: for `*` the stack itself and then the stacks found from it,
      -- for `+` the stacks found from it, those of each visit in the order of the op, and the last
      -- stack found is visited first.
      pub op_tr_closure-Computes :
          (g : Stack → Stream) → Computes up g → Computes over (λ x. bind (g x) closure)
      op_tr_closure-Computes g d = Over-Computes up over closure closure-Over g d
