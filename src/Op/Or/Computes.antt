-- ===== src/Op/Or/Computes.antt =====
-- What op_or computes.
use dwgrep.Base.{
  ℕ, zero, suc, ◌<◌, ◌≡◌, refl, ap, sym, arith, true, false, List, [], ◌∷◌, length, Option, none,
  some,
}
use dwgrep.Stack.{Stack, Result, ok, err, ◌>>=◌}
use dwgrep.Op.{Op, Answer}
use dwgrep.Op.Stream.{
  Stream, ends, fails, yields, append, bind, Eventually, Eventually-at, Eventually-const,
  Eventually-bind, Eventually-err, Drains, Drains-at, Drains-step, Computes, Eventually-round,
  Eventually-throw,
}
use dwgrep.Op.Over.{Over, Over-Computes}
use dwgrep.Op.Or.{
  States, inits, OrAnswer, before, next_at, or_round, or_try, first_of, is_end, OrState, or_first,
  or_pull, or_step, or_loop, op_or, either_of, first_stream,
}

-- A branch and what it computes.
pub record Branch : Type 1 where
  pub op : Op
  pub yield : Stack → Stream
  pub computes : Computes op yield

abbrev pub ops : List Branch → List Op
ops [] = []
ops (b ∷ bs) = b.op ∷ ops bs

abbrev pub streams : List Branch → List (Stack → Stream)
streams [] = []
streams (b ∷ bs) = b.yield ∷ streams bs

abbrev AllReady : (bs : List Branch) → States (ops bs) → Type 0
AllReady [] ss = Unit {0}
AllReady (b ∷ bs) (s, ss) = b.computes.Ready s × AllReady bs ss

-- The branch at the index k has the stream left, the others nothing.
abbrev LeftAt : (bs : List Branch) → ℕ → States (ops bs) → Stream → Type 0
LeftAt [] k ss ys = ⊥
LeftAt (b ∷ bs) zero (s, ss) ys = Drains b.op s ys b.computes.Ready × AllReady bs ss
LeftAt (b ∷ bs) (suc k) (s, ss) ys = b.computes.Ready s × LeftAt bs k ss ys

-- The answer from a stream, of a call at the index k
abbrev NextIs : (bs : List Branch) → (ℕ → OrAnswer (ops bs)) → ℕ → Stream → Type 0
NextIs bs g k ends = (ss : States (ops bs)) × Eventually g (ok (none, (k, ss))) × AllReady bs ss
NextIs bs g k (fails e) = Eventually g (err e)
NextIs bs g k (yields y ys) =
    (ss : States (ops bs)) × Eventually g (ok (some y, (k, ss))) × LeftAt bs k ss ys

-- The same for the search of a branch.
abbrev FirstIs : (bs : List Branch) → (ℕ → OrAnswer (ops bs)) → Stream → Type 0
FirstIs bs g ends = NextIs bs g (length (ops bs)) ends
FirstIs bs g (fails e) = Eventually g (err e)
FirstIs bs g (yields y ys) = (k : ℕ) × NextIs bs g k (yields y ys)

AllReady-inits : (bs : List Branch) → AllReady bs (inits (ops bs))
AllReady-inits [] = tt
AllReady-inits (b ∷ bs) = (b.computes.starts, AllReady-inits bs)

LeftAt-lt :
    (bs : List Branch) (k : ℕ) (ss : States (ops bs)) (ys : Stream)
    → LeftAt bs k ss ys
    → k < length (ops bs)
LeftAt-lt [] k ss ys h = elim h [ ]
LeftAt-lt (b ∷ bs) zero (s, ss) ys h = omega arith
LeftAt-lt (b ∷ bs) (suc k) (s, ss) ys h = omega (arith, LeftAt-lt bs k ss ys h.1)

-- The first branch itself.
here :
    (b : Branch) (bs : List Branch) (s : b.op.State) (ss : States (ops bs)) (ys : Stream)
    → Drains b.op s ys b.computes.Ready
    → AllReady bs ss
    → NextIs (b ∷ bs) (λ n. next_at n (ops (b ∷ bs)) zero (s, ss)) zero ys
unfolding next_at
here b bs s ss ends (s', e, r) h =
    ((s', ss), Eventually-bind (λ n. b.op.next n s) _ (none, s') _ e (Eventually-const _), (r, h))
here b bs s ss (fails x) e h = Eventually-err (λ n. b.op.next n s) _ x e
here b bs s ss (yields y ys) (s', e, d) h =
    ((s', ss), Eventually-bind (λ n. b.op.next n s) _ (some y, s') _ e (Eventually-const _), (d, h))

-- A branch that is passed over.
passed :
    (b : Branch) (bs : List Branch) (s : b.op.State) (g : ℕ → OrAnswer (ops bs)) (k : ℕ)
    (ys : Stream)
    → b.computes.Ready s
    → NextIs bs g k ys
    → NextIs (b ∷ bs) (λ n. g n >>= before b.op (ops bs) s) (suc k) ys
passed b bs s g k ends r (ss, e, h) =
    ((s, ss), Eventually-bind g _ (none, (k, ss)) _ e (Eventually-const _), (r, h))
passed b bs s g k (fails x) r e = Eventually-err g _ x e
passed b bs s g k (yields y ys) r (ss, e, h) =
    ((s, ss), Eventually-bind g _ (some y, (k, ss)) _ e (Eventually-const _), (r, h))

next_at-NextIs :
    (bs : List Branch) (k : ℕ) (ss : States (ops bs)) (ys : Stream)
    → LeftAt bs k ss ys
    → NextIs bs (λ n. next_at n (ops bs) k ss) k ys
unfolding next_at
next_at-NextIs [] k ss ys h = elim h [ ]
next_at-NextIs (b ∷ bs) zero (s, ss) ys (d, h) = here b bs s ss ys d h
next_at-NextIs (b ∷ bs) (suc k) (s, ss) ys (r, h) =
    passed b bs s (λ n. next_at n (ops bs) k ss) k ys r (next_at-NextIs bs k ss ys h)

passed_first :
    (b : Branch) (bs : List Branch) (s : b.op.State) (g : ℕ → OrAnswer (ops bs)) (ys : Stream)
    → b.computes.Ready s
    → FirstIs bs g ys
    → FirstIs (b ∷ bs) (λ n. g n >>= before b.op (ops bs) s) ys
passed_first b bs s g ends r h = passed b bs s g (length (ops bs)) ends r h
passed_first b bs s g (fails x) r h = Eventually-err g _ x h
passed_first b bs s g (yields y ys) r (k, h) = (suc k, passed b bs s g k (yields y ys) r h)

-- A call before the search.
answered :
    {A : Type 0} (bs : List Branch) (call : ℕ → Result A) (go : ℕ → A → OrAnswer (ops bs)) (a : A)
    (ws : Stream)
    → Eventually call (ok a)
    → FirstIs bs (λ n. go n a) ws
    → FirstIs bs (λ n. call n >>= go n) ws
answered bs call go a ends e (t, l, h) = (t, Eventually-bind call go a _ e l, h)
answered bs call go a (fails z) e l = Eventually-bind call go a _ e l
answered bs call go a (yields y ws) e (i, (t, l, h)) = (i, (t, Eventually-bind call go a _ e l, h))

-- The search, from what the first branch yields.
tried :
    (b : Branch) (bs : List Branch) (s : b.op.State) (ss : States (ops bs)) (x : Stack)
    (zs ys : Stream)
    → Drains b.op (b.op.set_next x s) zs b.computes.Ready
    → AllReady bs ss
    → FirstIs bs (λ n. first_of n (ops bs) x ss) ys
    → FirstIs (b ∷ bs) (λ n. first_of n (ops (b ∷ bs)) x (s, ss)) (either_of zs ys)
unfolding first_of
tried b bs s ss x ends ys (s', e, r) h k =
    answered (b ∷ bs) (λ n. b.op.next n (b.op.set_next x s))
      (λ n. or_try b.op (ops bs) ss (first_of n (ops bs) x ss)) (none, s') ys e
      (passed_first b bs s' (λ n. first_of n (ops bs) x ss) ys r k)
tried b bs s ss x (fails z) ys e h k = Eventually-err (λ n. b.op.next n (b.op.set_next x s)) _ z e
tried b bs s ss x (yields y zs) ys (s', e, d) h k = (
  zero,
  (
    (s', ss),
    Eventually-bind (λ n. b.op.next n (b.op.set_next x s)) _ (some y, s') _ e (Eventually-const _),
    (d, h),
  ),
)

first_of-FirstIs :
    (bs : List Branch) (ss : States (ops bs)) (x : Stack)
    → AllReady bs ss
    → FirstIs bs (λ n. first_of n (ops bs) x ss) (first_stream (streams bs) x)
first_of-FirstIs [] ss x h = unfold first_of in (tt, Eventually-const _, tt)
first_of-FirstIs (b ∷ bs) (s, ss) x (r, h) =
    tried b bs s ss x (b.yield x) (first_stream (streams bs) x) (b.computes.runs x s r) h
      (first_of-FirstIs bs ss x h)

is_end-length : (bs : List Op) → is_end bs (length bs) ≡ true
unfolding is_end
is_end-length bs = ground arith

is_end-lt : (bs : List Op) (k : ℕ) → k < length bs → is_end bs k ≡ false
unfolding is_end
is_end-lt bs k h = ground arith

module _ (bs : List Branch) (up : Op) where
  abbrev State : Type 0
  State = OrState (ops bs) up

  abbrev whole : Op
  whole = op_or (ops bs) up

  abbrev loop : ℕ → State → Answer State
  loop = or_loop (ops bs) up

  abbrev end_ : ℕ
  end_ = length (ops bs)

  at_end :
      (n : ℕ) (ss : States (ops bs)) (u : up.State)
      → loop (suc n) ((end_, ss), u) ≡ (up.next n u >>= or_pull (ops bs) up n (loop n) (end_, ss))
  unfolding or_loop
  at_end n ss u = ap (or_round (ops bs) up n (loop n) end_ ss u) (is_end-length (ops bs))

  within :
      (n k : ℕ) (ss : States (ops bs)) (u : up.State)
      → k < end_
      → loop (suc n) ((k, ss), u) ≡ (next_at n (ops bs) k ss >>= or_step (ops bs) up (loop n) u)
  unfolding or_loop
  within n k ss u h = ap (or_round (ops bs) up n (loop n) k ss u) (is_end-lt (ops bs) k h)

  pulled :
      (ss : States (ops bs)) (u : up.State) (a : Option Stack × up.State) (r : Answer State)
      → Eventually (λ n. up.next n u) (ok a)
      → Eventually (λ n. or_pull (ops bs) up n (loop n) (end_, ss) a) r
      → Eventually (λ n. loop n ((end_, ss), u)) r
  pulled ss u a r e h =
      Eventually-round (λ n. loop n ((end_, ss), u)) (λ n. up.next n u)
        (λ n. or_pull (ops bs) up n (loop n) (end_, ss)) a r (λ n. at_end n ss u) e h

  stepped :
      (k : ℕ) (ss : States (ops bs)) (u : up.State) (a : Option Stack × (ℕ × States (ops bs)))
      (r : Answer State)
      → k < end_
      → Eventually (λ n. next_at n (ops bs) k ss) (ok a)
      → Eventually (λ n. or_step (ops bs) up (loop n) u a) r
      → Eventually (λ n. loop n ((k, ss), u)) r
  stepped k ss u a r l e h =
      Eventually-round (λ n. loop n ((k, ss), u)) (λ n. next_at n (ops bs) k ss)
        (λ n. or_step (ops bs) up (loop n) u) a r (λ n. within n k ss u l) e h

  -- What is left of the branch that has been found, and then the rest.
  left :
      (k : ℕ) (ss : States (ops bs)) (u : up.State) (zs ys : Stream) (P : State → Type 0)
      → LeftAt bs k ss zs
      → NextIs bs (λ n. next_at n (ops bs) k ss) k zs
      → ((ss' : States (ops bs)) → AllReady bs ss' → Drains whole ((end_, ss'), u) ys P)
      → Drains whole ((k, ss), u) (append zs ys) P
  left k ss u ends ys P h (ss', e, r) d =
      Drains-step whole ((k, ss), u) ((end_, ss'), u) ys P
        (λ r l. stepped k ss u (none, (k, ss')) r (LeftAt-lt bs k ss ends h) e l) (d ss' r)
  left k ss u (fails x) ys P h e d =
      Eventually-throw (λ n. loop n ((k, ss), u)) (λ n. next_at n (ops bs) k ss)
        (λ n. or_step (ops bs) up (loop n) u) x
        (λ n. within n k ss u (LeftAt-lt bs k ss (fails x) h)) e
  left k ss u (yields y zs) ys P h (ss', e, h') d = (
    ((k, ss'), u),
    stepped k ss u (some y, (k, ss')) (ok (some y, ((k, ss'), u)))
        (LeftAt-lt bs k ss (yields y zs) h) e (Eventually-const _),
    left k ss' u zs ys P h' (next_at-NextIs bs k ss' zs h') d,
  )

  -- The answer of the search, and then the rest.
  searched :
      (ss : States (ops bs)) (u u' : up.State) (x : Stack) (zs ys : Stream) (P : State → Type 0)
      → Eventually (λ n. up.next n u) (ok (some x, u'))
      → FirstIs bs (λ n. first_of n (ops bs) x ss) zs
      → ((ss' : States (ops bs)) → AllReady bs ss' → Drains whole ((end_, ss'), u') ys P)
      → Drains whole ((end_, ss), u) (append zs ys) P
  searched ss u u' x ends ys P e (ss', f, r) d =
      Drains-step whole ((end_, ss), u) ((end_, ss'), u') ys P
        (λ r l.
          pulled ss u (some x, u') r e
            (Eventually-bind (λ n. first_of n (ops bs) x ss) _ (none, (end_, ss')) r f l))
        (d ss' r)
  searched ss u u' x (fails z) ys P e f d =
      pulled ss u (some x, u') (err z) e
        (Eventually-err (λ n. first_of n (ops bs) x ss) (λ n. or_first (ops bs) up (loop n) u') z f)
  searched ss u u' x (yields y zs) ys P e (k, (ss', f, h)) d = (
    ((k, ss'), u'),
    pulled ss u (some x, u') (ok (some y, ((k, ss'), u'))) e
        (Eventually-bind (λ n. first_of n (ops bs) x ss) _ (some y, (k, ss')) _ f
          (Eventually-const _)),
    left k ss' u' zs ys P h (next_at-NextIs bs k ss' zs h) d,
  )

  abbrev or_of : Stack → Stream
  or_of = first_stream (streams bs)

  or-Over : Over up whole or_of
  or-Over = record {
    Idle = λ u s. (ss : States (ops bs)) × (s ≡ ((end_, ss), u)) × AllReady bs ss;
    inits = (inits (ops bs), refl, AllReady-inits bs);
    sets = λ x u s (ss, q, r). (ss, ap (λ z. (z.0, up.set_next x z.1)) q, r);
    stops = λ u u' s (ss, q, r) e. (
      ((end_, ss), u'),
      Eventually-at whole (sym q) (pulled ss u (none, u') _ e (Eventually-const _)),
      (ss, refl, r),
    );
    throws = λ u s x (ss, q, r) e. Eventually-at whole (sym q) (
        Eventually-throw (λ n. loop n ((end_, ss), u)) (λ n. up.next n u)
          (λ n. or_pull (ops bs) up n (loop n) (end_, ss)) x (λ n. at_end n ss u) e);
    goes = λ u u' s x ys P (ss, q, r) e k. Drains-at whole (append (or_of x) ys) P (sym q) (
        searched ss u u' x (or_of x) ys P e (first_of-FirstIs bs ss x r)
          (λ ss' r'. k ((end_, ss'), u') (ss', refl, r')));
  }

  -- For each stack that the upstream computes, `op_or` yields all that the first branch yields of
  -- those that yield anything for it, and nothing if none does. It fails if a branch up to that one
  -- fails.
  pub op_or-Computes :
      (g : Stack → Stream)
      → Computes up g
      → Computes (op_or (ops bs) up) (λ x. bind (g x) (first_stream (streams bs)))
  op_or-Computes g d = Over-Computes up whole or_of or-Over g d
