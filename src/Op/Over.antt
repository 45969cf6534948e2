-- ===== src/Op/Over.antt =====
-- An op that turns each stack of its upstream into a stream of its own, on its own.
use dwgrep.Base.{none, some}
use dwgrep.Stack.{Stack, ok, err, Error}
use dwgrep.Op.{Op}
use dwgrep.Op.Stream.{Stream, ends, fails, yields, append, bind, Eventually, Drains, Computes}

-- How `over` works between two stacks of `up`: Idle relates the states of the two when `over` has
-- nothing left of its own.
pub record Over (up over : Op) (g : Stack → Stream) : Type 1 where
  pub Idle : up.State → over.State → Type 0
  pub inits : Idle up.init over.init
  pub sets :
      (x : Stack) (u : up.State) (s : over.State)
      → Idle u s
      → Idle (up.set_next x u) (over.set_next x s)
  pub stops :
      (u u' : up.State) (s : over.State)
      → Idle u s
      → Eventually (λ n. up.next n u) (ok (none, u'))
      → (s' : over.State) × Eventually (λ n. over.next n s) (ok (none, s')) × Idle u' s'
  pub throws :
      (u : up.State) (s : over.State) (e : Error)
      → Idle u s
      → Eventually (λ n. up.next n u) (err e)
      → Eventually (λ n. over.next n s) (err e)
  pub goes :
      (u u' : up.State) (s : over.State) (x : Stack) (ys : Stream) (P : over.State → Type 0)
      → Idle u s
      → Eventually (λ n. up.next n u) (ok (some x, u'))
      → ((s' : over.State) → Idle u' s' → Drains over s' ys P)
      → Drains over s (append (g x) ys) P

module _ (up over : Op) (g : Stack → Stream) (o : Over up over g) where
  abbrev IdleWith : (up.State → Type 0) → over.State → Type 0
  IdleWith P s = (u : up.State) × o.Idle u s × P u

  Drains-bind :
      (u : up.State) (s : over.State) (xs : Stream) (P : up.State → Type 0)
      → o.Idle u s
      → Drains up u xs P
      → Drains over s (bind xs g) (IdleWith P)
  Drains-bind u s ends P i (u', e, p) =
      let (s', e', i') = o.stops u u' s i e in (s', e', (u', i', p))
  Drains-bind u s (fails e) P i h = o.throws u s e i h
  Drains-bind u s (yields x xs) P i (u', e, d) =
      o.goes u u' s x (bind xs g) (IdleWith P) i e (λ s' i'. Drains-bind u' s' xs P i' d)

  -- What the upstream computes, and then g on each stack.
  pub Over-Computes : (f : Stack → Stream) → Computes up f → Computes over (λ x. bind (f x) g)
  Over-Computes f c = record {
    Ready = IdleWith c.Ready;
    starts = (up.init, o.inits, c.starts);
    runs = λ x s (u, i, r).
        Drains-bind (up.set_next x u) (over.set_next x s) (f x) c.Ready (o.sets x u s i)
          (c.runs x u r);
  }
