-- ===== src/Op/Format/Computes.antt =====
-- What op_format computes.
use dwgrep.Base.{ℕ, suc, ◌≡◌, refl, ap, sym, List, Option, none, some}
use dwgrep.Value.{Value, TypeCodes, str}
use dwgrep.Stack.{Stack, ok, err, Error, push}
use dwgrep.Op.{Op, Answer}
use dwgrep.Op.Stream.{
  Stream, append, bind, Eventually, Eventually-at, Eventually-const, Eventually-bind,
  Eventually-err, Eventually-round, Eventually-throw, Drains, Drains-at, Drains-step, Computes,
}
use dwgrep.Op.Over.{Over, Over-Computes}
use dwgrep.Op.Format.{Text, Stringer, FormatState, format_pull, format_step, format_loop, op_format}
use dwgrep.Op.Format.Texts.{Texts, done, broken, text, pushed, TextDrains, TextComputes}

module _ (t : TypeCodes) (show : Value → List ℕ) (stringer : Stringer) (up : Op) where
  abbrev self : Op
  self = op_format t show stringer up

  abbrev loop : ℕ → FormatState t show stringer up → Answer (FormatState t show stringer up)
  loop = format_loop t show stringer up

  stepped :
      (p : ℕ) (g : stringer.State) (u : up.State) (a : Option Text × stringer.State)
      (r : Answer (FormatState t show stringer up))
      → Eventually (λ n. stringer.next n g) (ok a)
      → Eventually (λ n. format_step t show stringer up (loop n) n p u a) r
      → Eventually (λ n. loop n (p, (g, u))) r
  unfolding format_loop
  stepped p g u a r e h =
      Eventually-round (λ n. loop n (p, (g, u))) (λ n. stringer.next n g)
        (λ n. format_step t show stringer up (loop n) n p u) a r (λ n. refl) e h

  step_throws :
      (p : ℕ) (g : stringer.State) (u : up.State) (e : Error)
      → Eventually (λ n. stringer.next n g) (err e)
      → Eventually (λ n. loop n (p, (g, u))) (err e)
  unfolding format_loop
  step_throws p g u e h =
      Eventually-throw (λ n. loop n (p, (g, u))) (λ n. stringer.next n g)
        (λ n. format_step t show stringer up (loop n) n p u) e (λ n. refl) h

  -- The stringer has nothing left, and the upstream is asked.
  pulled :
      (p : ℕ) (g g' : stringer.State) (u : up.State) (a : Option Stack × up.State)
      (r : Answer (FormatState t show stringer up))
      → Eventually (λ n. stringer.next n g) (ok (none, g'))
      → Eventually (λ n. up.next n u) (ok a)
      → Eventually (λ n. format_pull t show stringer up (loop n) p g' a) r
      → Eventually (λ n. loop n (p, (g, u))) r
  pulled p g g' u a r e e' h =
      stepped p g u (none, g') r e
        (Eventually-bind (λ n. up.next n u) (λ n. format_pull t show stringer up (loop n) p g') a r
          e' h)

  pull_throws :
      (p : ℕ) (g g' : stringer.State) (u : up.State) (e : Error)
      → Eventually (λ n. stringer.next n g) (ok (none, g'))
      → Eventually (λ n. up.next n u) (err e)
      → Eventually (λ n. loop n (p, (g, u))) (err e)
  pull_throws p g g' u e q h =
      stepped p g u (none, g') (err e) q
        (Eventually-err (λ n. up.next n u) (λ n. format_pull t show stringer up (loop n) p g') e h)

  module _ (f : Stack → Texts) (c : TextComputes stringer f) where
    -- The stringer has nothing left.
    Empty : stringer.State → Type 0
    Empty g =
        (g' : stringer.State) × Eventually (λ n. stringer.next n g) (ok (none, g')) × c.Ready g'

    -- The texts for one stack, each on its stack.
    strings :
        (p : ℕ) (g : stringer.State) (u : up.State) (xs : Texts) (ys : Stream)
        (P : FormatState t show stringer up → Type 0)
        → TextDrains stringer g xs c.Ready
        → ((p' : ℕ) (g' : stringer.State) → Empty g' → Drains self (p', (g', u)) ys P)
        → Drains self (p, (g, u)) (append (pushed t show p xs) ys) P
    unfolding Empty
    strings p g u done ys P d k = k p g d
    strings p g u (broken x) ys P d k = step_throws p g u x d
    strings p g u (text x w xs) ys P (g', e, d) k = (
      (suc p, (g', u)),
      stepped p g u (some (x, w), g') (ok (some (push t (str w p) x), (suc p, (g', u)))) e
          (Eventually-const _),
      strings (suc p) g' u xs ys P d k,
    )

    Idle : up.State → FormatState t show stringer up → Type 0
    Idle u s = (p : ℕ) × (g : stringer.State) × (s ≡ (p, (g, u))) × Empty g

    -- A stack of the upstream, which the stringer takes without aborting.
    taken :
        (p : ℕ) (g g' : stringer.State) (u u' : up.State) (x : Stack) (ys : Stream)
        (P : FormatState t show stringer up → Type 0)
        → Eventually (λ n. stringer.next n g) (ok (none, g'))
        → c.Ready g'
        → Eventually (λ n. up.next n u) (ok (some x, u'))
        → ((s' : FormatState t show stringer up) → Idle u' s' → Drains self s' ys P)
        → Drains self (p, (g, u)) (append (pushed t show 0 (f x)) ys) P
    unfolding Idle
    taken p g g' u u' x ys P e ready l k =
        let (g'', q, d) = c.runs x g' ready in
        Drains-step self (p, (g, u)) (0, (g'', u')) (append (pushed t show 0 (f x)) ys) P
          (λ r h. pulled p g g' u (some x, u') r e l (rw q h))
          (strings 0 g'' u' (f x) ys P d (λ p' h empty. k (p', (h, u')) (p', h, refl, empty)))

    format-Over : Over up self (λ x. pushed t show 0 (f x))
    unfolding Idle Empty
    format-Over = record {
      Idle = Idle;
      inits = (0, stringer.init, refl, c.rests stringer.init c.starts);
      sets =
          λ x u s (p, g, q, empty). (p, g, ap (λ z. (z.0, (z.1.0, up.set_next x z.1.1))) q, empty);
      stops = λ u u' s (p, g, q, (g', e, ready)) l. (
        (p, (g', u')),
        Eventually-at self (sym q)
            (pulled p g g' u (none, u') (ok (none, (p, (g', u')))) e l (Eventually-const _)),
        (p, g', refl, c.rests g' ready),
      );
      throws = λ u s e (p, g, q, (g', l, ready)) h.
          Eventually-at self (sym q) (pull_throws p g g' u e l h);
      goes = λ u u' s x ys P (p, g, q, (g', e, ready)) l k.
          Drains-at self (append (pushed t show 0 (f x)) ys) P (sym q)
            (taken p g g' u u' x ys P e ready l k);
    }

    -- For each stack that the upstream computes, and in their order, `op_format` yields the stacks
    -- that its stringer computes for it, each with its text on top as a string, numbered from 0 on
    -- for each stack of the upstream. The assertion of stringer_origin never fails.
    pub op_format-Computes :
        (g : Stack → Stream)
        → Computes up g
        → Computes self (λ x. bind (g x) (λ y. pushed t show 0 (f y)))
    op_format-Computes g d = Over-Computes up self (λ x. pushed t show 0 (f x)) format-Over g d
