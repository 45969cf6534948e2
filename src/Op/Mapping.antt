-- ===== src/Op/Mapping.antt =====
-- The ops that change each stack of their upstream.
use dwgrep.Base.{◌≡◌, refl, ap, none, some}
use dwgrep.Stack.{Stack, Result, ok, err}
use dwgrep.Op.{Op, op_origin, map_next, mapping}
use dwgrep.Op.Stream.{
  Stream, fails, append, bind, single, Eventually, Eventually-at, Eventually-const, Eventually-bind,
  Eventually-err, Drains, Computes,
}
use dwgrep.Op.Over.{Over, Over-Computes}

abbrev pub returned : Result Stack → Stream
returned (ok x) = single x
returned (err e) = fails e

-- An origin yields the stack that it was given.
pub op_origin-Computes : Computes op_origin single
op_origin-Computes = record {
  Ready = λ s. s ≡ none;
  starts = refl;
  runs = λ x s r. (none, (0, λ m h. refl), (none, (0, λ m h. refl), refl));
}

module _ (f : Stack → Result Stack) (up : Op) where
  goes_on :
      (u u' : up.State) (x : Stack) (r : Result Stack) (ys : Stream) (P : up.State → Type 0)
      → f x ≡ r
      → Eventually (λ n. up.next n u) (ok (some x, u'))
      → Drains (mapping f up) u' ys P
      → Drains (mapping f up) u (append (returned r) ys) P
  goes_on u u' x (ok y) ys P e h d = (
    u',
    Eventually-bind (λ n. up.next n u) (λ n. map_next f) (some x, u') (ok (some y, u')) h
        (rw e (Eventually-const _)),
    d,
  )
  goes_on u u' x (err z) ys P e h d =
      Eventually-bind (λ n. up.next n u) (λ n. map_next f) (some x, u') (err z) h
        (rw e (Eventually-const _))

  mapping-Over : Over up (mapping f up) (λ x. returned (f x))
  mapping-Over = record {
    Idle = λ u s. u ≡ s;
    inits = refl;
    sets = λ x u s i. ap (up.set_next x) i;
    stops = λ u u' s i h. (
      u',
      Eventually-bind (λ n. up.next n s) (λ n. map_next f) (none, u') (ok (none, u'))
          (Eventually-at up i h) (Eventually-const _),
      refl,
    );
    throws =
        λ u s e i h. Eventually-err (λ n. up.next n s) (λ n. map_next f) e (Eventually-at up i h);
    goes = λ u u' s x ys P i h d. goes_on s u' x (f x) ys P refl (Eventually-at up i h) (d u' refl);
  }

  pub mapping-Computes :
      (g : Stack → Stream)
      → Computes up g
      → Computes (mapping f up) (λ x. bind (g x) (λ y. returned (f y)))
  mapping-Computes g c = Over-Computes up (mapping f up) (λ x. returned (f x)) mapping-Over g c
