-- ===== src/Op/Assert.antt =====
-- op_assert of libzwerg/op.cc lets those stacks pass for which its predicate holds.
use dwgrep.Base.{ℕ, zero, suc, ◌≡◌, refl, ap, Option, none, some}
use dwgrep.Stack.{Stack, Result, ok, err, Error, stuck, ◌>>=◌}
use dwgrep.Pred.{Pred, PredResult, no, yes, fail}
use dwgrep.Pred.Decides.{Decides}
use dwgrep.Op.{Op, Answer}
use dwgrep.Op.Stream.{
  Stream, ends, fails, append, bind, single, Eventually, Eventually-at, Eventually-const,
  Eventually-round, Eventually-throw, Eventually-bind, Eventually-err, Drains, Drains-step,
  Computes,
}
use dwgrep.Op.Over.{Over, Over-Computes}

module _ {S : Type 0} (p : Pred) (n : ℕ) (again : S → Answer S) where
  -- What the loop does with a stack and the result of the predicate on it.
  abbrev pub assert_test : Stack → S → PredResult → Answer S
  assert_test stk s yes = ok (some stk, s)
  assert_test stk s no = again s
  assert_test stk s fail = again s

  abbrev pub assert_step : Option Stack × S → Answer S
  assert_step (none, s) = ok (none, s)
  assert_step (some stk, s) = p n stk >>= assert_test stk s

-- The loop of op_assert::next, one round for each stack of the upstream.
pub assert_loop : Pred → (up : Op) → ℕ → up.State → Answer up.State
assert_loop p up zero s = err stuck
assert_loop p up (suc n) s = up.next n s >>= assert_step p n (assert_loop p up n)

abbrev pub op_assert : Pred → Op → Op
op_assert p up = record {
  State = up.State;
  init = up.init;
  set_next = up.set_next;
  next = assert_loop p up;
}

abbrev pub asserted : Stack → Result PredResult → Stream
asserted x (ok yes) = single x
asserted x (ok no) = ends
asserted x (ok fail) = ends
asserted x (err e) = fails e

module _ (p : Pred) (f : Stack → Result PredResult) (d : Decides p f) (up : Op) where
  round :
      (s : up.State) (a : Option Stack × up.State) (r : Answer up.State)
      → Eventually (λ n. up.next n s) (ok a)
      → Eventually (λ n. assert_step p n (assert_loop p up n) a) r
      → Eventually (λ n. assert_loop p up n s) r
  unfolding assert_loop
  round s a r e h =
      Eventually-round (λ n. assert_loop p up n s) (λ n. up.next n s)
        (λ n. assert_step p n (assert_loop p up n)) a r (λ n. refl) e h

  tested :
      (s s' : up.State) (x : Stack) (b : PredResult) (r : Answer up.State)
      → Eventually (λ n. up.next n s) (ok (some x, s'))
      → f x ≡ ok b
      → Eventually (λ n. assert_test p n (assert_loop p up n) x s' b) r
      → Eventually (λ n. assert_loop p up n s) r
  tested s s' x b r e q h =
      round s (some x, s') r e
        (Eventually-bind (λ n. p n x) (λ n. assert_test p n (assert_loop p up n) x s') b r
          (rw q at (d x)) h)

  goes_on :
      (s s' : up.State) (x : Stack) (r : Result PredResult) (ys : Stream) (P : up.State → Type 0)
      → f x ≡ r
      → Eventually (λ n. up.next n s) (ok (some x, s'))
      → Drains (op_assert p up) s' ys P
      → Drains (op_assert p up) s (append (asserted x r) ys) P
  goes_on s s' x (ok yes) ys P q e h =
      (s', tested s s' x yes (ok (some x, s')) e q (Eventually-const _), h)
  goes_on s s' x (ok no) ys P q e h =
      Drains-step (op_assert p up) s s' ys P (λ r k. tested s s' x no r e q k) h
  goes_on s s' x (ok fail) ys P q e h =
      Drains-step (op_assert p up) s s' ys P (λ r k. tested s s' x fail r e q k) h
  goes_on s s' x (err z) ys P q e h =
      round s (some x, s') (err z) e
        (Eventually-err (λ n. p n x) (λ n. assert_test p n (assert_loop p up n) x s') z
          (rw q at (d x)))

  throws_on :
      (s : up.State) (e : Error)
      → Eventually (λ n. up.next n s) (err e)
      → Eventually (λ n. assert_loop p up n s) (err e)
  unfolding assert_loop
  throws_on s e h =
      Eventually-throw (λ n. assert_loop p up n s) (λ n. up.next n s)
        (λ n. assert_step p n (assert_loop p up n)) e (λ n. refl) h

  assert-Over : Over up (op_assert p up) (λ x. asserted x (f x))
  assert-Over = record {
    Idle = λ u s. u ≡ s;
    inits = refl;
    sets = λ x u s i. ap (up.set_next x) i;
    stops = λ u u' s i h.
        (u', round s (none, u') (ok (none, u')) (Eventually-at up i h) (Eventually-const _), refl);
    throws = λ u s e i h. throws_on s e (Eventually-at up i h);
    goes = λ u u' s x ys P i h k. goes_on s u' x (f x) ys P refl (Eventually-at up i h) (k u' refl);
  }

  -- Of what the upstream computes, `op_assert` yields the stacks for which the predicate is yes, in
  -- their order; an exception of the predicate ends it.
  pub op_assert-Computes :
      (g : Stack → Stream)
      → Computes up g
      → Computes (op_assert p up) (λ x. bind (g x) (λ y. asserted y (f y)))
  op_assert-Computes g c = Over-Computes up (op_assert p up) (λ x. asserted x (f x)) assert-Over g c
