-- ===== src/Overload/Operate.antt =====
-- op_overload of libzwerg/overload.hh: an op that puts the result of `operate` in place of the
-- arguments, and leaves out a stack for which there is none.
use dwgrep.Base.{ℕ, zero, suc, ◌≡◌, refl, ap, Option, none, some}
use dwgrep.Value.{Value, TypeCodes}
use dwgrep.Stack.{Stack, Result, ok, err, stuck, Error, ◌>>=◌, pop, push}
use dwgrep.Op.{Op, Answer}
use dwgrep.Op.Stream.{
  Stream, ends, fails, append, bind, single, Eventually, Eventually-const, Eventually-round,
  Eventually-throw, Drains, Drains-at, Drains-step, Computes,
}
use dwgrep.Op.Over.{Over, Over-Computes}

module _ (f : Stack → Result (Option Stack)) (up : Op) where
  -- What `operate` returned, and the state of the upstream
  abbrev pub operate_result :
      (up.State → Answer up.State) → up.State → Option Stack → Answer up.State
  operate_result again u none = again u
  operate_result again u (some stk) = ok (some stk, u)

  abbrev pub operate_step : (up.State → Answer up.State) → Option Stack × up.State → Answer up.State
  operate_step again (none, u) = ok (none, u)
  operate_step again (some stk, u) = f stk >>= operate_result again u

  -- op_overload::next
  pub operate_loop : ℕ → up.State → Answer up.State
  operate_loop zero u = err stuck
  operate_loop (suc n) u = up.next n u >>= operate_step (operate_loop n)

  abbrev pub op_overload : Op
  op_overload = record {
    State = up.State;
    init = up.init;
    set_next = up.set_next;
    next = operate_loop;
  }

-- The stack, if there is one
abbrev pub kept : Result (Option Stack) → Stream
kept (ok none) = ends
kept (ok (some x)) = single x
kept (err e) = fails e

module _ (f : Stack → Result (Option Stack)) (up : Op) where
  pulled :
      (u : up.State) (a : Option Stack × up.State) (r : Answer up.State)
      → Eventually (λ n. up.next n u) (ok a)
      → Eventually (λ n. operate_step f up (operate_loop f up n) a) r
      → Eventually (λ n. operate_loop f up n u) r
  unfolding operate_loop
  pulled u a r e h =
      Eventually-round (λ n. operate_loop f up n u) (λ n. up.next n u)
        (λ n. operate_step f up (operate_loop f up n)) a r (λ n. refl) e h

  pull_throws :
      (u : up.State) (e : Error)
      → Eventually (λ n. up.next n u) (err e)
      → Eventually (λ n. operate_loop f up n u) (err e)
  unfolding operate_loop
  pull_throws u e h =
      Eventually-throw (λ n. operate_loop f up n u) (λ n. up.next n u)
        (λ n. operate_step f up (operate_loop f up n)) e (λ n. refl) h

  operated :
      (u u' : up.State) (x : Stack) (r : Result (Option Stack)) (ys : Stream)
      (P : up.State → Type 0)
      → f x ≡ r
      → Eventually (λ n. up.next n u) (ok (some x, u'))
      → Drains (op_overload f up) u' ys P
      → Drains (op_overload f up) u (append (kept r) ys) P
  operated u u' x (ok none) ys P q e d =
      Drains-step (op_overload f up) u u' ys P (λ r l. pulled u (some x, u') r e (rw q l)) d
  operated u u' x (ok (some y)) ys P q e d =
      (u', pulled u (some x, u') (ok (some y, u')) e (rw q (Eventually-const _)), d)
  operated u u' x (err b) ys P q e d = pulled u (some x, u') (err b) e (rw q (Eventually-const _))

  operate-Over : Over up (op_overload f up) (λ x. kept (f x))
  operate-Over = record {
    Idle = λ u s. u ≡ s;
    inits = refl;
    sets = λ x u s i. ap (λ z. up.set_next x z) i;
    stops = λ u u' s i e.
        (u', rw (← i) (pulled u (none, u') (ok (none, u')) e (Eventually-const _)), refl);
    throws = λ u s e i l. rw (← i) (pull_throws u e l);
    goes = λ u u' s x ys P i e k.
        Drains-at (op_overload f up) (append (kept (f x)) ys) P i
          (operated u u' x (f x) ys P refl e (k u' refl));
  }

  -- For each stack that the upstream computes, and in their order, `op_overload` yields the stack
  -- with the result, or nothing where there is no result.
  pub op_overload-Computes :
      (g : Stack → Stream)
      → Computes up g
      → Computes (op_overload f up) (λ x. bind (g x) (λ y. kept (f y)))
  op_overload-Computes g c = Over-Computes up (op_overload f up) (λ y. kept (f y)) operate-Over g c

module _ (t : TypeCodes) where
  -- The push of what `operate` returned
  abbrev pub push_some : Stack → Option Value → Option Stack
  push_some stk none = none
  push_some stk (some v) = some (push t v stk)

  -- collect of two arguments, the topmost one last, then `operate` and the push
  unfoldable pub operate_two :
      (Value → Value → Result (Option Value)) → Stack → Result (Option Stack)
  operate_two operate stk = do
    (b, stk1) ← pop t stk
    (a, stk2) ← pop t stk1
    r ← operate a b
    ok (push_some stk2 r)
