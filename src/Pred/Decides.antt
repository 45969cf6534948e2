-- ===== src/Pred/Decides.antt =====
-- What the predicates decide, given what the ops in them compute.
use dwgrep.Base.{none, some}
use dwgrep.Stack.{Stack, Result, ok, err, ◌>>=◌}
use dwgrep.Op.{Op}
use dwgrep.Op.Stream.{
  Stream, ends, fails, yields, Eventually, Eventually-const, Eventually-bind, Eventually-err,
  Eventually-then, Drains, Computes,
}
use dwgrep.Pred.{
  PredResult, no, yes, negate, both, either, Pred, pred_not, pred_and, pred_or, found,
  pred_subx_any,
}

abbrev pub Decides : Pred → (Stack → Result PredResult) → Type 0
Decides p f = (x : Stack) → Eventually (λ n. p n x) (f x)

-- Whether a stream yields anything.
abbrev pub is_any : Stream → Result PredResult
is_any ends = ok no
is_any (fails e) = err e
is_any (yields x xs) = ok yes

pub pred_not-Decides :
    (p : Pred) (f : Stack → Result PredResult)
    → Decides p f
    → Decides (pred_not p) (λ x. f x >>= (λ r. ok (negate r)))
pred_not-Decides p f d x =
    Eventually-then (λ n. p n x) (f x) (λ n r. ok (negate r)) (λ r. ok (negate r)) (d x)
      (λ r. Eventually-const _)

module _ (p q : Pred) (f g : Stack → Result PredResult) (d : Decides p f) (e : Decides q g)
    (join : PredResult → PredResult → PredResult) where
  joined-Eventually :
      (x : Stack)
      → Eventually
          (λ n. p n x >>= (λ r. q n x >>= (λ r'. ok (join r r'))))
          (f x >>= (λ r. g x >>= (λ r'. ok (join r r'))))
  joined-Eventually x =
      Eventually-then (λ n. p n x) (f x) (λ n r. q n x >>= (λ r'. ok (join r r')))
        (λ r. g x >>= (λ r'. ok (join r r'))) (d x)
        (λ r.
          Eventually-then (λ n. q n x) (g x) (λ n r'. ok (join r r')) (λ r'. ok (join r r')) (e x)
            (λ r'. Eventually-const _))

pub pred_and-Decides :
    (p q : Pred) (f g : Stack → Result PredResult)
    → Decides p f
    → Decides q g
    → Decides (pred_and p q) (λ x. f x >>= (λ r. g x >>= (λ r'. ok (both r r'))))
pred_and-Decides p q f g d e x = joined-Eventually p q f g d e both x

pub pred_or-Decides :
    (p q : Pred) (f g : Stack → Result PredResult)
    → Decides p f
    → Decides q g
    → Decides (pred_or p q) (λ x. f x >>= (λ r. g x >>= (λ r'. ok (either r r'))))
pred_or-Decides p q f g d e x = joined-Eventually p q f g d e either x

found_any :
    (o : Op) (s : o.State) (xs : Stream) (P : o.State → Type 0)
    → Drains o s xs P
    → Eventually (λ n. o.next n s >>= found) (is_any xs)
found_any o s ends P (s', e, p) =
    Eventually-bind (λ n. o.next n s) (λ n. found) (none, s') (ok no) e (Eventually-const _)
found_any o s (fails x) P e = Eventually-err (λ n. o.next n s) (λ n. found) x e
found_any o s (yields x xs) P (s', e, d) =
    Eventually-bind (λ n. o.next n s) (λ n. found) (some x, s') (ok yes) e (Eventually-const _)

-- `pred_subx_any` holds of a stack when the op that it runs yields something for it, and fails where
-- that op throws first.
pub pred_subx_any-Decides :
    (op : Op) (f : Stack → Stream) → Computes op f → Decides (pred_subx_any op) (λ x. is_any (f x))
pred_subx_any-Decides op f c x =
    found_any op (op.set_next x op.init) (f x) c.Ready (c.runs x op.init c.starts)
