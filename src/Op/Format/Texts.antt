-- ===== src/Op/Format/Texts.antt =====
-- What a stringer yields: stacks with texts, and then the end or an exception.
use dwgrep.Base.{ℕ, suc, ◌≡◌, List, ◌++◌, Option, none, some}
use dwgrep.Value.{Value, TypeCodes, str}
use dwgrep.Stack.{Stack, Result, ok, err, Error, push}
use dwgrep.Op.Stream.{Stream, ends, fails, yields, Eventually}
use dwgrep.Op.Format.{Text, Stringer, shown}

pub data Texts : Type 0 where
  done : Texts
  broken : Error → Texts
  text : Stack → List ℕ → Texts → Texts

abbrev pub join : Texts → Texts → Texts
join done ys = ys
join (broken e) ys = broken e
join (text x s xs) ys = text x s (join xs ys)

-- A literal in front of each text
abbrev pub prefixed : List ℕ → Texts → Texts
prefixed s done = done
prefixed s (broken e) = broken e
prefixed s (text x s' xs) = text x (s ++ s') (prefixed s xs)

abbrev pub text_of : Result Text → Texts → Texts
text_of (ok (x, s)) xs = text x s xs
text_of (err e) xs = broken e

module _ (t : TypeCodes) (show : Value → List ℕ) where
  -- The values on the stacks of a stream, shown in front of the text
  abbrev pub shown_all : List ℕ → Stream → Texts
  shown_all s ends = done
  shown_all s (fails e) = broken e
  shown_all s (yields y ys) = text_of (shown t show s y) (shown_all s ys)

  -- The same for each stack and text, with what h yields for the stack
  abbrev pub shown_each : (Stack → Stream) → Texts → Texts
  shown_each h done = done
  shown_each h (broken e) = broken e
  shown_each h (text x s xs) = join (shown_all s (h x)) (shown_each h xs)

  -- The texts as strings on their stacks, numbered from p on
  abbrev pub pushed : ℕ → Texts → Stream
  pushed p done = ends
  pushed p (broken e) = fails e
  pushed p (text x s xs) = yields (push t (str s p) x) (pushed (suc p) xs)

-- From the state s the stringer yields the texts and stops in a state with P.
abbrev pub TextDrains : (o : Stringer) → o.State → Texts → (o.State → Type 0) → Type 0
TextDrains o s done P = (s' : o.State) × Eventually (λ n. o.next n s) (ok (none, s')) × P s'
TextDrains o s (broken e) P = Eventually (λ n. o.next n s) (err e)
TextDrains o s (text x w xs) P =
    (s' : o.State) × Eventually (λ n. o.next n s) (ok (some (x, w), s')) × TextDrains o s' xs P

-- The stringer computes f: after `set_next x`, which does not abort, it yields f x, and is then ready
-- for the next stack; a stringer that is ready has nothing to yield.
pub record TextComputes (o : Stringer) (f : Stack → Texts) : Type 1 where
  pub Ready : o.State → Type 0
  pub starts : Ready o.init
  pub rests :
      (s : o.State)
      → Ready s
      → (s' : o.State) × Eventually (λ n. o.next n s) (ok (none, s')) × Ready s'
  pub runs :
      (x : Stack) (s : o.State)
      → Ready s
      → (s' : o.State) × (o.set_next x s ≡ ok s') × TextDrains o s' (f x) Ready

pub TextDrains-step :
    (o : Stringer) (s s' : o.State) (xs : Texts) (P : o.State → Type 0)
    → ((r : Result (Option Text × o.State))
        → Eventually (λ n. o.next n s') r
        → Eventually (λ n. o.next n s) r)
    → TextDrains o s' xs P
    → TextDrains o s xs P
TextDrains-step o s s' done P k (t, e, p) = (t, k (ok (none, t)) e, p)
TextDrains-step o s s' (broken x) P k e = k (err x) e
TextDrains-step o s s' (text x w xs) P k (t, e, d) = (t, k (ok (some (x, w), t)) e, d)
