-- ===== src/Op/Stream.antt =====
-- What a chain of operations yields: stacks, and then the end or an exception.
use mathlib.Core.Path.{subst, ap₂}
use dwgrep.Base.{ℕ, zero, suc, ◌+◌, ◌≤◌, ◌≡◌, refl, sym, ◌∙◌, ap, arith, none, some}
use dwgrep.Stack.{Stack, Result, ok, err, Error, ◌>>=◌}
use dwgrep.Op.{Op, Answer}

pub data Stream : Type 0 where
  ends : Stream
  fails : Error → Stream
  yields : Stack → Stream → Stream

-- The stacks of xs and then those of ys, unless xs fails.
abbrev pub append : Stream → Stream → Stream
append ends ys = ys
append (fails e) ys = fails e
append (yields x xs) ys = yields x (append xs ys)

-- What g yields for each stack of the stream, one after the other.
abbrev pub bind : Stream → (Stack → Stream) → Stream
bind ends g = ends
bind (fails e) g = fails e
bind (yields x xs) g = append (g x) (bind xs g)

pub append_assoc : (xs ys zs : Stream) → append (append xs ys) zs ≡ append xs (append ys zs)
append_assoc ends ys zs = refl
append_assoc (fails e) ys zs = refl
append_assoc (yields x xs) ys zs = ap (yields x) (append_assoc xs ys zs)

abbrev pub single : Stack → Stream
single x = yields x ends

-- From some fuel on, g returns r.
abbrev pub Eventually : {A : Type 0} → (ℕ → A) → A → Type 0
Eventually g r = (n : ℕ) × ((m : ℕ) → n ≤ m → g m ≡ r)

module _ {A : Type 0} where
  pub Eventually-const : (r : A) → Eventually (λ n. r) r
  Eventually-const r = (0, λ m h. refl)

  pub Eventually-suc : (g : ℕ → A) (r : A) → Eventually (λ n. g (suc n)) r → Eventually g r
  Eventually-suc g r (n, e) = (suc n, later)
    where
      later : (m : ℕ) → suc n ≤ m → g m ≡ r
      later zero h = absurd (omega arith)
      later (suc m) h = e m (omega arith)

  pub Eventually-eq :
      (g h : ℕ → A) (r : A) → ((n : ℕ) → g n ≡ h n) → Eventually h r → Eventually g r
  Eventually-eq g h r e (n, k) = (n, λ m l. e m ∙ k m l)

module _ {A B : Type 0} where
  pub Eventually-bind :
      (g : ℕ → Result A) (k : ℕ → A → Result B) (a : A) (r : Result B)
      → Eventually g (ok a)
      → Eventually (λ n. k n a) r
      → Eventually (λ n. g n >>= k n) r
  Eventually-bind g k a r (n, e) (n', e') =
      (n + n', λ m h. rw (e m (omega arith)) (e' m (omega arith)))

  pub Eventually-err :
      (g : ℕ → Result A) (k : ℕ → A → Result B) (x : Error)
      → Eventually g (err x)
      → Eventually (λ n. g n >>= k n) (err x)
  Eventually-err g k x (n, e) = (n, λ m h. rw (e m h) refl)

  pub Eventually-then :
      (g : ℕ → Result A) (r : Result A) (k : ℕ → A → Result B) (f : A → Result B)
      → Eventually g r
      → ((a : A) → Eventually (λ n. k n a) (f a))
      → Eventually (λ n. g n >>= k n) (r >>= f)
  Eventually-then g (ok a) k f e h = Eventually-bind g k a (f a) e (h a)
  Eventually-then g (err x) k f e h = Eventually-err g k x e

  -- A round of a loop on fuel: a call, and what follows it.
  pub Eventually-round :
      (loop : ℕ → Result B) (g : ℕ → Result A) (k : ℕ → A → Result B) (a : A) (r : Result B)
      → ((n : ℕ) → loop (suc n) ≡ (g n >>= k n))
      → Eventually g (ok a)
      → Eventually (λ n. k n a) r
      → Eventually loop r
  Eventually-round loop g k a r q e h =
      Eventually-suc loop r
        (Eventually-eq (λ n. loop (suc n)) (λ n. g n >>= k n) r q (Eventually-bind g k a r e h))

  pub Eventually-throw :
      (loop : ℕ → Result B) (g : ℕ → Result A) (k : ℕ → A → Result B) (x : Error)
      → ((n : ℕ) → loop (suc n) ≡ (g n >>= k n))
      → Eventually g (err x)
      → Eventually loop (err x)
  Eventually-throw loop g k x q e =
      Eventually-suc loop (err x)
        (Eventually-eq (λ n. loop (suc n)) (λ n. g n >>= k n) (err x) q (Eventually-err g k x e))

-- From the state s the op yields the stream and stops in a state with P.
abbrev pub Drains : (o : Op) → o.State → Stream → (o.State → Type 0) → Type 0
Drains o s ends P = (s' : o.State) × Eventually (λ n. o.next n s) (ok (none, s')) × P s'
Drains o s (fails e) P = Eventually (λ n. o.next n s) (err e)
Drains o s (yields x xs) P =
    (s' : o.State) × Eventually (λ n. o.next n s) (ok (some x, s')) × Drains o s' xs P

-- The chain computes f: after `set_next x` it yields f x, and is then ready for the next stack.
pub record Computes (o : Op) (f : Stack → Stream) : Type 1 where
  pub Ready : o.State → Type 0
  pub starts : Ready o.init
  pub runs : (x : Stack) (s : o.State) → Ready s → Drains o (o.set_next x s) (f x) Ready

pub Eventually-at :
    (o : Op) {u s : o.State} {r : Answer o.State}
    → u ≡ s
    → Eventually (λ n. o.next n u) r
    → Eventually (λ n. o.next n s) r
Eventually-at o {r = r} i h = subst (λ z. Eventually (λ n. o.next n z) r) i h

-- A state from which the next answers are those of another.
pub Drains-step :
    (o : Op) (s s' : o.State) (xs : Stream) (P : o.State → Type 0)
    → ((r : Answer o.State) → Eventually (λ n. o.next n s') r → Eventually (λ n. o.next n s) r)
    → Drains o s' xs P
    → Drains o s xs P
Drains-step o s s' ends P k (t, e, p) = (t, k (ok (none, t)) e, p)
Drains-step o s s' (fails x) P k e = k (err x) e
Drains-step o s s' (yields x xs) P k (t, e, d) = (t, k (ok (some x, t)) e, d)

pub Drains-at :
    (o : Op) {s s' : o.State} (xs : Stream) (P : o.State → Type 0)
    → s ≡ s'
    → Drains o s xs P
    → Drains o s' xs P
Drains-at o xs P e d = subst (λ z. Drains o z xs P) e d

pub Drains-weaken :
    (o : Op) (s : o.State) (xs : Stream) (P Q : o.State → Type 0)
    → ((t : o.State) → P t → Q t)
    → Drains o s xs P
    → Drains o s xs Q
Drains-weaken o s ends P Q k (t, e, p) = (t, e, k t p)
Drains-weaken o s (fails x) P Q k e = e
Drains-weaken o s (yields x xs) P Q k (t, e, d) = (t, e, Drains-weaken o t xs P Q k d)

-- The laws of append and bind.
pub append-ends : (xs : Stream) → append xs ends ≡ xs
append-ends ends = refl
append-ends (fails e) = refl
append-ends (yields x xs) = ap (yields x) (append-ends xs)

pub bind-single : (xs : Stream) → bind xs single ≡ xs
bind-single ends = refl
bind-single (fails e) = refl
bind-single (yields x xs) = ap (yields x) (bind-single xs)

pub bind-eq :
    (xs : Stream) (g h : Stack → Stream) → ((x : Stack) → g x ≡ h x) → bind xs g ≡ bind xs h
bind-eq ends g h e = refl
bind-eq (fails z) g h e = refl
bind-eq (yields x xs) g h e = ap₂ append (e x) (bind-eq xs g h e)

pub bind-append :
    (xs ys : Stream) (g : Stack → Stream) → bind (append xs ys) g ≡ append (bind xs g) (bind ys g)
bind-append ends ys g = refl
bind-append (fails e) ys g = refl
bind-append (yields x xs) ys g =
    ap (append (g x)) (bind-append xs ys g) ∙ sym (append_assoc (g x) (bind xs g) (bind ys g))

pub bind_assoc :
    (xs : Stream) (g h : Stack → Stream) → bind (bind xs g) h ≡ bind xs (λ x. bind (g x) h)
bind_assoc ends g h = refl
bind_assoc (fails e) g h = refl
bind_assoc (yields x xs) g h =
    bind-append (g x) (bind xs g) h ∙ ap (append (bind (g x) h)) (bind_assoc xs g h)

pub Computes-eq :
    (o : Op) (f g : Stack → Stream) → ((x : Stack) → f x ≡ g x) → Computes o f → Computes o g
Computes-eq o f g e c = record {
  Ready = c.Ready;
  starts = c.starts;
  runs = λ x s r. subst (λ xs. Drains o (o.set_next x s) xs c.Ready) (e x) (c.runs x s r);
}
