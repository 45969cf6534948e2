-- ===== src/Op/Profiled.antt =====
-- The stacks of a stream whose profiles are right: what the ops do with them.
use dwgrep.Base.{ℕ, zero, suc, ◌≡◌, ◌<◌, refl, sym, ap, ◌∙◌, List, [], ◌∷◌, inl, inr, Bool-cases}
use dwgrep.Constant.{Domains}
use dwgrep.Value.{Value, TypeCodes, code}
use dwgrep.Value.Compare.{ForeignCmp}
use dwgrep.Stack.{Stack, Result, ok, err, ◌>>=◌, push, pop, pop_values}
use dwgrep.Stack.Profile.{IsProfiled, push-IsProfiled, popped}
use dwgrep.Op.Stream.{Stream, ends, fails, yields, append, bind}
use dwgrep.Op.Mapping.{returned}
use dwgrep.Op.Subx.{pop_kept, push_kept, keep_on}
use dwgrep.Op.Capture.{with_sequence}
use dwgrep.Op.Closure.{ClosureKind, star, plus, is_seen}
use dwgrep.Op.Closure.Explore.{sweep, explore, closure_of}
use dwgrep.Op.Words.Shuffle.{Leaves}

-- A result that is no error satisfies P.
abbrev pub Ensures : {A : Type 0} → (A → Type 0) → Result A → Type 0
Ensures P (ok a) = P a
Ensures P (err e) = Unit {0}

pub Ensures-bind :
    {A B : Type 0} (P : A → Type 0) (Q : B → Type 0) (r : Result A) (k : A → Result B)
    → Ensures P r
    → ((a : A) → P a → Ensures Q (k a))
    → Ensures Q (r >>= k)
Ensures-bind P Q (ok a) k h g = g a h
Ensures-bind P Q (err e) k h g = tt

-- The type codes of constants, strings and sequences are bytes.
pub record CodesAreBytes (t : TypeCodes) : Type 0 where
  pub cst_byte : t.cst_code < 256
  pub str_byte : t.str_code < 256
  pub seq_byte : t.seq_code < 256

module _ (t : TypeCodes) where
  -- Each stack of the stream has the profile of its values.
  abbrev pub AreProfiled : Stream → Type 0
  AreProfiled ends = Unit {0}
  AreProfiled (fails e) = Unit {0}
  AreProfiled (yields x xs) = IsProfiled t x × AreProfiled xs

  abbrev pub Keeps : (Stack → Stream) → Type 0
  Keeps m = (x : Stack) → IsProfiled t x → AreProfiled (m x)

  -- Two meanings that agree on the stacks with right profiles
  abbrev pub Agree : (Stack → Stream) → (Stack → Stream) → Type 0
  Agree m m' = (x : Stack) → IsProfiled t x → m x ≡ m' x

  pub append-AreProfiled :
      (xs ys : Stream) → AreProfiled xs → AreProfiled ys → AreProfiled (append xs ys)
  append-AreProfiled ends ys h k = k
  append-AreProfiled (fails e) ys h k = tt
  append-AreProfiled (yields x xs) ys h k = (h.0, append-AreProfiled xs ys h.1 k)

  pub bind-AreProfiled :
      (xs : Stream) (m : Stack → Stream) → AreProfiled xs → Keeps m → AreProfiled (bind xs m)
  bind-AreProfiled ends m h k = tt
  bind-AreProfiled (fails e) m h k = tt
  bind-AreProfiled (yields x xs) m h k =
      append-AreProfiled (m x) (bind xs m) (k x h.0) (bind-AreProfiled xs m h.1 k)

  pub bind-Agree :
      (xs : Stream) (m m' : Stack → Stream) → AreProfiled xs → Agree m m' → bind xs m ≡ bind xs m'
  bind-Agree ends m m' h k = refl
  bind-Agree (fails e) m m' h k = refl
  bind-Agree (yields x xs) m m' h k = rw (k x h.0) (ap (append (m' x)) (bind-Agree xs m m' h.1 k))

  pub returned-AreProfiled :
      (r : Result Stack) → Ensures (IsProfiled t) r → AreProfiled (returned r)
  returned-AreProfiled (ok x) h = (h, tt)
  returned-AreProfiled (err e) h = tt

  abbrev pub PoppedWell : Value × Stack → Type 0
  PoppedWell (v, s) = (code t v < 256) × IsProfiled t s

  pub pop-Ensures : (s : Stack) → IsProfiled t s → Ensures PoppedWell (pop t s)
  unfolding pop pop_values
  pop-Ensures s h = by_values s.values s.profile h
    where
      by_values :
          (vs : List Value) (p : ℕ)
          → IsProfiled t (record { values = vs; profile = p })
          → Ensures PoppedWell (pop_values t vs p)
      by_values [] p h = tt
      by_values (v ∷ vs) p h = (h.0.0, popped t v vs p h)

  -- What was pushed is popped, and the stack is as before.
  pub pop-push :
      (v : Value) (s : Stack) → code t v < 256 → IsProfiled t s → pop t (push t v s) ≡ ok (v, s)
  unfolding pop pop_values push
  pop-push v s c h =
      let rest = popped t v s.values (push t v s).profile (push-IsProfiled t v s c h) in
      ap (λ p. ok (v, record { values = s.values; profile = p })) (rest.1 ∙ sym h.1)

  pub Leaves-Ensures :
      (r : Result Stack) (vs : Result (List Value)) → Leaves t r vs → Ensures (IsProfiled t) r
  Leaves-Ensures (ok s) (ok vs) h = h.1
  Leaves-Ensures (ok s) (err e) h = absurd h
  Leaves-Ensures (err e) vs h = tt

  abbrev AllBytes : List Value → Type 0
  AllBytes [] = Unit {0}
  AllBytes (v ∷ vs) = (code t v < 256) × AllBytes vs

  pop_kept-Ensures : (n : ℕ) (s : Stack) → IsProfiled t s → Ensures AllBytes (pop_kept t n s)
  unfolding pop_kept
  pop_kept-Ensures zero s h = tt
  pop_kept-Ensures (suc n) s h =
      Ensures-bind PoppedWell AllBytes (pop t s)
        (λ (v, s'). pop_kept t n s' >>= (λ vs. ok (v ∷ vs))) (pop-Ensures s h)
        (λ (v, s') (c, h').
          Ensures-bind AllBytes AllBytes (pop_kept t n s') (λ vs. ok (v ∷ vs))
            (pop_kept-Ensures n s' h') (λ vs k. (c, k)))

  push_kept-IsProfiled :
      (vs : List Value) (s : Stack) → AllBytes vs → IsProfiled t s → IsProfiled t (push_kept t vs s)
  unfolding push_kept
  push_kept-IsProfiled [] s b h = h
  push_kept-IsProfiled (v ∷ vs) s b h =
      push-IsProfiled t v (push_kept t vs s) b.0 (push_kept-IsProfiled vs s b.1 h)

  pub keep_on-Ensures :
      (n : ℕ) (on s : Stack)
      → IsProfiled t on
      → IsProfiled t s
      → Ensures (IsProfiled t) (keep_on t n on s)
  unfolding keep_on
  keep_on-Ensures n on s h k =
      Ensures-bind AllBytes (IsProfiled t) (pop_kept t n s) (λ vs. ok (push_kept t vs on))
        (pop_kept-Ensures n s k) (λ vs b. push_kept-IsProfiled vs on b h)

  pub captured-Ensures :
      (r : Result (List Value)) (x : Stack)
      → t.seq_code < 256
      → IsProfiled t x
      → Ensures (IsProfiled t) (r >>= (λ vs. ok (with_sequence t x vs)))
  unfolding code
  captured-Ensures (ok vs) x b h = push-IsProfiled t _ x b h
  captured-Ensures (err e) x b h = tt

  abbrev AllProfiled : List Stack → Type 0
  AllProfiled [] = Unit {0}
  AllProfiled (x ∷ xs) = IsProfiled t x × AllProfiled xs

  module _ (ds : Domains) (foreign : ForeignCmp) where
    abbrev swept : (List Stack → List Stack → Stream) → Stream → List Stack → List Stack → Stream
    swept k = sweep t ds foreign {R = Stream} fails yields k

    swept-AreProfiled :
        (k : List Stack → List Stack → Stream)
        → ((seen stks : List Stack) → AllProfiled stks → AreProfiled (k seen stks))
        → (ys : Stream) → AreProfiled ys
        → (seen stks : List Stack) → AllProfiled stks
        → AreProfiled (swept k ys seen stks)
    unfolding sweep
    swept-AreProfiled k h ends p seen stks a = h seen stks a
    swept-AreProfiled k h (fails e) p seen stks a = tt
    swept-AreProfiled k h (yields y ys) p seen stks a =
        elim (Bool-cases (is_seen t ds foreign y seen)) [
          | inl e ↦ rw e (swept-AreProfiled k h ys p.1 seen stks a)
          | inr e ↦ rw e (p.0, swept-AreProfiled k h ys p.1 (y ∷ seen) (y ∷ stks) (p.0, a))
        ]

    swept-eq :
        (k k' : List Stack → List Stack → Stream)
        → ((seen stks : List Stack) → AllProfiled stks → k seen stks ≡ k' seen stks)
        → (ys : Stream) → AreProfiled ys
        → (seen stks : List Stack) → AllProfiled stks
        → swept k ys seen stks ≡ swept k' ys seen stks
    unfolding sweep
    swept-eq k k' h ends p seen stks a = h seen stks a
    swept-eq k k' h (fails e) p seen stks a = refl
    swept-eq k k' h (yields y ys) p seen stks a = elim (Bool-cases (is_seen t ds foreign y seen)) [
      | inl e ↦ rw e (swept-eq k k' h ys p.1 seen stks a)
      | inr e ↦ rw e (ap (yields y) (swept-eq k k' h ys p.1 (y ∷ seen) (y ∷ stks) (p.0, a)))
    ]

    module _ (m : Stack → Stream) (keeps : Keeps m) where
      explore-AreProfiled :
          (n : ℕ) (seen stks : List Stack)
          → AllProfiled stks
          → AreProfiled (explore t ds foreign m n seen stks)
      unfolding explore
      explore-AreProfiled zero seen stks a = tt
      explore-AreProfiled (suc n) seen [] a = tt
      explore-AreProfiled (suc n) seen (x ∷ stks) a =
          swept-AreProfiled (explore t ds foreign m n) (explore-AreProfiled n) (m x) (keeps x a.0)
            seen stks a.1

      pub closure-AreProfiled :
          (c : ClosureKind) (n : ℕ) (x : Stack)
          → IsProfiled t x
          → AreProfiled (closure_of t ds foreign m c n x)
      closure-AreProfiled star n x h = (h, explore-AreProfiled n (x ∷ []) (x ∷ []) (h, tt))
      closure-AreProfiled plus n x h = explore-AreProfiled n [] (x ∷ []) (h, tt)

      module _ (m' : Stack → Stream) (agree : Agree m m') where
        explore-eq :
            (n : ℕ) (seen stks : List Stack)
            → AllProfiled stks
            → explore t ds foreign m n seen stks ≡ explore t ds foreign m' n seen stks
        unfolding explore
        explore-eq zero seen stks a = refl
        explore-eq (suc n) seen [] a = refl
        explore-eq (suc n) seen (x ∷ stks) a =
            swept-eq (explore t ds foreign m n) (explore t ds foreign m' n) (explore-eq n) (m x)
              (keeps x a.0) seen stks a.1
            ∙ ap (λ ys. swept (explore t ds foreign m' n) ys seen stks) (agree x a.0)

        pub closure-Agree :
            (c : ClosureKind) (n : ℕ) (x : Stack)
            → IsProfiled t x
            → closure_of t ds foreign m c n x ≡ closure_of t ds foreign m' c n x
        closure-Agree star n x h = ap (yields x) (explore-eq n (x ∷ []) (x ∷ []) (h, tt))
        closure-Agree plus n x h = explore-eq n [] (x ∷ []) (h, tt)
