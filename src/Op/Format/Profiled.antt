-- ===== src/Op/Format/Profiled.antt =====
-- The texts whose stacks have right profiles.
use dwgrep.Base.{ℕ, suc, ◌≡◌, ◌<◌, refl, ap, List, ◌++◌}
use dwgrep.Value.{Value, TypeCodes, code, str}
use dwgrep.Stack.{Stack, Result, ok, err, pop, push}
use dwgrep.Stack.Profile.{IsProfiled, push-IsProfiled}
use dwgrep.Op.Stream.{Stream, ends, fails, yields, single}
use dwgrep.Op.Profiled.{
  Ensures, Ensures-bind, AreProfiled, Keeps, Agree, PoppedWell, pop-Ensures, pop-push,
}
use dwgrep.Op.Format.{Text, shown}
use dwgrep.Op.Format.Texts.{
  Texts, done, broken, text, join, prefixed, text_of, shown_all, shown_each, pushed,
}

module _ (t : TypeCodes) (show : Value → List ℕ) where
  abbrev pub TextsProfiled : Texts → Type 0
  TextsProfiled done = Unit {0}
  TextsProfiled (broken e) = Unit {0}
  TextsProfiled (text x s xs) = IsProfiled t x × TextsProfiled xs

  join-TextsProfiled :
      (xs ys : Texts) → TextsProfiled xs → TextsProfiled ys → TextsProfiled (join xs ys)
  join-TextsProfiled done ys h k = k
  join-TextsProfiled (broken e) ys h k = tt
  join-TextsProfiled (text x s xs) ys h k = (h.0, join-TextsProfiled xs ys h.1 k)

  pub prefixed-TextsProfiled :
      (s : List ℕ) (xs : Texts) → TextsProfiled xs → TextsProfiled (prefixed s xs)
  prefixed-TextsProfiled s done h = tt
  prefixed-TextsProfiled s (broken e) h = tt
  prefixed-TextsProfiled s (text x s' xs) h = (h.0, prefixed-TextsProfiled s xs h.1)

  text_of-TextsProfiled :
      (r : Result Text) (xs : Texts)
      → Ensures (λ p. IsProfiled t p.0) r
      → TextsProfiled xs
      → TextsProfiled (text_of r xs)
  text_of-TextsProfiled (ok (x, s)) xs h k = (h, k)
  text_of-TextsProfiled (err e) xs h k = tt

  shown-Ensures :
      (s : List ℕ) (y : Stack) → IsProfiled t y → Ensures (λ p. IsProfiled t p.0) (shown t show s y)
  shown-Ensures s y h =
      Ensures-bind (PoppedWell t) (λ p. IsProfiled t p.0) (pop t y)
        (λ (v, y'). ok (y', show v ++ s)) (pop-Ensures t y h) (λ (v, y') k. k.1)

  shown_all-TextsProfiled :
      (s : List ℕ) (ys : Stream) → AreProfiled t ys → TextsProfiled (shown_all t show s ys)
  shown_all-TextsProfiled s ends h = tt
  shown_all-TextsProfiled s (fails e) h = tt
  shown_all-TextsProfiled s (yields y ys) h =
      text_of-TextsProfiled (shown t show s y) (shown_all t show s ys) (shown-Ensures s y h.0)
        (shown_all-TextsProfiled s ys h.1)

  pub shown_each-TextsProfiled :
      (m : Stack → Stream)
      → Keeps t m
      → (xs : Texts) → TextsProfiled xs
      → TextsProfiled (shown_each t show m xs)
  shown_each-TextsProfiled m k done h = tt
  shown_each-TextsProfiled m k (broken e) h = tt
  shown_each-TextsProfiled m k (text x s xs) h =
      join-TextsProfiled (shown_all t show s (m x)) (shown_each t show m xs)
        (shown_all-TextsProfiled s (m x) (k x h.0)) (shown_each-TextsProfiled m k xs h.1)

  pub shown_each-Agree :
      (m m' : Stack → Stream)
      → Agree t m m'
      → (xs : Texts) → TextsProfiled xs
      → shown_each t show m xs ≡ shown_each t show m' xs
  shown_each-Agree m m' a done h = refl
  shown_each-Agree m m' a (broken e) h = refl
  shown_each-Agree m m' a (text x s xs) h =
      rw (a x h.0) (ap (join (shown_all t show s (m' x))) (shown_each-Agree m m' a xs h.1))

  pub pushed-AreProfiled :
      (p : ℕ) (xs : Texts)
      → t.str_code < 256
      → TextsProfiled xs
      → AreProfiled t (pushed t show p xs)
  unfolding code
  pushed-AreProfiled p done b h = tt
  pushed-AreProfiled p (broken e) b h = tt
  pushed-AreProfiled p (text x s xs) b h =
      (push-IsProfiled t (str s p) x b h.0, pushed-AreProfiled (suc p) xs b h.1)

  -- A child that is an op for a string does what a literal does.
  pub shown_each-prefixed :
      (s : List ℕ)
      → ((p : ℕ) → show (str s p) ≡ s)
      → t.str_code < 256
      → (xs : Texts) → TextsProfiled xs
      → shown_each t show (λ x. single (push t (str s 0) x)) xs ≡ prefixed s xs
  unfolding code
  shown_each-prefixed s q b done h = refl
  shown_each-prefixed s q b (broken e) h = refl
  shown_each-prefixed s q b (text x w xs) h =
      rw (pop-push t (str s 0) x b h.0, q 0)
        (ap (text x (s ++ w)) (shown_each-prefixed s q b xs h.1))
