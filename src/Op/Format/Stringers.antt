-- ===== src/Op/Format/Stringers.antt =====
-- What the stringers compute.
use mathlib.Core.Path.{subst}
use dwgrep.Base.{ℕ, ◌≡◌, refl, ap, sym, ◌∙◌, List, [], ◌++◌, Option, none, some}
use dwgrep.Value.{Value, TypeCodes}
use dwgrep.Stack.{Stack, Result, ok, err, Error, ◌>>=◌}
use dwgrep.Op.{Op}
use dwgrep.Op.Stream.{
  Stream, ends, fails, yields, Eventually, Eventually-const, Eventually-bind, Eventually-err,
  Eventually-round, Eventually-throw, Drains, Computes,
}
use dwgrep.Op.Format.{
  Text, TextAnswer, Stringer, stringer_origin, prefix, stringer_lit, shown, StringerState,
  stringer_pull, stringer_step, stringer_loop, stringer_op,
}
use dwgrep.Op.Format.Texts.{
  Texts, done, broken, text, join, prefixed, text_of, shown_all, shown_each, TextDrains,
  TextDrains-step, TextComputes,
}

-- An origin yields its stack with an empty text.
pub stringer_origin-TextComputes : TextComputes stringer_origin (λ x. text x [] done)
stringer_origin-TextComputes = record {
  Ready = λ s. s ≡ none;
  starts = refl;
  rests = λ s r. (none, (0, λ m h. rw r refl), refl);
  runs = λ x s r. (some x, rw r refl, (none, (0, λ m h. refl), (none, (0, λ m h. refl), refl)));
}

module _ (s : List ℕ) (up : Stringer) where
  prefixed_answer :
      (u : up.State) (a : Option Text × up.State) (r : TextAnswer up.State)
      → Eventually (λ n. up.next n u) (ok a)
      → prefix s a ≡ r
      → Eventually (λ n. up.next n u >>= prefix s) r
  prefixed_answer u a r e q =
      Eventually-bind (λ n. up.next n u) (λ n. prefix s) a r e (rw q (Eventually-const r))

  TextDrains-prefixed :
      (u : up.State) (xs : Texts) (P : up.State → Type 0)
      → TextDrains up u xs P
      → TextDrains (stringer_lit s up) u (prefixed s xs) P
  TextDrains-prefixed u done P (u', e, p) =
      (u', prefixed_answer u (none, u') (ok (none, u')) e refl, p)
  TextDrains-prefixed u (broken x) P e = Eventually-err (λ n. up.next n u) (λ n. prefix s) x e
  TextDrains-prefixed u (text x w xs) P (u', e, d) = (
    u',
    prefixed_answer u (some (x, w), u') (ok (some (x, s ++ w), u')) e refl,
    TextDrains-prefixed u' xs P d,
  )

  pub stringer_lit-TextComputes :
      (f : Stack → Texts)
      → TextComputes up f
      → TextComputes (stringer_lit s up) (λ x. prefixed s (f x))
  stringer_lit-TextComputes f c = record {
    Ready = c.Ready;
    starts = c.starts;
    rests = λ u r.
        let (u', e, r') = c.rests u r in
        (u', prefixed_answer u (none, u') (ok (none, u')) e refl, r');
    runs =
        λ x u r. let (u', e, d) = c.runs x u r in (u', e, TextDrains-prefixed u' (f x) c.Ready d);
  }

module _ (t : TypeCodes) (show : Value → List ℕ) (op : Op) (up : Stringer) where
  abbrev self : Stringer
  self = stringer_op t show op up

  abbrev loop : ℕ → StringerState t show op up → TextAnswer (StringerState t show op up)
  loop = stringer_loop t show op up

  pulled :
      (i : op.State) (u : up.State) (a : Option Text × up.State)
      (r : TextAnswer (StringerState t show op up))
      → Eventually (λ n. up.next n u) (ok a)
      → Eventually (λ n. stringer_pull t show op up (loop n) i a) r
      → Eventually (λ n. loop n (none, (i, u))) r
  unfolding stringer_loop
  pulled i u a r e h =
      Eventually-round (λ n. loop n (none, (i, u))) (λ n. up.next n u)
        (λ n. stringer_pull t show op up (loop n) i) a r (λ n. refl) e h

  pull_throws :
      (i : op.State) (u : up.State) (e : Error)
      → Eventually (λ n. up.next n u) (err e)
      → Eventually (λ n. loop n (none, (i, u))) (err e)
  unfolding stringer_loop
  pull_throws i u e h =
      Eventually-throw (λ n. loop n (none, (i, u))) (λ n. up.next n u)
        (λ n. stringer_pull t show op up (loop n) i) e (λ n. refl) h

  stepped :
      (w : List ℕ) (i : op.State) (u : up.State) (a : Option Stack × op.State)
      (r : TextAnswer (StringerState t show op up))
      → Eventually (λ n. op.next n i) (ok a)
      → Eventually (λ n. stringer_step t show op up (loop n) w u a) r
      → Eventually (λ n. loop n (some w, (i, u))) r
  unfolding stringer_loop
  stepped w i u a r e h =
      Eventually-round (λ n. loop n (some w, (i, u))) (λ n. op.next n i)
        (λ n. stringer_step t show op up (loop n) w u) a r (λ n. refl) e h

  step_throws :
      (w : List ℕ) (i : op.State) (u : up.State) (e : Error)
      → Eventually (λ n. op.next n i) (err e)
      → Eventually (λ n. loop n (some w, (i, u))) (err e)
  unfolding stringer_loop
  step_throws w i u e h =
      Eventually-throw (λ n. loop n (some w, (i, u))) (λ n. op.next n i)
        (λ n. stringer_step t show op up (loop n) w u) e (λ n. refl) h

  module _ (h : Stack → Stream) (c : Computes op h) where
    -- One value is shown, and then the rest.
    one :
        (w : List ℕ) (y : Stack) (i i' : op.State) (u : up.State) (r : Result Text) (xs ys : Texts)
        (P : StringerState t show op up → Type 0)
        → shown t show w y ≡ r
        → Eventually (λ n. op.next n i) (ok (some y, i'))
        → TextDrains self (some w, (i', u)) (join xs ys) P
        → TextDrains self (some w, (i, u)) (join (text_of r xs) ys) P
    one w y i i' u (ok (z, w')) xs ys P q e d = (
      (some w, (i', u)),
      stepped w i u (some y, i') (ok (some (z, w'), (some w, (i', u)))) e
          (rw q (Eventually-const _)),
      d,
    )
    one w y i i' u (err b) xs ys P q e d =
        stepped w i u (some y, i') (err b) e (rw q (Eventually-const _))

    -- The values for one text, and then the next text.
    values :
        (w : List ℕ) (i : op.State) (u : up.State) (zs : Stream) (ys : Texts)
        (P : StringerState t show op up → Type 0)
        → Drains op i zs c.Ready
        → ((i' : op.State) → c.Ready i' → TextDrains self (none, (i', u)) ys P)
        → TextDrains self (some w, (i, u)) (join (shown_all t show w zs) ys) P
    values w i u ends ys P (i', e, ready) k =
        TextDrains-step self (some w, (i, u)) (none, (i', u)) ys P
          (λ r l. stepped w i u (none, i') r e l) (k i' ready)
    values w i u (fails e) ys P d k = step_throws w i u e d
    values w i u (yields y zs) ys P (i', e, d) k =
        one w y i i' u (shown t show w y) (shown_all t show w zs) ys P refl e
          (values w i' u zs ys P d k)

    Between : (up.State → Type 0) → StringerState t show op up → Type 0
    Between Q s = (i : op.State) × (u : up.State) × (s ≡ (none, (i, u))) × c.Ready i × Q u

    each :
        (i : op.State) (u : up.State) (xs : Texts) (Q : up.State → Type 0)
        → c.Ready i
        → TextDrains up u xs Q
        → TextDrains self (none, (i, u)) (shown_each t show h xs) (Between Q)
    unfolding Between
    each i u done Q ready (u', e, q) = (
      (none, (i, u')),
      pulled i u (none, u') (ok (none, (none, (i, u')))) e (Eventually-const _),
      (i, u', refl, ready, q),
    )
    each i u (broken x) Q ready e = pull_throws i u x e
    each i u (text x w xs) Q ready (u', e, d) =
        TextDrains-step self (none, (i, u)) (some w, (op.set_next x i, u'))
          (shown_each t show h (text x w xs)) (Between Q)
          (λ r l. pulled i u (some (x, w), u') r e l)
          (values w (op.set_next x i) u' (h x) (shown_each t show h xs) (Between Q)
            (c.runs x i ready) (λ i' ready'. each i' u' xs Q ready' d))

    stringer_rests :
        (f : Stack → Texts) (d : TextComputes up f) (s : StringerState t show op up)
        → Between d.Ready s
        → (s' : StringerState t show op up) × Eventually (λ n. loop n s) (ok (none, s'))
          × Between d.Ready s'
    unfolding Between
    stringer_rests f d s (i, u, q, ready, r) =
        let (u', e, r') = d.rests u r in
        (
          (none, (i, u')),
          subst (λ z. Eventually (λ n. loop n z) (ok (none, (none, (i, u'))))) (sym q)
              (pulled i u (none, u') (ok (none, (none, (i, u')))) e (Eventually-const _)),
          (i, u', refl, ready, r'),
        )

    stringer_runs :
        (f : Stack → Texts) (d : TextComputes up f) (x : Stack) (s : StringerState t show op up)
        → Between d.Ready s
        → (s' : StringerState t show op up) × (self.set_next x s ≡ ok s')
          × TextDrains self s' (shown_each t show h (f x)) (Between d.Ready)
    unfolding Between
    stringer_runs f d x s (i, u, q, ready, r) =
        let (u', e, l) = d.runs x u r in
        (
          (none, (i, u')),
          ap (self.set_next x) q ∙ ap (λ z. z >>= (λ v. ok (none, (i, v)))) e,
          each i u' (f x) d.Ready ready l,
        )

    -- Each text that the upstream computes, with each value that the op computes for its stack.
    pub stringer_op-TextComputes :
        (f : Stack → Texts) → TextComputes up f → TextComputes self (λ x. shown_each t show h (f x))
    unfolding Between
    stringer_op-TextComputes f d = record {
      Ready = Between d.Ready;
      starts = (op.init, up.init, refl, c.starts, d.starts);
      rests = stringer_rests f d;
      runs = stringer_runs f d;
    }
