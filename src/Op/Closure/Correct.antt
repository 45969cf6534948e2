-- ===== src/Op/Closure/Correct.antt =====
-- What the transitive closure of one stack holds.
use mathlib.Core.Path.{subst}
use dwgrep.Base.{◌⊎◌, inl, inr, ℕ, ◌≡◌, refl, List, [], ◌∷◌}
use dwgrep.Constant.{Domains}
use dwgrep.Value.{TypeCodes}
use dwgrep.Value.Compare.{ForeignCmp}
use dwgrep.Stack.{Stack}
use dwgrep.Op.Stream.{Stream, ends, fails, yields}
use dwgrep.Op.Closure.{ClosureKind, star, plus}
use dwgrep.Op.Closure.Explore.{explore, closure_of}
use dwgrep.Op.Closure.Found.{Yields, AllOf, Succeeds, Reaches, first, further, explore-AllOf}
use dwgrep.Op.Closure.Apart.{Distinct, explore-Distinct}
use dwgrep.Op.Closure.Complete.{Finds, explore_covered, none_seen, later}

-- What the closure of x may hold: what one step or more lead to, and for `*` the stack itself.
abbrev pub InClosure : ClosureKind → (Stack → Stream) → Stack → Stack → Type 0
InClosure star h x y = (y ≡ x) ⊎ Reaches h x y
InClosure plus h x y = Reaches h x y

AllOf-map :
    {P Q : Stack → Type 0} → ((y : Stack) → P y → Q y) → (xs : Stream) → AllOf P xs → AllOf Q xs
AllOf-map f ends a = tt
AllOf-map f (fails e) a = tt
AllOf-map f (yields x xs) a = (f x a.0, AllOf-map f xs a.1)

module _ (t : TypeCodes) (ds : Domains) (foreign : ForeignCmp) (h : Stack → Stream) where
  reached :
      (n : ℕ) (x : Stack) (seen : List Stack)
      → AllOf (Reaches h x) (explore t ds foreign h n seen (x ∷ []))
  reached n x seen =
      explore-AllOf t ds foreign h (Reaches h x) (λ y. (y ≡ x) ⊎ Reaches h x y)
        (λ s y q m. from s y q m) (λ y r. inr r) n seen (x ∷ []) (inl refl, tt)
    where
      from : (s y : Stack) → (s ≡ x) ⊎ Reaches h x s → Yields (h s) y → Reaches h x y
      from s y (inl e) m = first (subst (λ z. Yields (h z) y) e m)
      from s y (inr r) m = further r m

  -- Whatever the number of visits, the closure of a stack holds only stacks that steps of the op
  -- lead to from it (and for `*` the stack itself), and of any two of its stacks one is less than
  -- the other.
  pub closure_sound :
      (k : ClosureKind) (n : ℕ) (x : Stack)
      → AllOf (InClosure k h x) (closure_of t ds foreign h k n x)
        × Distinct t ds foreign [] (closure_of t ds foreign h k n x)
  closure_sound star n x = (
    (inl refl, AllOf-map (λ y r. inr r) _ (reached n x (x ∷ []))),
    (tt, explore-Distinct t ds foreign h n (x ∷ []) (x ∷ [])),
  )
  closure_sound plus n x = (reached n x [], explore-Distinct t ds foreign h n [] (x ∷ []))

  -- A closure that ends without an exception is closed: for each stack that the op yields for the
  -- first stack or for one of the closure, the closure holds a stack that is the same or such that
  -- neither of the two is less than the other.
  pub closure_complete :
      (k : ClosureKind) (n : ℕ) (x s y : Stack)
      → Succeeds (closure_of t ds foreign h k n x)
      → (s ≡ x) ⊎ Yields (closure_of t ds foreign h k n x) s
      → Yields (h s) y
      → Finds t ds foreign (closure_of t ds foreign h k n x) y
  closure_complete plus n x s y ok_end v m =
      let (a, b) = explore_covered t ds foreign h n [] (x ∷ []) ok_end in
      none_seen t ds foreign (explore t ds foreign h n [] (x ∷ [])) y
        (elim v [ inl e ↦ a s (inl e) y m | inr w ↦ b s w y m ])
  closure_complete star n x s y ok_end v m =
      let (a, b) = explore_covered t ds foreign h n (x ∷ []) (x ∷ []) ok_end in
      none_seen t ds foreign (closure_of t ds foreign h star n x) y (
        later t ds foreign x y [] (explore t ds foreign h n (x ∷ []) (x ∷ [])) (elim v [
          | inl e ↦ a s (inl e) y m
          | inr (inl e) ↦ a s (inl e) y m
          | inr (inr w) ↦ b s w y m
        ]))
