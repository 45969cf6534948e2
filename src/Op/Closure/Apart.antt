-- ===== src/Op/Closure/Apart.antt =====
-- The search of the transitive closure finds no stack twice.
use dwgrep.Base.{
  ◌⊎◌, inl, inr, ℕ, zero, suc, ◌≡◌, refl, arith, Bool, true, false, not, ◌&&◌, Bool-cases, List, [],
  ◌∷◌,
}
use dwgrep.Constant.{Domains}
use dwgrep.Value.{TypeCodes}
use dwgrep.Value.Compare.{ForeignCmp}
use dwgrep.Stack.{Stack}
use dwgrep.Stack.Compare.{stack_less}
use dwgrep.Op.Stream.{Stream, ends, fails, yields}
use dwgrep.Op.Closure.{is_seen, same_stack}
use dwgrep.Op.Closure.Explore.{sweep, explore}
use dwgrep.Op.Closure.Found.{Each}

module _ (t : TypeCodes) (ds : Domains) (foreign : ForeignCmp) where
  -- One of the two stacks is less than the other.
  abbrev pub AreApart : Stack → Stack → Type 0
  AreApart a b = (stack_less t ds foreign a b ≡ true) ⊎ (stack_less t ds foreign b a ≡ true)

  -- Each stack of the stream is apart from those of the list and from those before it.
  abbrev pub Distinct : List Stack → Stream → Type 0
  Distinct seen ends = Unit {0}
  Distinct seen (fails e) = Unit {0}
  Distinct seen (yields x xs) = Each (AreApart x) seen × Distinct (x ∷ seen) xs

  either_less : (a b : Bool) → (not a && not b) ≡ false → (a ≡ true) ⊎ (b ≡ true)
  either_less true b e = inl refl
  either_less false true e = inr refl
  either_less false false e = absurd (cc)

  unseen-apart :
      (y : Stack) (seen : List Stack) → is_seen t ds foreign y seen ≡ false → Each (AreApart y) seen
  unfolding is_seen same_stack
  unseen-apart y [] e = tt
  unseen-apart y (s ∷ seen) e = (
    either_less (stack_less t ds foreign y s) (stack_less t ds foreign s y) (ground arith),
    unseen-apart y seen (ground arith),
  )

  module _ (h : Stack → Stream) where
    sweep-Distinct :
        (zs : Stream) (go : List Stack → List Stack → Stream) (seen stks : List Stack)
        → ((seen' stks' : List Stack) → Distinct seen' (go seen' stks'))
        → Distinct seen (sweep t ds foreign fails yields go zs seen stks)
    unfolding sweep
    sweep-Distinct ends go seen stks k = k seen stks
    sweep-Distinct (fails e) go seen stks k = tt
    sweep-Distinct (yields y zs) go seen stks k = elim (Bool-cases (is_seen t ds foreign y seen)) [
      | inl old ↦ rw old (sweep-Distinct zs go seen stks k)
      | inr new ↦ rw new (unseen-apart y seen new, sweep-Distinct zs go (y ∷ seen) (y ∷ stks) k)
    ]

    pub explore-Distinct :
        (n : ℕ) (seen stks : List Stack) → Distinct seen (explore t ds foreign h n seen stks)
    unfolding explore
    explore-Distinct zero seen stks = tt
    explore-Distinct (suc n) seen [] = tt
    explore-Distinct (suc n) seen (x ∷ stks) =
        sweep-Distinct (h x) (explore t ds foreign h n) seen stks (explore-Distinct n)
