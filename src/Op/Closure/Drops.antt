-- ===== src/Op/Closure/Drops.antt =====
-- The closure of the word `drop`: the search ends at the empty stack, which `drop` fails on.
use dwgrep.Base.{ℕ, suc, ◌≡◌, refl, Bool, true, false, if◌then◌else◌, List, [], ◌∷◌, length}
use dwgrep.Constant.{Domains}
use dwgrep.Value.{Value, TypeCodes}
use dwgrep.Value.Compare.{ForeignCmp}
use dwgrep.Stack.{Stack, pop, pop_values}
use dwgrep.Op.Stream.{Stream}
use dwgrep.Op.Mapping.{returned}
use dwgrep.Op.Words.{drop_on}
use dwgrep.Op.Closure.{ClosureKind, star, plus, is_seen}
use dwgrep.Op.Closure.Explore.{sweep, finishes, closes}

module _ (t : TypeCodes) (ds : Domains) (foreign : ForeignCmp) where
  abbrev pub dropped : Stack → Stream
  dropped x = returned (drop_on t x)

  whichever : (b f g : Bool) → f ≡ true → g ≡ true → (if b then f else g) ≡ true
  whichever true f g p q = p
  whichever false f g p q = q

  drop_finishes :
      (vs : List Value) (p : ℕ) (seen : List Stack)
      → finishes t ds foreign dropped
          (suc (suc (length vs)))
          seen
          (record { values = vs; profile = p } ∷ [])
        ≡ true
  unfolding finishes sweep drop_on pop pop_values
  drop_finishes [] p seen = refl
  drop_finishes (v ∷ vs) p seen =
      whichever (is_seen t ds foreign _ seen) _ _ refl (drop_finishes vs _ _)

  pub drop-closes :
      (k : ClosureKind) (x : Stack)
      → closes t ds foreign dropped k (suc (suc (length x.values))) x ≡ true
  drop-closes star x = drop_finishes x.values x.profile (x ∷ [])
  drop-closes plus x = drop_finishes x.values x.profile []
