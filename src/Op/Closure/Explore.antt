-- ===== src/Op/Closure/Explore.antt =====
-- The search that the transitive closure makes, as a function on the streams of the op.
use dwgrep.Base.{ℕ, zero, suc, Bool, true, false, if◌then◌else◌, List, [], ◌∷◌}
use dwgrep.Constant.{Domains}
use dwgrep.Value.{TypeCodes}
use dwgrep.Value.Compare.{ForeignCmp}
use dwgrep.Stack.{Stack, Error, stuck}
use dwgrep.Op.Stream.{Stream, ends, fails, yields}
use dwgrep.Op.Closure.{ClosureKind, star, plus, is_seen}

module _ (t : TypeCodes) (ds : Domains) (foreign : ForeignCmp) where
  -- The new stacks of a stream are put out, seen, and left to visit; then k goes on.
  unfoldable pub sweep :
      {R : Type 0}
      → (Error → R)
      → (Stack → R → R)
      → (List Stack → List Stack → R)
      → Stream
      → List Stack
      → List Stack
      → R
  sweep failed out k ends seen stks = k seen stks
  sweep failed out k (fails e) seen stks = failed e
  sweep failed out k (yields y ys) seen stks =
      let old = sweep failed out k ys seen stks in
      let new = out y (sweep failed out k ys (y ∷ seen) (y ∷ stks)) in
      if is_seen t ds foreign y seen then old else new

  module _ (h : Stack → Stream) where
    -- The stacks found from those left to visit, the last one found first; n bounds the visits.
    unfoldable pub explore : ℕ → List Stack → List Stack → Stream
    explore zero seen stks = fails stuck
    explore (suc n) seen [] = ends
    explore (suc n) seen (x ∷ stks) = sweep fails yields (explore n) (h x) seen stks

    -- Whether n visits are enough.
    unfoldable pub finishes : ℕ → List Stack → List Stack → Bool
    finishes zero seen stks = false
    finishes (suc n) seen [] = true
    finishes (suc n) seen (x ∷ stks) = sweep (λ e. true) (λ y b. b) (finishes n) (h x) seen stks

    -- The closure of one stack
    abbrev pub closure_of : ClosureKind → ℕ → Stack → Stream
    closure_of star n x = yields x (explore n (x ∷ []) (x ∷ []))
    closure_of plus n x = explore n [] (x ∷ [])

    abbrev pub closes : ClosureKind → ℕ → Stack → Bool
    closes star n x = finishes n (x ∷ []) (x ∷ [])
    closes plus n x = finishes n [] (x ∷ [])
