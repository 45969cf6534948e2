-- ===== src/Op/Closure/Complete.antt =====
-- The search of the transitive closure finds all stacks that the op leads to.
use dwgrep.Base.{◌⊎◌, inl, inr, ℕ, zero, suc, ◌≡◌, refl, arith, true, Bool-cases, List, [], ◌∷◌}
use dwgrep.Constant.{Domains}
use dwgrep.Value.{TypeCodes}
use dwgrep.Value.Compare.{ForeignCmp}
use dwgrep.Stack.{Stack}
use dwgrep.Op.Stream.{Stream, ends, fails, yields}
use dwgrep.Op.Closure.{is_seen, same_stack}
use dwgrep.Op.Closure.Explore.{sweep, explore}
use dwgrep.Op.Closure.Found.{Yields, Among, Succeeds}

module _ (t : TypeCodes) (ds : Domains) (foreign : ForeignCmp) where
  -- The stacks are one, or neither is less than the other.
  abbrev pub Matches : Stack → Stack → Type 0
  Matches y z = (y ≡ z) ⊎ (same_stack t ds foreign y z ≡ true)

  -- A stack of the stream matches y.
  abbrev pub Finds : Stream → Stack → Type 0
  Finds out y = (z : Stack) × Yields out z × Matches y z

  -- The stack was seen before, or the stream finds it.
  abbrev pub Covered : List Stack → Stream → Stack → Type 0
  Covered seen out y = (is_seen t ds foreign y seen ≡ true) ⊎ Finds out y

  pub none_seen : (out : Stream) (y : Stack) → Covered [] out y → Finds out y
  unfolding is_seen
  none_seen out y (inl e) = absurd (cc)
  none_seen out y (inr f) = f

  pub later :
      (y z : Stack) (seen : List Stack) (out : Stream)
      → Covered (y ∷ seen) out z
      → Covered seen (yields y out) z
  unfolding is_seen
  later y z seen out (inr (w, m, e)) = inr (w, inr m, e)
  later y z seen out (inl e) = elim (Bool-cases (same_stack t ds foreign z y)) [
    | inl same ↦ inr (y, inl refl, inr same)
    | inr other ↦ inl (ground arith)
  ]

  module _ (h : Stack → Stream) where
    -- What h yields for the stack is covered.
    abbrev pub StepsCovered : List Stack → Stream → Stack → Type 0
    StepsCovered seen out s = (y : Stack) → Yields (h s) y → Covered seen out y

    -- The stacks to visit and those found have their steps covered.
    abbrev pub AllCovered : List Stack → List Stack → Stream → Type 0
    AllCovered seen stks out =
        ((s : Stack) → Among stks s → StepsCovered seen out s)
        × ((s : Stack) → Yields out s → StepsCovered seen out s)

    -- A sweep, as its stream: then all stacks of zs are covered too.
    abbrev SweepCovered : Stream → List Stack → List Stack → Stream → Type 0
    SweepCovered zs seen stks out =
        ((y : Stack) → Yields zs y → Covered seen out y) × AllCovered seen stks out

    found_new :
        (y : Stack) (zs : Stream) (seen stks : List Stack) (out : Stream)
        → SweepCovered zs (y ∷ seen) (y ∷ stks) out
        → SweepCovered (yields y zs) seen stks (yields y out)
    found_new y zs seen stks out (a, (b, c)) = (
      (λ z m. elim m [ inl e ↦ inr (y, inl refl, inl e) | inr m' ↦ later y z seen out (a z m') ]),
      (
        (λ s m z n. later y z seen out (b s (inr m) z n)),
        (λ s m z n. elim m [
          | inl e ↦ later y z seen out (b s (inl e) z n)
          | inr m' ↦ later y z seen out (c s m' z n)
        ]),
      ),
    )

    found_old :
        (y : Stack) (zs : Stream) (seen stks : List Stack) (out : Stream)
        → is_seen t ds foreign y seen ≡ true
        → SweepCovered zs seen stks out
        → SweepCovered (yields y zs) seen stks out
    found_old y zs seen stks out old (a, bc) =
        ((λ z m. elim m [ inl e ↦ inl (rw e old) | inr m' ↦ a z m' ]), bc)

    sweep_covered :
        (zs : Stream) (go : List Stack → List Stack → Stream) (seen stks : List Stack)
        → ((seen' stks' : List Stack)
            → Succeeds (go seen' stks')
            → AllCovered seen' stks' (go seen' stks'))
        → Succeeds (sweep t ds foreign fails yields go zs seen stks)
        → SweepCovered zs seen stks (sweep t ds foreign fails yields go zs seen stks)
    unfolding sweep
    sweep_covered ends go seen stks k = λ s. ((λ y m. absurd m), k seen stks s)
    sweep_covered (fails e) go seen stks k = λ s. absurd s
    sweep_covered (yields y zs) go seen stks k = elim (Bool-cases (is_seen t ds foreign y seen)) [
      | inl old ↦ rw old (λ s. found_old y zs seen stks _ old (sweep_covered zs go seen stks k s))
      | inr new ↦
          rw new (λ s. found_new y zs seen stks _ (sweep_covered zs go (y ∷ seen) (y ∷ stks) k s))
    ]

    pub explore_covered :
        (n : ℕ) (seen stks : List Stack)
        → Succeeds (explore t ds foreign h n seen stks)
        → AllCovered seen stks (explore t ds foreign h n seen stks)
    unfolding explore
    explore_covered zero seen stks s = absurd s
    explore_covered (suc n) seen [] s = ((λ x m. absurd m), (λ x m. absurd m))
    explore_covered (suc n) seen (x ∷ stks) s =
        let (a, (b, c)) =
          sweep_covered (h x) (explore t ds foreign h n) seen stks (explore_covered n) s in
        ((λ z m. elim m [ inl e ↦ rw e a | inr m' ↦ b z m' ]), c)
