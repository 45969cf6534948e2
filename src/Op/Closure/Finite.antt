-- ===== src/Op/Closure/Finite.antt =====
-- Where the search of the transitive closure ends: among finitely many stacks.
use dwgrep.Base.{
  inl, inr, ℕ, zero, suc, ◌+◌, ◌<◌, ◌≤◌, ◌≡◌, refl, arith, Bool, true, false, Bool-cases,
  if◌then◌else◌, List, [], ◌∷◌, length,
}
use dwgrep.Constant.{Domains}
use dwgrep.Value.{TypeCodes}
use dwgrep.Value.Compare.{ForeignCmp}
use dwgrep.Value.Compare.Laws.{ForeignLaws}
use dwgrep.Stack.{Stack}
use dwgrep.Stack.Compare.{stack_less, compare_stack_self, IsProperStack}
use dwgrep.Op.Stream.{Stream, ends, fails, yields}
use dwgrep.Op.Closure.{ClosureKind, star, plus, is_seen, same_stack}
use dwgrep.Op.Closure.Explore.{sweep, finishes, closes}
use dwgrep.Op.Closure.Found.{AllOf, Each, Among}

module _ (t : TypeCodes) (ds : Domains) (foreign : ForeignCmp) where
  -- The stacks of the list that are not seen
  unseen : List Stack → List Stack → ℕ
  unseen seen [] = 0
  unseen seen (u ∷ us) = (if is_seen t ds foreign u seen then 0 else 1) + unseen seen us

  unseen-le-length : (seen us : List Stack) → unseen seen us ≤ length us
  unfolding unseen
  unseen-le-length seen [] = omega arith
  unseen-le-length seen (u ∷ us) = ground (arith, unseen-le-length seen us)

  unseen_le : (y : Stack) (seen us : List Stack) → unseen (y ∷ seen) us ≤ unseen seen us
  unfolding unseen is_seen
  unseen_le y seen [] = omega arith
  unseen_le y seen (u ∷ us) = ground (arith, unseen_le y seen us)

  -- A new stack of the list that is the same as itself is unseen no more.
  unseen_lt :
      (y : Stack) (seen us : List Stack)
      → same_stack t ds foreign y y ≡ true
      → is_seen t ds foreign y seen ≡ false
      → Among us y
      → unseen (y ∷ seen) us < unseen seen us
  unfolding unseen is_seen
  unseen_lt y seen [] r new m = absurd m
  unseen_lt y seen (u ∷ us) r new (inl e) = rw (← e, new, r) (omega (arith, unseen_le y seen us))
  unseen_lt y seen (u ∷ us) r new (inr m) = ground (arith, unseen_lt y seen us r new m)

  module _ (h : Stack → Stream) (us : List Stack)
      (same : (y : Stack) → Among us y → same_stack t ds foreign y y ≡ true)
      (within : (x : Stack) → Among us x → AllOf (Among us) (h x)) where
    abbrev measure : List Stack → List Stack → ℕ
    measure seen stks = length stks + unseen seen us

    sweep_finishes :
        (zs : Stream) (fin : List Stack → List Stack → Bool) (n : ℕ) (seen stks : List Stack)
        → ((seen' stks' : List Stack)
            → measure seen' stks' < n
            → Each (Among us) stks'
            → fin seen' stks' ≡ true)
        → AllOf (Among us) zs
        → measure seen stks < n
        → Each (Among us) stks
        → sweep t ds foreign (λ e. true) (λ y b. b) fin zs seen stks ≡ true
    unfolding sweep
    sweep_finishes ends fin n seen stks k m l q = k seen stks l q
    sweep_finishes (fails e) fin n seen stks k m l q = refl
    sweep_finishes (yields y zs) fin n seen stks k m l q =
        elim (Bool-cases (is_seen t ds foreign y seen)) [
          | inl old ↦ rw old (sweep_finishes zs fin n seen stks k m.1 l q)
          | inr new ↦
              let fewer = unseen_lt y seen us (same y m.0) new m.0 in
              rw new (sweep_finishes zs fin n (y ∷ seen) (y ∷ stks) k m.1 (omega arith) (m.0, q))
        ]

    finishes_within :
        (n : ℕ) (seen stks : List Stack)
        → measure seen stks < n
        → Each (Among us) stks
        → finishes t ds foreign h n seen stks ≡ true
    unfolding finishes
    finishes_within zero seen stks l q = absurd (omega arith)
    finishes_within (suc n) seen [] l q = refl
    finishes_within (suc n) seen (x ∷ stks) l q =
        sweep_finishes (h x) (finishes t ds foreign h n) n seen stks (finishes_within n)
          (within x q.0) (omega arith) q.1

    closes_within :
        (k : ClosureKind) (x : Stack)
        → Among us x
        → closes t ds foreign h k (length us + 2) x ≡ true
    closes_within star x m =
        finishes_within (length us + 2) (x ∷ []) (x ∷ [])
          (omega (arith, unseen-le-length (x ∷ []) us)) (m, tt)
    closes_within plus x m =
        finishes_within (length us + 2) [] (x ∷ []) (omega (arith, unseen-le-length [] us)) (m, tt)

  module _ (laws : ForeignLaws foreign) where
    pub same_stack_self :
        (x : Stack) → IsProperStack t ds foreign x → same_stack t ds foreign x x ≡ true
    unfolding same_stack stack_less
    same_stack_self x p = rw (compare_stack_self t ds foreign laws x p) refl

    -- The search ends: for an op that leads from each of finitely many stacks to these stacks only,
    -- whose values are of 64 bits, with comparisons of the classes of the Dwarf library that are
    -- those of orders, the closure of one of them takes at most two visits more than there are
    -- stacks.
    pub closes-finite :
        (h : Stack → Stream) (us : List Stack) (k : ClosureKind) (x : Stack)
        → ((y : Stack) → Among us y → IsProperStack t ds foreign y)
        → ((y : Stack) → Among us y → AllOf (Among us) (h y))
        → Among us x
        → closes t ds foreign h k (length us + 2) x ≡ true
    closes-finite h us k x proper within m =
        closes_within h us (λ y a. same_stack_self y (proper y a)) within k x m
