-- ===== src/Op/Closure/Found.antt =====
-- What the search of the transitive closure finds: stacks that the op reaches.
use dwgrep.Base.{
  ◌⊎◌, inl, inr, ℕ, zero, suc, ◌≡◌, refl, Bool, true, false, if◌then◌else◌, List, [], ◌∷◌,
}
use dwgrep.Constant.{Domains}
use dwgrep.Value.{TypeCodes}
use dwgrep.Value.Compare.{ForeignCmp}
use dwgrep.Stack.{Stack}
use dwgrep.Op.Stream.{Stream, ends, fails, yields}
use dwgrep.Op.Closure.{is_seen}
use dwgrep.Op.Closure.Explore.{sweep, explore}

-- The stack is one of the stream.
abbrev pub Yields : Stream → Stack → Type 0
Yields ends y = ⊥
Yields (fails e) y = ⊥
Yields (yields x xs) y = (y ≡ x) ⊎ Yields xs y

-- All stacks of the stream are in P.
abbrev pub AllOf : (Stack → Type 0) → Stream → Type 0
AllOf P ends = Unit {0}
AllOf P (fails e) = Unit {0}
AllOf P (yields x xs) = P x × AllOf P xs

abbrev pub Each : (Stack → Type 0) → List Stack → Type 0
Each P [] = Unit {0}
Each P (x ∷ xs) = P x × Each P xs

abbrev pub Among : List Stack → Stack → Type 0
Among [] y = ⊥
Among (x ∷ xs) y = (y ≡ x) ⊎ Among xs y

-- The stream ends without an exception.
abbrev pub Succeeds : Stream → Type 0
Succeeds ends = Unit {0}
Succeeds (fails e) = ⊥
Succeeds (yields x xs) = Succeeds xs

-- One step or more of h lead from x to the stack.
pub data Reaches (h : Stack → Stream) (x : Stack) : Stack → Type 0 where
  first : {y : Stack} → Yields (h x) y → Reaches h x y
  further : {y z : Stack} → Reaches h x y → Yields (h y) z → Reaches h x z

pub AllOf-Yields :
    (P : Stack → Type 0) (xs : Stream) → ((y : Stack) → Yields xs y → P y) → AllOf P xs
AllOf-Yields P ends h = tt
AllOf-Yields P (fails e) h = tt
AllOf-Yields P (yields x xs) h = (h x (inl refl), AllOf-Yields P xs (λ y m. h y (inr m)))

pub either_way :
    (b : Bool) (D : Stream → Type 0) {xs ys : Stream} → D xs → D ys → D (if b then xs else ys)
either_way true D x y = x
either_way false D x y = y

module _ (t : TypeCodes) (ds : Domains) (foreign : ForeignCmp) (h : Stack → Stream) where
  -- Soundness: a stack found is a step of h away from one to visit.
  module _ (P Q : Stack → Type 0) (step : (x y : Stack) → Q x → Yields (h x) y → P y)
      (visits : (y : Stack) → P y → Q y) where
    sweep-AllOf :
        (zs : Stream) (go : List Stack → List Stack → Stream) (seen stks : List Stack)
        → ((seen' stks' : List Stack) → Each Q stks' → AllOf P (go seen' stks'))
        → AllOf P zs
        → Each Q stks
        → AllOf P (sweep t ds foreign fails yields go zs seen stks)
    unfolding sweep
    sweep-AllOf ends go seen stks k m q = k seen stks q
    sweep-AllOf (fails e) go seen stks k m q = tt
    sweep-AllOf (yields y zs) go seen stks k m q =
        either_way (is_seen t ds foreign y seen) (AllOf P) (sweep-AllOf zs go seen stks k m.1 q)
          (m.0, sweep-AllOf zs go (y ∷ seen) (y ∷ stks) k m.1 (visits y m.0, q))

    pub explore-AllOf :
        (n : ℕ) (seen stks : List Stack)
        → Each Q stks
        → AllOf P (explore t ds foreign h n seen stks)
    unfolding explore
    explore-AllOf zero seen stks q = tt
    explore-AllOf (suc n) seen [] q = tt
    explore-AllOf (suc n) seen (x ∷ stks) q =
        sweep-AllOf (h x) (explore t ds foreign h n) seen stks (explore-AllOf n)
          (AllOf-Yields P (h x) (λ y m. step x y q.0 m)) q.1
