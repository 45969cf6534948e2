-- ===== src/Overload/Elements.antt =====
-- The overloads of `elem` and `relem` as ops: op_elem_seq, op_relem_seq, op_elem_str and
-- op_relem_str of libzwerg/value-seq.cc and libzwerg/value-str.cc.
use mathlib.Core.Path.{ap₂}
use dwgrep.Base.{ℕ, suc, ◌≡◌, refl, ap, ◌∙◌, List, [], ◌∷◌, Option, some, reverse, drop}
use dwgrep.Value.{Value, Values, TypeCodes, cst, str, seq, other, nil, cons, set_pos}
use dwgrep.Value.Search.{elements}
use dwgrep.Value.Elements.{Producer, elem_next, relem_next, at_position, as_string, producer_of}
use dwgrep.Value.Elements.Produced.{numbered, elem_from, relem_from}
use dwgrep.Stack.{Stack, Result, ok, err, aborted, ◌>>=◌, pop}
use dwgrep.Op.{Op}
use dwgrep.Op.Stream.{Stream, fails, bind, bind-eq, Computes, Computes-eq}
use dwgrep.Overload.Yielding.{op_yielding, pushes, pushes_of, op_yielding-Computes}

module _ (t : TypeCodes) where
  -- collect of a sequence, and `operate`
  pub take_seq : Value × Stack → Result (Option (Producer Value) × Stack)
  take_seq (seq vs p, stk) = ok (some (producer_of (elements vs)), stk)
  take_seq (cst n d p, stk) = err aborted
  take_seq (str s p, stk) = err aborted
  take_seq (other c i p, stk) = err aborted

  pub take_str : Value × Stack → Result (Option (Producer ℕ) × Stack)
  take_str (str s p, stk) = ok (some (producer_of s), stk)
  take_str (cst n d p, stk) = err aborted
  take_str (seq vs p, stk) = err aborted
  take_str (other c i p, stk) = err aborted

  abbrev pub begin_seq : Stack → Result (Option (Producer Value) × Stack)
  begin_seq stk = pop t stk >>= take_seq

  abbrev pub begin_str : Stack → Result (Option (Producer ℕ) × Stack)
  begin_str stk = pop t stk >>= take_str

  abbrev pub op_elem_seq : Op → Op
  op_elem_seq = op_yielding t (elem_next at_position) begin_seq

  abbrev pub op_relem_seq : Op → Op
  op_relem_seq = op_yielding t (relem_next at_position) begin_seq

  abbrev pub op_elem_str : Op → Op
  op_elem_str = op_yielding t (elem_next as_string) begin_str

  abbrev pub op_relem_str : Op → Op
  op_relem_str = op_yielding t (relem_next as_string) begin_str

-- What a producer has left
module _ {A : Type 0} (make : A → ℕ → Value) where
  abbrev pub forwards : Producer A → List Value
  forwards p = numbered make p.idx (drop p.idx p.items)

  abbrev pub backwards : Producer A → List Value
  backwards p = numbered make p.idx (drop p.idx (reverse p.items))

-- A value with another position
abbrev pub moved_to : ℕ → Value → Value
moved_to i (cst n d p) = cst n d i
moved_to i (str s p) = str s i
moved_to i (seq vs p) = seq vs i
moved_to i (other c id p) = other c id i

-- The values at the positions i, i + 1 and so on
abbrev pub placed : ℕ → List Value → List Value
placed i [] = []
placed i (v ∷ vs) = moved_to i v ∷ placed (suc i) vs

-- The strings of one character, in the same way
abbrev pub letters : ℕ → List ℕ → List Value
letters i [] = []
letters i (c ∷ cs) = str (c ∷ []) i ∷ letters (suc i) cs

abbrev pub listed : Values → List Value
listed nil = []
listed (cons v vs) = v ∷ listed vs

-- What is yielded for the value on top and the stack below it, where the word takes a sequence, and
-- where it takes a string
module _ (t : TypeCodes) where
  abbrev pub for_seq : (List Value → List Value) → Result (Value × Stack) → Stream
  for_seq order (ok (seq vs p, stk)) = pushes t stk (placed 0 (order (listed vs)))
  for_seq order (ok (cst n d p, stk)) = fails aborted
  for_seq order (ok (str s p, stk)) = fails aborted
  for_seq order (ok (other c i p, stk)) = fails aborted
  for_seq order (err e) = fails e

  abbrev pub for_str : (List ℕ → List ℕ) → Result (Value × Stack) → Stream
  for_str order (ok (str s p, stk)) = pushes t stk (letters 0 (order s))
  for_str order (ok (cst n d p, stk)) = fails aborted
  for_str order (ok (seq vs p, stk)) = fails aborted
  for_str order (ok (other c i p, stk)) = fails aborted
  for_str order (err e) = fails e

  elements-listed : (vs : Values) → elements vs ≡ listed vs
  elements-listed nil = refl
  elements-listed (cons v vs) = ap (◌∷◌ v) (elements-listed vs)

  at_position-moved_to : (v : Value) (i : ℕ) → at_position v i ≡ moved_to i v
  unfolding set_pos
  at_position-moved_to (cst n d p) i = refl
  at_position-moved_to (str s p) i = refl
  at_position-moved_to (seq vs p) i = refl
  at_position-moved_to (other c id p) i = refl

  numbered-placed : (i : ℕ) (vs : List Value) → numbered at_position i vs ≡ placed i vs
  unfolding numbered
  numbered-placed i [] = refl
  numbered-placed i (v ∷ vs) = ap₂ ◌∷◌ (at_position-moved_to v i) (numbered-placed (suc i) vs)

  numbered-letters : (i : ℕ) (cs : List ℕ) → numbered as_string i cs ≡ letters i cs
  unfolding numbered
  numbered-letters i [] = refl
  numbered-letters i (c ∷ cs) = ap (◌∷◌ (str (c ∷ []) i)) (numbered-letters (suc i) cs)

  module _ (order : List Value → List Value) (of : Producer Value → List Value)
      (step : Producer Value → Option (Value × Producer Value))
      (h : (vs : List Value) → of (producer_of vs) ≡ numbered at_position 0 (order vs)) where
    pushes_of-for_seq :
        (r : Result (Value × Stack))
        → pushes_of t step (begin_seq t) of (r >>= take_seq t) ≡ for_seq order r
    unfolding take_seq
    pushes_of-for_seq (ok (seq vs p, stk)) = ap (pushes t stk) (
        h (elements vs)
        ∙ numbered-placed 0 (order (elements vs))
        ∙ ap (λ ws. placed 0 (order ws)) (elements-listed vs))
    pushes_of-for_seq (ok (cst n d p, stk)) = refl
    pushes_of-for_seq (ok (str s p, stk)) = refl
    pushes_of-for_seq (ok (other c i p, stk)) = refl
    pushes_of-for_seq (err e) = refl

  module _ (order : List ℕ → List ℕ) (of : Producer ℕ → List Value)
      (step : Producer ℕ → Option (Value × Producer ℕ))
      (h : (cs : List ℕ) → of (producer_of cs) ≡ numbered as_string 0 (order cs)) where
    pushes_of-for_str :
        (r : Result (Value × Stack))
        → pushes_of t step (begin_str t) of (r >>= take_str t) ≡ for_str order r
    unfolding take_str
    pushes_of-for_str (ok (str s p, stk)) = ap (pushes t stk) (h s ∙ numbered-letters 0 (order s))
    pushes_of-for_str (ok (cst n d p, stk)) = refl
    pushes_of-for_str (ok (seq vs p, stk)) = refl
    pushes_of-for_str (ok (other c i p, stk)) = refl
    pushes_of-for_str (err e) = refl

-- For each stack that the upstream computes, `elem` on sequences pops the sequence and yields the rest
-- of the stack with each element pushed on it, in their order, the elements at the positions 0, 1, 2 and
-- so on; `relem` does it in the reverse order, again from the position 0 on, and both do it for the
-- strings of one character each of a string. An empty stack is the error of pop, and another value on top
-- a failed assertion.
pub elem-Computes :
    (t : TypeCodes) (up : Op) (g : Stack → Stream)
    → Computes up g
    → Computes (op_elem_seq t up) (λ x. bind (g x) (λ y. for_seq t (λ vs. vs) (pop t y)))
      × Computes (op_relem_seq t up) (λ x. bind (g x) (λ y. for_seq t reverse (pop t y)))
      × Computes (op_elem_str t up) (λ x. bind (g x) (λ y. for_str t (λ cs. cs) (pop t y)))
      × Computes (op_relem_str t up) (λ x. bind (g x) (λ y. for_str t reverse (pop t y)))
elem-Computes t up g c = (
  Computes-eq (op_elem_seq t up) _ _
      (λ x. bind-eq (g x) _ _ (λ y.
        pushes_of-for_seq t (λ vs. vs) (forwards at_position) (elem_next at_position) (λ vs. refl)
          (pop t y)))
      (op_yielding-Computes t (elem_next at_position) (begin_seq t) (forwards at_position)
        (λ p. elem_from at_position p.items p.idx (drop p.idx p.items) refl) up g c),
  Computes-eq (op_relem_seq t up) _ _
      (λ x. bind-eq (g x) _ _ (λ y.
        pushes_of-for_seq t reverse (backwards at_position) (relem_next at_position) (λ vs. refl)
          (pop t y)))
      (op_yielding-Computes t (relem_next at_position) (begin_seq t) (backwards at_position)
        (λ p. relem_from at_position p.items p.idx (drop p.idx (reverse p.items)) refl) up g c),
  Computes-eq (op_elem_str t up) _ _
      (λ x. bind-eq (g x) _ _ (λ y.
        pushes_of-for_str t (λ cs. cs) (forwards as_string) (elem_next as_string) (λ cs. refl)
          (pop t y)))
      (op_yielding-Computes t (elem_next as_string) (begin_str t) (forwards as_string)
        (λ p. elem_from as_string p.items p.idx (drop p.idx p.items) refl) up g c),
  Computes-eq (op_relem_str t up) _ _
      (λ x. bind-eq (g x) _ _ (λ y.
        pushes_of-for_str t reverse (backwards as_string) (relem_next as_string) (λ cs. refl)
          (pop t y)))
      (op_yielding-Computes t (relem_next as_string) (begin_str t) (backwards as_string)
        (λ p. relem_from as_string p.items p.idx (drop p.idx (reverse p.items)) refl) up g c),
)
