-- ===== src/AddressSet/Elements/Produced.antt =====
-- What `elem` and `relem` produce on an address set.
use mathlib.Core.Path.{subst}
use dwgrep.Base.{
  ℕ, zero, suc, ◌+◌, ◌^◌, ◌<◌, ◌≡◌, refl, sym, ◌∙◌, arith, Bool, true, false, if◌then◌else◌, List,
  [], ◌∷◌, ◌++◌, none, some, length, drop, reverse,
}
use dwgrep.Mpz.{mpz, unsign}
use dwgrep.Value.{Value, cst}
use dwgrep.Value.Elements.Produced.{Produces, numbered}
use dwgrep.Coverage.{Range}
use dwgrep.Coverage.Ordered.{covers, IsCoverage}
use dwgrep.AddressSet.Elements.{Producer, emit, aset_next, producer_of, at_idx}
use dwgrep.AddressSet.Visited.{
  visited, AllFit, AllFit-reverse, Ordered-AllFit, at-visited, length-reverse,
}
use dwgrep.AddressSet.Listing.{
  left_of, left_step, left_none, listing, listing-forward, listing-reverse, addresses, is_in,
  covers-addresses,
}

module _ (dom : ℕ) where
  abbrev pub address : ℕ → ℕ → Value
  address a i = cst (mpz a unsign) dom i

  abbrev pub Yields : Producer → List Value → Type 0
  Yields p vs = Produces (aset_next dom) p vs

  abbrev state : List Range → Bool → ℕ → ℕ → ℕ → Producer
  state c f idx k i = record { cov = c; idx = idx; ai = k; i = i; forward = f }

  next_inside :
      (cov : List Range) (f : Bool) (idx k i n : ℕ) (r : Range)
      → idx < length cov
      → at_idx (state cov f idx 0 0) ≡ r
      → k + suc n ≡ r.length
      → r.start + r.length < 2 ^ 64
      → aset_next dom (state cov f idx k i)
        ≡ some (address (if f then r.start + k else r.start + n) i, state cov f idx (suc k) (suc i))
  unfolding aset_next emit
  next_inside cov true idx k i n r l e h fits = rw e (ground arith)
  next_inside cov false idx k i n r l e h fits = rw e (ground arith)

  next_range :
      (cov : List Range) (f : Bool) (idx k i : ℕ) (r r' : Range)
      → suc idx < length cov
      → at_idx (state cov f idx 0 0) ≡ r
      → at_idx (state cov f (suc idx) 0 0) ≡ r'
      → k ≡ r.length
      → 0 < r'.length
      → aset_next dom (state cov f idx k i) ≡ aset_next dom (state cov f (suc idx) 0 i)
  unfolding aset_next emit
  next_range cov f idx k i r r' l e e' h p = rw (e, e') (ground arith)

  next_last :
      (cov : List Range) (f : Bool) (idx k i : ℕ) (r : Range)
      → suc idx ≡ length cov
      → at_idx (state cov f idx 0 0) ≡ r
      → k ≡ r.length
      → aset_next dom (state cov f idx k i) ≡ none
  unfolding aset_next emit
  next_last cov f idx k i r l e h = rw e (ground arith)

  same_answers :
      (p q : Producer) (vs : List Value)
      → aset_next dom p ≡ aset_next dom q
      → Yields q vs
      → Yields p vs
  same_answers p q [] e y = e ∙ y
  same_answers p q (v ∷ vs) e (q', e', y) = (q', e ∙ e', y)

  produced_from :
      (cov : List Range) (f : Bool) (rest : List Range) (r : Range) (n k idx i : ℕ)
      → drop idx (visited f cov) ≡ r ∷ rest
      → k + n ≡ r.length
      → r.start + r.length < 2 ^ 64
      → AllFit rest
      → Yields (state cov f idx k i) (numbered address i (left_of f r.start k n ++ listing f rest))
  unfolding numbered listing
  produced_from cov f rest r (suc n) k idx i d h fits o =
      let (e, d', l) = at-visited cov f idx r rest d in
      rw (left_step f r.start k n) (
        state cov f idx (suc k) (suc i),
        next_inside cov f idx k i n r (omega arith) e h fits,
        produced_from cov f rest r n (suc k) idx (suc i) d (omega arith) fits o,
      )
  produced_from cov f [] r zero k idx i d h fits o =
      let (e, d', l) = at-visited cov f idx r [] d in
      rw (left_none f r.start k) (next_last cov f idx k i r (omega arith) e (omega arith))
  produced_from cov f (r' ∷ rest) r zero k idx i d h fits o =
      let (e, d', l) = at-visited cov f idx r (r' ∷ rest) d in
      let (e', d'', l') = at-visited cov f (suc idx) r' rest d' in
      rw (left_none f r.start k) (
        same_answers (state cov f idx k i) (state cov f (suc idx) 0 i) _
          (next_range cov f idx k i r r' (omega arith) e e' (omega arith) o.0)
          (produced_from cov f rest r' r'.length 0 (suc idx) i d' (omega arith) o.1 o.2))

  produced_all :
      (cov : List Range) (f : Bool) (vs : List Range)
      → visited f cov ≡ vs
      → length cov ≡ length vs
      → AllFit vs
      → Yields (producer_of cov f) (numbered address 0 (listing f vs))
  unfolding aset_next numbered listing
  produced_all cov f [] e l o = ground arith
  produced_all cov f (r ∷ rest) e l o =
      produced_from cov f rest r r.length 0 0 0 e (omega arith) o.1 o.2

-- On a coverage that keeps the invariant, `elem` produces the constants of the covered addresses
-- from the lowest to the highest, and `relem` from the highest to the lowest, each of them once and
-- with the positions 0, 1, 2 and so on, and then no more.
pub aset_elements_produced :
    (dom : ℕ) (cov : List Range)
    → IsCoverage cov
    → Yields dom (producer_of cov true) (numbered (address dom) 0 (addresses cov))
      × Yields dom (producer_of cov false) (numbered (address dom) 0 (reverse (addresses cov)))
      × ((a : ℕ) → covers cov a ≡ is_in a (addresses cov))
aset_elements_produced dom cov o =
    let fit = Ordered-AllFit 0 cov o in
    let up = produced_all dom cov true cov refl refl fit in
    let down =
      produced_all dom cov false (reverse cov) refl (sym (length-reverse cov))
        (AllFit-reverse cov fit) in
    (
      subst (λ vs. Yields dom (producer_of cov true) (numbered (address dom) 0 vs))
          (listing-forward cov) up,
      subst (λ vs. Yields dom (producer_of cov false) (numbered (address dom) 0 vs))
          (listing-reverse cov) down,
      covers-addresses cov,
    )
