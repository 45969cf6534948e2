-- ===== src/Dies/Preorder.antt =====
-- all_dies_iterator visits the DIEs of a file in preorder.
use mathlib.Core.List.{append_assoc}
use dwgrep.Base.{
  ℕ, suc, ◌+◌, ◌%◌, ◌^◌, ◌<◌, ◌≡◌, refl, arith, false, List, [], ◌∷◌, ◌++◌, Option, none, some,
}
use dwgrep.Stack.{Result, ok, ◌>>=◌}
use dwgrep.Op.Stream.{Eventually, Eventually-const, Eventually-suc, Eventually-eq, Eventually-bind}
use dwgrep.Dies.{
  Neighbour, no_die, found, Libdw, CuIterator, no_offset, cu_end, AllDiesIterator, is_end, cu_found,
  move, pick, level_up, climb, landed, advance, all_dies, dies_from,
}

-- DIEs side by side: the first of them, its children, and those after it
pub data Forest : Type 0 where
  nil : Forest
  tree : ℕ → Forest → Forest → Forest

abbrev pub preorder : Forest → List ℕ
preorder nil = []
preorder (tree d cs ss) = d ∷ preorder cs ++ preorder ss

abbrev pub first : Forest → Neighbour
first nil = no_die
first (tree d cs ss) = found d

-- A unit (CU): the offset after it, the size of its header, its DIE and the children of that
pub record CuTree : Type 0 where
  pub next : ℕ
  pub hsize : ℕ
  pub root : ℕ
  pub children : Forest

abbrev pub all_of : List CuTree → List ℕ
all_of [] = []
all_of (u ∷ us) = u.root ∷ preorder u.children ++ all_of us

module _ (dw : Libdw) where
  -- The functions of elfutils know the DIEs,
  abbrev pub HasForest : Forest → Type 0
  HasForest nil = Unit {0}
  HasForest (tree d cs ss) =
      (dw.child d ≡ first cs)
      × (dw.sibling d ≡ first ss)
      × (dw.offdie d ≡ some d)
      × HasForest cs
      × HasForest ss

  -- and the units, from an offset on.
  abbrev pub HasUnits : ℕ → List CuTree → Type 0
  HasUnits offset [] = dw.next_cu offset ≡ none
  HasUnits offset (u ∷ us) =
      (dw.next_cu offset ≡ some (u.next, u.hsize))
      × (dw.offdie ((offset + u.hsize) % 2 ^ 64) ≡ some u.root)
      × (u.next < no_offset)
      × HasForest (tree u.root u.children nil)
      × HasUnits u.next us

  abbrev Visits : AllDiesIterator → List ℕ → Type 0
  Visits it ds = Eventually (λ n. dies_from dw n it) (ok ds)

  -- The same for what the loop of operator++ comes to.
  abbrev Resumes : CuIterator → Result (Option (ℕ × List ℕ)) → List ℕ → Type 0
  Resumes c r ds = Eventually (λ n. r >>= landed dw c >>= dies_from dw n) (ok ds)

  visited :
      (it : AllDiesIterator) (ds : List ℕ)
      → is_end it ≡ false
      → Eventually (λ n. advance dw it >>= dies_from dw n) (ok ds)
      → Visits it (it.die ∷ ds)
  unfolding dies_from
  visited it ds e v =
      Eventually-suc (λ n. dies_from dw n it) (ok (it.die ∷ ds))
        (Eventually-eq (λ n. dies_from dw (suc n) it)
          (λ n. advance dw it >>= dies_from dw n >>= (λ ds'. ok (it.die ∷ ds'))) (ok (it.die ∷ ds))
          (λ n. rw e refl)
          (Eventually-bind (λ n. advance dw it >>= dies_from dw n) (λ n ds'. ok (it.die ∷ ds')) ds
            (ok (it.die ∷ ds)) v (Eventually-const _)))

  not_end :
      (c : CuIterator) (ps : List ℕ) (d : ℕ)
      → c.offset < no_offset
      → is_end (record { cuit = c; stack = ps; die = d }) ≡ false
  unfolding is_end
  not_end c ps d l = ground (arith, l)

  -- A DIE without children, and one with
  leaf :
      (c : CuIterator) (ps : List ℕ) (d : ℕ) (n : Neighbour) (ds : List ℕ)
      → c.offset < no_offset
      → dw.child d ≡ no_die
      → dw.sibling d ≡ n
      → Resumes c (pick dw n ps (level_up dw ps)) ds
      → Visits (record { cuit = c; stack = ps; die = d }) (d ∷ ds)
  unfolding advance climb
  leaf c ps d n ds l h q r =
      visited (record { cuit = c; stack = ps; die = d }) ds (not_end c ps d l) (rw (h, q) r)

  parent :
      (c : CuIterator) (ps : List ℕ) (d e : ℕ) (ds : List ℕ)
      → c.offset < no_offset
      → dw.child d ≡ found e
      → Visits (record { cuit = c; stack = d ∷ ps; die = e }) ds
      → Visits (record { cuit = c; stack = ps; die = d }) (d ∷ ds)
  unfolding advance
  parent c ps d e ds l h v =
      visited (record { cuit = c; stack = ps; die = d }) ds (not_end c ps d l) (rw h v)

  -- The DIEs below a parent
  below :
      (f : Forest) (c : CuIterator) (p : ℕ) (ps : List ℕ) (ds : List ℕ)
      → c.offset < no_offset
      → HasForest f
      → Resumes c (level_up dw (p ∷ ps)) ds
      → Resumes c (pick dw (first f) (p ∷ ps) (level_up dw (p ∷ ps))) (preorder f ++ ds)
  below nil c p ps ds l h r = r
  below (tree d nil ss) c p ps ds l (hc, hs, ho, hcs, hss) r =
      leaf c (p ∷ ps) d (first ss) (preorder ss ++ ds) l hc hs (below ss c p ps ds l hss r)
  below (tree d (tree e cs es) ss) c p ps ds l (hc, hs, ho, hcs, hss) r =
      rw (append_assoc (preorder (tree e cs es)) (preorder ss) ds) (
        parent c (p ∷ ps) d e (preorder (tree e cs es) ++ (preorder ss ++ ds)) l hc (
          below (tree e cs es) c d (p ∷ ps) (preorder ss ++ ds) l hcs
            (rw (ho, hs) (below ss c p ps ds l hss r))))

  at_end : Visits (record { cuit = cu_end; stack = []; die = 0 }) []
  unfolding dies_from is_end
  at_end =
      Eventually-suc (λ n. dies_from dw n (record { cuit = cu_end; stack = []; die = 0 })) (ok [])
        (Eventually-const (ok []))

  -- The DIE of a unit, and then those of the units after it
  unit :
      (c : CuIterator) (d : ℕ) (f : Forest) (ds : List ℕ)
      → c.offset < no_offset
      → HasForest (tree d f nil)
      → Resumes c (ok none) ds
      → Visits (record { cuit = c; stack = []; die = d }) (d ∷ preorder f ++ ds)
  unit c d nil ds l (hc, hs, ho, hf, hn) r = leaf c [] d no_die ds l hc hs r
  unit c d (tree e cs es) ds l (hc, hs, ho, hf, hn) r =
      parent c [] d e (preorder (tree e cs es) ++ ds) l hc
        (below (tree e cs es) c d [] ds l hf (rw ho r))

  moved :
      (c : CuIterator) → c.offset < no_offset → move dw c ≡ ok (cu_found dw (dw.next_cu c.offset) c)
  unfolding move
  moved c l = ground (arith, l)

  units :
      (c : CuIterator) (us : List CuTree)
      → c.offset < no_offset
      → HasUnits c.offset us
      → Resumes c (ok none) (all_of us)
  units c [] l h = rw (moved c l, h) at_end
  units c (u ∷ us) l (hn, ho, hl, hf, hu) =
      rw (moved c l, hn, ho)
        (unit (record { offset = u.next; old_offset = c.offset; cudie = u.root }) u.root u.children
          (all_of us) hl hf
          (units (record { offset = u.next; old_offset = c.offset; cudie = u.root }) us hl hu))

  -- Where the functions of elfutils know the units of a file, each with a DIE and those below it, the
  -- iterator that is made for the file goes through the DIEs of the first unit in preorder, then through
  -- those of the next one, and then is at the end.
  pub all_dies_preorder :
      (us : List CuTree)
      → HasUnits 0 us
      → Eventually (λ n. all_dies dw >>= dies_from dw n) (ok (all_of us))
  unfolding all_dies
  all_dies_preorder us h =
      units (record { offset = 0; old_offset = 0; cudie = 0 }) us (omega arith) h
