-- ===== src/Scope/Names.antt =====
-- Maps with names xs keys.
use dwgrep.Base.{◌≡◌, refl, arith, true, if◌then◌else◌, [], ◌∷◌, some}
use dwgrep.Scope.{Name, Map, same_name, lookup, replace}

pub same_name_self : (a : Name) → same_name a a ≡ true
same_name_self [] = refl
same_name_self (a ∷ xs) = ground (arith, same_name_self xs)

pub same_name_eq : (a b : Name) → same_name a b ≡ true → a ≡ b
same_name_eq [] [] h = refl
same_name_eq [] (b ∷ ys) h = absurd (ground arith)
same_name_eq (a ∷ xs) [] h = absurd (ground arith)
same_name_eq (a ∷ xs) (b ∷ ys) h = ground (arith, same_name_eq xs ys)

module _ {A : Type 0} where
  pub lookup-replace :
      (n k : Name) (v r : A) (m : Map A)
      → lookup n m ≡ some r
      → lookup k (replace n v m) ≡ (if same_name n k then some v else lookup k m)
  lookup-replace n k v r [] h = absurd (ground arith)
  lookup-replace n k v r ((key, w) ∷ m) h = ground (
    arith,
    lookup-replace n k v r m,
    same_name_eq key n,
    same_name_eq key k,
    same_name_eq n k,
    same_name_self n,
    same_name_self k,
  )
