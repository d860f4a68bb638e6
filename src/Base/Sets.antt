-- ===== src/Base/Sets.antt =====
-- `BTreeSet`: a list in ascending order without repeats.
use Prim.Native.Nat.{◌+◌, ◌≤◌, Ordering}
use mathlib.Core.Path.{◌≡◌, refl}
use mathlib.Core.Bool.{Bool, false, not, ◌&&◌, ◌||◌}
use mathlib.Core.List.{List, [], ◌∷◌}
use native.Mathlib.Omega.{arith}
use ic_oss.Base.Tests.{if◌then◌else◌}
use ic_oss.Base.Lists.{length}
use ic_oss.Base.Order.{Ord, same, same_iff, same_refl}

abbrev pub Set {ℓ} : Type ℓ → Type ℓ
Set K = List K

module _ {ℓ} {K : Type ℓ} ⦃o : Ord K⦄ where
  -- `set.contains(&x)`
  unfoldable pub contains : K → List K → Bool
  contains x [] = false
  contains x (y ∷ s) = same x y || contains x s

  -- `set.insert(x)`
  unfoldable pub insert : K → List K → List K
  insert x [] = x ∷ []
  insert x (y ∷ s) = elim (o.cmp x y) [
    | Ordering.lt ↦ x ∷ y ∷ s
    | Ordering.eq ↦ y ∷ s
    | Ordering.gt ↦ y ∷ insert x s
  ]

  -- `set.remove(&x)`
  unfoldable pub remove : K → List K → List K
  remove x [] = []
  remove x (y ∷ s) = let rest = remove x s in if same x y then rest else y ∷ rest

  -- `set.append(&mut args)`
  unfoldable pub insert_all : List K → List K → List K
  insert_all [] s = s
  insert_all (x ∷ args) s = insert_all args (insert x s)

  -- `set.retain(|x| !args.contains(x))`
  unfoldable pub remove_all : List K → List K → List K
  remove_all args [] = []
  remove_all args (x ∷ s) =
      let rest = remove_all args s in if contains x args then rest else x ∷ rest

  pub contains-nil : (x : K) → contains x [] ≡ false
  unfolding contains
  contains-nil x = refl

  pub contains-insert :
      (x y : K) (s : List K) → contains x (insert y s) ≡ (same x y || contains x s)
  unfolding contains insert
  contains-insert x y [] = ground arith
  contains-insert x y (z ∷ s) =
      ground (arith, contains-insert x y s, o.cmp_eq y z, o.cmp_eq x y, o.cmp_eq x z)

  pub contains-remove :
      (x y : K) (s : List K) → contains x (remove y s) ≡ (not (same x y) && contains x s)
  unfolding contains remove
  contains-remove x y [] = ground arith
  contains-remove x y (z ∷ s) =
      ground (arith, contains-remove x y s, o.cmp_eq y z, o.cmp_eq x y, o.cmp_eq x z)

  pub contains-insert_all :
      (x : K) (args s : List K) → contains x (insert_all args s) ≡ (contains x args || contains x s)
  unfolding contains insert_all
  contains-insert_all x [] s = refl
  contains-insert_all x (y ∷ args) s =
      ground (arith, contains-insert_all x args (insert y s), contains-insert x y s)

  pub contains-remove_all :
      (x : K) (args s : List K)
      → contains x (remove_all args s) ≡ (contains x s && not (contains x args))
  unfolding contains remove_all
  contains-remove_all x args [] = refl
  contains-remove_all x args (y ∷ s) = ground (arith, contains-remove_all x args s, same_iff x y)

  pub length-insert : (x : K) (s : List K) → length (insert x s) ≤ length s + 1
  unfolding insert
  length-insert x [] = omega arith
  length-insert x (y ∷ s) = ground (arith, length-insert x s)

  pub length-remove-le : (x : K) (s : List K) → length (remove x s) ≤ length s
  unfolding remove
  length-remove-le x [] = omega arith
  length-remove-le x (y ∷ s) = ground (arith, length-remove-le x s)

pub ruleset set_laws = (contains-nil, contains-insert, contains-remove, same_refl)
