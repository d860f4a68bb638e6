-- ===== src/Base/Order.antt =====
-- Rust's `Ord`: a total comparison whose equality is equality. The instances for numbers, pairs
-- and sequences are those that the standard library derives.
use Prim.Native.Nat.{ℕ, compare, Ordering}
use mathlib.Core.Path.{◌≡◌, refl}
use mathlib.Core.Logic.{◌↔◌, ◌⊎◌, inl, inr}
use mathlib.Core.Bool.{Bool, true, false}
use mathlib.Core.Option.{Option, none, some}
use mathlib.Core.List.{List, [], ◌∷◌}
use native.Mathlib.Omega.{arith}

pub record Ord {ℓ} (K : Type ℓ) : Type ℓ where
  pub cmp : K → K → Ordering
  pub cmp_eq : (a b : K) → (cmp a b ≡ Ordering.eq) ↔ (a ≡ b)

-- `a == b`
abbrev pub same {ℓ} : {K : Type ℓ} ⦃o : Ord K⦄ → K → K → Bool
same ⦃o⦄ a b = elim (o.cmp a b) [ Ordering.eq ↦ true | _ ↦ false ]

pub same_iff {ℓ} : {K : Type ℓ} ⦃o : Ord K⦄ (a b : K) → (same a b ≡ true) ↔ (a ≡ b)
same_iff ⦃o⦄ a b = ground (arith, o.cmp_eq a b)

pub same_refl {ℓ} : {K : Type ℓ} ⦃o : Ord K⦄ (a : K) → same a a ≡ true
same_refl a = (same_iff a a).1 refl

pub compare_eq : (a b : ℕ) → (compare a b ≡ Ordering.eq) ↔ (a ≡ b)
compare_eq a b = ground arith

instance abbrev pub nat_ord : Ord ℕ
nat_ord = record { cmp = compare; cmp_eq = compare_eq }

pub Ordering-cases : (r : Ordering) → (r ≡ Ordering.lt) ⊎ (r ≡ Ordering.eq) ⊎ (r ≡ Ordering.gt)
Ordering-cases Ordering.lt = inl refl
Ordering-cases Ordering.eq = inr (inl refl)
Ordering-cases Ordering.gt = inr (inr refl)

-- `Ordering::then_with`
abbrev pub then_cmp : Ordering → Ordering → Ordering
then_cmp Ordering.lt d = Ordering.lt
then_cmp Ordering.eq d = d
then_cmp Ordering.gt d = Ordering.gt

module _ {ℓ κ} {A : Type ℓ} {B : Type κ} ⦃o : Ord A⦄ ⦃p : Ord B⦄ where
  abbrev pub pair_cmp : A × B → A × B → Ordering
  pair_cmp x y = then_cmp (o.cmp x.0 y.0) (p.cmp x.1 y.1)

  pub pair_cmp_eq : (x y : A × B) → (pair_cmp x y ≡ Ordering.eq) ↔ (x ≡ y)
  pair_cmp_eq x y = ground (arith, o.cmp_eq x.0 y.0, p.cmp_eq x.1 y.1)

  instance abbrev pub pair_ord : Ord (A × B)
  pair_ord = record { cmp = pair_cmp; cmp_eq = pair_cmp_eq }

module _ {ℓ} {A : Type ℓ} ⦃o : Ord A⦄ where
  unfoldable pub list_cmp : List A → List A → Ordering
  list_cmp [] [] = Ordering.eq
  list_cmp [] (y ∷ ys) = Ordering.lt
  list_cmp (x ∷ xs) [] = Ordering.gt
  list_cmp (x ∷ xs) (y ∷ ys) = then_cmp (o.cmp x y) (list_cmp xs ys)

  pub list_cmp_eq : (xs ys : List A) → (list_cmp xs ys ≡ Ordering.eq) ↔ (xs ≡ ys)
  unfolding list_cmp
  list_cmp_eq [] [] = ground arith
  list_cmp_eq [] (y ∷ ys) = ground arith
  list_cmp_eq (x ∷ xs) [] = ground arith
  list_cmp_eq (x ∷ xs) (y ∷ ys) = ground (arith, o.cmp_eq x y, list_cmp_eq xs ys)

  instance abbrev pub list_ord : Ord (List A)
  list_ord = record { cmp = list_cmp; cmp_eq = list_cmp_eq }

module _ {ℓ} {A : Type ℓ} ⦃o : Ord A⦄ where
  abbrev pub option_cmp : Option A → Option A → Ordering
  option_cmp none none = Ordering.eq
  option_cmp none (some b) = Ordering.lt
  option_cmp (some a) none = Ordering.gt
  option_cmp (some a) (some b) = o.cmp a b

  pub option_cmp_eq : (a b : Option A) → (option_cmp a b ≡ Ordering.eq) ↔ (a ≡ b)
  option_cmp_eq none none = ground arith
  option_cmp_eq none (some b) = ground arith
  option_cmp_eq (some a) none = ground arith
  option_cmp_eq (some a) (some b) = ground (arith, o.cmp_eq a b)

  instance abbrev pub option_ord : Ord (Option A)
  option_ord = record { cmp = option_cmp; cmp_eq = option_cmp_eq }
