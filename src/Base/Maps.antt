-- ===== src/Base/Maps.antt =====
-- `BTreeMap` and `StableBTreeMap`: a list of entries in ascending order of their keys.
use Prim.Native.Nat.{Ordering, ◌≤◌, ◌<◌}
use ic_oss.Base.Lists.{length}
use mathlib.Core.Path.{◌≡◌, refl}
use mathlib.Core.Bool.{Bool, true, false}
use mathlib.Core.Option.{Option, none, some}
use mathlib.Core.List.{List, [], ◌∷◌}
use native.Mathlib.Omega.{arith}
use ic_oss.Base.Tests.{if◌then◌else◌}
use ic_oss.Base.Order.{Ord, same}

abbrev pub Map {ℓ κ} : Type ℓ → Type κ → Type (ℓ ⊔ κ)
Map K V = List (K × V)

-- `option.map(f)`
abbrev pub map_option {ℓ κ} : {A : Type ℓ} {B : Type κ} → (A → B) → Option A → Option B
map_option f none = none
map_option f (some v) = some (f v)

-- `option.unwrap_or(default)`
abbrev pub get_or {ℓ} : {A : Type ℓ} → Option A → A → A
get_or none d = d
get_or (some a) d = a

-- `option.is_some()`
abbrev pub is_some {ℓ} : {A : Type ℓ} → Option A → Bool
is_some none = false
is_some (some a) = true

module _ {ℓ κ} {K : Type ℓ} {V : Type κ} ⦃o : Ord K⦄ where
  -- `map.get(&k)`
  unfoldable pub get : K → Map K V → Option V
  get k [] = none
  get k ((j, v) ∷ m) = if same k j then some v else get k m

  -- `map.insert(k, v)`
  unfoldable pub put : K → V → Map K V → Map K V
  put k v [] = (k, v) ∷ []
  put k v ((j, w) ∷ m) = elim (o.cmp k j) [
    | Ordering.lt ↦ (k, v) ∷ (j, w) ∷ m
    | Ordering.eq ↦ (k, v) ∷ m
    | Ordering.gt ↦ (j, w) ∷ put k v m
  ]

  -- `map.remove(&k)`
  unfoldable pub erase : K → Map K V → Map K V
  erase k [] = []
  erase k ((j, w) ∷ m) = let rest = erase k m in if same k j then rest else (j, w) ∷ rest

  -- `map.entry(k).and_modify(f)`
  unfoldable pub modify : K → (V → V) → Map K V → Map K V
  modify k f [] = []
  modify k f ((j, w) ∷ m) = if same k j then (j, f w) ∷ m else (j, w) ∷ modify k f m

  pub get-nil : (k : K) → get k [] ≡ none
  unfolding get
  get-nil k = refl

  pub get-put :
      (j k : K) (v : V) (m : Map K V) → get j (put k v m) ≡ (if same j k then some v else get j m)
  unfolding get put
  get-put j k v [] = ground arith
  get-put j k v ((i, w) ∷ m) =
      ground (arith, get-put j k v m, o.cmp_eq k i, o.cmp_eq j k, o.cmp_eq j i)

  pub get-erase : (j k : K) (m : Map K V) → get j (erase k m) ≡ (if same j k then none else get j m)
  unfolding get erase
  get-erase j k [] = ground arith
  get-erase j k ((i, w) ∷ m) =
      ground (arith, get-erase j k m, o.cmp_eq k i, o.cmp_eq j k, o.cmp_eq j i)

  pub get-modify :
      (j k : K) (f : V → V) (m : Map K V)
      → get j (modify k f m) ≡ (if same j k then map_option f (get j m) else get j m)
  unfolding get modify
  get-modify j k f [] = ground arith
  get-modify j k f ((i, w) ∷ m) =
      ground (arith, get-modify j k f m, o.cmp_eq k i, o.cmp_eq j k, o.cmp_eq j i)

  pub length-erase-le : (k : K) (m : Map K V) → length (erase k m) ≤ length m
  unfolding erase
  length-erase-le k [] = omega arith
  length-erase-le k ((j, w) ∷ m) = ground (arith, length-erase-le k m)

  -- An entry that is there is counted.
  pub length-erase-lt :
      (k : K) (v : V) (m : Map K V) → get k m ≡ some v → length (erase k m) < length m
  unfolding get erase
  length-erase-lt k v [] h = absurd (ground arith)
  length-erase-lt k v ((j, w) ∷ m) h = ground (arith, length-erase-le k m, length-erase-lt k v m)

pub ruleset map_laws = (get-nil, get-put, get-erase, get-modify)
