-- ===== src/Types/Permission/ResourcesRoundTrip.antt =====
-- `Resources::fmt` and `Resources::try_from` of src/ic_oss_types/src/permission.rs, one after
-- the other.
use ic_oss.Types.Permission.Name.{is_name_char, validate_name}
use ic_oss.Types.Permission.Printing.{has_code-validate_name, has_code-append, star_is_no_name}
use mathlib.Core.List.{append-nil}
use ic_oss.Base.{
  ℕ, ◌≡◌, refl, ap, ◌∙◌, inl, inr, false, List, [], ◌∷◌, ◌++◌, arith, ◌==◌, Bool-cases, All, Text,
  ok, same, same_iff, nat_ord, list_ord, Ord, codes, split, has_code, split_single, split-append,
  Ordering,
}
use ic_oss.Base.Sets
use ic_oss.Types.Permission.Kind.{resource_ord, operation_ord}
use ic_oss.Types.Permission.Rule.{permission_ord}
use ic_oss.Types.Permission.Policy.{
  policy_ord, covers_all, print_rest, print_resources, validate_names, collect, parse_resources,
}

-- In ascending order, each below the next, as a `BTreeSet` keeps its elements.
abbrev pub IsAscending {ℓ} : {K : Type ℓ} ⦃o : Ord K⦄ → List K → Type 0
IsAscending [] = Unit
IsAscending (x ∷ []) = Unit
IsAscending ⦃o⦄ (x ∷ (y ∷ s)) = (o.cmp x y ≡ Ordering.lt) × IsAscending (y ∷ s)

abbrev pub IsName : Text → Type 0
IsName s = validate_name s ≡ ok tt

pub collect-IsAscending {ℓ} : {K : Type ℓ} ⦃o : Ord K⦄ (s : List K) → IsAscending s → collect s ≡ s
unfolding collect Sets.insert
collect-IsAscending [] h = refl
collect-IsAscending (x ∷ []) h = refl
collect-IsAscending ⦃o⦄ (x ∷ (y ∷ s)) (below, h) = ground (arith, collect-IsAscending (y ∷ s) h)

validate_names-All : (rs : List Text) → All IsName rs → validate_names rs ≡ ok tt
unfolding validate_names
validate_names-All [] h = refl
validate_names-All (r ∷ rs) (name, h) = ground (arith, validate_names-All rs h)

pub has_code-print_rest :
    (c : ℕ) (rs : List Text)
    → is_name_char c ≡ false
    → (b',' == c) ≡ false
    → All IsName rs
    → has_code c (print_rest rs) ≡ false
unfolding print_rest
has_code-print_rest c [] h k names = refl
has_code-print_rest c (r ∷ rs) h k (name, names) = ground (
  arith,
  has_code-append c r (print_rest rs),
  has_code-validate_name c r h name,
  has_code-print_rest c rs h k names,
)

split-print_rest :
    (r : Text) (rs : List Text)
    → IsName r
    → All IsName rs
    → split b',' (r ++ print_rest rs) ≡ r ∷ rs
unfolding print_rest is_name_char
split-print_rest r [] name names =
    rw (append-nil r) (split_single b',' r (has_code-validate_name b',' r refl name))
split-print_rest r (r' ∷ rs) name (name', names) =
    split-append b',' r (r' ++ print_rest rs) (has_code-validate_name b',' r refl name)
    ∙ ap (◌∷◌ r) (split-print_rest r' rs name' names)

pub star_not_in : (rs : List Text) → All IsName rs → Sets.contains (codes "*") rs ≡ false
unfolding Sets.contains
star_not_in [] h = refl
star_not_in (r ∷ rs) (name, h) = ground (
  arith,
  star_is_no_name r name,
  same_iff (codes "*") r,
  same_iff r (codes "*"),
  star_not_in rs h,
)

-- A text that is cut into names is not one of the two that stand for all resources.
not_empty : (r t : Text) (rs : List Text) → split b',' t ≡ r ∷ rs → IsName r → same t [] ≡ false
unfolding split validate_name
not_empty r [] rs h name = absurd (ground arith)
not_empty r (x ∷ t) rs h name = ground (arith, same_iff (x ∷ t) [])

no_star :
    (r t : Text) (rs : List Text) → split b',' t ≡ r ∷ rs → IsName r → same t (codes "*") ≡ false
unfolding split
no_star r t rs h name = elim (Bool-cases (same t (codes "*"))) [
  | inr differ ↦ differ
  | inl star ↦
      let text_eq : t ≡ codes "*" = (same_iff t (codes "*")).0 star in
      let cut : split b',' (codes "*") ≡ r ∷ rs = rw text_eq at h in
      absurd (ground (arith, star_is_no_name r name, same_iff r (codes "*")))
]

pub parse-print_resources :
    (r : Text) (rs : List Text)
    → All IsName (r ∷ rs)
    → IsAscending (r ∷ rs)
    → parse_resources (print_resources (r ∷ rs)) ≡ ok (r ∷ rs)
unfolding parse_resources print_resources covers_all
parse-print_resources r rs names ascending =
    let cut : split b',' (r ++ print_rest rs) ≡ r ∷ rs = split-print_rest r rs names.0 names.1 in
    ground (
      arith,
      cut,
      not_empty r (r ++ print_rest rs) rs cut names.0,
      no_star r (r ++ print_rest rs) rs cut names.0,
      star_not_in (r ∷ rs) names,
      collect-IsAscending (r ∷ rs) ascending,
      validate_names-All (r ∷ rs) names,
    )
