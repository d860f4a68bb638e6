-- ===== src/Types/Permission/Policy.antt =====
-- `Resources`, a set of resource paths, and `Policy`, a permission on such a set.
use ic_oss.Base.{
  Ordering, ◌≡◌, ap, ◌↔◌, Bool, true, ◌&&◌, ◌||◌, Option, none, some, List, [], ◌∷◌, ◌++◌, is_some,
  Set, if◌then◌else◌, any, Text, head?, tail, ◌>>=◌, ◌>>◌, fail_if, ok_or, Result, ok, same,
  nat_ord, pair_cmp, pair_cmp_eq, list_ord, Ord, codes, split,
}
use ic_oss.Base.Sets
use ic_oss.Types.Permission.Name.{ParseError, validate_name, invalid_policy_format}
use ic_oss.Types.Permission.Rule
use ic_oss.Types.Permission.Rule.{
  Permission, default_permission, print_permission, parse_permission, permission_ord,
}

abbrev pub Resources : Type 0
Resources = Set Text

-- `Resources::is_all`
unfoldable pub covers_all : Resources → Bool
covers_all [] = true
covers_all (r ∷ rs) = Sets.contains (codes "*") (r ∷ rs)

-- `Resources::check`
unfoldable pub check_path : Resources → Text → Bool
check_path rs value = covers_all rs || Sets.contains value rs

-- The paths behind the first, each with its comma.
unfoldable pub print_rest : List Text → Text
print_rest [] = []
print_rest (r ∷ rs) = b',' ∷ (r ++ print_rest rs)

-- `Resources::fmt`
unfoldable pub print_resources : Resources → Text
print_resources [] = []
print_resources (v ∷ rs) = if covers_all (v ∷ rs) then [] else v ++ print_rest rs

-- The validation of each path.
unfoldable pub validate_names : List Text → Result ParseError (Unit {0})
validate_names [] = ok tt
validate_names (r ∷ rs) = validate_name r >> validate_names rs

-- `collect()` into a set
unfoldable pub collect {ℓ} : {K : Type ℓ} ⦃o : Ord K⦄ → List K → Set K
collect [] = []
collect (x ∷ xs) = Sets.insert x (collect xs)

-- `Resources::try_from`
unfoldable pub parse_resources : Text → Result ParseError Resources
parse_resources value =
    if same value [] || same value (codes "*")
    then ok []
    else do validate_names (collect (split b',' value)); ok (collect (split b',' value))

pub record Policy : Type 0 where
  pub permission : Permission
  pub resources : Resources

-- `Policy::default()`
abbrev pub default_policy : Policy
default_policy = record { permission = default_permission; resources = [] }

-- `Policy::has_permission`
unfoldable pub has_permission : Policy → Permission → Text → Bool
has_permission p permission resource_path =
    Rule.check p.permission permission && check_path p.resources resource_path

-- `Policy::has_permission_any`
unfoldable pub has_permission_any : Policy → Permission → List Text → Bool
has_permission_any p permission resources_path =
    Rule.check p.permission permission
    && (covers_all p.resources || any (check_path p.resources) resources_path)

-- `Policy::fmt`
unfoldable pub print_policy : Policy → Text
print_policy p =
    if covers_all p.resources
    then (if Rule.is_all p.permission then codes "*" else print_permission p.permission)
    else print_permission p.permission ++ b':' ∷ print_resources p.resources

-- The second part, or no resources.
unfoldable pub parse_optional : Option Text → Result ParseError Resources
parse_optional none = ok []
parse_optional (some v) = parse_resources v

unfoldable pub parse_policy_parts : Text → List Text → Result ParseError Policy
parse_policy_parts value parts = do
  v ← ok_or (head? parts) (invalid_policy_format value)
  permission ← parse_permission v
  resources ← parse_optional (head? (tail parts))
  fail_if (is_some (head? (tail (tail parts)))) (invalid_policy_format value)
  ok (record { permission = permission; resources = resources })

-- `Policy::try_from`
unfoldable pub parse_policy : Text → Result ParseError Policy
parse_policy value =
    if same value (codes "*")
    then ok default_policy
    else parse_policy_parts value (split b':' value)

abbrev pub policy_key : Policy → Permission × Resources
policy_key p = (p.permission, p.resources)

abbrev pub policy_cmp : Policy → Policy → Ordering
policy_cmp a b = pair_cmp (policy_key a) (policy_key b)

pub policy_cmp_eq : (a b : Policy) → (policy_cmp a b ≡ Ordering.eq) ↔ (a ≡ b)
policy_cmp_eq a b = (
  λ h.
      ap {B = Policy} (λ (k : Permission × Resources). record { permission = k.0; resources = k.1 })
        ((pair_cmp_eq (policy_key a) (policy_key b)).0 h),
  λ h. (pair_cmp_eq (policy_key a) (policy_key b)).1 (ap policy_key h),
)

instance abbrev pub policy_ord : Ord Policy
policy_ord = record { cmp = policy_cmp; cmp_eq = policy_cmp_eq }
