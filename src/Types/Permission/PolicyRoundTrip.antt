-- ===== src/Types/Permission/PolicyRoundTrip.antt =====
-- `Policy::fmt` and `Policy::try_from` of src/ic_oss_types/src/permission.rs, one after the other.
use ic_oss.Types.Permission.ResourcesRoundTrip.{
  IsAscending, IsName, has_code-print_rest, star_not_in, parse-print_resources,
}
use ic_oss.Types.Permission.Name.{is_name_char}
use ic_oss.Types.Permission.Printing.{
  has_code-validate_name, has_code-append, IsPlain, IsSeparator, normal, IsPlainResource,
  has_code-print_resource, has_code-print_operation, normal_constraint, parse-print_permission,
  not_star, star_parsed,
}
use ic_oss.Base.{
  ℕ, ◌≡◌, refl, sym, ap, ◌∙◌, ◌≢◌, inl, inr, true, false, Option, none, some, List, [], ◌∷◌, ◌++◌,
  arith, ◌==◌, Bool-cases, Option-cases, All, Text, ok, same, same_iff, nat_ord, list_cmp, list_ord,
  codes, has_code, split_single, split-append,
}
use ic_oss.Types.Permission.Kind.{
  resource_ord, operation_ord, Resource, print_resource, print_operation, Operation,
}
use ic_oss.Types.Permission.Rule
use ic_oss.Types.Permission.Rule.{
  permission_ord, print_permission, Permission, parse_permission, default_permission,
}
use ic_oss.Types.Permission.Policy.{
  policy_ord, Policy, covers_all, print_rest, print_resources, print_policy, parse_policy,
  parse_optional, parse_policy_parts, default_policy,
}

-- A policy whose names are read as themselves, without the constraint `*`.
pub record IsPlainPolicy (q : Policy) : Type 0 where
  pub permission : IsPlain q.permission
  pub constraint : q.permission.constraint ≢ some Resource.all
  pub names : All IsName q.resources
  pub ascending : IsAscending q.resources

pub not_pointed :
    (c : ℕ) (p : Permission)
    → IsSeparator c
    → (b'.' == c) ≡ false
    → IsPlain p
    → has_code c (print_permission p) ≡ false
unfolding print_permission
not_pointed c p sep no_dot plain = elim (Option-cases p.constraint) [
  | inl e ↦ ground (
    arith,
    has_code-append c (print_resource p.resource) (b'.' ∷ print_operation p.operation),
    has_code-print_resource c p.resource sep plain.resource,
    has_code-print_operation c p.operation sep plain.operation,
    sep.1,
  )
  | inr (k, e) ↦
      let k_plain : IsPlainResource k = rw e at plain.constraint in
      ground (
        arith,
        has_code-append c (print_resource p.resource) (b'.' ∷ print_operation p.operation),
        has_code-append c (print_resource p.resource ++ b'.' ∷ print_operation p.operation)
            (b'.' ∷ print_resource k),
        has_code-print_resource c p.resource sep plain.resource,
        has_code-print_operation c p.operation sep plain.operation,
        has_code-print_resource c k sep k_plain,
        sep.1,
      )
]

normal_constraint-eq : (c : Option Resource) → c ≢ some Resource.all → normal_constraint c ≡ c
normal_constraint-eq none h = refl
normal_constraint-eq (some c) h = ground (arith, same_iff c Resource.all)

normal-eq : (p : Permission) → p.constraint ≢ some Resource.all → normal p ≡ p
normal-eq p h = ap (λ c. record p { constraint = c }) (normal_constraint-eq p.constraint h)

parse-print_plain :
    (p : Permission)
    → IsPlain p
    → p.constraint ≢ some Resource.all
    → parse_permission (print_permission p) ≡ ok p
parse-print_plain p plain h = parse-print_permission p plain ∙ ap ok (normal-eq p h)

colon_sep : IsSeparator b':'
unfolding is_name_char
colon_sep = (refl, refl)

is_all-eq : (p : Permission) → Rule.is_all p ≡ true → p ≡ default_permission
unfolding Rule.is_all
is_all-eq p h = ground (arith, same_iff p.resource Resource.all, same_iff p.operation Operation.all)

star_policy : parse_policy (codes "*") ≡ ok default_policy
unfolding parse_policy list_cmp
star_policy = refl

all_printed : Rule.is_all default_permission ≡ true
unfolding Rule.is_all list_cmp
all_printed = refl

-- Only the permission for everything is printed as `*`.
less_printed :
    (p : Permission)
    → IsPlain p
    → p.constraint ≢ some Resource.all
    → Rule.is_all p ≡ false
    → same (print_permission p) (codes "*") ≡ false
less_printed p plain h less = elim (Bool-cases (same (print_permission p) (codes "*"))) [
  | inr differ ↦ differ
  | inl star ↦
      let text_eq : print_permission p ≡ codes "*" =
        (same_iff (print_permission p) (codes "*")).0 star in
      let p_eq : ok default_permission ≡ ok p =
        sym star_parsed ∙ ap parse_permission (sym text_eq) ∙ parse-print_plain p plain h in
      absurd (ground (arith, all_printed))
]

pub parse-print_everywhere :
    (p : Permission)
    → IsPlain p
    → p.constraint ≢ some Resource.all
    → parse_policy (print_policy (record { permission = p; resources = [] }))
      ≡ ok (record { permission = p; resources = [] })
unfolding parse_policy parse_policy_parts parse_optional print_policy covers_all
parse-print_everywhere p plain h = elim (Bool-cases (Rule.is_all p)) [
  | inl everything ↦ ground (arith, is_all-eq p everything, star_policy)
  | inr less ↦ ground (
    arith,
    less_printed p plain h less,
    split_single b':' (print_permission p) (not_pointed b':' p colon_sep refl plain),
    parse-print_plain p plain h,
  )
]

pub parse-print_somewhere :
    (p : Permission) (r : Text) (rs : List Text)
    → IsPlain p
    → p.constraint ≢ some Resource.all
    → All IsName (r ∷ rs)
    → IsAscending (r ∷ rs)
    → parse_policy (print_policy (record { permission = p; resources = r ∷ rs }))
      ≡ ok (record { permission = p; resources = r ∷ rs })
unfolding parse_policy parse_policy_parts parse_optional print_policy covers_all
parse-print_somewhere p r rs plain h names ascending =
    let no_colon : has_code b':' (print_resources (r ∷ rs)) ≡ false =
      unfold print_resources covers_all in
      ground (
        arith,
        star_not_in (r ∷ rs) names,
        has_code-append b':' r (print_rest rs),
        has_code-validate_name b':' r colon_sep.0 names.0,
        has_code-print_rest b':' rs colon_sep.0 refl names.1,
      ) in
    ground (
      arith,
      star_not_in (r ∷ rs) names,
      not_star b':' (print_permission p) (print_resources (r ∷ rs)) refl,
      split-append b':' (print_permission p) (print_resources (r ∷ rs))
          (not_pointed b':' p colon_sep refl plain),
      split_single b':' (print_resources (r ∷ rs)) no_colon,
      parse-print_plain p plain h,
      parse-print_resources r rs names ascending,
    )
