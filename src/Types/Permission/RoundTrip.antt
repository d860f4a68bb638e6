-- ===== src/Types/Permission/RoundTrip.antt =====
-- `Policies::fmt` and `Policies::try_from` of src/ic_oss_types/src/permission.rs, one after the
-- other.
use ic_oss.Types.Permission.Name.{is_name_char, validate_name}
use ic_oss.Types.Permission.PolicyRoundTrip.{
  IsPlainPolicy, not_pointed, parse-print_everywhere, parse-print_somewhere,
}
use ic_oss.Types.Permission.ResourcesRoundTrip.{
  IsAscending, IsName, collect-IsAscending, has_code-print_rest, star_not_in,
}
use ic_oss.Types.Permission.Printing.{IsSeparator, has_code-validate_name, has_code-append}
use ic_oss.Types.Permission.Policies.{
  Policies, print_more, print_policies, parse_all, parse_policies,
}
use mathlib.Core.List.{append-nil}
use ic_oss.Base.{
  ◌≡◌, refl, sym, ap, ◌∙◌, ◌≢◌, inl, inr, false, List, [], ◌∷◌, ◌++◌, map, arith, All, Text,
  list-cases, ok, list_cmp, split, has_code, split_single, split-append, Result,
}
use ic_oss.Types.Permission.Kind.{resource_ord, operation_ord, parse_resource}
use ic_oss.Types.Permission.Rule.{permission_ord, print_permission, parse_parts, parse_permission}
use ic_oss.Types.Permission.Policy.{
  policy_ord, Policy, print_resources, print_policy, parse_policy, covers_all, print_rest,
  parse_policy_parts, collect,
}

-- The policy with other resources that are the same.
with_resources : (q : Policy) (rs : List Text) → q.resources ≡ rs → q ≡ record q { resources = rs }
with_resources q rs e = ap (λ x. record q { resources = x }) e

pub parse-print_policy : (q : Policy) → IsPlainPolicy q → parse_policy (print_policy q) ≡ ok q
parse-print_policy q plain = elim (list-cases q.resources) [
  | inl e ↦
      rw (with_resources q [] e)
        (parse-print_everywhere q.permission plain.permission plain.constraint)
  | inr (r, rs, e) ↦ rw (with_resources q (r ∷ rs) e) (
      parse-print_somewhere q.permission r rs plain.permission plain.constraint
        (rw e at plain.names) (rw e at plain.ascending))
]

space_sep : IsSeparator b' '
unfolding is_name_char
space_sep = (refl, refl)

has_code-print_policy : (q : Policy) → IsPlainPolicy q → has_code b' ' (print_policy q) ≡ false
unfolding print_policy print_resources covers_all
has_code-print_policy q plain = elim (list-cases q.resources) [
  | inl e ↦ ground (arith, not_pointed b' ' q.permission space_sep refl plain.permission)
  | inr (r, rs, e) ↦
      let names : All IsName (r ∷ rs) = rw e at plain.names in
      ground (
        arith,
        star_not_in (r ∷ rs) names,
        not_pointed b' ' q.permission space_sep refl plain.permission,
        has_code-append b' ' (print_permission q.permission) (b':' ∷ (r ++ print_rest rs)),
        has_code-append b' ' r (print_rest rs),
        has_code-validate_name b' ' r space_sep.0 names.0,
        has_code-print_rest b' ' rs space_sep.0 refl names.1,
      )
]

split-print_more :
    (q : Policy) (qs : List Policy)
    → All IsPlainPolicy (q ∷ qs)
    → split b' ' (print_policy q ++ print_more qs) ≡ map print_policy (q ∷ qs)
unfolding print_more
split-print_more q [] (plain, plains) =
    rw (append-nil (print_policy q))
      (split_single b' ' (print_policy q) (has_code-print_policy q plain))
split-print_more q (q' ∷ qs) (plain, plains) =
    split-append b' ' (print_policy q) (print_policy q' ++ print_more qs)
      (has_code-print_policy q plain)
    ∙ ap (◌∷◌ (print_policy q)) (split-print_more q' qs plains)

parse_all-print :
    (qs : List Policy) → All IsPlainPolicy qs → parse_all (map print_policy qs) ≡ ok qs
unfolding parse_all
parse_all-print [] h = refl
parse_all-print (q ∷ qs) (plain, h) =
    ground (arith, parse-print_policy q plain, parse_all-print qs h)

append-nil_left : (xs ys : Text) → xs ++ ys ≡ [] → xs ≡ []
append-nil_left [] ys h = refl
append-nil_left (x ∷ xs) ys h = absurd (ground arith)

empty_policy : (q : Policy) → parse_policy [] ≢ ok q
unfolding parse_policy parse_policy_parts parse_permission parse_parts parse_resource validate_name
    split list_cmp
empty_policy q h = absurd (ground arith)

print_policy_text : (q : Policy) → IsPlainPolicy q → print_policy q ≢ []
print_policy_text q plain e = empty_policy q (ap parse_policy (sym e) ∙ parse-print_policy q plain)

-- Policies that were printed are parsed back to the set of them.
pub parse-print_collect :
    (ps : Policies) → All IsPlainPolicy ps → parse_policies (print_policies ps) ≡ ok (collect ps)
unfolding print_policies parse_policies collect
parse-print_collect [] plain = refl
parse-print_collect (q ∷ qs) plain =
    let text : Text = print_policy q ++ print_more qs in
    elim (list-cases text) [
      | inl e ↦
          absurd (print_policy_text q plain.0 (append-nil_left (print_policy q) (print_more qs) e))
      | inr (c, value, e) ↦
          ground (arith, split-print_more q qs plain, parse_all-print (q ∷ qs) plain)
    ]

-- A set of policies that was printed is parsed back to the same set. Its names are valid and are
-- not those of the built-in kinds, no constraint is `*`, and the sets are in ascending order, as a
-- `BTreeSet` keeps them.
pub parse-print_policies :
    (ps : Policies)
    → All IsPlainPolicy ps
    → IsAscending ps
    → parse_policies (print_policies ps) ≡ ok ps
parse-print_policies ps plain ascending =
    parse-print_collect ps plain ∙ ap Result.ok (collect-IsAscending ps ascending)
