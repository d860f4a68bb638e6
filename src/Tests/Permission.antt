-- ===== src/Tests/Permission.antt =====
-- Runs of the permissions of src/ic_oss_types/src/permission.rs, and their theorems at concrete
-- inputs.
use ic_oss.Types.Permission.RoundTrip.{parse-print_policies}
use ic_oss.Types.Permission.PolicyRoundTrip.{IsPlainPolicy}
use ic_oss.Types.Permission.ResourcesRoundTrip.{IsAscending}
use ic_oss.Types.Permission.Kind.{
  resource_ord, operation_ord, check_resource, check_operation, print_resource, print_operation,
  parse_resource, parse_operation, Resource, Operation,
}
use ic_oss.Types.Permission.Rule.{
  permission_ord, default_permission, check_constraint, print_permission, parse_constraint,
  parse_parts, parse_permission, Permission,
}
use ic_oss.Types.Permission.Policy.{
  policy_ord, covers_all, print_rest, print_resources, validate_names, collect, parse_resources,
  default_policy, print_policy, parse_optional, parse_policy_parts, parse_policy, Policy,
}
use ic_oss.Types.Permission.Kind.{
  check_resource, check_operation, print_resource, print_operation, parse_resource, parse_operation,
  Resource, Operation, resource_ord, operation_ord,
}
use ic_oss.Types.Permission.Rule.{
  default_permission, check_constraint, print_permission, parse_constraint, parse_parts,
  parse_permission, Permission, permission_ord,
}
use ic_oss.Types.Permission.Policy.{
  covers_all, print_rest, print_resources, validate_names, collect, parse_resources, default_policy,
  print_policy, parse_optional, parse_policy_parts, parse_policy, Policy, policy_ord,
}
use ic_oss.Types.Permission.Rule.{
  default_permission, check_constraint, print_permission, parse_constraint, parse_parts,
  parse_permission, Permission, permission_ord,
}
use ic_oss.Types.Permission.Policy.{
  covers_all, print_rest, print_resources, validate_names, parse_resources, default_policy,
  print_policy, parse_optional, parse_policy_parts, parse_policy, Policy, collect, policy_ord,
}
use ic_oss.Types.Permission.Name.{is_name_char, validate_chars, validate_name}
use ic_oss.Types.Permission.Kind.{
  check_resource, check_operation, print_resource, print_operation, parse_resource, parse_operation,
  Resource, Operation, resource_ord, operation_ord,
}
use ic_oss.Types.Permission.Printing.{IsPlain}
use ic_oss.Types.Permission.Policies.{print_more, print_policies, parse_all, parse_policies}
use ic_oss.Types.Permission.Inclusion.{check_iff, Action, Allows}
use ic_oss.Base.{
  ◌≡◌, refl, ◌↔◌, true, none, some, [], ◌∷◌, arith, ok, nat_ord, list_cmp, list_ord, codes, split,
}
use ic_oss.Types.Permission.Rule
use ic_oss.Base.Sets

abbrev file_read : Permission
file_read = record {
  resource = Resource.file;
  operation = Operation.read;
  constraint = some (Resource.other (codes "Doc"));
}

abbrev any_read : Permission
any_read = record { resource = Resource.all; operation = Operation.read; constraint = none }

-- The permission `File.Read` on the paths 1 and 2.
abbrev two_paths : Policy
two_paths = record {
  permission = record { resource = Resource.file; operation = Operation.read; constraint = none };
  resources = codes "1" ∷ codes "2" ∷ [];
}

parses_three : parse_permission (codes "File.Read.Doc") ≡ ok file_read
unfolding parse_permission parse_parts parse_constraint parse_resource parse_operation split
    list_cmp validate_name validate_chars is_name_char
parses_three = refl

parses_policy : parse_policies (codes "File.Read:2,1 *") ≡ ok (default_policy ∷ two_paths ∷ [])
unfolding parse_policies parse_all parse_policy parse_policy_parts parse_optional parse_resources
    validate_names collect parse_permission parse_parts parse_constraint parse_resource
    parse_operation split list_cmp validate_name validate_chars is_name_char Sets.insert
parses_policy = refl

prints_policy : print_policies (default_policy ∷ two_paths ∷ []) ≡ codes "* File.Read:1,2"
unfolding print_policies print_more print_policy print_resources print_rest print_permission
    print_resource print_operation covers_all Rule.is_all Sets.contains list_cmp
prints_policy = refl

all_any : Rule.check default_permission any_read ≡ true
unfolding Rule.check check_resource check_operation check_constraint list_cmp
all_any = refl

any_file : Rule.check any_read file_read ≡ true
unfolding Rule.check check_resource check_operation check_constraint list_cmp
any_file = refl

doc_is_name : validate_name (codes "Doc") ≡ ok tt
unfolding validate_name validate_chars is_name_char
doc_is_name = refl

file_read-IsPlain : IsPlain file_read
file_read-IsPlain = record {
  resource = tt;
  operation = tt;
  constraint = (doc_is_name, ground arith, ground arith, ground arith, ground arith);
}

check_iff_example :
    (Rule.check any_read file_read ≡ true)
    ↔ ((action : Action) → Allows file_read action → Allows any_read action)
check_iff_example = check_iff any_read file_read

one_is_name : validate_name (codes "1") ≡ ok tt
unfolding validate_name validate_chars is_name_char
one_is_name = refl

two_is_name : validate_name (codes "2") ≡ ok tt
unfolding validate_name validate_chars is_name_char
two_is_name = refl

two_paths_in_order : IsAscending (codes "1" ∷ codes "2" ∷ [])
unfolding list_cmp
two_paths_in_order = (refl, tt)

policies_in_order : IsAscending (default_policy ∷ two_paths ∷ [])
unfolding list_cmp
policies_in_order = (refl, tt)

default-IsPlainPolicy : IsPlainPolicy default_policy
default-IsPlainPolicy = record {
  permission = record { resource = tt; operation = tt; constraint = tt };
  constraint = ground arith;
  names = tt;
  ascending = tt;
}

two_paths-IsPlainPolicy : IsPlainPolicy two_paths
two_paths-IsPlainPolicy = record {
  permission = record { resource = tt; operation = tt; constraint = tt };
  constraint = ground arith;
  names = (one_is_name, (two_is_name, tt));
  ascending = two_paths_in_order;
}

parse-print_policies_example :
    parse_policies (print_policies (default_policy ∷ two_paths ∷ []))
    ≡ ok (default_policy ∷ two_paths ∷ [])
parse-print_policies_example =
    parse-print_policies (default_policy ∷ two_paths ∷ [])
      (default-IsPlainPolicy, (two_paths-IsPlainPolicy, tt)) policies_in_order
