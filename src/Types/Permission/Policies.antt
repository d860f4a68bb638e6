-- ===== src/Types/Permission/Policies.antt =====
-- `Policies`, a set of policies, which grants what one of them grants.
use ic_oss.Base.{
  Bool, none, List, [], ◌∷◌, ◌++◌, Set, if◌then◌else◌, any, Text, ◌>>=◌, Result, ok, split,
}
use ic_oss.Base.Sets
use ic_oss.Types.Permission.Name.{ParseError}
use ic_oss.Types.Permission.Kind.{Resource, Operation, resource_ord, operation_ord}
use ic_oss.Types.Permission.Rule.{Permission, permission_ord}
use ic_oss.Types.Permission.Policy
use ic_oss.Types.Permission.Policy.{
  Policy, default_policy, print_policy, parse_policy, collect, policy_ord,
}

abbrev pub Policies : Type 0
Policies = Set Policy

-- `Policies::all`
unfoldable pub all_policies : Policies
all_policies = default_policy ∷ []

abbrev pub anywhere : Operation → Policy
anywhere operation = record {
  permission = record { resource = Resource.all; operation = operation; constraint = none };
  resources = [];
}

-- `Policies::read`
unfoldable pub read_policies : Policies
unfolding collect Sets.insert
read_policies = collect (anywhere Operation.read ∷ anywhere Operation.list ∷ [])

-- `Policies::append`, which leaves the other set empty.
unfoldable pub append : Policies → Policies → Policies × Policies
append ps [] = (ps, [])
append ps (p ∷ policies) = append (Sets.insert p ps) policies

-- `Policies::remove`
unfoldable pub remove : Policies → Policies → Policies
remove [] policies = []
remove (p ∷ ps) policies =
    let rest = remove ps policies in if Sets.contains p policies then rest else p ∷ rest

-- `Policies::has_permission`
unfoldable pub grants : Policies → Permission → Text → Bool
grants ps permission resource_path = any (λ p. Policy.has_permission p permission resource_path) ps

-- `Policies::has_permission_any`
unfoldable pub grants_any : Policies → Permission → List Text → Bool
grants_any ps permission resources_any =
    any (λ p. Policy.has_permission_any p permission resources_any) ps

-- The policies behind the first, each with its space.
unfoldable pub print_more : List Policy → Text
print_more [] = []
print_more (p ∷ ps) = b' ' ∷ (print_policy p ++ print_more ps)

-- `Policies::fmt`
unfoldable pub print_policies : Policies → Text
print_policies [] = []
print_policies (p ∷ ps) = print_policy p ++ print_more ps

-- Each piece parsed, up to the first error.
unfoldable pub parse_all : List Text → Result ParseError (List Policy)
parse_all [] = ok []
parse_all (v ∷ vs) = do p ← parse_policy v; ps ← parse_all vs; ok (p ∷ ps)

-- `Policies::try_from`
unfoldable pub parse_policies : Text → Result ParseError Policies
parse_policies [] = ok []
parse_policies (c ∷ value) = do ps ← parse_all (split b' ' (c ∷ value)); ok (collect ps)
