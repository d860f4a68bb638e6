-- ===== src/Types/Permission/Rule.antt =====
-- `Permission`: a resource, an operation and a constraint.
use ic_oss.Base.{
  Ordering, ◌≡◌, ap, ◌↔◌, Bool, true, false, not, ◌&&◌, Option, none, some, List, ◌∷◌, ◌++◌,
  is_some, if◌then◌else◌, Text, head?, tail, ◌>>=◌, ◌>>◌, fail_if, ok_or, map_err, Result, ok, same,
  nat_ord, pair_cmp, pair_cmp_eq, pair_ord, list_ord, option_ord, Ord, codes, split,
}
use ic_oss.Types.Permission.Name.{ParseError, invalid_permission_format, invalid_constraint}
use ic_oss.Types.Permission.Kind.{
  Resource, Operation, check_resource, check_operation, print_resource, print_operation,
  parse_resource, parse_operation, resource_ord, operation_ord,
}

pub record Permission : Type 0 where
  pub resource : Resource
  pub operation : Operation
  pub constraint : Option Resource

-- `Permission::default()`
abbrev pub default_permission : Permission
default_permission = record {
  resource = Resource.all;
  operation = Operation.all;
  constraint = none;
}

-- `Permission::is_all`
unfoldable pub is_all : Permission → Bool
is_all p =
    same p.resource Resource.all && (same p.operation Operation.all && not (is_some p.constraint))

-- `Permission::check_constraint`
unfoldable pub check_constraint : Option Resource → Option Resource → Bool
check_constraint none value = true
check_constraint (some Resource.all) value = true
check_constraint (some c) value = elim value [ none ↦ false | some v ↦ same c v ]

-- `Permission::check`
unfoldable pub check : Permission → Permission → Bool
check p value =
    check_resource p.resource value.resource
    && (check_operation p.operation value.operation
        && check_constraint p.constraint value.constraint)

-- `Permission::fmt`
unfoldable pub print_permission : Permission → Text
print_permission p =
    let short = print_resource p.resource ++ b'.' ∷ print_operation p.operation in
    elim p.constraint [
      | none ↦ if is_all p then codes "*" else short
      | some c ↦
          if same c Resource.all
          then (if is_all p then codes "*" else short)
          else short ++ b'.' ∷ print_resource c
    ]

-- The third part, if there is one.
unfoldable pub parse_constraint : Option Text → Result ParseError (Option Resource)
parse_constraint none = ok none
parse_constraint (some v) = do c ← map_err invalid_constraint (parse_resource v); ok (some c)

-- The parts of a permission, taken one by one from the iterator.
unfoldable pub parse_parts : Text → List Text → Result ParseError Permission
parse_parts value parts = do
  v ← ok_or (head? parts) (invalid_permission_format value)
  resource ← parse_resource v
  w ← ok_or (head? (tail parts)) (invalid_permission_format value)
  operation ← parse_operation w
  constraint ← parse_constraint (head? (tail (tail parts)))
  fail_if (is_some (head? (tail (tail (tail parts))))) (invalid_permission_format value)
  ok (record { resource = resource; operation = operation; constraint = constraint })

-- `Permission::try_from`
unfoldable pub parse_permission : Text → Result ParseError Permission
parse_permission value =
    if same value (codes "*") then ok default_permission else parse_parts value (split b'.' value)

-- The derived order compares the fields from the first to the last.
abbrev pub permission_key : Permission → Resource × (Operation × Option Resource)
permission_key p = (p.resource, (p.operation, p.constraint))

abbrev pub permission_cmp : Permission → Permission → Ordering
permission_cmp a b = pair_cmp (permission_key a) (permission_key b)

pub permission_cmp_eq : (a b : Permission) → (permission_cmp a b ≡ Ordering.eq) ↔ (a ≡ b)
permission_cmp_eq a b = (
  λ h.
      ap {B = Permission}
        (λ (k : Resource × (Operation × Option Resource)). record {
          resource = k.0;
          operation = k.1.0;
          constraint = k.1.1;
        })
        ((pair_cmp_eq (permission_key a) (permission_key b)).0 h),
  λ h. (pair_cmp_eq (permission_key a) (permission_key b)).1 (ap permission_key h),
)

instance abbrev pub permission_ord : Ord Permission
permission_ord = record { cmp = permission_cmp; cmp_eq = permission_cmp_eq }
