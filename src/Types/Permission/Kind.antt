-- ===== src/Types/Permission/Kind.antt =====
-- `Resource` and `Operation`: what they match, how they are printed and parsed, and their order.
use ic_oss.Base.{
  Ordering, ℕ, ◌≡◌, ap, ◌↔◌, Bool, true, [], arith, if◌then◌else◌, Text, Result, ok, err, same,
  nat_ord, pair_cmp, pair_cmp_eq, list_ord, Ord, codes,
}
use ic_oss.Types.Permission.Name.{ParseError, validate_name, invalid_resource, invalid_operation}

pub data Resource : Type 0 where
  all : Resource
  file : Resource
  folder : Resource
  bucket : Resource
  cluster : Resource
  other : Text → Resource

pub data Operation : Type 0 where
  all : Operation
  list : Operation
  read : Operation
  write : Operation
  delete : Operation
  other : Text → Operation

-- The derived order compares the variants first, and then what they hold.
abbrev pub resource_key : Resource → ℕ × Text
resource_key Resource.all = (0, [])
resource_key Resource.file = (1, [])
resource_key Resource.folder = (2, [])
resource_key Resource.bucket = (3, [])
resource_key Resource.cluster = (4, [])
resource_key (Resource.other s) = (5, s)

abbrev pub operation_key : Operation → ℕ × Text
operation_key Operation.all = (0, [])
operation_key Operation.list = (1, [])
operation_key Operation.read = (2, [])
operation_key Operation.write = (3, [])
operation_key Operation.delete = (4, [])
operation_key (Operation.other s) = (5, s)

abbrev pub resource_cmp : Resource → Resource → Ordering
resource_cmp a b = pair_cmp (resource_key a) (resource_key b)

abbrev pub operation_cmp : Operation → Operation → Ordering
operation_cmp a b = pair_cmp (operation_key a) (operation_key b)

pub resource_key-injective : (a b : Resource) → resource_key a ≡ resource_key b → a ≡ b
resource_key-injective a b h = ground arith

pub operation_key-injective : (a b : Operation) → operation_key a ≡ operation_key b → a ≡ b
operation_key-injective a b h = ground arith

pub resource_cmp_eq : (a b : Resource) → (resource_cmp a b ≡ Ordering.eq) ↔ (a ≡ b)
resource_cmp_eq a b = (
  λ h. resource_key-injective a b ((pair_cmp_eq (resource_key a) (resource_key b)).0 h),
  λ h. (pair_cmp_eq (resource_key a) (resource_key b)).1 (ap resource_key h),
)

pub operation_cmp_eq : (a b : Operation) → (operation_cmp a b ≡ Ordering.eq) ↔ (a ≡ b)
operation_cmp_eq a b = (
  λ h. operation_key-injective a b ((pair_cmp_eq (operation_key a) (operation_key b)).0 h),
  λ h. (pair_cmp_eq (operation_key a) (operation_key b)).1 (ap operation_key h),
)

instance abbrev pub resource_ord : Ord Resource
resource_ord = record { cmp = resource_cmp; cmp_eq = resource_cmp_eq }

instance abbrev pub operation_ord : Ord Operation
operation_ord = record { cmp = operation_cmp; cmp_eq = operation_cmp_eq }

-- `Resource::check`
unfoldable pub check_resource : Resource → Resource → Bool
check_resource Resource.all value = true
check_resource r value = same value r

-- `Operation::check`
unfoldable pub check_operation : Operation → Operation → Bool
check_operation Operation.all value = true
check_operation o value = same value o

-- `Resource::fmt`
unfoldable pub print_resource : Resource → Text
print_resource Resource.all = codes "*"
print_resource Resource.file = codes "File"
print_resource Resource.folder = codes "Folder"
print_resource Resource.bucket = codes "Bucket"
print_resource Resource.cluster = codes "Cluster"
print_resource (Resource.other s) = s

-- `Operation::fmt`
unfoldable pub print_operation : Operation → Text
print_operation Operation.all = codes "*"
print_operation Operation.list = codes "List"
print_operation Operation.read = codes "Read"
print_operation Operation.write = codes "Write"
print_operation Operation.delete = codes "Delete"
print_operation (Operation.other s) = s

-- `Resource::try_from`
unfoldable pub parse_resource : Text → Result ParseError Resource
parse_resource value =
    if same value (codes "*")
    then ok Resource.all
    else if same value (codes "File")
    then ok Resource.file
    else if same value (codes "Folder")
    then ok Resource.folder
    else if same value (codes "Bucket")
    then ok Resource.bucket
    else if same value (codes "Cluster")
    then ok Resource.cluster
    else elim (validate_name value) [
      | ok _ ↦ ok (Resource.other value)
      | err e ↦ err (invalid_resource value e)
    ]

-- `Operation::try_from`
unfoldable pub parse_operation : Text → Result ParseError Operation
parse_operation value =
    if same value (codes "*")
    then ok Operation.all
    else if same value (codes "List")
    then ok Operation.list
    else if same value (codes "Read")
    then ok Operation.read
    else if same value (codes "Write")
    then ok Operation.write
    else if same value (codes "Delete")
    then ok Operation.delete
    else elim (validate_name value) [
      | ok _ ↦ ok (Operation.other value)
      | err e ↦ err (invalid_operation value e)
    ]
