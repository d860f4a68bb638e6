-- ===== src/Types/Permission/Printing.antt =====
-- The printing and then the parsing of resources, operations and permissions of
-- src/ic_oss_types/src/permission.rs.
use mathlib.Core.List.{append_assoc}
use ic_oss.Base.{
  ℕ, ◌≡◌, refl, ap, ◌∙◌, ◌≢◌, inl, inr, false, ◌||◌, Option, none, some, [], ◌∷◌, ◌++◌, arith, ◌==◌,
  if◌then◌else◌, ==_iff, Bool-cases, Option-cases, Text, ok, same, same_iff, nat_ord, list_cmp,
  list_ord, codes, split, has_code, split_single, split-append,
}
use ic_oss.Types.Permission.Name.{validate_name, validate_chars, is_name_char}
use ic_oss.Types.Permission.Kind.{
  Resource, Operation, print_resource, parse_resource, print_operation, parse_operation,
  resource_ord, operation_ord,
}
use ic_oss.Types.Permission.Rule
use ic_oss.Types.Permission.Rule.{
  Permission, print_permission, parse_permission, parse_parts, check_constraint, permission_ord,
  parse_constraint, default_permission,
}

-- A name that is not read as something else.
abbrev pub IsPlainResource : Resource → Type 0
IsPlainResource (Resource.other s) =
    (validate_name s ≡ ok tt)
    × (s ≢ codes "File")
    × (s ≢ codes "Folder")
    × (s ≢ codes "Bucket")
    × (s ≢ codes "Cluster")
IsPlainResource r = Unit

abbrev pub IsPlainOperation : Operation → Type 0
IsPlainOperation (Operation.other s) =
    (validate_name s ≡ ok tt)
    × (s ≢ codes "List")
    × (s ≢ codes "Read")
    × (s ≢ codes "Write")
    × (s ≢ codes "Delete")
IsPlainOperation o = Unit

-- A character that stands in no name and is no star.
abbrev pub IsSeparator : ℕ → Type 0
IsSeparator c = (is_name_char c ≡ false) × ((b'*' == c) ≡ false)

has_code-validate_chars :
    (c : ℕ) (s : Text) → is_name_char c ≡ false → validate_chars s ≡ ok tt → has_code c s ≡ false
unfolding validate_chars
has_code-validate_chars c [] h k = refl
has_code-validate_chars c (x ∷ s) h k = ground (arith, has_code-validate_chars c s h, ==_iff x c)

pub has_code-validate_name :
    (c : ℕ) (s : Text) → is_name_char c ≡ false → validate_name s ≡ ok tt → has_code c s ≡ false
unfolding validate_name
has_code-validate_name c [] h k = refl
has_code-validate_name c (x ∷ s) h k = has_code-validate_chars c (x ∷ s) h k

pub star_is_no_name : (s : Text) → validate_name s ≡ ok tt → same s (codes "*") ≡ false
unfolding validate_name validate_chars is_name_char
star_is_no_name s h = elim (Bool-cases (same s (codes "*"))) [
  | inr differ ↦ differ
  | inl star ↦ let s_eq : s ≡ codes "*" = (same_iff s (codes "*")).0 star in absurd (ground arith)
]

pub parse-print_resource :
    (r : Resource) → IsPlainResource r → parse_resource (print_resource r) ≡ ok r
unfolding parse_resource print_resource list_cmp
parse-print_resource (Resource.other s) (valid, a, b, c, d) = ground (
  arith,
  star_is_no_name s valid,
  same_iff s (codes "File"),
  same_iff s (codes "Folder"),
  same_iff s (codes "Bucket"),
  same_iff s (codes "Cluster"),
)
parse-print_resource _ _ = refl

pub parse-print_operation :
    (o : Operation) → IsPlainOperation o → parse_operation (print_operation o) ≡ ok o
unfolding parse_operation print_operation list_cmp
parse-print_operation (Operation.other s) (valid, a, b, c, d) = ground (
  arith,
  star_is_no_name s valid,
  same_iff s (codes "List"),
  same_iff s (codes "Read"),
  same_iff s (codes "Write"),
  same_iff s (codes "Delete"),
)
parse-print_operation _ _ = refl

pub has_code-print_resource :
    (c : ℕ) (r : Resource)
    → IsSeparator c
    → IsPlainResource r
    → has_code c (print_resource r) ≡ false
unfolding print_resource validate_name validate_chars is_name_char
has_code-print_resource c (Resource.other s) sep plain = has_code-validate_name c s sep.0 plain.0
has_code-print_resource c Resource.all sep plain = ground (arith, sep.1)
has_code-print_resource c Resource.file sep plain =
    has_code-validate_name c (codes "File") sep.0 refl
has_code-print_resource c Resource.folder sep plain =
    has_code-validate_name c (codes "Folder") sep.0 refl
has_code-print_resource c Resource.bucket sep plain =
    has_code-validate_name c (codes "Bucket") sep.0 refl
has_code-print_resource c Resource.cluster sep plain =
    has_code-validate_name c (codes "Cluster") sep.0 refl

pub has_code-print_operation :
    (c : ℕ) (o : Operation)
    → IsSeparator c
    → IsPlainOperation o
    → has_code c (print_operation o) ≡ false
unfolding print_operation validate_name validate_chars is_name_char
has_code-print_operation c (Operation.other s) sep plain = has_code-validate_name c s sep.0 plain.0
has_code-print_operation c Operation.all sep plain = ground (arith, sep.1)
has_code-print_operation c Operation.list sep plain =
    has_code-validate_name c (codes "List") sep.0 refl
has_code-print_operation c Operation.read sep plain =
    has_code-validate_name c (codes "Read") sep.0 refl
has_code-print_operation c Operation.write sep plain =
    has_code-validate_name c (codes "Write") sep.0 refl
has_code-print_operation c Operation.delete sep plain =
    has_code-validate_name c (codes "Delete") sep.0 refl

pub has_code-append :
    (c : ℕ) (xs ys : Text) → has_code c (xs ++ ys) ≡ (has_code c xs || has_code c ys)
has_code-append c [] ys = refl
has_code-append c (x ∷ xs) ys = ground (arith, has_code-append c xs ys)

-- A text with a separator is not the star.
pub not_star :
    (c : ℕ) (xs ys : Text) → (b'*' == c) ≡ false → same (xs ++ c ∷ ys) (codes "*") ≡ false
not_star c xs ys h = elim (Bool-cases (same (xs ++ c ∷ ys) (codes "*"))) [
  | inr differ ↦ differ
  | inl star ↦
      let text_eq : xs ++ c ∷ ys ≡ codes "*" = (same_iff (xs ++ c ∷ ys) (codes "*")).0 star in
      let has : has_code c (xs ++ c ∷ ys) ≡ has_code c (codes "*") = ap (has_code c) text_eq in
      absurd (ground (arith, has_code-append c xs (c ∷ ys)))
]

abbrev pub IsPlainConstraint : Option Resource → Type 0
IsPlainConstraint none = Unit
IsPlainConstraint (some c) = IsPlainResource c

pub record IsPlain (p : Permission) : Type 0 where
  pub resource : IsPlainResource p.resource
  pub operation : IsPlainOperation p.operation
  pub constraint : IsPlainConstraint p.constraint

-- The constraint `*` is the same as none.
abbrev pub normal_constraint : Option Resource → Option Resource
normal_constraint none = none
normal_constraint (some c) = if same c Resource.all then none else some c

abbrev pub normal : Permission → Permission
normal p = record p { constraint = normal_constraint p.constraint }

module _ (r : Resource) (o : Operation) (r_plain : IsPlainResource r)
    (o_plain : IsPlainOperation o) where
  abbrev short : Text
  short = print_resource r ++ b'.' ∷ print_operation o

  dot_sep : IsSeparator b'.'
  unfolding is_name_char
  dot_sep = (refl, refl)

  split-short : split b'.' short ≡ print_resource r ∷ print_operation o ∷ []
  split-short =
      split-append b'.' (print_resource r) (print_operation o)
        (has_code-print_resource b'.' r dot_sep r_plain)
      ∙ ap (◌∷◌ (print_resource r))
          (split_single b'.' (print_operation o) (has_code-print_operation b'.' o dot_sep o_plain))

  parse-short :
      parse_permission short ≡ ok (record { resource = r; operation = o; constraint = none })
  unfolding parse_permission parse_parts parse_constraint
  parse-short = ground (
    arith,
    not_star b'.' (print_resource r) (print_operation o) refl,
    split-short,
    parse-print_resource r r_plain,
    parse-print_operation o o_plain,
  )

  module _ (c : Resource) (c_plain : IsPlainResource c) where
    abbrev long : Text
    long = short ++ b'.' ∷ print_resource c

    regroup : long ≡ print_resource r ++ b'.' ∷ (print_operation o ++ b'.' ∷ print_resource c)
    regroup = simp append_assoc

    split-long :
        split b'.' (print_resource r ++ b'.' ∷ (print_operation o ++ b'.' ∷ print_resource c))
        ≡ print_resource r ∷ print_operation o ∷ print_resource c ∷ []
    split-long =
        split-append b'.' (print_resource r) (print_operation o ++ b'.' ∷ print_resource c)
          (has_code-print_resource b'.' r dot_sep r_plain)
        ∙ ap (◌∷◌ (print_resource r)) (
            split-append b'.' (print_operation o) (print_resource c)
              (has_code-print_operation b'.' o dot_sep o_plain)
            ∙ ap (◌∷◌ (print_operation o)) (
                split_single b'.' (print_resource c)
                  (has_code-print_resource b'.' c dot_sep c_plain)))

    parse-long :
        parse_permission long ≡ ok (record { resource = r; operation = o; constraint = some c })
    unfolding parse_permission parse_parts parse_constraint
    parse-long = rw regroup (
        ground (
          arith,
          not_star b'.' (print_resource r) (print_operation o ++ b'.' ∷ print_resource c) refl,
          split-long,
          parse-print_resource r r_plain,
          parse-print_operation o o_plain,
          parse-print_resource c c_plain,
        ))

pub star_parsed : parse_permission (codes "*") ≡ ok default_permission
unfolding parse_permission list_cmp
star_parsed = refl

-- A permission that was printed is parsed back to the permission itself, but that a constraint
-- `*` is lost, where its names are valid and are not those of the built-in kinds.
pub parse-print_permission :
    (p : Permission) → IsPlain p → parse_permission (print_permission p) ≡ ok (normal p)
unfolding print_permission Rule.is_all
parse-print_permission p plain = elim (Option-cases p.constraint) [
  | inl e ↦ elim (Bool-cases (Rule.is_all p)) [
    | inl everything ↦
        ground
          (arith, same_iff p.resource Resource.all, same_iff p.operation Operation.all, star_parsed)
    | inr less ↦ ground (arith, parse-short p.resource p.operation plain.resource plain.operation)
  ]
  | inr (c, e) ↦ elim (Bool-cases (same c Resource.all)) [
    | inl star ↦ ground (arith, parse-short p.resource p.operation plain.resource plain.operation)
    | inr more ↦
        let c_plain : IsPlainResource c = rw e at plain.constraint in
        ground (arith, parse-long p.resource p.operation plain.resource plain.operation c c_plain)
  ]
]
