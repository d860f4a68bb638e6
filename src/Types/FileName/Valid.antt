-- ===== src/Types/FileName/Valid.antt =====
-- What a valid name of a file or folder, and a valid path of a folder, look like.
use ic_oss.Base.{
  ◌≤◌, ◌≡◌, refl, ◌≢◌, ◌↔◌, inl, inr, true, false, ◌||◌, none, some, List, [], ◌∷◌, ◌++◌, arith,
  if◌then◌else◌, Bool-cases, Option-cases, is_empty, All, Text, same, same_iff, same_refl, nat_ord,
  list_cmp, list_ord, option_ord, split, has_code, split_single, split-append, split_no_code,
}
use mathlib.Core.List.{append-nil}
use ic_oss.Types.FileName.{
  slash, is_trimmed, byte_length, dot, dot_dot, last_component, valid_file_name, file_name,
  valid_names, valid_file_parent,
}

last_component-single :
    (name : Text)
    → last_component (name ∷ []) ≡ (if is_empty name || same name dot then none else some name)
unfolding last_component
last_component-single name = refl

-- A component is a piece of the path, so that it holds no slash.
last_component_no_slash :
    (pieces : List Text) (name : Text)
    → All (λ p. has_code slash p ≡ false) pieces
    → last_component pieces ≡ some name
    → has_code slash name ≡ false
unfolding last_component
last_component_no_slash [] name all h = absurd (ground arith)
last_component_no_slash (p ∷ ps) name (a, all) h = elim (Option-cases (last_component ps)) [
  | inr (n, e) ↦ last_component_no_slash ps name all (ground (arith, e))
  | inl e ↦ elim (Bool-cases (is_empty p || same p dot)) [
    | inl b ↦ absurd (ground arith)
    | inr b ↦ let eq : p ≡ name = ground arith in ground (arith, eq, a)
  ]
]

-- A name of a file or folder: one component of a path, that is not one of the two with a meaning
-- of their own, without whitespace at its ends, of at most 96 bytes.
pub record IsPlainName (name : Text) : Type 0 where
  pub some_code : name ≢ []
  pub trimmed : is_trimmed name ≡ true
  pub short : byte_length name ≤ 96
  pub no_slash : has_code slash name ≡ false
  pub not_dot : name ≢ dot
  pub not_dot_dot : name ≢ dot_dot

-- The name of a path with a single component.
file_name-single :
    (name : Text)
    → has_code slash name ≡ false
    → file_name name
      ≡ (if is_empty name || same name dot || same name dot_dot then none else some name)
unfolding file_name
file_name-single name no_slash =
    ground (arith, split_single slash name no_slash, last_component-single name)

file_name_no_slash : (path name : Text) → file_name path ≡ some name → has_code slash name ≡ false
unfolding file_name
file_name_no_slash path name h = elim (Option-cases (last_component (split slash path))) [
  | inl e ↦ absurd (ground arith)
  | inr (component, e) ↦
      last_component_no_slash (split slash path) name (split_no_code slash path) (ground arith)
]

valid_file_name-IsPlainName : (name : Text) → valid_file_name name ≡ true → IsPlainName name
unfolding valid_file_name
valid_file_name-IsPlainName name h =
    let same_name : file_name name ≡ some name =
      ground (arith, same_iff (file_name name) (some name)) in
    let no_slash = file_name_no_slash name name same_name in
    let single = file_name-single name no_slash in
    record {
      some_code = λ e. ground arith;
      trimmed = ground arith;
      short = ground arith;
      no_slash = no_slash;
      not_dot = λ e. ground (arith, same_iff name dot);
      not_dot_dot = λ e. ground (arith, same_iff name dot_dot);
    }

IsPlainName-valid_file_name : (name : Text) → IsPlainName name → valid_file_name name ≡ true
unfolding valid_file_name
IsPlainName-valid_file_name name plain =
    let single = file_name-single name plain.no_slash in
    ground (
      arith,
      same_iff name dot,
      same_iff name dot_dot,
      same_refl (some name),
      plain.some_code,
      plain.trimmed,
      plain.short,
      plain.not_dot,
      plain.not_dot_dot,
    )

-- A name is valid just when it is one component of a path: not empty, without a slash, and neither
-- of the two names with a meaning of their own; and has no whitespace at its ends and at most 96 bytes.
pub valid_file_name_iff : (name : Text) → (valid_file_name name ≡ true) ↔ IsPlainName name
valid_file_name_iff name = (valid_file_name-IsPlainName name, IsPlainName-valid_file_name name)

-- A path, with a slash before each name.
unfoldable pub path_of : List Text → Text
path_of [] = []
path_of (name ∷ names) = slash ∷ (name ++ path_of names)

split-path_of :
    (name : Text) (names : List Text)
    → All (λ n. has_code slash n ≡ false) (name ∷ names)
    → split slash (name ++ path_of names) ≡ name ∷ names
unfolding path_of
split-path_of name [] (a, _) = ground (arith, split_single slash name a, append-nil name)
split-path_of name (n ∷ names) (a, all) =
    ground (arith, split-append slash name (n ++ path_of names) a, split-path_of n names all)

path_of_not_root :
    (name : Text) (names : List Text)
    → name ∷ names ≢ [] ∷ []
    → same (slash ∷ (name ++ path_of names)) (slash ∷ []) ≡ false
unfolding path_of list_cmp
path_of_not_root [] [] not_root = absurd (not_root refl)
path_of_not_root [] (n ∷ names) not_root = refl
path_of_not_root (c ∷ cs) names not_root = refl

-- A path of names without slashes is a valid path of a folder just when all names are valid. The
-- path is not the single slash, which stands for the root.
pub valid_file_parent-path_of :
    (names : List Text)
    → All (λ n. has_code slash n ≡ false) names
    → names ≢ [] ∷ []
    → valid_file_parent (path_of names) ≡ valid_names names
unfolding valid_file_parent path_of valid_names
valid_file_parent-path_of [] all not_root = refl
valid_file_parent-path_of (name ∷ names) all not_root =
    ground (arith, path_of_not_root name names not_root, split-path_of name names all)
