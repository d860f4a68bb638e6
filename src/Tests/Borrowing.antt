-- ===== src/Tests/Borrowing.antt =====
-- The update of a folder by a right on a folder above, at a bucket with two folders.
use ic_oss.Types.Validation.{validate_update_folder}
use ic_oss.Types.FileName.{
  is_whitespace, ends_in_whitespace, is_trimmed, byte_length, last_component, file_name,
  valid_file_name,
}
use ic_oss.Types.Permission.Rule.{
  check_constraint, parse_constraint, parse_parts, parse_permission, permission_ord,
}
use ic_oss.Types.Permission.Name.{is_name_char, validate_chars, validate_name}
use ic_oss.Types.Inputs.{UpdateFolderInput}
use ic_oss.Bucket.Fs.{Store}
use ic_oss.Base.Maps
use ic_oss.Base.Sets
use ic_oss.Bucket.Calls
use ic_oss.Bucket.Calls.{Runtime, Message, trapped, may_update_folder, writer}
use ic_oss.Bucket.Access.{Token, Context, Role, role_of, with_token, write_permission}
use ic_oss.Bucket.Fs.Run.{fresh}
use ic_oss.Bucket.Config.{default_bucket}
use ic_oss.Bucket.Error.{folders_borrowed}
use ic_oss.Bucket.Folders.{FolderMetadata, ancestors_loop, ancestors_map}
use ic_oss.Bucket.Checks.{
  right, check_folder_update, get_ancestors, granted_above, check_folder_create,
}
use ic_oss.Types.Permission.Kind.{
  Resource, Operation, resource_ord, operation_ord, check_resource, check_operation, parse_resource,
  parse_operation,
}
use ic_oss.Types.Permission.Policy.{
  policy_ord, covers_all, check_path, validate_names, collect, parse_resources, has_permission,
  has_permission_any, parse_optional, parse_policy_parts, parse_policy,
}
use ic_oss.Bucket.Calls.Borrowing.{update_folder_info_panics}
use ic_oss.Types.Permission.Policies.{grants, parse_policies, grants_any, parse_all}
use ic_oss.Types.Permission.Rule
use ic_oss.Base.{
  ℕ, ◌≡◌, refl, true, false, none, some, List, [], ◌∷◌, arith, length, pos, ok, nat_ord, list_cmp,
  codes, split, decimal,
}

abbrev editor_token : Token
editor_token = record {
  subject = 5 ∷ [];
  audience = 9 ∷ [];
  policies = codes "Folder.Write.Folder:1";
}

abbrev editor_runtime : Runtime ℕ
editor_runtime = record {
  canister = 9 ∷ [];
  from_sign1 = λ bytes ecdsa eddsa aad now_sec. ok editor_token;
  to_text = λ p. p;
  cbor_length = λ m. length m;
}

abbrev editor_message : Message
editor_message = record { caller = 6 ∷ []; time = 5000000000; access_token = some (1 ∷ []) }

abbrev placed : ℕ → List ℕ → FolderMetadata
placed parent folders = record {
  parent = parent;
  name = codes "a";
  files = [];
  folders = folders;
  created_at = 0;
  updated_at = 0;
  status = pos 0;
}

abbrev two_folders : Store ℕ
two_folders = record (fresh {V = ℕ} default_bucket) {
  folders = (0, placed 0 (1 ∷ [])) ∷ (1, placed 0 (2 ∷ [])) ∷ (2, placed 1 []) ∷ [];
}

-- The editor may write the folder 1, and so what lies in it.
abbrev editor : Context
editor = record {
  caller = 5 ∷ [];
  ps =
      record {
        permission = right Resource.folder Operation.write (some Resource.folder);
        resources = codes "1" ∷ [];
      }
      ∷ [];
  role = Role.user;
}

abbrev renaming : UpdateFolderInput
renaming = record { id = 2; name = some (codes "b"); status = none }

is_inherited : check_folder_update (λ p. p) editor.ps (9 ∷ []) two_folders.folders 2 1 ≡ some true
unfolding grants granted_above grants_any get_ancestors ancestors_map ancestors_loop Maps.get
    has_permission has_permission_any Rule.check check_resource check_operation check_constraint
    check_path covers_all decimal Sets.contains list_cmp check_folder_update check_folder_create
is_inherited = refl

may_rename : may_update_folder editor_runtime renaming editor_message two_folders ≡ ok editor
unfolding may_update_folder validate_update_folder valid_file_name is_trimmed is_whitespace
    ends_in_whitespace byte_length file_name last_component split list_cmp writer write_permission
    role_of with_token Sets.contains parse_policies parse_all parse_policy parse_policy_parts
    parse_optional parse_resources validate_names collect parse_permission parse_parts
    parse_constraint parse_resource parse_operation validate_name validate_chars is_name_char
    Sets.insert
may_rename = refl

no_direct_right : grants editor.ps (right Resource.folder Operation.write none) (decimal 2) ≡ false
unfolding grants Rule.check check_resource check_operation check_constraint covers_all Sets.contains
    list_cmp has_permission decimal
no_direct_right = refl

no_bucket_right :
    grants editor.ps (right Resource.bucket Operation.write (some Resource.folder)) (9 ∷ []) ≡ false
unfolding grants Rule.check check_resource check_operation check_constraint covers_all Sets.contains
    list_cmp has_permission decimal
no_bucket_right = refl

is_there : Maps.get 2 two_folders.folders ≡ some (placed 1 [])
unfolding Maps.get
is_there = refl

update_folder_info_panics_example :
    Calls.update_folder_info editor_runtime renaming editor_message two_folders
    ≡ (trapped folders_borrowed, two_folders)
update_folder_info_panics_example =
    update_folder_info_panics editor_runtime editor_message two_folders editor renaming
      (placed 1 []) may_rename (ground arith) is_there no_direct_right no_bucket_right
