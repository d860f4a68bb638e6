-- ===== src/Bucket/Checks.antt =====
-- The checks of src/ic_oss_bucket/src/permission.rs: whether a set of policies permits an operation
-- on the bucket, a folder or a file. The checks walk from a folder up to the root
-- (`fs::get_ancestors`); `none` stands for a walk that does not end. The text of a principal is a
-- parameter.
pub mod Inherited
pub mod Ending
use ic_oss.Bucket.Error.{Error, folders_borrowed}
use ic_oss.Types.Ids.{Principal}
use ic_oss.Types.Permission.Rule.{Permission}
use ic_oss.Types.Permission.Kind.{Resource, Operation}
use ic_oss.Types.Permission.Policies.{Policies, grants_any, grants}
use ic_oss.Bucket.Folders.{FoldersTree, ancestors_map}
use ic_oss.Base.{
  ℕ, Bool, true, false, ◌||◌, Option, none, some, List, map_option, if◌then◌else◌, Text, Result, ok,
  err, codes, decimal,
}
use ic_oss.Bucket.Folders

-- `fs::get_ancestors`
unfoldable pub get_ancestors : FoldersTree → ℕ → Option (List Text)
get_ancestors t start = ancestors_map t start (λ id folder. decimal id)

-- `ps.has_permission_any(&.., &fs::get_ancestors(parent))`
unfoldable pub granted_above : Policies → Permission → FoldersTree → ℕ → Option Bool
granted_above ps p t parent = map_option (grants_any ps p) (get_ancestors t parent)

abbrev pub right : Resource → Operation → Option Resource → Permission
right resource operation constraint = record {
  resource = resource;
  operation = operation;
  constraint = constraint;
}

-- A test that would go on with a second borrow of `FOLDERS`.
abbrev pub or_panic : Bool → Result Error (Unit {0})
or_panic true = ok tt
or_panic false = err folders_borrowed

module _ (to_text : Principal → Text) where
  unfoldable pub check_bucket_read : Policies → Principal → Bool
  check_bucket_read ps canister =
      grants ps (right Resource.bucket Operation.read (some (Resource.other (codes "Info"))))
        (to_text canister)

  unfoldable pub check_folder_list : Policies → Principal → FoldersTree → ℕ → Option Bool
  check_folder_list ps canister t parent =
      if grants ps (right Resource.bucket Operation.list (some Resource.folder)) (to_text canister)
      then some true
      else granted_above ps (right Resource.folder Operation.list none) t parent

  unfoldable pub check_folder_read : Policies → Principal → FoldersTree → ℕ → Option Bool
  check_folder_read ps canister t id =
      if grants ps (right Resource.bucket Operation.read (some Resource.folder)) (to_text canister)
      then some true
      else granted_above ps (right Resource.folder Operation.read (some Resource.folder)) t id

  unfoldable pub check_file_list : Policies → Principal → FoldersTree → ℕ → Option Bool
  check_file_list ps canister t parent =
      if grants ps (right Resource.bucket Operation.list (some Resource.file)) (to_text canister)
      then some true
      else granted_above ps (right Resource.folder Operation.list (some Resource.file)) t parent

  unfoldable pub check_file_read : Policies → Principal → FoldersTree → ℕ → ℕ → Option Bool
  check_file_read ps canister t id parent =
      if grants ps (right Resource.file Operation.read none) (decimal id)
        || grants ps (right Resource.bucket Operation.read (some Resource.file)) (to_text canister)
      then some true
      else granted_above ps (right Resource.folder Operation.read (some Resource.file)) t parent

  unfoldable pub check_file_create : Policies → Principal → FoldersTree → ℕ → Option Bool
  check_file_create ps canister t parent =
      if grants ps (right Resource.bucket Operation.write (some Resource.file)) (to_text canister)
      then some true
      else granted_above ps (right Resource.folder Operation.write (some Resource.file)) t parent

  unfoldable pub check_file_delete : Policies → Principal → FoldersTree → ℕ → Option Bool
  check_file_delete ps canister t parent =
      if grants ps (right Resource.bucket Operation.delete (some Resource.file)) (to_text canister)
      then some true
      else granted_above ps (right Resource.folder Operation.delete (some Resource.file)) t parent

  unfoldable pub check_file_update : Policies → Principal → FoldersTree → ℕ → ℕ → Option Bool
  check_file_update ps canister t id parent =
      if grants ps (right Resource.file Operation.write none) (decimal id)
      then some true
      else check_file_create ps canister t parent

  unfoldable pub check_folder_create : Policies → Principal → FoldersTree → ℕ → Option Bool
  check_folder_create ps canister t parent =
      if grants ps (right Resource.bucket Operation.write (some Resource.folder)) (to_text canister)
      then some true
      else granted_above ps (right Resource.folder Operation.write (some Resource.folder)) t parent

  unfoldable pub check_folder_delete : Policies → Principal → FoldersTree → ℕ → Option Bool
  check_folder_delete ps canister t parent =
      if grants ps (right Resource.bucket Operation.delete (some Resource.folder))
        (to_text canister)
      then some true
      else granted_above ps (right Resource.folder Operation.delete (some Resource.folder)) t parent

  unfoldable pub check_folder_update : Policies → Principal → FoldersTree → ℕ → ℕ → Option Bool
  check_folder_update ps canister t id parent =
      if grants ps (right Resource.folder Operation.write none) (decimal id)
      then some true
      else check_folder_create ps canister t parent

  -- `check_folder_delete` while `FOLDERS` is mutably borrowed, as in the checker of
  -- `fs::delete_folder`: `fs::get_ancestors` borrows it again, which panics.
  unfoldable pub check_folder_delete_borrowed : Policies → Principal → Result Error (Unit {0})
  check_folder_delete_borrowed ps canister =
      or_panic (
        grants ps (right Resource.bucket Operation.delete (some Resource.folder))
          (to_text canister))

  -- `check_folder_update` while `FOLDERS` is mutably borrowed, as in the checker of
  -- `fs::update_folder`.
  unfoldable pub check_folder_update_borrowed : Policies → Principal → ℕ → Result Error (Unit {0})
  check_folder_update_borrowed ps canister id = or_panic (
      grants ps (right Resource.folder Operation.write none) (decimal id)
      || grants ps (right Resource.bucket Operation.write (some Resource.folder))
          (to_text canister))
