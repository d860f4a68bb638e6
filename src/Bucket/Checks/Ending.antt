-- ===== src/Bucket/Checks/Ending.antt =====
-- The walks to the root of the checks come to an end.
use ic_oss.Types.Ids.{Principal}
use ic_oss.Types.Permission.Kind.{Resource, Operation}
use ic_oss.Types.Permission.Rule.{Permission}
use ic_oss.Types.Permission.Policies.{Policies, grants_any}
use ic_oss.Bucket.Folders.{FoldersTree}
use ic_oss.Base.{ℕ, ◌≡◌, ◌≢◌, Bool, true, Option, none, some, arith, if◌then◌else◌, Text}
use ic_oss.Bucket.Folders.Shape.{IsTree}
use ic_oss.Bucket.Checks.{
  granted_above, check_folder_list, check_folder_read, check_file_list, check_file_read,
  check_file_create, check_file_delete, check_file_update, check_folder_create, check_folder_delete,
  right,
}
use ic_oss.Bucket.Checks.Inherited.{get_ancestors-ends}

module _ (ps : Policies) (t : FoldersTree) (k : ℕ) (tree : IsTree t) where
  granted_above-ends : (p : Permission) → (b : Bool) × (granted_above ps p t k ≡ some b)
  unfolding granted_above
  granted_above-ends p =
      let (paths, e) = get_ancestors-ends t k tree in (grants_any ps p paths, ground (arith, e))

  -- A right on the bucket, or else a walk.
  or_above-ends :
      (granted : Bool) (p : Permission)
      → (if granted then some true else granted_above ps p t k) ≢ none
  or_above-ends granted p h = let (b, e) = granted_above-ends p in ground (arith, e, h)

or_else_ends :
    (granted : Bool) (c : Option Bool) → c ≢ none → (if granted then some true else c) ≢ none
or_else_ends granted c some_c h = ground (arith, some_c, h)

-- In a tree each check of a call that does not hold `FOLDERS` borrowed comes to a decision, also for
-- a folder that is not there.
pub checks_end :
    (to_text : Principal → Text) (ps : Policies) (canister : Principal) (t : FoldersTree) (id k : ℕ)
    → IsTree t
    → (check_folder_list to_text ps canister t k ≢ none)
      × (check_folder_read to_text ps canister t k ≢ none)
      × (check_file_list to_text ps canister t k ≢ none)
      × (check_file_read to_text ps canister t id k ≢ none)
      × (check_file_create to_text ps canister t k ≢ none)
      × (check_file_update to_text ps canister t id k ≢ none)
      × (check_file_delete to_text ps canister t k ≢ none)
      × (check_folder_create to_text ps canister t k ≢ none)
      × (check_folder_delete to_text ps canister t k ≢ none)
unfolding check_folder_list check_folder_read check_file_list check_file_read check_file_create
    check_file_update check_file_delete check_folder_create check_folder_delete
checks_end to_text ps canister t id k tree =
    let ends = or_above-ends ps t k tree in
    (
      ends _ _,
      ends _ _,
      ends _ _,
      ends _ _,
      ends _ _,
      or_else_ends _ _ (ends _ (right Resource.folder Operation.write (some Resource.file))),
      ends _ _,
      ends _ _,
      ends _ _,
    )
