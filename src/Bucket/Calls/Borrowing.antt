-- ===== src/Bucket/Calls/Borrowing.antt =====
-- The update and the deletion of a folder in src/ic_oss_bucket/src/api_update.rs: their checks run
-- while `FOLDERS` is mutably borrowed, so that they panic where they would walk to the root.

use ic_oss.Types.Inputs.{UpdateFolderInput}
use ic_oss.Bucket.Access.{Context}
use ic_oss.Bucket.Calls.{may_update_folder, Runtime, Message, now_ms, writer, trapped}
use ic_oss.Bucket.Fs.{Store}
use ic_oss.Bucket.Folders.{FolderMetadata}
use ic_oss.Bucket.Calls
use ic_oss.Bucket.Folders
use ic_oss.Bucket.Fs.Update
use ic_oss.Bucket.Fs.Delete
use ic_oss.Base.Maps
use ic_oss.Base.{ℕ, ◌/◌, ◌≡◌, ◌≢◌, false, none, some, arith, ok, decimal, nat_ord, list_ord}
use ic_oss.Bucket.Error.{folders_borrowed}
use ic_oss.Bucket.Checks.{right, check_folder_update_borrowed, check_folder_delete_borrowed}
use ic_oss.Types.Permission.Policies.{grants}
use ic_oss.Types.Permission.Kind.{Resource, Operation}

module _ {V : Type 0} (runtime : Runtime V) (m : Message) (s : Store V) (ctx : Context) where
  -- A valid update of a folder that is there, and not the root, traps and leaves the store, for a
  -- caller who may write to the bucket, if the policies permit neither to write that folder itself
  -- nor to write the folders of the bucket: also where they permit it on a folder above.
  pub update_folder_info_panics :
      (input : UpdateFolderInput) (f : FolderMetadata)
      → may_update_folder runtime input m s ≡ ok ctx
      → input.id ≢ 0
      → Maps.get input.id s.folders ≡ some f
      → grants ctx.ps (right Resource.folder Operation.write none) (decimal input.id) ≡ false
      → grants ctx.ps
          (right Resource.bucket Operation.write (some Resource.folder))
          (runtime.to_text runtime.canister)
        ≡ false
      → Calls.update_folder_info runtime input m s ≡ (trapped folders_borrowed, s)
  unfolding Calls.update_folder_info Calls.proceed Calls.reply_or_panic Update.update_folder
      check_folder_update_borrowed
  update_folder_info_panics input f passed nonzero found itself others =
      ground (arith, passed, nonzero, found, itself, others)

  -- The deletion of a folder that is there and writable, and not the root, traps and leaves the store,
  -- for a caller who may write to the bucket, if the policies do not permit to delete the folders of
  -- the bucket: also where they permit it on a folder above.
  pub delete_folder_panics :
      (id : ℕ) (f : FolderMetadata)
      → writer runtime s m (now_ms m / 1000) ≡ ok ctx
      → id ≢ 0
      → Folders.parent_to_update s.folders id ≡ ok f
      → grants ctx.ps
          (right Resource.bucket Operation.delete (some Resource.folder))
          (runtime.to_text runtime.canister)
        ≡ false
      → Calls.delete_folder runtime id m s ≡ (trapped folders_borrowed, s)
  unfolding Calls.delete_folder Calls.proceed Calls.reply_or_panic Delete.delete_folder
      Delete.may_delete_folder check_folder_delete_borrowed
  delete_folder_panics id f passed nonzero found others =
      ground (arith, passed, nonzero, found, others)
