-- ===== src/Bucket/Error.antt =====
-- The errors of src/ic_oss_bucket/src/store.rs and of its callers, one constructor for each message,
-- with the values that the message quotes.
use ic_oss.Base.{ℕ}

pub data Error : Type 0 where
  folder_exists : ℕ → Error
  folder_depth_exceeds : Error
  parent_not_found : ℕ → Error
  parent_not_writable : Error
  children_exceeds : Error
  root_cannot_be_moved : Error
  target_is_source : ℕ → Error
  folder_not_found : ℕ → Error
  folder_not_in : ℕ → ℕ → Error
  folder_not_writable : ℕ → Error
  moved_into_sub_folder : Error
  root_cannot_be_deleted : Error
  folder_readonly : Error
  folder_not_empty : Error
  folder_id_overflow : Error
  file_id_overflow : Error
  hash_conflict : ℕ → Error
  hash_required : Error
  file_not_found : ℕ → Error
  file_not_writable : ℕ → Error
  file_not_in : ℕ → ℕ → Error
  root_cannot_be_updated : Error
  file_readonly : Error
  readonly_without_hash : Error
  not_fully_uploaded : Error
  size_exceeds : ℕ → Error
  chunk_not_found : ℕ → ℕ → Error
  size_mismatch : ℕ → ℕ → Error
  empty_chunk : Error
  chunk_too_large : ℕ → Error
  content_size_mismatch : Error
  permission_denied : Error
  -- A check that walks to the root did not come to an end; no message, since no call returns it.
  walk_unending : Error
  -- the panic of a second borrow of `FOLDERS`
  folders_borrowed : Error
