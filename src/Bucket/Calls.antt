-- ===== src/Bucket/Calls.antt =====
-- The update calls of the bucket, src/ic_oss_bucket/src/api_update.rs: each tests its input, asks
-- for the right to write, and changes the store. A call that traps leaves the state it found.
pub mod Reaching
pub mod Permitted
pub mod Failing
pub mod Borrowing
use ic_oss.Types.Ids.{Principal}
use ic_oss.Types.Inputs.{
  UpdateFileInput, UpdateFolderInput, CreateFileInput, UpdateFileChunkInput, MoveInput,
  CreateFolderInput,
}
use ic_oss.Bucket.Create.{create_stored}
use ic_oss.Bucket.Checks.{
  check_file_create, check_file_delete, check_file_update, check_folder_create, check_folder_delete,
  check_folder_delete_borrowed, check_folder_update_borrowed,
}
use ic_oss.Bucket.Config.{Bucket}
use ic_oss.Bucket.Folders.{FolderMetadata}
use ic_oss.Bucket.Error.{Error, folders_borrowed, permission_denied, walk_unending}
use ic_oss.Bucket.Fs.Update.{update_folder, update_file}
use ic_oss.Bucket.Fs.Chunk.{update_chunk}
use ic_oss.Base.{
  ℕ, ◌/◌, Bool, true, false, Option, none, some, List, [], get_or, Set, ltb, if◌then◌else◌, Text, ℤ,
  pos, ◌>>=◌, ◌>>◌, fail_if, map_err, Result, ok, err,
}
use ic_oss.Bucket.Fs
use ic_oss.Bucket.Fs.Delete
use ic_oss.Bucket.Fs.{Store, MapValue, FileMetadata}
use ic_oss.Bucket.Access.{Context, write_permission, Token, AccessError}
use ic_oss.Types.Validation.{
  InputError, is_some_and, validate_create_file, validate_update_file, validate_create_folder,
  validate_update_folder,
}

-- What the calls use of the environment: the canister's own id, the verification of a token, the
-- text of a principal, and the number of bytes of custom metadata in CBOR.
pub record Runtime (V : Type 0) : Type 0 where
  pub canister : Principal
  pub from_sign1 : List ℕ → List (List ℕ) → List (List ℕ) → Text → ℤ → Result Text Token
  pub to_text : Principal → Text
  pub cbor_length : MapValue V → ℕ

-- A call's caller, its time in nanoseconds, and its access token.
pub record Message : Type 0 where
  pub caller : Principal
  pub time : ℕ
  pub access_token : Option (List ℕ)

pub data CallError : Type 0 where
  invalid_input : InputError → CallError
  file_size_exceeds : ℕ → CallError
  custom_size_exceeds : ℕ → CallError
  no_access : AccessError → CallError
  failed : Error → CallError

-- A call replies, or traps.
pub data Outcome {ℓ} (A : Type ℓ) : Type ℓ where
  replied : Result CallError A → Outcome A
  trapped : Error → Outcome A

-- `ic_cdk::api::time() / MILLISECONDS`
abbrev pub now_ms : Message → ℕ
now_ms message = message.time / 1000000

-- `ic_cdk::api::time() / SECONDS`
abbrev pub now_sec : Message → ℕ
now_sec message = message.time / 1000000000

-- Of a check: `true` passes, and `false` is "permission denied".
abbrev pub require : Option Bool → Result Error (Unit {0})
require (some true) = ok tt
require (some false) = err permission_denied
require none = err walk_unending

-- Whether an error stands for a panic.
abbrev pub is_panic : Error → Bool
is_panic folders_borrowed = true
is_panic e = false

module _ {V : Type 0} where
  -- `Ok(f(store::fs::operation(..)?))`
  unfoldable pub reply_with :
      {A B : Type 0} → (A → B) → Result Error A × Store V → Outcome B × Store V
  reply_with f (ok a, s') = (replied (ok (f a)), s')
  reply_with f (err e, s') = (replied (err (failed e)), s')

  -- `match res { Ok(a) => Ok(f(a)), Err(err) => trap(..) }`: a trap restores the state `s`.
  unfoldable pub reply_or_trap :
      {A B : Type 0} → Store V → (A → B) → Result Error A × Store V → Outcome B × Store V
  reply_or_trap s f (ok a, s') = (replied (ok (f a)), s')
  reply_or_trap s f (err e, s') = (trapped e, s)

  -- `Ok(f(store::fs::operation(..)?))` where the operation may panic.
  unfoldable pub reply_or_panic :
      {A B : Type 0} → Store V → (A → B) → Result Error A × Store V → Outcome B × Store V
  reply_or_panic s f (ok a, s') = (replied (ok (f a)), s')
  reply_or_panic s f (err e, s') =
      if is_panic e then (trapped e, s) else (replied (err (failed e)), s')

  -- The rest of a call, once its tests passed.
  unfoldable pub proceed :
      {A B : Type 0}
      → Store V
      → Result CallError A
      → (A → Outcome B × Store V)
      → Outcome B × Store V
  proceed s (ok a) rest = rest a
  proceed s (err e) rest = (replied (err e), s)

  -- The limits on the size of a file and of its custom metadata; `as usize` keeps a `u16` as it is.
  unfoldable pub within_limits :
      (MapValue V → ℕ) → Bucket → Option ℕ → Option (MapValue V) → Result CallError (Unit {0})
  within_limits cbor_length bucket size custom = do
    fail_if (ltb bucket.max_file_size (get_or size 0)) (file_size_exceeds bucket.max_file_size)
    fail_if (is_some_and (λ c. ltb bucket.max_custom_data_size (cbor_length c)) custom)
        (custom_size_exceeds bucket.max_custom_data_size)
    ok tt

module _ {V : Type 0} (runtime : Runtime V) where
  -- `s.write_permission(caller, &canister, access_token, now_sec)`
  unfoldable pub writer : Store V → Message → ℕ → Result CallError Context
  writer s message now_sec = map_err no_access (
      write_permission runtime.from_sign1 s.bucket message.caller runtime.canister
        message.access_token now_sec)

  unfoldable pub may_create_file :
      CreateFileInput V → Message → Store V → Result CallError (Unit {0})
  may_create_file input message s = do
    map_err invalid_input (validate_create_file input)
    within_limits runtime.cbor_length s.bucket input.size input.custom
    ctx ← writer s message (now_ms message / 1000)
    map_err failed
        (require (check_file_create runtime.to_text ctx.ps runtime.canister s.folders input.parent))

  -- The steps stand in a block, so that their errors return from here.
  unfoldable pub create_file : CreateFileInput V → Message → Store V → Outcome ℕ × Store V
  create_file input message s =
      proceed s (may_create_file input message s)
        λ _. reply_with (λ id. id) (create_stored input (now_ms message) s)

  -- The check of an update of a file, as a closure.
  abbrev pub file_updater : Context → Store V → ℕ → FileMetadata V → Result Error (Unit {0})
  file_updater ctx s id file =
      require (check_file_update runtime.to_text ctx.ps runtime.canister s.folders id file.parent)

  unfoldable pub may_update_file : UpdateFileInput V → Message → Store V → Result CallError Context
  may_update_file input message s = do
    map_err invalid_input (validate_update_file input)
    within_limits runtime.cbor_length s.bucket input.size input.custom
    writer s message (now_ms message / 1000)

  unfoldable pub update_file_info : UpdateFileInput V → Message → Store V → Outcome ℕ × Store V
  update_file_info input message s = proceed s (may_update_file input message s) λ ctx.
      reply_or_trap s (λ _. now_ms message)
        (update_file input (now_ms message) (file_updater ctx s input.id) s)

  -- It replies with the bytes filled and the time of the update.
  unfoldable pub update_file_chunk :
      UpdateFileChunkInput → Message → Store V → Outcome (ℕ × ℕ) × Store V
  update_file_chunk input message s = proceed s (writer s message (now_sec message)) λ ctx.
      reply_or_trap s (λ filled. (filled, now_ms message))
        (update_chunk input.id input.chunk_index (now_ms message) input.content
          (file_updater ctx s input.id) s)

  unfoldable pub may_move_file : MoveInput → Message → Store V → Result CallError (Unit {0})
  may_move_file input message s = do
    ctx ← writer s message (now_ms message / 1000)
    map_err failed
        (require (check_file_delete runtime.to_text ctx.ps runtime.canister s.folders input.from))
    map_err failed
        (require (check_file_create runtime.to_text ctx.ps runtime.canister s.folders input.to))

  unfoldable pub move_file : MoveInput → Message → Store V → Outcome ℕ × Store V
  move_file input message s = proceed s (may_move_file input message s) λ _.
      reply_with (λ _. now_ms message)
        (Fs.move_file input.id input.from input.to (now_ms message) s)

  unfoldable pub delete_file : ℕ → Message → Store V → Outcome Bool × Store V
  delete_file id message s = proceed s (writer s message (now_ms message / 1000)) λ ctx.
      reply_with (λ deleted. deleted)
        (Delete.delete_file id (now_ms message)
          (λ file.
            require
              (check_file_delete runtime.to_text ctx.ps runtime.canister s.folders file.parent))
          s)

  unfoldable pub may_delete_subfiles : ℕ → Message → Store V → Result CallError (Unit {0})
  may_delete_subfiles parent message s = do
    ctx ← writer s message (now_ms message / 1000)
    map_err failed
        (require (check_file_delete runtime.to_text ctx.ps runtime.canister s.folders parent))

  unfoldable pub batch_delete_subfiles : ℕ → Set ℕ → Message → Store V → Outcome (List ℕ) × Store V
  batch_delete_subfiles parent ids message s = proceed s (may_delete_subfiles parent message s) λ _.
      reply_with (λ removed. removed) (Delete.batch_delete_subfiles parent ids (now_ms message) s)

  abbrev pub new_folder : CreateFolderInput → ℕ → FolderMetadata
  new_folder input now_ms = record {
    parent = input.parent;
    name = input.name;
    files = [];
    folders = [];
    created_at = now_ms;
    updated_at = now_ms;
    status = pos 0;
  }

  unfoldable pub may_create_folder :
      CreateFolderInput → Message → Store V → Result CallError (Unit {0})
  may_create_folder input message s = do
    map_err invalid_input (validate_create_folder input)
    ctx ← writer s message (now_ms message / 1000)
    map_err failed (
        require
          (check_folder_create runtime.to_text ctx.ps runtime.canister s.folders input.parent))

  unfoldable pub create_folder : CreateFolderInput → Message → Store V → Outcome ℕ × Store V
  create_folder input message s =
      proceed s (may_create_folder input message s)
        λ _. reply_with (λ id. id) (Fs.add_folder (new_folder input (now_ms message)) s)

  unfoldable pub may_update_folder :
      UpdateFolderInput → Message → Store V → Result CallError Context
  may_update_folder input message s = do
    map_err invalid_input (validate_update_folder input)
    writer s message (now_ms message / 1000)

  unfoldable pub update_folder_info : UpdateFolderInput → Message → Store V → Outcome ℕ × Store V
  update_folder_info input message s = proceed s (may_update_folder input message s) λ ctx.
      reply_or_panic s (λ _. now_ms message)
        (update_folder input (now_ms message)
          (λ folder. check_folder_update_borrowed runtime.to_text ctx.ps runtime.canister input.id)
          s)

  unfoldable pub may_move_folder : MoveInput → Message → Store V → Result CallError (Unit {0})
  may_move_folder input message s = do
    ctx ← writer s message (now_ms message / 1000)
    map_err failed
        (require (check_folder_delete runtime.to_text ctx.ps runtime.canister s.folders input.from))
    map_err failed
        (require (check_folder_create runtime.to_text ctx.ps runtime.canister s.folders input.to))

  unfoldable pub move_folder : MoveInput → Message → Store V → Outcome ℕ × Store V
  move_folder input message s = proceed s (may_move_folder input message s) λ _.
      reply_with (λ _. now_ms message)
        (Fs.move_folder input.id input.from input.to (now_ms message) s)

  unfoldable pub delete_folder : ℕ → Message → Store V → Outcome Bool × Store V
  delete_folder id message s = proceed s (writer s message (now_ms message / 1000)) λ ctx.
      reply_or_panic s (λ deleted. deleted)
        (Delete.delete_folder id (now_ms message)
          (λ folder. check_folder_delete_borrowed runtime.to_text ctx.ps runtime.canister) s)
