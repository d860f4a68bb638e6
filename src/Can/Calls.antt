-- ===== src/Can/Calls.antt =====
-- The calls of the module `api` that src/ic_oss_can/src/store.rs writes.
use ic_oss.Types.Ids.{Principal}
use ic_oss.Types.Validation.{validate_create_file, validate_update_file}
use ic_oss.Base.Sets
use ic_oss.Base.{
  ℕ, ◌+◌, ◌/◌, ◌%◌, min, Bool, not, ◌&&◌, Option, none, some, List, [], ◌∷◌, get_or, ltb, ◌==◌,
  if◌then◌else◌, length, ℤ, ◌>>◌, fail_if, map_err, Result, ok, err, nat_ord, list_ord,
}
use ic_oss.Types.Inputs.{CreateFileInput, UpdateFileInput, UpdateFileChunkInput}
use ic_oss.Bucket.Upload.{chunks_of}
use ic_oss.Can.{
  add_file, update_file, update_chunk, delete_file, list_files, FileMetadata, CanStore, CanError,
  denied, bad_input, wrong_content_size,
}

-- `ic_cdk::api::time() / MILLISECONDS`, which is a second in types.rs.
abbrev pub can_now : ℕ → ℕ
can_now time = time / 1000000000

abbrev pub is_manager : CanStore → Principal → Bool
is_manager s caller = Sets.contains caller s.metadata.managers

-- The loop over the pieces of the content, up to the first error; what was written stays.
unfoldable pub upload : ℕ → ℕ → ℕ → List (List ℕ) → CanStore → Result CanError (Unit {0}) × CanStore
upload id i now_ms [] s = (ok tt, s)
upload id i now_ms (chunk ∷ chunks) s =
    let (written, s') = update_chunk s id (i % 4294967296) now_ms chunk in
    elim written [ err e ↦ (err e, s') | ok filled ↦ upload id (i + 1) now_ms chunks s' ]

module _ {V : Type 0} where
  abbrev pub new_file : CreateFileInput V → ℕ → FileMetadata
  new_file input now_ms = record {
    name = input.name;
    content_type = input.content_type;
    size = get_or input.size 0;
    filled = 0;
    created_at = now_ms;
    updated_at = now_ms;
    chunks = 0;
    hash = input.hash;
  }

  -- The change that sets a status alone.
  abbrev pub only_status : ℕ → Option ℤ → UpdateFileInput V
  only_status id status = record {
    id = id;
    name = none;
    content_type = none;
    status = status;
    size = none;
    hash = none;
    custom = none;
  }

  -- The change of the status after the content was written.
  unfoldable pub with_status :
      CreateFileInput V → ℕ → ℕ → CanStore → Result CanError (Unit {0}) × CanStore
  with_status input id now_ms s = elim input.status [
    | none ↦ (ok tt, s)
    | some status ↦ elim (update_file s (only_status id (some status)) now_ms) [
      | err e ↦ (err e, s)
      | ok s' ↦ (ok tt, s')
    ]
  ]

  unfoldable pub with_content :
      CreateFileInput V → ℕ → ℕ → CanStore → Result CanError (Unit {0}) × CanStore
  with_content input id now_ms s = elim input.content [
    | none ↦ (ok tt, s)
    | some content ↦
        if ltb 0 (get_or input.size 0) && not (length content == get_or input.size 0 % 4294967296)
        then (err wrong_content_size, s)
        else (let (uploaded, s') = upload id 0 now_ms (chunks_of content) s in
            elim uploaded [ err e ↦ (err e, s') | ok _ ↦ with_status input id now_ms s' ])
  ]

  -- The block of `create_file` that writes. It is no closure, so that a `?` in it returns from
  -- `create_file`, and what was written before stays; the trap behind it is never reached.
  unfoldable pub stored : CreateFileInput V → ℕ → CanStore → Result CanError ℕ × CanStore
  stored input now_ms s = elim (add_file s (new_file input now_ms)) [
    | err e ↦ (err e, s)
    | ok (id, s') ↦
        let (filled, s'') = with_content input id now_ms s' in
        elim filled [ err e ↦ (err e, s'') | ok _ ↦ (ok id, s'') ]
  ]

  unfoldable pub create_file :
      CreateFileInput V → Principal → ℕ → CanStore → Result CanError ℕ × CanStore
  create_file input caller time s =
      elim (do
        map_err bad_input (validate_create_file input)
        fail_if (not (is_manager s caller)) denied) [
          | err e ↦ (err e, s)
          | ok _ ↦ stored input (can_now time) s
        ]

  unfoldable pub update_file_info :
      UpdateFileInput V → Principal → ℕ → CanStore → Result CanError CanStore
  update_file_info input caller time s = do
    map_err bad_input (validate_update_file input)
    fail_if (not (is_manager s caller)) denied
    update_file s input (can_now time)

unfoldable pub update_file_chunk :
    UpdateFileChunkInput → Principal → ℕ → CanStore → Result CanError ℕ × CanStore
update_file_chunk input caller time s =
    if is_manager s caller
    then update_chunk s input.id input.chunk_index (can_now time) input.content
    else (err denied, s)

unfoldable pub remove_file : ℕ → Principal → CanStore → Result CanError (Bool × CanStore)
remove_file id caller s = do fail_if (not (is_manager s caller)) denied; delete_file s id

-- `none` is the panic of a range that ends before it starts.
unfoldable pub query_files :
    Option ℕ → Option ℕ → Principal → CanStore → Option (Result CanError (List (ℕ × FileMetadata)))
query_files prev take caller s =
    if s.metadata.visibility == 0 && not (is_manager s caller)
    then some (err denied)
    else (let prev' = min (get_or prev s.metadata.file_id) s.metadata.file_id in
        if prev' == 0
        then none
        else some (ok (list_files s.metadata.files (min (get_or take 10) 100) 0 prev')))
