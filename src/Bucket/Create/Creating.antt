-- ===== src/Bucket/Create/Creating.antt =====
-- What create_file of src/ic_oss_bucket/src/api_update.rs stores.
use ic_oss.Bucket.Upload.RoundTrip.{get_full_chunks-write_chunks}
use ic_oss.Bucket.Create.{new_metadata, set_status, store_content, create_stored}
use ic_oss.Types.Inputs.{CreateFileInput}
use ic_oss.Bucket.Error.{content_size_mismatch}
use ic_oss.Bucket.Fs.Chunk.{get_full_chunks}
use ic_oss.Base.{
  ℕ, ◌≤◌, ◌<◌, ◌≡◌, refl, ◌≢◌, inl, inr, none, some, List, arith, Option-cases, length,
  Result-cases, ok, err, same_refl, u32_max, nat_ord, pair_ord,
}
use ic_oss.Base.Maps
use ic_oss.Bucket.Fs
use ic_oss.Bucket.Folders
use ic_oss.Bucket.Fs.{FileMetadata, Store, index_hash}

module _ {V : Type 0} where
  add_file-ok :
      (metadata : FileMetadata V) (s : Store V) {id : ℕ} {s' : Store V}
      → Fs.add_file metadata s ≡ (ok id, s')
      → (id ≡ s.bucket.file_id)
        × (s'.files ≡ Maps.put id metadata s.files)
        × (s'.chunks ≡ s.chunks)
        × (s'.bucket.max_file_size ≡ s.bucket.max_file_size)
  unfolding Fs.add_file Folders.parent_to_add_file
  add_file-ok metadata s h = elim (Option-cases (Maps.get metadata.parent s.folders)) [
    | inl e ↦ absurd (ground arith)
    | inr (p, e) ↦
        elim (Result-cases
          (index_hash s.bucket.enable_hash_index metadata.hash s.bucket.file_id s.hashs)) [
            | inr (x, e') ↦ absurd (ground arith)
            | inl (hashs, e') ↦ ground arith
          ]
  ]

  module _ (input : CreateFileInput V) (content : List ℕ) (now_ms : ℕ) (s : Store V)
      (given : input.content ≡ some content) {id : ℕ} {s1 : Store V}
      (added : Fs.add_file (new_metadata input now_ms) s ≡ (ok id, s1)) where
    -- A call with a content and its size, and without a status, whose file is added, succeeds, and
    -- the file is then read back as that content. The size is within the bucket's limit, and a
    -- `usize`, and no chunk is stored under the next file's id.
    pub get_full_chunks-create_stored :
        input.size ≡ some (length content)
        → input.status ≡ none
        → length content ≤ s.bucket.max_file_size
        → length content ≤ u32_max
        → ((j : ℕ) → Maps.get (s.bucket.file_id, j) s.chunks ≡ none)
        → (s' : Store V) × (create_stored input now_ms s ≡ (ok id, s'))
          × (get_full_chunks id s' ≡ ok content)
    unfolding create_stored store_content set_status
    get_full_chunks-create_stored size no_status within small no_chunk =
        let (id_eq, files_eq, chunks_eq, max_eq) =
          add_file-ok (new_metadata input now_ms) s added in
        let (s', wrote, full) =
          get_full_chunks-write_chunks id now_ms content (new_metadata input now_ms) s1
            (ground (
              arith,
              files_eq,
              Maps.get-put id id (new_metadata input now_ms) s.files,
              same_refl id,
            ))
            refl refl refl (λ j. ground (arith, no_chunk j, chunks_eq, id_eq))
            (ground (arith, size)) (omega (arith, max_eq)) small in
        (s', ground (arith, added, given, size, no_status, wrote), full)

    -- A call that gives a size from 1 to 2 ^ 32 - 1, and a content of another size, fails, where the
    -- file can be added; but it has added the file, which stays, with the size given and without
    -- any content.
    pub create_stored_leaves_file :
        {n : ℕ}
        → input.size ≡ some n
        → 0 < n
        → n ≤ u32_max
        → length content ≢ n
        → (create_stored input now_ms s ≡ (err content_size_mismatch, s1))
          × (Maps.get id s1.files ≡ some (new_metadata input now_ms))
    unfolding create_stored store_content
    create_stored_leaves_file size some_size small differs =
        let (id_eq, files_eq, _, _) = add_file-ok (new_metadata input now_ms) s added in
        (
          ground (arith, added, given, size),
          ground (
            arith,
            files_eq,
            Maps.get-put id id (new_metadata input now_ms) s.files,
            same_refl id,
          ),
        )
