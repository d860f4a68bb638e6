-- ===== src/Bucket/Fs/ChangeKeeps.antt =====
-- `fs::update_file` and `fs::update_chunk` of src/ic_oss_bucket/src/store.rs, with the
-- invariant of the store.
use ic_oss.Types.Ids.{Hash}
use ic_oss.Bucket.Fs.Update.{
  new_size, may_update, resized_chunks, changed_file, store_changed, update_present, update_file,
  reindex, resized,
}
use ic_oss.Bucket.Fs.Chunk.{with_chunk, may_write, write_chunk, update_chunk}
use ic_oss.Types.Inputs.{UpdateFileInput}
use ic_oss.Bucket.Error.{Error}
use ic_oss.Base.{
  ℕ, ◌≡◌, refl, inl, inr, not, ◌&&◌, Option, some, List, arith, Map, ltb, if◌then◌else◌, Bool-cases,
  Option-cases, length, ◌>>◌, Result-cases, Result, ok, same, add_u64, nat_ord, pair_ord,
  option_ord, list_ord,
}
use ic_oss.Bucket.Fs.Invariant.{IsStore}
use ic_oss.Base.Maps
use ic_oss.Bucket.Fs.{FileMetadata, Store, Chunks, remove_chunks}

module _ {V : Type 0} (s s' : Store V) (id : ℕ) (f f' : FileMetadata V) where
  -- A file keeps its parent, and the folders and the counters stay.
  pub put_file-IsStore :
      IsStore s
      → Maps.get id s.files ≡ some f
      → f'.parent ≡ f.parent
      → s'.folders ≡ s.folders
      → s'.bucket ≡ s.bucket
      → s'.files ≡ Maps.put id f' s.files
      → IsStore s'
  put_file-IsStore inv found kept same_folders same_bucket same_files = record {
    tree = rw same_folders inv.tree;
    linked = λ k c.
        rw (same_folders, same_files)
          (ground (arith, inv.linked k c, Maps.get-put c id f' s.files));
    file_bound = λ j g e.
        ground (arith, inv.file_bound j g, inv.file_bound id f, Maps.get-put j id f' s.files);
    folder_bound = λ j g e. ground (arith, inv.folder_bound j g);
    file_id_u32 = rw same_bucket inv.file_id_u32;
    folder_id_u32 = rw same_bucket inv.folder_id_u32;
    depth_u8 = rw same_bucket inv.depth_u8;
  }

module _ {V : Type 0} where
  parent-changed_file :
      (change : UpdateFileInput V) (now_ms : ℕ) (f : FileMetadata V)
      → (changed_file change now_ms f).parent ≡ f.parent
  unfolding changed_file resized
  parent-changed_file change now_ms f = ground arith

  store_changed-IsStore :
      (id : ℕ) (prev_hash : Option Hash) (f f' : FileMetadata V) (s : Store V)
      → IsStore s
      → Maps.get id s.files ≡ some f
      → f'.parent ≡ f.parent
      → IsStore (store_changed id prev_hash f' s).1
  unfolding store_changed
  store_changed-IsStore id prev_hash f f' s inv e kept =
      let reindexed : Result Error (Map Hash ℕ) =
        if s.bucket.enable_hash_index && not (same prev_hash f'.hash)
        then reindex prev_hash f'.hash id s.hashs
        else ok s.hashs in
      elim (Result-cases reindexed) [
        | inr (x, failed) ↦ rw failed inv
        | inl (m, done) ↦ rw done (
            put_file-IsStore s (record s { hashs = m; files = Maps.put id f' s.files }) id f f' inv
              e kept refl refl refl)
      ]

  -- Other chunks do not matter.
  IsStore-of_chunks : (s : Store V) (m : Chunks) → IsStore s → IsStore (record s { chunks = m })
  IsStore-of_chunks s m inv = record {
    tree = inv.tree;
    linked = inv.linked;
    file_bound = inv.file_bound;
    folder_bound = inv.folder_bound;
    file_id_u32 = inv.file_id_u32;
    folder_id_u32 = inv.folder_id_u32;
    depth_u8 = inv.depth_u8;
  }

  resized_chunks-cases :
      (change : UpdateFileInput V) (f : FileMetadata V) (s : Store V)
      → (m : Chunks) × (resized_chunks change f s ≡ record s { chunks = m })
  unfolding resized_chunks
  resized_chunks-cases change f s = elim (Bool-cases (ltb (new_size change f) f.filled)) [
    | inl smaller ↦ (remove_chunks change.id (resized change f).chunks s.chunks, rw smaller)
    | inr larger ↦ (s.chunks, rw larger)
  ]

  -- `update_file` keeps the invariant of the store, whether it succeeds or fails.
  pub update_file-IsStore :
      (change : UpdateFileInput V) (now_ms : ℕ) (checker : FileMetadata V → Result Error (Unit {0}))
      (s : Store V)
      → IsStore s
      → IsStore (update_file change now_ms checker s).1
  unfolding update_file update_present
  update_file-IsStore change now_ms checker s inv =
      elim (Option-cases (Maps.get change.id s.files)) [
        | inl e ↦ rw (e, update_file) inv
        | inr (f, e) ↦
            let checked : Result Error (Unit {0}) = checker f >> may_update change f in
            elim (Result-cases checked) [
              | inr (x, failed) ↦ rw (e, update_file) (rw (failed, update_present) inv)
              | inl (u, passed) ↦
                  let (m, chunked) = resized_chunks-cases change f s in
                  rw (e, update_file)
                    (rw (passed, update_present)
                      (rw chunked (
                        store_changed-IsStore change.id f.hash f (changed_file change now_ms f)
                          (record s { chunks = m }) (IsStore-of_chunks s m inv) e
                          (parent-changed_file change now_ms f))))
            ]
      ]

  may_write-found :
      (file_id : ℕ) (chunk : List ℕ) (checker : FileMetadata V → Result Error (Unit {0}))
      (s : Store V) (f : FileMetadata V)
      → may_write file_id chunk checker s ≡ ok f
      → Maps.get file_id s.files ≡ some f
  unfolding may_write
  may_write-found file_id chunk checker s f h = ground arith

  parent-with_chunk :
      (filled chunk_index : ℕ) (old : Option (List ℕ)) (f : FileMetadata V)
      → (with_chunk filled chunk_index old f).parent ≡ f.parent
  unfolding with_chunk
  parent-with_chunk filled chunk_index old f = refl

  write_chunk-IsStore :
      (file_id chunk_index now_ms : ℕ) (chunk : List ℕ) (f : FileMetadata V) (s : Store V)
      → IsStore s
      → Maps.get file_id s.files ≡ some f
      → IsStore (write_chunk file_id chunk_index now_ms chunk f s).1
  unfolding write_chunk
  write_chunk-IsStore file_id chunk_index now_ms chunk f s inv found =
      let m : Chunks = Maps.put (file_id, chunk_index) chunk s.chunks in
      let f' : FileMetadata V =
        with_chunk (add_u64 f.filled (length chunk)) chunk_index
          (Maps.get (file_id, chunk_index) s.chunks) (record f { updated_at = now_ms }) in
      elim (Bool-cases (ltb 0 f'.size && ltb f'.size f'.filled)) [
        | inl too_long ↦ rw too_long (IsStore-of_chunks s m inv)
        | inr fits ↦ rw fits (
            put_file-IsStore s (record s { chunks = m; files = Maps.put file_id f' s.files })
              file_id f f' inv found
              (parent-with_chunk (add_u64 f.filled (length chunk)) chunk_index
                (Maps.get (file_id, chunk_index) s.chunks) (record f { updated_at = now_ms }))
              refl refl refl)
      ]

  -- `update_chunk` keeps the invariant of the store, whether it succeeds or fails.
  pub update_chunk-IsStore :
      (file_id chunk_index now_ms : ℕ) (chunk : List ℕ)
      (checker : FileMetadata V → Result Error (Unit {0})) (s : Store V)
      → IsStore s
      → IsStore (update_chunk file_id chunk_index now_ms chunk checker s).1
  unfolding update_chunk
  update_chunk-IsStore file_id chunk_index now_ms chunk checker s inv =
      elim (Result-cases (may_write file_id chunk checker s)) [
        | inr (x, failed) ↦ rw (failed, update_chunk) inv
        | inl (f, passed) ↦
            let found : Maps.get file_id s.files ≡ some f =
              may_write-found file_id chunk checker s f passed in
            rw (passed, update_chunk)
              (write_chunk-IsStore file_id chunk_index now_ms chunk f s inv found)
      ]
