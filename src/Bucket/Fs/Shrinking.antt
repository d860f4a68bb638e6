-- ===== src/Bucket/Fs/Shrinking.antt =====
-- `update_file` with a size below what is filled: the comment in src/ic_oss_bucket/src/store.rs
-- says that the content is deleted then.
use ic_oss.Types.Ids.{Hash}
use ic_oss.Bucket.Fs.Chunk.{get_chunk}
use ic_oss.Base.{
  ℕ, ◌<◌, ◌≡◌, refl, ap, ◌∙◌, inl, inr, Option, some, arith, ltb, Bool-cases, Option-cases, ◌>>◌,
  Result-cases, Result, ok, nat_ord,
}
use ic_oss.Base.Maps
use ic_oss.Bucket.Error.{Error}
use ic_oss.Bucket.Fs.{FileMetadata, Store, remove_chunks}
use ic_oss.Bucket.Fs.Update.{
  update_file, update_present, store_changed, resized, resized_chunks, new_size, may_update,
  changed_file,
}
use ic_oss.Types.Inputs.{UpdateFileInput}

module _ {V : Type 0} where
  chunks-resized_chunks :
      (change : UpdateFileInput V) (f : FileMetadata V) (s : Store V)
      → resized_chunks change f s ≡ s
  unfolding resized_chunks resized remove_chunks
  chunks-resized_chunks change f s = elim (Bool-cases (ltb (new_size change f) f.filled)) [
    | inl smaller ↦ rw (smaller, resized) refl
    | inr larger ↦ rw larger
  ]

  chunks-store_changed :
      (id : ℕ) (prev_hash : Option Hash) (f : FileMetadata V) (s : Store V)
      → (store_changed id prev_hash f s).1.chunks ≡ s.chunks
  unfolding store_changed
  chunks-store_changed id prev_hash f s = ground arith

  -- `update_file` removes no chunk and adds none, whatever the change and whether it succeeds or
  -- fails.
  pub chunks-update_file :
      (change : UpdateFileInput V) (now_ms : ℕ) (checker : FileMetadata V → Result Error (Unit {0}))
      (s : Store V)
      → (update_file change now_ms checker s).1.chunks ≡ s.chunks
  unfolding update_file update_present
  chunks-update_file change now_ms checker s = elim (Option-cases (Maps.get change.id s.files)) [
    | inl e ↦ rw (e, update_file)
    | inr (f, e) ↦
        let checked : Result Error (Unit {0}) = checker f >> may_update change f in
        elim (Result-cases checked) [
          | inr (x, failed) ↦ rw (e, update_file) (rw (failed, update_present) refl)
          | inl (u, passed) ↦
              rw (e, update_file)
                (rw (passed, update_present)
                  (chunks-store_changed change.id f.hash (changed_file change now_ms f)
                      (resized_chunks change f s)
                    ∙ ap (λ (t : Store V). t.chunks) (chunks-resized_chunks change f s)))
        ]
  ]

  filled-changed_file :
      (change : UpdateFileInput V) (now_ms : ℕ) (f : FileMetadata V)
      → new_size change f < f.filled
      → let g = changed_file change now_ms f in (g.filled ≡ 0) × (g.chunks ≡ 0)
  unfolding changed_file resized
  filled-changed_file change now_ms f h = ground arith

  files-store_changed :
      (id : ℕ) (prev_hash : Option Hash) (f : FileMetadata V) (s : Store V)
      → (store_changed id prev_hash f s).0 ≡ ok tt
      → (store_changed id prev_hash f s).1.files ≡ Maps.put id f s.files
  unfolding store_changed
  files-store_changed id prev_hash f s h = ground arith

  files-resized_chunks :
      (change : UpdateFileInput V) (f : FileMetadata V) (s : Store V)
      → (resized_chunks change f s).files ≡ s.files
  files-resized_chunks change f s = ap (λ (t : Store V). t.files) (chunks-resized_chunks change f s)

  update_file-passed :
      (change : UpdateFileInput V) (now_ms : ℕ) (checker : FileMetadata V → Result Error (Unit {0}))
      (s : Store V) (f : FileMetadata V)
      → Maps.get change.id s.files ≡ some f
      → (checker f >> may_update change f) ≡ ok tt
      → update_file change now_ms checker s
        ≡ store_changed change.id f.hash (changed_file change now_ms f) (resized_chunks change f s)
  unfolding update_file update_present
  update_file-passed change now_ms checker s f e passed =
      rw (e, update_file) (rw (passed, update_present) refl)

  -- A successful `update_file` that gives a file a size below what is filled sets `filled` and
  -- `chunks` to 0, and yet each chunk of the file that was stored is stored still: the removal
  -- runs over the new number of chunks, which is 0.
  pub update_file-shrinks :
      (change : UpdateFileInput V) (now_ms : ℕ) (checker : FileMetadata V → Result Error (Unit {0}))
      (s : Store V) (f : FileMetadata V)
      → Maps.get change.id s.files ≡ some f
      → new_size change f < f.filled
      → (update_file change now_ms checker s).0 ≡ ok tt
      → let s' = (update_file change now_ms checker s).1 in
        (f' : FileMetadata V) × (Maps.get change.id s'.files ≡ some f')
        × (f'.filled ≡ 0)
        × (f'.chunks ≡ 0)
        × ((i : ℕ) → get_chunk change.id i s' ≡ get_chunk change.id i s)
  unfolding get_chunk
  update_file-shrinks change now_ms checker s f e smaller done =
      let checked : Result Error (Unit {0}) = checker f >> may_update change f in
      let (no_filled, no_chunks) = filled-changed_file change now_ms f smaller in
      elim (Result-cases checked) [
        | inr (x, failed) ↦ absurd (unfold update_file update_present in ground arith)
        | inl (u, passed) ↦ (
          changed_file change now_ms f,
          let same_run = update_file-passed change now_ms checker s f e passed in
              rw same_run (
                rw
                  (files-store_changed change.id f.hash (changed_file change now_ms f)
                    (resized_chunks change f s) (rw same_run at done))
                  (ground (
                    arith,
                    Maps.get-put change.id change.id (changed_file change now_ms f)
                        (resized_chunks change f s).files,
                  ))),
          no_filled,
          no_chunks,
          λ i. rw (chunks-update_file change now_ms checker s) refl,
        )
      ]
