-- ===== src/Can/Reserved.antt =====
-- The key 0 of the chunks is kept for the metadata in src/ic_oss_can/src/store.rs: `save` writes
-- them there.
use ic_oss.Bucket.Upload.{chunks_of}
use ic_oss.Bucket.Fs.{Chunks}
use ic_oss.Types.Ids.{Principal}
use ic_oss.Base.Maps
use ic_oss.Base.{
  ℕ, zero, suc, ◌+◌, ◌%◌, ◌<◌, ◌≡◌, refl, inl, inr, Bool, some, List, [], ◌∷◌, arith, ltb,
  Bool-cases, Option-cases, length, Result-cases, ok, err, nat_ord, pair_ord, add_u64,
}
use ic_oss.Types.Inputs.{CreateFileInput, UpdateFileInput, UpdateFileChunkInput}
use ic_oss.Can.{
  FileMetadata, update_chunk, may_write, erase_chunks, CanStore, add_file, update_file, delete_file,
}
use ic_oss.Can.Calls.{
  create_file, update_file_info, update_file_chunk, remove_file, upload, stored, can_now,
  is_manager, new_file, only_status, with_status, with_content,
}

-- A call that changes the store.
pub data CanCall (V : Type 0) : Type 0 where
  creating : CreateFileInput V → CanCall V
  changing : UpdateFileInput V → CanCall V
  writing : UpdateFileChunkInput → CanCall V
  removing : ℕ → CanCall V

module _ {V : Type 0} where
  -- The store after a call, whether it succeeds or fails.
  unfoldable pub perform_can : CanCall V → Principal → ℕ → CanStore → CanStore
  perform_can (creating input) caller time s = (create_file input caller time s).1
  perform_can (changing input) caller time s = elim (update_file_info input caller time s) [
    | err e ↦ s
    | ok s' ↦ s'
  ]
  perform_can (writing input) caller time s = (update_file_chunk input caller time s).1
  perform_can (removing id) caller time s = elim (remove_file id caller s) [
    | err e ↦ s
    | ok (there, s') ↦ s'
  ]

-- The two stores have the same metadata in their chunks.
abbrev pub KeepsReserved : CanStore → CanStore → Type 0
KeepsReserved s s' = (i : ℕ) → Maps.get (0, i) s'.chunks ≡ Maps.get (0, i) s.chunks

other_key :
    (i id j : ℕ) (chunk : List ℕ) (m : Chunks)
    → 0 < id
    → Maps.get (0, i) (Maps.put (id, j) chunk m) ≡ Maps.get (0, i) m
other_key i id j chunk m h = ground (arith, Maps.get-put (0, i) (id, j) chunk m)

other_removed :
    (rounds i id j : ℕ) (m : Chunks)
    → 0 < id
    → Maps.get (0, i) (erase_chunks rounds id j m) ≡ Maps.get (0, i) m
unfolding erase_chunks
other_removed zero i id j m h = refl
other_removed (suc rounds) i id j m h = ground (
  arith,
  Maps.get-erase (0, i) (id, j) m,
  other_removed rounds i id (j + 1) (Maps.erase (id, j) m) h,
)

module _ (s : CanStore) where
  may_write-positive :
      (file_id : ℕ) (chunk : List ℕ) (file : FileMetadata)
      → may_write s file_id chunk ≡ ok file
      → 0 < file_id
  unfolding may_write
  may_write-positive zero chunk file h = absurd (ground (arith, h))
  may_write-positive (suc file_id) chunk file h = omega arith

  update_chunk_keeps :
      (file_id chunk_index now_ms : ℕ) (chunk : List ℕ)
      → KeepsReserved s (update_chunk s file_id chunk_index now_ms chunk).1
  unfolding update_chunk
  update_chunk_keeps file_id chunk_index now_ms chunk i =
      elim (Result-cases (may_write s file_id chunk)) [
        | inr (x, e) ↦ ground (arith, e)
        | inl (file, e) ↦
            let there =
              other_key i file_id chunk_index chunk s.chunks
                (may_write-positive file_id chunk file e) in
            elim (Bool-cases (ltb s.metadata.max_file_size (add_u64 file.filled (length chunk)))) [
              | inl b ↦ ground (arith, e, b)
              | inr b ↦ ground (arith, e, b, there)
            ]
      ]

  add_file_keeps :
      (file : FileMetadata) (id : ℕ) (s' : CanStore)
      → add_file s file ≡ ok (id, s')
      → KeepsReserved s s'
  unfolding add_file
  add_file_keeps file id s' h i = ground (arith, h)

  update_file_keeps :
      {V : Type 0} (change : UpdateFileInput V) (now_ms : ℕ) (s' : CanStore)
      → update_file s change now_ms ≡ ok s'
      → KeepsReserved s s'
  unfolding update_file
  update_file_keeps change now_ms s' h i =
      elim (Option-cases (Maps.get change.id s.metadata.files)) [
        | inl e ↦ absurd (ground (arith, h, e))
        | inr (file, e) ↦ ground (arith, h, e)
      ]

  delete_file_keeps :
      (id : ℕ) (there : Bool) (s' : CanStore)
      → delete_file s id ≡ ok (there, s')
      → KeepsReserved s s'
  unfolding delete_file
  delete_file_keeps zero there s' h i = absurd (ground (arith, h))
  delete_file_keeps (suc n) there s' h i = elim (Option-cases (Maps.get (suc n) s.metadata.files)) [
    | inl e ↦ ground (arith, h, e)
    | inr (file, e) ↦
        ground (arith, h, e, other_removed file.chunks i (suc n) 0 s.chunks (omega arith))
  ]

upload_keeps :
    (chunks : List (List ℕ)) (id n now_ms : ℕ) (s : CanStore)
    → KeepsReserved s (upload id n now_ms chunks s).1
unfolding upload
upload_keeps [] id n now_ms s i = refl
upload_keeps (chunk ∷ chunks) id n now_ms s i =
    let now = update_chunk_keeps s id (n % 4294967296) now_ms chunk i in
    elim (Result-cases (update_chunk s id (n % 4294967296) now_ms chunk).0) [
      | inr (x, e) ↦ ground (arith, e, now)
      | inl (filled, e) ↦ ground (
        arith,
        e,
        now,
        upload_keeps chunks id (n + 1) now_ms (update_chunk s id (n % 4294967296) now_ms chunk).1 i,
      )
    ]

module _ {V : Type 0} where
  with_status_keeps :
      (input : CreateFileInput V) (id now_ms : ℕ) (s : CanStore)
      → KeepsReserved s (with_status input id now_ms s).1
  unfolding with_status
  with_status_keeps input id now_ms s i = elim (Option-cases input.status) [
    | inl t ↦ ground (arith, t)
    | inr (status, t) ↦
        let change = only_status {V = V} id (some status) in
        elim (Result-cases (update_file s change now_ms)) [
          | inr (x, e) ↦ ground (arith, t, e)
          | inl (s', e) ↦ ground (arith, t, e, update_file_keeps s change now_ms s' e i)
        ]
  ]

  with_content_keeps :
      (input : CreateFileInput V) (id now_ms : ℕ) (s : CanStore)
      → KeepsReserved s (with_content input id now_ms s).1
  unfolding with_content
  with_content_keeps input id now_ms s i = elim (Option-cases input.content) [
    | inl c ↦ ground (arith, c)
    | inr (content, c) ↦
        let before = upload_keeps (chunks_of content) id 0 now_ms s i in
        let after =
          with_status_keeps input id now_ms (upload id 0 now_ms (chunks_of content) s).1 i in
        elim (Result-cases (upload id 0 now_ms (chunks_of content) s).0) [
          | inr (x, u) ↦ ground (arith, c, u, before)
          | inl (_, u) ↦ ground (arith, c, u, before, after)
        ]
  ]

  stored_keeps :
      (input : CreateFileInput V) (now_ms : ℕ) (s : CanStore)
      → KeepsReserved s (stored input now_ms s).1
  unfolding stored
  stored_keeps input now_ms s i = elim (Result-cases (add_file s (new_file input now_ms))) [
    | inr (x, a) ↦ ground (arith, a)
    | inl ((id, s'), a) ↦
        let before = add_file_keeps s (new_file input now_ms) id s' a i in
        let after = with_content_keeps input id now_ms s' i in
        elim (Result-cases (with_content input id now_ms s').0) [
          | inr (x, f) ↦ ground (arith, a, f, before, after)
          | inl (_, f) ↦ ground (arith, a, f, before, after)
        ]
  ]

  -- No call, whoever makes it and whether it succeeds or fails, changes what is stored under the key 0, where the metadata are saved.
  pub perform_can_keeps :
      (call : CanCall V) (caller : Principal) (time : ℕ) (s : CanStore)
      → KeepsReserved s (perform_can call caller time s)
  unfolding perform_can create_file update_file_info update_file_chunk remove_file
  perform_can_keeps (creating input) caller time s i =
      ground (arith, stored_keeps input (can_now time) s i)
  perform_can_keeps (changing input) caller time s i =
      elim (Result-cases (update_file_info input caller time s)) [
        | inr (x, e) ↦ ground (arith, e)
        | inl (s', e) ↦
            ground (arith, e, update_file_keeps s input (can_now time) s' (ground (arith, e)) i)
      ]
  perform_can_keeps (writing input) caller time s i = elim (Bool-cases (is_manager s caller)) [
    | inl b ↦
        ground
          (arith, b, update_chunk_keeps s input.id input.chunk_index (can_now time) input.content i)
    | inr b ↦ ground (arith, b)
  ]
  perform_can_keeps (removing id) caller time s i = elim (Result-cases (remove_file id caller s)) [
    | inr (x, e) ↦ ground (arith, e)
    | inl ((there, s'), e) ↦
        ground (arith, e, delete_file_keeps s id there s' (ground (arith, e)) i)
  ]
