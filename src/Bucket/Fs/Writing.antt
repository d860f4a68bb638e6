-- ===== src/Bucket/Fs/Writing.antt =====
-- `fs::update_chunk` of src/ic_oss_bucket/src/store.rs, with the account of the file's bytes.
use ic_oss.Bucket.Error.{Error}
use ic_oss.Base.{
  ℕ, suc, ◌+◌, ◌≤◌, ◌<◌, ◌≡◌, ◌∙◌, ◌⊎◌, inl, inr, some, List, arith, ltb, if◌then◌else◌, ltb→lt,
  Bool-cases, length, Result-cases, Result, ok, same, u32_max, add_u64, nat_ord, pair_ord,
}
use ic_oss.Bucket.Fs.Filled.{chunk_bytes, size_at-put, chunk_bytes-put, chunk_bytes_above, IsFilled}
use ic_oss.Base.Maps
use ic_oss.Bucket.Fs.{FileMetadata, Chunks, Store}
use ic_oss.Bucket.Fs.Chunk.{with_chunk, may_write, write_chunk, update_chunk}

module _ {V : Type 0} (id i now_ms : ℕ) (chunk : List ℕ) (f : FileMetadata V) (m : Chunks)
    (filled : IsFilled id f m) (no_overflow : f.filled + length chunk < 18446744073709551616)
    (index_u32 : i < u32_max) where
  abbrev written : FileMetadata V
  written =
      with_chunk (add_u64 f.filled (length chunk)) i (Maps.get (id, i) m)
        (record f { updated_at = now_ms })

  abbrev put_chunk : Chunks
  put_chunk = Maps.put (id, i) chunk m

  counted_at_end : i < f.chunks → written.filled ≡ chunk_bytes id f.chunks put_chunk
  unfolding with_chunk
  counted_at_end h = ground (arith, filled.counted, chunk_bytes-put id i f.chunks chunk m)

  counted_above : f.chunks ≤ i → written.filled ≡ chunk_bytes id (suc i) put_chunk
  unfolding with_chunk chunk_bytes
  counted_above h = ground (
    arith,
    filled.counted,
    filled.no_more i h,
    chunk_bytes-put id i i chunk m,
    size_at-put id i i chunk m,
    chunk_bytes_above id f.chunks i m filled.no_more h,
  )

  chunks_above : f.chunks ≤ i → written.chunks ≡ suc i
  unfolding with_chunk
  chunks_above h = ground arith

  chunks_inside : i < f.chunks → written.chunks ≡ f.chunks
  unfolding with_chunk
  chunks_inside h = ground arith

  written-IsFilled : IsFilled id written put_chunk
  written-IsFilled = elim (Bool-cases (ltb i f.chunks)) [
    | inl inside ↦
        let h : i < f.chunks = ltb→lt i f.chunks inside in
        record {
          counted = rw (chunks_inside h) (counted_at_end h);
          no_more = λ j le.
              let above_i : f.chunks ≤ j = rw (chunks_inside h) at le in
              ground (arith, filled.no_more j above_i, Maps.get-put (id, j) (id, i) chunk m);
        }
    | inr above ↦
        let h : f.chunks ≤ i = ground arith in
        record {
          counted = rw (chunks_above h) (counted_above h);
          no_more = λ j le.
              let above_i : suc i ≤ j = rw (chunks_above h) at le in
              ground (arith, filled.no_more j (omega arith), Maps.get-put (id, j) (id, i) chunk m);
        }
  ]

module _ {V : Type 0} (file_id chunk_index now_ms : ℕ) (chunk : List ℕ)
    (checker : FileMetadata V → Result Error (Unit {0})) (s : Store V) (f : FileMetadata V)
    (found : Maps.get file_id s.files ≡ some f) (filled : IsFilled file_id f s.chunks)
    (no_overflow : f.filled + length chunk < 18446744073709551616)
    (index_u32 : chunk_index < u32_max) where
  abbrev after_write : FileMetadata V
  after_write =
      with_chunk (add_u64 f.filled (length chunk)) chunk_index
        (Maps.get (file_id, chunk_index) s.chunks) (record f { updated_at = now_ms })

  may_write-ok :
      (g : FileMetadata V)
      → may_write file_id chunk checker s ≡ ok g
      → (g ≡ f) × (f.filled + length chunk ≤ s.bucket.max_file_size)
  unfolding may_write
  may_write-ok g h = ground arith

  write_chunk-ok :
      (n : ℕ) (s' : Store V)
      → write_chunk file_id chunk_index now_ms chunk f s ≡ (ok n, s')
      → (n ≡ after_write.filled)
        × ((f.size ≡ 0) ⊎ (n ≤ f.size))
        × (s'.files ≡ Maps.put file_id after_write s.files)
        × (s'.chunks ≡ Maps.put (file_id, chunk_index) chunk s.chunks)
  unfolding write_chunk with_chunk
  write_chunk-ok n s' h = ground arith

  filled-after_write : after_write.filled ≤ f.filled + length chunk
  unfolding with_chunk
  filled-after_write = omega arith

  update_chunk-ok :
      (n : ℕ) (s' : Store V)
      → update_chunk file_id chunk_index now_ms chunk checker s ≡ (ok n, s')
      → (write_chunk file_id chunk_index now_ms chunk f s ≡ (ok n, s'))
        × (f.filled + length chunk ≤ s.bucket.max_file_size)
  unfolding update_chunk
  update_chunk-ok n s' h = elim (Result-cases (may_write file_id chunk checker s)) [
    | inr (e, failed) ↦ absurd (ground arith)
    | inl (g, passed) ↦ ground (arith, may_write-ok g passed)
  ]

  -- A successful `update_chunk` keeps the account of the file's bytes: it returns the number of
  -- bytes in the file's chunks, which is within the bucket's limit and, where the file has a
  -- size, within that. The chunk is stored, and no other chunk changes. (The sum of the lengths
  -- and the index are below the limits of their types.)
  pub update_chunk-IsFilled :
      {n : ℕ} {s' : Store V}
      → update_chunk file_id chunk_index now_ms chunk checker s ≡ (ok n, s')
      → (f' : FileMetadata V) × (Maps.get file_id s'.files ≡ some f')
        × IsFilled file_id f' s'.chunks
        × (n ≡ chunk_bytes file_id f'.chunks s'.chunks)
        × (n ≤ s.bucket.max_file_size)
        × ((f.size ≡ 0) ⊎ (n ≤ f.size))
        × ((k : ℕ × ℕ)
            → Maps.get k s'.chunks
              ≡ (if same k (file_id, chunk_index) then some chunk else Maps.get k s.chunks))
  update_chunk-IsFilled {n} {s'} h =
      let (w, within) = update_chunk-ok n s' h in
      let (n_eq, in_size, files_eq, chunks_eq) = write_chunk-ok n s' w in
      let account : IsFilled file_id after_write (Maps.put (file_id, chunk_index) chunk s.chunks) =
        written-IsFilled file_id chunk_index now_ms chunk f s.chunks filled no_overflow index_u32 in
      (
        after_write,
        rw files_eq (ground (arith, Maps.get-put file_id file_id after_write s.files)),
        rw chunks_eq account,
        rw chunks_eq (n_eq ∙ account.counted),
        omega (arith, filled-after_write),
        in_size,
        λ k. rw chunks_eq (Maps.get-put k (file_id, chunk_index) chunk s.chunks),
      )
