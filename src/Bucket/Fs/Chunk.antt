-- ===== src/Bucket/Fs/Chunk.antt =====
-- The chunks of a file: `fs::get_chunk`, `fs::get_chunks`, `fs::get_full_chunks` and
-- `fs::update_chunk` of src/ic_oss_bucket/src/store.rs.
use ic_oss.Base.{
  ℕ, zero, suc, ◌+◌, ◌-◌, ◌%◌, min, true, false, not, ◌&&◌, Option, none, some, List, [], ◌∷◌, ◌++◌,
  map_option, ltb, leb, ◌==◌, if◌then◌else◌, length, int_eq, pos, ◌>>=◌, ◌>>◌, fail_if, ok_or,
  Result, ok, err, usize_max, add_u32, add_u64, nat_ord, pair_ord,
}
use ic_oss.Base.Maps
use ic_oss.Bucket.Error.{
  Error, file_not_found, file_not_writable, not_fully_uploaded, size_exceeds, chunk_not_found,
  size_mismatch, empty_chunk, chunk_too_large,
}
use ic_oss.Bucket.Config.{chunk_size, max_file_size, max_file_size_per_call}
use ic_oss.Bucket.Fs.{FileMetadata, Store, Chunks}

pub record FileChunk : Type 0 where
  pub index : ℕ
  pub content : List ℕ

-- The loop of `get_chunks`: `rounds` indices from `i` on, with the bytes taken so far.
unfoldable pub get_chunks_loop : ℕ → ℕ → ℕ → ℕ → Chunks → List FileChunk
get_chunks_loop zero id i filled m = []
get_chunks_loop (suc rounds) id i filled m = elim (Maps.get (id, i) m) [
  | none ↦ get_chunks_loop rounds id (i + 1) filled m
  | some chunk ↦
      let filled' = add_u32 filled (length chunk) in
      elim (ltb max_file_size_per_call filled') [
        | true ↦ []
        | false ↦ elim (filled' == max_file_size_per_call) [
          | true ↦ record { index = i; content = chunk } ∷ []
          | false ↦
              record { index = i; content = chunk } ∷ get_chunks_loop rounds id (i + 1) filled' m
        ]
      ]
]

-- The loop of `get_full_chunks`, over the chunks from `i` on: their bytes in one sequence.
unfoldable pub full_loop : ℕ → ℕ → ℕ → Chunks → Result Error (List ℕ)
full_loop zero id i m = ok []
full_loop (suc rounds) id i m = elim (Maps.get (id, i) m) [
  | none ↦ err (chunk_not_found id i)
  | some chunk ↦ elim (full_loop rounds id (i + 1) m) [
    | err e ↦ err e
    | ok rest ↦ ok (chunk ++ rest)
  ]
]

-- The bytes that a chunk replaces, where they were counted.
abbrev pub replaced : Option (List ℕ) → ℕ → ℕ → ℕ
replaced none chunk_index chunks = 0
replaced (some old) chunk_index chunks = if ltb chunk_index chunks then length old else 0

module _ {V : Type 0} where
  unfoldable pub get_chunk : ℕ → ℕ → Store V → Option FileChunk
  get_chunk id chunk_index s =
      map_option (λ chunk. record { index = chunk_index; content = chunk })
        (Maps.get (id, chunk_index) s.chunks)

  -- The range is empty if `chunk_index + max_take` wraps around.
  unfoldable pub get_chunks : ℕ → ℕ → ℕ → Store V → List FileChunk
  get_chunks id chunk_index max_take s =
      get_chunks_loop (add_u32 chunk_index max_take - chunk_index) id chunk_index 0 s.chunks

  unfoldable pub get_full_chunks : ℕ → Store V → Result Error (List ℕ)
  get_full_chunks id s = do
    file ← ok_or (Maps.get id s.files) (file_not_found id)
    fail_if (not (file.size == file.filled)) not_fully_uploaded
    fail_if (ltb (min max_file_size usize_max) file.size)
        (size_exceeds (min max_file_size usize_max))
    bytes ← full_loop file.chunks id 0 s.chunks
    fail_if (ltb 0 file.chunks && not (length bytes % 4294967296 == file.size))
        (size_mismatch file.size (length bytes % 4294967296))
    ok bytes

  -- The file after a chunk was written, where `filled` counts the new bytes on top.
  unfoldable pub with_chunk : ℕ → ℕ → Option (List ℕ) → FileMetadata V → FileMetadata V
  with_chunk filled chunk_index old file = record file {
    filled = filled - replaced old chunk_index file.chunks;
    chunks = if leb file.chunks chunk_index then add_u32 chunk_index 1 else file.chunks;
  }

  unfoldable pub may_write :
      ℕ
      → List ℕ
      → (FileMetadata V → Result Error (Unit {0}))
      → Store V
      → Result Error (FileMetadata V)
  may_write file_id chunk checker s = do
    fail_if (length chunk == 0) empty_chunk
    fail_if (ltb chunk_size (length chunk)) (chunk_too_large chunk_size)
    file ← ok_or (Maps.get file_id s.files) (file_not_found file_id)
    fail_if (not (int_eq file.status (pos 0))) (file_not_writable file_id)
    checker file
    fail_if (ltb s.bucket.max_file_size (add_u64 file.filled (length chunk)))
        (size_exceeds s.bucket.max_file_size)
    ok file

  -- The chunk is written, and then the file, unless it has more bytes now than its size.
  unfoldable pub write_chunk :
      ℕ → ℕ → ℕ → List ℕ → FileMetadata V → Store V → Result Error ℕ × Store V
  write_chunk file_id chunk_index now_ms chunk file s =
      let old = Maps.get (file_id, chunk_index) s.chunks in
      let file' : FileMetadata V =
        with_chunk (add_u64 file.filled (length chunk)) chunk_index old
          (record file { updated_at = now_ms }) in
      let s' : Store V = record s { chunks = Maps.put (file_id, chunk_index) chunk s.chunks } in
      if ltb 0 file'.size && ltb file'.size file'.filled
      then (err (size_mismatch file'.size file'.filled), s')
      else (ok file'.filled, record s' { files = Maps.put file_id file' s.files })

  unfoldable pub update_chunk :
      ℕ
      → ℕ
      → ℕ
      → List ℕ
      → (FileMetadata V → Result Error (Unit {0}))
      → Store V
      → Result Error ℕ × Store V
  update_chunk file_id chunk_index now_ms chunk checker s =
      elim (may_write file_id chunk checker s) [
        | err e ↦ (err e, s)
        | ok file ↦ write_chunk file_id chunk_index now_ms chunk file s
      ]
