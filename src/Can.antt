-- ===== src/Can.antt =====
-- A store of files for another canister, src/ic_oss_can/src/store.rs and types.rs: the module `fs`
-- that the macro writes and the calls of its module `api`. A `none` of an operation that may
-- panic is a panic.
pub mod Calls
pub mod Reserved
use ic_oss.Types.Ids.{Principal, Hash}
use ic_oss.Bucket.Fs.{Chunks}
use ic_oss.Types.Inputs.{UpdateFileInput}
use ic_oss.Base.{
  ℕ, zero, suc, ◌+◌, ◌-◌, ◌%◌, max, Bool, true, false, not, ◌&&◌, Option, none, some, List, [], ◌∷◌,
  ◌++◌, Map, map_option, get_or, Set, ltb, leb, ◌==◌, if◌then◌else◌, length, Text, ◌>>=◌, ◌>>◌,
  fail_if, ok_or, Result, ok, err, nat_ord, pair_ord, add_u32, add_u64, saturating_add_u32,
}
use ic_oss.Base.Maps
use ic_oss.Bucket.Config.{max_file_size, chunk_size}
use ic_oss.Types.Validation.{InputError}

pub record FileMetadata : Type 0 where
  pub name : Text
  pub content_type : Text
  pub size : ℕ
  pub filled : ℕ
  pub created_at : ℕ
  pub updated_at : ℕ
  pub chunks : ℕ
  pub hash : Option Hash

pub record Files : Type 0 where
  pub file_id : ℕ
  pub max_file_size : ℕ
  pub visibility : ℕ
  pub managers : Set Principal
  pub files : Map ℕ FileMetadata

-- `FS_METADATA` and `FS_CHUNKS_STORE`
pub record CanStore : Type 0 where
  pub metadata : Files
  pub chunks : Chunks

pub data CanError : Type 0 where
  over_limit : ℕ → CanError
  id_overflow : CanError
  invalid_id : CanError
  no_file : ℕ → CanError
  not_filled : CanError
  no_chunk : ℕ → ℕ → CanError
  wrong_size : ℕ → ℕ → CanError
  no_content : CanError
  over_chunk_size : ℕ → CanError
  denied : CanError
  bad_input : InputError → CanError
  wrong_content_size : CanError

-- `Files::default()`
abbrev pub default_files : Files
default_files = record {
  file_id = 1;
  max_file_size = max_file_size;
  visibility = 0;
  managers = [];
  files = [];
}

-- The name, the content's type and the hash that are given; no status and no size.
abbrev pub changed_file : {V : Type 0} → UpdateFileInput V → ℕ → FileMetadata → FileMetadata
changed_file change now_ms file = record file {
  name = get_or change.name file.name;
  content_type = get_or change.content_type file.content_type;
  hash = elim change.hash [ some hash ↦ some hash | none ↦ file.hash ];
  updated_at = now_ms;
}

-- The file after the chunk was written over `old`, where `filled` counts the new bytes already.
unfoldable pub after_chunk : ℕ → Option (List ℕ) → FileMetadata → FileMetadata
after_chunk chunk_index old file =
    let filled : ℕ = elim old [
      | none ↦ file.filled
      | some bytes ↦ (file.filled + (18446744073709551616 - length bytes)) % 18446744073709551616
    ] in
    record file {
      filled = filled;
      size = max file.size filled;
      chunks = elim old [
        | none ↦ if leb file.chunks chunk_index then add_u32 chunk_index 1 else file.chunks
        | some bytes ↦ file.chunks
      ];
    }

-- The chunks from `i` on are removed.
unfoldable pub erase_chunks : ℕ → ℕ → ℕ → Chunks → Chunks
erase_chunks zero id i chunks = chunks
erase_chunks (suc rounds) id i chunks = erase_chunks rounds id (i + 1) (Maps.erase (id, i) chunks)

module _ (s : CanStore) where
  unfoldable pub add_file : FileMetadata → Result CanError (ℕ × CanStore)
  add_file file = do
    fail_if (ltb s.metadata.max_file_size file.size) (over_limit s.metadata.max_file_size)
    fail_if (s.metadata.file_id == 4294967295) id_overflow
    ok (
      s.metadata.file_id,
      record s {
        metadata = record s.metadata {
          file_id = saturating_add_u32 s.metadata.file_id 1;
          files = Maps.put s.metadata.file_id file s.metadata.files;
        };
      },
    )

  unfoldable pub get_file : ℕ → Option FileMetadata
  get_file id = if id == 0 then none else Maps.get id s.metadata.files

  unfoldable pub get_chunk : ℕ → ℕ → Option (List ℕ)
  get_chunk id chunk_index = if id == 0 then none else Maps.get (id, chunk_index) s.chunks

  unfoldable pub update_file : {V : Type 0} → UpdateFileInput V → ℕ → Result CanError CanStore
  update_file change now_ms = do
    fail_if (change.id == 0) invalid_id
    file ← ok_or (Maps.get change.id s.metadata.files) (no_file change.id)
    fail_if (not (file.size == file.filled)) not_filled
    ok (record s {
      metadata = record s.metadata {
        files = Maps.put change.id (changed_file change now_ms file) s.metadata.files;
      };
    })

  -- The loop of `get_full_chunks` over the chunks from `i` on.
  unfoldable pub gather : ℕ → ℕ → ℕ → Result CanError (List ℕ)
  gather zero id i = ok []
  gather (suc rounds) id i = elim (Maps.get (id, i) s.chunks) [
    | none ↦ err (no_chunk id i)
    | some chunk ↦ elim (gather rounds id (i + 1)) [ err e ↦ err e | ok rest ↦ ok (chunk ++ rest) ]
  ]

  unfoldable pub get_full_chunks : ℕ → Result CanError (List ℕ)
  get_full_chunks id = do
    fail_if (id == 0) invalid_id
    file ← ok_or (Maps.get id s.metadata.files) (no_file id)
    fail_if (not (file.size == file.filled)) not_filled
    bytes ← gather file.chunks id 0
    fail_if (ltb 0 file.chunks && not (length bytes % 4294967296 == file.size))
        (wrong_size file.size (length bytes % 4294967296))
    ok bytes

  abbrev pub with_file : ℕ → FileMetadata → Chunks → CanStore
  with_file id file chunks = record {
    metadata = record s.metadata { files = Maps.put id file s.metadata.files };
    chunks = chunks;
  }

  unfoldable pub may_write : ℕ → List ℕ → Result CanError FileMetadata
  may_write file_id chunk = do
    fail_if (file_id == 0) invalid_id
    fail_if (length chunk == 0) no_content
    fail_if (ltb chunk_size (length chunk)) (over_chunk_size chunk_size)
    ok_or (Maps.get file_id s.metadata.files) (no_file file_id)

  -- The file counts the bytes before they are compared with the limit, also if they are refused.
  unfoldable pub update_chunk : ℕ → ℕ → ℕ → List ℕ → Result CanError ℕ × CanStore
  update_chunk file_id chunk_index now_ms chunk = elim (may_write file_id chunk) [
    | err e ↦ (err e, s)
    | ok old_file ↦
        let file : FileMetadata = record old_file {
          updated_at = now_ms;
          filled = add_u64 old_file.filled (length chunk);
        } in
        let file' = after_chunk chunk_index (Maps.get (file_id, chunk_index) s.chunks) file in
        if ltb s.metadata.max_file_size file.filled
        then (err (over_limit s.metadata.max_file_size), with_file file_id file s.chunks)
        else (
          ok file'.filled,
          with_file file_id file' (Maps.put (file_id, chunk_index) chunk s.chunks),
        )
  ]

  unfoldable pub delete_file : ℕ → Result CanError (Bool × CanStore)
  delete_file id = do
    fail_if (id == 0) invalid_id
    elim (Maps.get id s.metadata.files) [
      | none ↦ ok (false, s)
      | some file ↦ ok (
        true,
        record {
          metadata = record s.metadata { files = Maps.erase id s.metadata.files };
          chunks = erase_chunks file.chunks id 0 s.chunks;
        },
      )
    ]

unfoldable pub set_max_file_size : ℕ → CanStore → CanStore
set_max_file_size size s = record s { metadata = record s.metadata { max_file_size = size } }

unfoldable pub set_visibility : ℕ → CanStore → CanStore
set_visibility visibility s = record s {
  metadata = record s.metadata { visibility = if visibility == 0 then 0 else 1 };
}

unfoldable pub set_managers : Set Principal → CanStore → CanStore
set_managers managers s = record s { metadata = record s.metadata { managers = managers } }

-- The metadata are saved under the key 0, as a package writes them.
unfoldable pub save : (Files → List ℕ) → CanStore → CanStore
save encode s = record s { chunks = Maps.put (0, 0) (encode s.metadata) s.chunks }

-- `none` is the panic on bytes that are no metadata.
unfoldable pub load : (List ℕ → Option Files) → CanStore → Option CanStore
load decode s = elim (Maps.get (0, 0) s.chunks) [
  | none ↦ some s
  | some bytes ↦ map_option (λ metadata. record s { metadata = metadata }) (decode bytes)
]

-- A file of the range from 1 on.
abbrev pub get_listed : Map ℕ FileMetadata → ℕ → Option FileMetadata
get_listed files id = if id == 0 then none else Maps.get id files

-- `Files::list_files` over the ids below a bound, down to 1, with the number of files listed so far.
unfoldable pub list_files : Map ℕ FileMetadata → ℕ → ℕ → ℕ → List (ℕ × FileMetadata)
list_files files take taken zero = []
list_files files take taken (suc id) = elim (get_listed files id) [
  | none ↦ list_files files take taken id
  | some file ↦ elim (leb take (taken + 1)) [
    | true ↦ (id, file) ∷ []
    | false ↦ (id, file) ∷ list_files files take (taken + 1) id
  ]
]
