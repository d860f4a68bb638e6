-- ===== src/Bucket/Fs.antt =====
-- The module `fs` of src/ic_oss_bucket/src/store.rs: folders, files, chunks and the hash index,
-- with the operations on them. An operation returns its result beside the state that it leaves,
-- since what it wrote before it failed stays written unless its caller traps.
pub mod Update
pub mod Chunk
pub mod Delete
pub mod Invariant
pub mod FileKeeps
pub mod FolderKeeps
pub mod ChangeKeeps
pub mod MoveFileKeeps
pub mod DropKeeps
pub mod DeleteKeeps
pub mod Run
pub mod Filled
pub mod Writing
pub mod Shrinking
use ic_oss.Types.Ids.{Hash, zero_hash}
use ic_oss.Base.{
  ℕ, zero, suc, Bool, true, false, not, Option, none, some, List, Map, ◌==◌, if◌then◌else◌, Text,
  int_eq, ℤ, pos, ◌>>=◌, ◌>>◌, fail_if, ok_or, commit, Result, ok, err, same, u32_max,
  saturating_add_u32, nat_ord, pair_ord, list_ord,
}
use ic_oss.Base.Maps
use ic_oss.Base.Sets
use ic_oss.Bucket.Folders
use ic_oss.Bucket.Error.{
  Error, folder_id_overflow, file_id_overflow, hash_conflict, hash_required, file_not_found,
  file_not_writable, file_not_in,
}
use ic_oss.Bucket.Folders.{FoldersTree, FolderMetadata}
use ic_oss.Bucket.Config.{Bucket}

-- `MapValue`, over the values of the ICRC metadata, a type of another package.
abbrev pub MapValue : Type 0 → Type 0
MapValue V = Map Text V

pub record FileMetadata (V : Type 0) : Type 0 where
  pub parent : ℕ
  pub name : Text
  pub content_type : Text
  pub size : ℕ
  pub filled : ℕ
  pub created_at : ℕ
  pub updated_at : ℕ
  pub chunks : ℕ
  pub status : ℤ
  pub hash : Option Hash
  pub dek : Option (List ℕ)
  pub custom : Option (MapValue V)
  pub ex : Option (MapValue V)

-- The chunks of all files, by file and index.
abbrev pub Chunks : Type 0
Chunks = Map (ℕ × ℕ) (List ℕ)

-- `BUCKET`, `HASHS`, `FOLDERS`, `FS_METADATA_STORE` and `FS_CHUNKS_STORE`
pub record Store (V : Type 0) : Type 0 where
  pub bucket : Bucket
  pub hashs : Map Hash ℕ
  pub folders : FoldersTree
  pub files : Map ℕ (FileMetadata V)
  pub chunks : Chunks

-- `for i in 0..n { fs_data.remove(&FileId(id, i)) }`
unfoldable pub remove_chunks : ℕ → ℕ → Chunks → Chunks
remove_chunks id zero m = m
remove_chunks id (suc n) m = Maps.erase (id, n) (remove_chunks id n m)

-- `if let Some(hash) = file.hash { hashs.remove(&hash) }`
unfoldable pub remove_hash : Option Hash → Map Hash ℕ → Map Hash ℕ
remove_hash none m = m
remove_hash (some hash) m = Maps.erase hash m

-- The entry of a new file in the hash index.
unfoldable pub index_hash : Bool → Option Hash → ℕ → Map Hash ℕ → Result Error (Map Hash ℕ)
index_hash false hash id m = ok m
index_hash true none id m = err hash_required
index_hash true (some hash) id m = if same hash zero_hash then ok m else elim (Maps.get hash m) [
  | some prev ↦ err (hash_conflict prev)
  | none ↦ ok (Maps.put hash id m)
]

module _ {V : Type 0} where
  unfoldable pub add_folder : FolderMetadata → Store V → Result Error ℕ × Store V
  add_folder metadata s = commit s (do
    fail_if (s.bucket.folder_id == u32_max) folder_id_overflow
    folders ←
        Folders.add_folder s.folders metadata s.bucket.folder_id s.bucket.max_folder_depth
          s.bucket.max_children
    ok (
      s.bucket.folder_id,
      record s {
        bucket = record s.bucket { folder_id = saturating_add_u32 s.bucket.folder_id 1 };
        folders = folders;
      },
    ))

  unfoldable pub add_file : FileMetadata V → Store V → Result Error ℕ × Store V
  add_file metadata s = commit s (do
    fail_if (s.bucket.file_id == u32_max) file_id_overflow
    parent ← Folders.parent_to_add_file s.folders metadata.parent s.bucket.max_children
    hashs ← index_hash s.bucket.enable_hash_index metadata.hash s.bucket.file_id s.hashs
    ok (
      s.bucket.file_id,
      record s {
        bucket = record s.bucket { file_id = saturating_add_u32 s.bucket.file_id 1 };
        hashs = hashs;
        folders =
            Maps.put metadata.parent
              (record parent { files = Sets.insert s.bucket.file_id parent.files }) s.folders;
        files = Maps.put s.bucket.file_id metadata s.files;
      },
    ))

  unfoldable pub move_folder : ℕ → ℕ → ℕ → ℕ → Store V → Result Error (Unit {0}) × Store V
  move_folder id from to now_ms s = commit s (do
    Folders.check_moving_folder s.folders id from to s.bucket.max_folder_depth s.bucket.max_children
    ok (tt, record s { folders = Folders.move_folder s.folders id from to now_ms }))

  unfoldable pub move_file : ℕ → ℕ → ℕ → ℕ → Store V → Result Error (Unit {0}) × Store V
  move_file id from to now_ms s = commit s (do
    Folders.check_moving_file s.folders from to s.bucket.max_children
    file ← ok_or (Maps.get id s.files) (file_not_found id)
    fail_if (not (int_eq file.status (pos 0))) (file_not_writable id)
    fail_if (not (file.parent == from)) (file_not_in id from)
    ok (
      tt,
      record s {
        files = Maps.put id (record file { parent = to; updated_at = now_ms }) s.files;
        folders = Folders.move_file s.folders id from to now_ms;
      },
    ))
