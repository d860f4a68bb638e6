-- ===== src/Bucket/Listing.antt =====
-- The listing of a folder, newest first and page by page: `FoldersTree::list_folders` and
-- `FoldersTree::list_files` of src/ic_oss_bucket/src/store.rs, with the records that they return.
pub mod Order
pub mod Page
use ic_oss.Types.Ids.{Hash}
use ic_oss.Bucket.Access.{Context, rank, auditor}
use ic_oss.Base.{
  ℕ, ◌+◌, Bool, true, false, ◌&&◌, Option, none, some, List, [], ◌∷◌, ◌++◌, Map, map_option, Set,
  ltb, leb, if◌then◌else◌, Text, int_lt, ℤ, pos, nat_ord,
}
use ic_oss.Base.Maps
use ic_oss.Bucket.Folders.{FoldersTree, FolderMetadata}
use ic_oss.Bucket.Fs.{FileMetadata, MapValue}

-- `FolderInfo` of src/ic_oss_types/src/folder.rs
pub record FolderInfo : Type 0 where
  pub id : ℕ
  pub parent : ℕ
  pub name : Text
  pub created_at : ℕ
  pub updated_at : ℕ
  pub status : ℤ
  pub files : Set ℕ
  pub folders : Set ℕ

-- `FolderMetadata::into_info`
abbrev pub folder_info : ℕ → FolderMetadata → FolderInfo
folder_info id folder = record {
  id = id;
  parent = folder.parent;
  name = folder.name;
  created_at = folder.created_at;
  updated_at = folder.updated_at;
  status = folder.status;
  files = folder.files;
  folders = folder.folders;
}

-- `FileInfo` of src/ic_oss_types/src/file.rs
pub record FileInfo (V : Type 0) : Type 0 where
  pub id : ℕ
  pub parent : ℕ
  pub name : Text
  pub content_type : Text
  pub size : ℕ
  pub filled : ℕ
  pub created_at : ℕ
  pub updated_at : ℕ
  pub chunks : ℕ
  pub status : ℤ
  pub hash : Option Hash
  pub dek : Option (List ℕ)
  pub custom : Option (MapValue V)
  pub ex : Option (MapValue V)

-- `FileMetadata::into_info`
abbrev pub file_info : {V : Type 0} → ℕ → FileMetadata V → FileInfo V
file_info id file = record {
  id = id;
  parent = file.parent;
  name = file.name;
  content_type = file.content_type;
  size = file.size;
  filled = file.filled;
  created_at = file.created_at;
  updated_at = file.updated_at;
  chunks = file.chunks;
  status = file.status;
  hash = file.hash;
  dek = file.dek;
  custom = file.custom;
  ex = file.ex;
}

-- `set.range(..end).rev()`
unfoldable pub below_reversed : ℕ → List ℕ → List ℕ
below_reversed end [] = []
below_reversed end (x ∷ s) =
    let rest = below_reversed end s in if ltb x end then rest ++ x ∷ [] else rest

-- The loop over the ids, with the length of the result so far.
unfoldable pub list_loop {ℓ} : {F : Type ℓ} → (ℕ → Option F) → ℕ → ℕ → List ℕ → List F
list_loop find take taken [] = []
list_loop find take taken (id ∷ ids) = elim (find id) [
  | none ↦ []
  | some info ↦ elim (leb take (taken + 1)) [
    | true ↦ info ∷ []
    | false ↦ info ∷ list_loop find take (taken + 1) ids
  ]
]

-- An archived folder is listed for auditors and managers alone.
abbrev pub is_hidden : FolderMetadata → Context → Bool
is_hidden folder ctx = int_lt folder.status (pos 0) && ltb (rank ctx.role) (rank auditor)

unfoldable pub find_folder : FoldersTree → ℕ → Option FolderInfo
find_folder t id = map_option (folder_info id) (Maps.get id t)

unfoldable pub list_folders : FoldersTree → Context → ℕ → ℕ → ℕ → List FolderInfo
list_folders t ctx parent prev take = elim (Maps.get parent t) [
  | none ↦ []
  | some folder ↦
      if is_hidden folder ctx
      then []
      else list_loop (find_folder t) take 0 (below_reversed prev folder.folders)
]

module _ {V : Type 0} where
  unfoldable pub find_file : Map ℕ (FileMetadata V) → ℕ → Option (FileInfo V)
  find_file files id = map_option (file_info id) (Maps.get id files)

  unfoldable pub list_files :
      FoldersTree → Context → Map ℕ (FileMetadata V) → ℕ → ℕ → ℕ → List (FileInfo V)
  list_files t ctx files parent prev take = elim (Maps.get parent t) [
    | none ↦ []
    | some folder ↦
        if is_hidden folder ctx
        then []
        else list_loop (find_file files) take 0 (below_reversed prev folder.files)
  ]
