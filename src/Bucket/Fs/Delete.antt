-- ===== src/Bucket/Fs/Delete.antt =====
-- `fs::delete_folder`, `fs::delete_file` and `fs::batch_delete_subfiles` of
-- src/ic_oss_bucket/src/store.rs.
use ic_oss.Base.{
  ℕ, Bool, true, false, none, some, List, [], ◌∷◌, ◌++◌, ◌==◌, if◌then◌else◌, is_empty, int_lt, pos,
  ◌>>=◌, ◌>>◌, fail_if, commit, Result, ok, err, nat_ord,
}
use ic_oss.Base.Maps
use ic_oss.Base.Sets
use ic_oss.Bucket.Folders
use ic_oss.Bucket.Error.{Error, root_cannot_be_deleted, file_readonly}
use ic_oss.Bucket.Folders.{FolderMetadata}
use ic_oss.Bucket.Fs.{FileMetadata, Store, remove_hash, remove_chunks}

abbrev pub unlist : ℕ → FolderMetadata → FolderMetadata
unlist id folder = record folder { files = Sets.remove id folder.files }

module _ {V : Type 0} where
  -- The removal of a file's metadata, of its hash from the index, and of its chunks.
  unfoldable pub drop_file : ℕ → FileMetadata V → Store V → Store V
  drop_file id file s = record s {
    files = Maps.erase id s.files;
    hashs = remove_hash file.hash s.hashs;
    chunks = remove_chunks id file.chunks s.chunks;
  }

  -- One file of the loop in `delete_folder`; a file that is readonly stays.
  unfoldable pub delete_listed : ℕ → FolderMetadata × Store V → FolderMetadata × Store V
  delete_listed id (folder, s) = elim (Maps.get id s.files) [
    | none ↦ (unlist id folder, s)
    | some file ↦
        if int_lt file.status (pos 1) then (unlist id folder, drop_file id file s) else (folder, s)
  ]

  unfoldable pub delete_all : List ℕ → FolderMetadata × Store V → FolderMetadata × Store V
  delete_all [] st = st
  delete_all (id ∷ ids) st = delete_all ids (delete_listed id st)

  -- The folder itself, once its files were deleted; they stay deleted if this fails.
  unfoldable pub finish_delete : ℕ → ℕ → FolderMetadata × Store V → Result Error Bool × Store V
  finish_delete id now_ms (folder, s) =
      let s' : Store V = record s { folders = Maps.put id folder s.folders } in
      elim (Folders.delete_folder s'.folders id now_ms) [
        | err e ↦ (err e, s')
        | ok (folders, removed) ↦ (ok removed, record s' { folders = folders })
      ]

  unfoldable pub may_delete_folder :
      ℕ → (FolderMetadata → Result Error (Unit {0})) → Store V → Result Error FolderMetadata
  may_delete_folder id checker s = do
    fail_if (id == 0) root_cannot_be_deleted
    folder ← Folders.parent_to_update s.folders id
    checker folder
    ok folder

  unfoldable pub delete_folder :
      ℕ → ℕ → (FolderMetadata → Result Error (Unit {0})) → Store V → Result Error Bool × Store V
  delete_folder id now_ms checker s = elim (may_delete_folder id checker s) [
    | err e ↦ (err e, s)
    | ok folder ↦ finish_delete id now_ms (delete_all folder.files (folder, s))
  ]

  unfoldable pub delete_found :
      ℕ
      → ℕ
      → (FileMetadata V → Result Error (Unit {0}))
      → FileMetadata V
      → Store V
      → Result Error (Bool × Store V)
  delete_found id now_ms checker file s = do
    fail_if (int_lt (pos 0) file.status) file_readonly
    checker file
    parent ← Folders.parent_to_update s.folders file.parent
    ok (
      true,
      drop_file id file (record s {
        folders =
            Maps.put file.parent (record (unlist id parent) { updated_at = now_ms }) s.folders;
      }),
    )

  unfoldable pub delete_file :
      ℕ → ℕ → (FileMetadata V → Result Error (Unit {0})) → Store V → Result Error Bool × Store V
  delete_file id now_ms checker s = elim (Maps.get id s.files) [
    | none ↦ (ok false, s)
    | some file ↦ commit s (delete_found id now_ms checker file s)
  ]

  -- One id of the loop in `batch_delete_subfiles`, with the ids removed so far.
  unfoldable pub delete_subfile :
      ℕ → List ℕ × FolderMetadata × Store V → List ℕ × FolderMetadata × Store V
  delete_subfile id (removed, folder, s) =
      if Sets.contains id folder.files
      then elim (Maps.get id s.files) [
        | none ↦ (removed, unlist id folder, s)
        | some file ↦
            if int_lt file.status (pos 1)
            then (removed ++ id ∷ [], unlist id folder, drop_file id file s)
            else (removed, folder, s)
      ]
      else (removed, folder, s)

  unfoldable pub delete_subfiles :
      List ℕ → List ℕ × FolderMetadata × Store V → List ℕ × FolderMetadata × Store V
  delete_subfiles [] st = st
  delete_subfiles (id ∷ ids) st = delete_subfiles ids (delete_subfile id st)

  -- The folder's time of update changes if something was removed.
  unfoldable pub finish_batch :
      ℕ → ℕ → List ℕ × FolderMetadata × Store V → Result Error (List ℕ) × Store V
  finish_batch parent now_ms (removed, folder, s) =
      let folder' : FolderMetadata =
        if is_empty removed then folder else record folder { updated_at = now_ms } in
      (ok removed, record s { folders = Maps.put parent folder' s.folders })

  unfoldable pub batch_delete_subfiles : ℕ → List ℕ → ℕ → Store V → Result Error (List ℕ) × Store V
  batch_delete_subfiles parent ids now_ms s = elim (Folders.parent_to_update s.folders parent) [
    | err e ↦ (err e, s)
    | ok folder ↦ finish_batch parent now_ms (delete_subfiles ids ([], folder, s))
  ]
