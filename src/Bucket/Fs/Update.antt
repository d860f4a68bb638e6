-- ===== src/Bucket/Fs/Update.antt =====
-- `fs::update_folder` and `fs::update_file` of src/ic_oss_bucket/src/store.rs.
use ic_oss.Types.Ids.{Hash}
use ic_oss.Base.{
  ℕ, not, ◌&&◌, Option, none, some, Map, is_some, get_or, ltb, ◌==◌, if◌then◌else◌, int_lt, int_eq,
  ℤ, pos, ◌>>=◌, ◌>>◌, fail_if, ok_or, commit, Result, ok, err, same, nat_ord, option_ord, list_ord,
}
use ic_oss.Base.Maps
use ic_oss.Bucket.Error.{
  Error, folder_not_found, folder_readonly, hash_conflict, file_not_found, root_cannot_be_updated,
  file_readonly, readonly_without_hash, not_fully_uploaded,
}
use ic_oss.Bucket.Folders.{FolderMetadata}
use ic_oss.Bucket.Fs.{FileMetadata, Store, remove_hash, remove_chunks}
use ic_oss.Types.Inputs.{UpdateFileInput, UpdateFolderInput}

-- The folder after the change, if its status allows it.
unfoldable pub changed_folder : UpdateFolderInput → ℕ → FolderMetadata → Result Error FolderMetadata
changed_folder change now_ms folder = do
  let status = get_or change.status folder.status
  fail_if (int_lt (pos 0) folder.status && int_lt (pos 0) status) folder_readonly
  ok (record folder { name = get_or change.name folder.name; status = status; updated_at = now_ms })

-- The hash index after the hash of a file has changed.
unfoldable pub reindex : Option Hash → Option Hash → ℕ → Map Hash ℕ → Result Error (Map Hash ℕ)
reindex prev_hash none id m = ok (remove_hash prev_hash m)
reindex prev_hash (some hash) id m = elim (Maps.get hash m) [
  | some prev ↦ err (hash_conflict prev)
  | none ↦ ok (remove_hash prev_hash (Maps.put hash id m))
]

module _ {V : Type 0} where
  unfoldable pub update_folder :
      UpdateFolderInput
      → ℕ
      → (FolderMetadata → Result Error (Unit {0}))
      → Store V
      → Result Error (Unit {0}) × Store V
  update_folder change now_ms checker s = commit s (do
    fail_if (change.id == 0) root_cannot_be_updated
    folder ← ok_or (Maps.get change.id s.folders) (folder_not_found change.id)
    checker folder
    folder' ← changed_folder change now_ms folder
    ok (tt, record s { folders = Maps.put change.id folder' s.folders }))

  -- `file.size` after the change: the size asked for, or else what is filled where it is 0.
  abbrev pub new_size : UpdateFileInput V → FileMetadata V → ℕ
  new_size change file =
      let size = get_or change.size file.size in if size == 0 then file.filled else size

  abbrev pub new_status : UpdateFileInput V → FileMetadata V → ℤ
  new_status change file = get_or change.status file.status

  -- The tests before anything is written.
  unfoldable pub may_update : UpdateFileInput V → FileMetadata V → Result Error (Unit {0})
  may_update change file = do
    fail_if (int_lt (pos 0) file.status && int_lt (pos 0) (new_status change file)) file_readonly
    fail_if
        (int_eq (new_status change file) (pos 1)
          && (not (is_some file.hash) && not (is_some change.hash)))
        readonly_without_hash
    fail_if (int_eq (new_status change file) (pos 1) && not (new_size change file == file.filled))
        not_fully_uploaded
    ok tt

  -- The file with its new size. If that is smaller than what is filled, the file is emptied.
  unfoldable pub resized : UpdateFileInput V → FileMetadata V → FileMetadata V
  resized change file =
      if ltb (new_size change file) file.filled
      then record file { size = new_size change file; filled = 0; chunks = 0 }
      else record file { size = new_size change file }

  -- The chunks that are removed then: as many as the file has after it was emptied.
  unfoldable pub resized_chunks : UpdateFileInput V → FileMetadata V → Store V → Store V
  resized_chunks change file s =
      if ltb (new_size change file) file.filled
      then record s { chunks = remove_chunks change.id (resized change file).chunks s.chunks }
      else s

  unfoldable pub changed_file : UpdateFileInput V → ℕ → FileMetadata V → FileMetadata V
  changed_file change now_ms file =
      let f = resized change file in
      record f {
        status = new_status change file;
        name = get_or change.name f.name;
        content_type = get_or change.content_type f.content_type;
        hash = elim change.hash [ some hash ↦ some hash | none ↦ f.hash ];
        custom = elim change.custom [ some custom ↦ some custom | none ↦ f.custom ];
        updated_at = now_ms;
      }

  -- From the changed file on: the hash index, and the file itself.
  unfoldable pub store_changed :
      ℕ → Option Hash → FileMetadata V → Store V → Result Error (Unit {0}) × Store V
  store_changed id prev_hash file s = commit s (do
    hashs ←
        (if s.bucket.enable_hash_index && not (same prev_hash file.hash)
          then reindex prev_hash file.hash id s.hashs
          else ok s.hashs)
    ok (tt, record s { hashs = hashs; files = Maps.put id file s.files }))

  unfoldable pub update_present :
      UpdateFileInput V
      → ℕ
      → (FileMetadata V → Result Error (Unit {0}))
      → FileMetadata V
      → Store V
      → Result Error (Unit {0}) × Store V
  update_present change now_ms checker file s = elim (checker file >> may_update change file) [
    | err e ↦ (err e, s)
    | ok _ ↦
        store_changed change.id file.hash (changed_file change now_ms file)
          (resized_chunks change file s)
  ]

  unfoldable pub update_file :
      UpdateFileInput V
      → ℕ
      → (FileMetadata V → Result Error (Unit {0}))
      → Store V
      → Result Error (Unit {0}) × Store V
  update_file change now_ms checker s = elim (Maps.get change.id s.files) [
    | none ↦ (err (file_not_found change.id), s)
    | some file ↦ update_present change now_ms checker file s
  ]
