-- ===== src/Bucket/Fs/MoveFileKeeps.antt =====
-- `fs::move_file` of src/ic_oss_bucket/src/store.rs, with the invariant of the store.
use ic_oss.Base.Sets
use ic_oss.Bucket.Folders.Shape.{SameLinks, SameLinks-IsTree}
use ic_oss.Bucket.Fs.Invariant.{IsStore, lists, lies_in}
use ic_oss.Base.{
  ℕ, ◌≡◌, ◌≢◌, ◌⊎◌, inl, inr, some, arith, ◌==◌, if◌then◌else◌, Option-cases, Result-cases, nat_ord,
}
use ic_oss.Base.Maps
use ic_oss.Bucket.Folders
use ic_oss.Bucket.Folders.{FoldersTree, FolderMetadata}
use ic_oss.Bucket.Fs
use ic_oss.Bucket.Fs.{FileMetadata, Store}

record MovableFile {V : Type 0} (id from to : ℕ) (s : Store V) : Type 0 where
  apart : from ≢ to
  from_folder : FolderMetadata
  found_from : Maps.get from s.folders ≡ some from_folder
  to_folder : FolderMetadata
  found_to : Maps.get to s.folders ≡ some to_folder
  file : FileMetadata V
  found : Maps.get id s.files ≡ some file
  in_from : file.parent ≡ from

abbrev relocated : {V : Type 0} → ℕ → ℕ → ℕ → ℕ → FileMetadata V → Store V → Store V
relocated id from to now_ms file s = record s {
  files = Maps.put id (record file { parent = to; updated_at = now_ms }) s.files;
  folders = Folders.move_file s.folders id from to now_ms;
}

move_file-cases :
    {V : Type 0} (id from to now_ms : ℕ) (s : Store V)
    → ((Fs.move_file id from to now_ms s).1 ≡ s)
      ⊎ ((m : MovableFile id from to s) × ((Fs.move_file id from to now_ms s).1
            ≡ relocated id from to now_ms m.file s))
unfolding Fs.move_file Folders.check_moving_file
move_file-cases id from to now_ms s = elim (Option-cases (Maps.get id s.files)) [
  | inl e ↦ inl (ground arith)
  | inr (f, e) ↦ elim (Option-cases (Maps.get from s.folders)) [
    | inl e' ↦ inl (ground arith)
    | inr (g, e') ↦ elim (Option-cases (Maps.get to s.folders)) [
      | inl e'' ↦ inl (ground arith)
      | inr (h, e'') ↦ elim (Result-cases (Fs.move_file id from to now_ms s).0) [
        | inr (x, failed) ↦ inl (ground arith)
        | inl (u, done) ↦ inr (
          record {
            apart = ground arith;
            from_folder = g;
            found_from = e';
            to_folder = h;
            found_to = e'';
            file = f;
            found = e;
            in_from = ground arith;
          },
          ground arith,
        )
      ]
    ]
  ]
]

module _ {V : Type 0} (id from to now_ms : ℕ) (s : Store V) (inv : IsStore s)
    (m : MovableFile id from to s) where
  abbrev out : FolderMetadata → FolderMetadata
  out folder = record folder { files = Sets.remove id folder.files; updated_at = now_ms }

  abbrev into : FolderMetadata → FolderMetadata
  into folder = record folder { files = Sets.insert id folder.files; updated_at = now_ms }

  get-moved_file :
      (j : ℕ)
      → Maps.get j (Folders.move_file s.folders id from to now_ms) ≡ (
          if j == to
          then some (into m.to_folder)
          else if j == from
          then some (out m.from_folder)
          else Maps.get j s.folders)
  unfolding Folders.move_file
  get-moved_file j = ground (
    arith,
    m.apart,
    m.found_from,
    m.found_to,
    Maps.get-modify j to into (Maps.modify from out s.folders),
    Maps.get-modify j from out s.folders,
  )

  links-moved_file : SameLinks s.folders (Folders.move_file s.folders id from to now_ms)
  links-moved_file j = ground (arith, m.found_from, m.found_to, get-moved_file j)

  linked-moved_file :
      (k c : ℕ)
      → lists (relocated id from to now_ms m.file s).folders k c
        ≡ lies_in (relocated id from to now_ms m.file s).files k c
  linked-moved_file k c = ground (
    arith,
    m.apart,
    m.found_from,
    m.found_to,
    m.found,
    m.in_from,
    inv.linked k c,
    get-moved_file k,
    Sets.contains-insert c id m.to_folder.files,
    Sets.contains-remove c id m.from_folder.files,
    Maps.get-put c id (record m.file { parent = to; updated_at = now_ms }) s.files,
  )

  relocated-IsStore : IsStore (relocated id from to now_ms m.file s)
  relocated-IsStore = record {
    tree =
        SameLinks-IsTree s.folders (Folders.move_file s.folders id from to now_ms) links-moved_file
          inv.tree;
    linked = linked-moved_file;
    file_bound = λ j f e. ground (
      arith,
      m.found,
      inv.file_bound j f,
      inv.file_bound id m.file,
      Maps.get-put j id (record m.file { parent = to; updated_at = now_ms }) s.files,
    );
    folder_bound = λ j f e. ground (
      arith,
      m.found_from,
      m.found_to,
      get-moved_file j,
      inv.folder_bound j f,
      inv.folder_bound from m.from_folder,
      inv.folder_bound to m.to_folder,
    );
    file_id_u32 = inv.file_id_u32;
    folder_id_u32 = inv.folder_id_u32;
    depth_u8 = inv.depth_u8;
  }

-- `fs::move_file` keeps the invariant of the store, whether it succeeds or fails.
pub move_file-IsStore :
    {V : Type 0} (id from to now_ms : ℕ) (s : Store V)
    → IsStore s
    → IsStore (Fs.move_file id from to now_ms s).1
move_file-IsStore id from to now_ms s inv = elim (move_file-cases id from to now_ms s) [
  | inl unchanged ↦ rw unchanged inv
  | inr (m, moved) ↦ rw moved (relocated-IsStore id from to now_ms s inv m)
]
