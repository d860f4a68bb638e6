-- ===== src/Bucket/Fs/FolderKeeps.antt =====
-- The operations on folders in the module `fs` of src/ic_oss_bucket/src/store.rs, with the
-- invariant of the store.
use ic_oss.Bucket.Folders.Moving.{files-move_folder}
use ic_oss.Bucket.Folders.MoveKeeps.{move_folder-IsTree}
use ic_oss.Types.Inputs.{UpdateFolderInput}
use ic_oss.Bucket.Error.{Error}
use ic_oss.Bucket.Folders.Adding.{add_folder-Added, add_folder-IsTree, Added}
use ic_oss.Base.{
  ℕ, ◌≡◌, refl, ◌≢◌, ◌⊎◌, inl, inr, none, some, [], arith, map_laws, get_or, ◌==◌, if◌then◌else◌,
  Bool-cases, Option-cases, ℤ, Result-cases, Result, u32_max, saturating_add_u32, nat_ord,
}
use ic_oss.Bucket.Folders.Shape.{IsTree, links, SameLinks-IsTree}
use ic_oss.Bucket.Fs.Invariant.{IsStore, IsStore-of_folders}
use ic_oss.Base.Maps
use ic_oss.Base.Sets
use ic_oss.Bucket.Folders
use ic_oss.Bucket.Folders.{FoldersTree, FolderMetadata, depth_limit}
use ic_oss.Bucket.Fs
use ic_oss.Bucket.Fs.Update.{update_folder, changed_folder}
use ic_oss.Bucket.Folders.Shape.{links, SameLinks-IsTree, IsTree}
use ic_oss.Bucket.Fs.{FileMetadata, Store}

module _ {V : Type 0} (s : Store V) (inv : IsStore s) where
  folder_id_fresh : Maps.get s.bucket.folder_id s.folders ≡ none
  folder_id_fresh = elim (Option-cases (Maps.get s.bucket.folder_id s.folders)) [
    | inl e ↦ e
    | inr (f, e) ↦ absurd (omega (arith, inv.folder_bound s.bucket.folder_id f e))
  ]

  abbrev grown : FolderMetadata → FolderMetadata → Store V
  grown metadata parent = record s {
    bucket = record s.bucket { folder_id = saturating_add_u32 s.bucket.folder_id 1 };
    folders = Maps.put s.bucket.folder_id metadata (
        Maps.put metadata.parent
          (record parent { folders = Sets.insert s.bucket.folder_id parent.folders }) s.folders);
  }

  module _ (metadata parent : FolderMetadata)
      (found : Maps.get metadata.parent s.folders ≡ some parent)
      (below_max : s.bucket.folder_id ≢ u32_max) where
    get-grown :
        (j : ℕ)
        → Maps.get j (grown metadata parent).folders ≡ (
            if j == s.bucket.folder_id
            then some metadata
            else if j == metadata.parent
            then some (record parent { folders = Sets.insert s.bucket.folder_id parent.folders })
            else Maps.get j s.folders)
    get-grown j = simp map_laws

    grown-IsStore :
        metadata.files ≡ []
        → IsTree (grown metadata parent).folders
        → IsStore (grown metadata parent)
    grown-IsStore bare tree = record {
      tree = tree;
      linked = λ k c.
          ground (arith, get-grown k, inv.linked k c, folder_id_fresh, Sets.contains-nil {K = ℕ} c);
      file_bound = inv.file_bound;
      folder_bound = λ id f e. ground (
        arith,
        get-grown id,
        inv.folder_bound id f,
        inv.folder_bound id parent,
        inv.folder_id_u32,
      );
      file_id_u32 = inv.file_id_u32;
      folder_id_u32 = omega arith;
      depth_u8 = inv.depth_u8;
    }

-- `fs::add_folder` of an empty folder keeps the invariant of the store, whether it succeeds or
-- fails.
pub add_folder-IsStore :
    {V : Type 0} (metadata : FolderMetadata) (s : Store V)
    → metadata.folders ≡ []
    → metadata.files ≡ []
    → IsStore s
    → IsStore (Fs.add_folder metadata s).1
unfolding Fs.add_folder
add_folder-IsStore metadata s bare bare' inv =
    elim (Result-cases (
      Folders.add_folder s.folders metadata s.bucket.folder_id s.bucket.max_folder_depth
        s.bucket.max_children)) [
          | inr (e, failed) ↦ elim (Bool-cases (s.bucket.folder_id == u32_max)) [
            | inl full ↦ rw full inv
            | inr more ↦ rw (more, failed) inv
          ]
          | inl (t, done) ↦ elim (Bool-cases (s.bucket.folder_id == u32_max)) [
            | inl full ↦ rw full inv
            | inr more ↦
                let a : Added s.folders metadata s.bucket.folder_id s.bucket.max_folder_depth
                    s.bucket.max_children t =
                  add_folder-Added s.folders metadata s.bucket.folder_id s.bucket.max_folder_depth
                    s.bucket.max_children done in
                let tree : IsTree t =
                  add_folder-IsTree s.folders metadata s.bucket.folder_id s.bucket.max_folder_depth
                    s.bucket.max_children inv.tree bare done in
                rw (more, done)
                  (rw a.result (
                    grown-IsStore s inv metadata a.parent a.found (ground arith) bare'
                      (rw a.result at tree)))
          ]
        ]

-- `fs::move_folder` keeps the invariant of the store, whether it succeeds or fails.
pub move_folder-IsStore :
    {V : Type 0} (id from to now_ms : ℕ) (s : Store V)
    → IsStore s
    → IsStore (Fs.move_folder id from to now_ms s).1
unfolding Fs.move_folder
move_folder-IsStore id from to now_ms s inv =
    elim (Result-cases (
      Folders.check_moving_folder s.folders id from to s.bucket.max_folder_depth
        s.bucket.max_children)) [
          | inr (e, failed) ↦ rw failed inv
          | inl (tt, passed) ↦ rw passed (
              IsStore-of_folders s (Folders.move_folder s.folders id from to now_ms)
                (files-move_folder s.folders id from to now_ms)
                (move_folder-IsTree s.folders id from to s.bucket.max_folder_depth
                  s.bucket.max_children now_ms inv.tree (omega arith) passed)
                inv)
        ]

module _ {V : Type 0} (s : Store V) (id : ℕ) (f f' : FolderMetadata) (inv : IsStore s)
    (found : Maps.get id s.folders ≡ some f) (kept_links : links f' ≡ links f)
    (kept_files : f'.files ≡ f.files) where
  -- A folder keeps its links and its files.
  pub put_folder-IsStore : IsStore (record s { folders = Maps.put id f' s.folders })
  put_folder-IsStore =
      IsStore-of_folders s (Maps.put id f' s.folders)
        (λ j. ground (arith, Maps.get-put j id f' s.folders))
        (SameLinks-IsTree s.folders (Maps.put id f' s.folders)
          (λ j. ground (arith, Maps.get-put j id f' s.folders)) inv.tree)
        inv

update_folder-cases :
    {V : Type 0} (change : UpdateFolderInput) (now_ms : ℕ)
    (checker : FolderMetadata → Result Error (Unit {0})) (s : Store V) (f : FolderMetadata)
    → Maps.get change.id s.folders ≡ some f
    → ((update_folder change now_ms checker s).1 ≡ s)
      ⊎ ((update_folder change now_ms checker s).1 ≡ record s {
        folders =
            Maps.put change.id
              (record f {
                name = get_or change.name f.name;
                status = get_or change.status f.status;
                updated_at = now_ms;
              })
              s.folders;
      })
unfolding update_folder changed_folder
update_folder-cases change now_ms checker s f e = ground arith

-- `fs::update_folder` keeps the invariant of the store, whether it succeeds or fails.
pub update_folder-IsStore :
    {V : Type 0} (change : UpdateFolderInput) (now_ms : ℕ)
    (checker : FolderMetadata → Result Error (Unit {0})) (s : Store V)
    → IsStore s
    → IsStore (update_folder change now_ms checker s).1
unfolding update_folder
update_folder-IsStore change now_ms checker s inv =
    elim (Option-cases (Maps.get change.id s.folders)) [
      | inl e ↦ elim (Bool-cases (change.id == 0)) [
        | inl root ↦ rw root inv
        | inr other ↦ rw (other, e) inv
      ]
      | inr (f, e) ↦
          let status : ℤ = get_or change.status f.status in
          let f' : FolderMetadata = record f {
            name = get_or change.name f.name;
            status = status;
            updated_at = now_ms;
          } in
          let kept : IsStore (record s { folders = Maps.put change.id f' s.folders }) =
            put_folder-IsStore s change.id f f' inv e refl refl in
          elim (update_folder-cases change now_ms checker s f e) [
            | inl unchanged ↦ rw unchanged inv
            | inr changed ↦ rw changed kept
          ]
    ]
