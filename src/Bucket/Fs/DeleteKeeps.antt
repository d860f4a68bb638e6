-- ===== src/Bucket/Fs/DeleteKeeps.antt =====
-- The deletions in the module `fs` of src/ic_oss_bucket/src/store.rs, with the invariant of
-- the store.
use ic_oss.Base.Sets
use ic_oss.Base.{
  ℕ, ◌≡◌, refl, inl, inr, Bool, true, none, some, List, [], arith, ◌==◌, if◌then◌else◌,
  Option-cases, is_empty, Result-cases, Result, ok, nat_ord,
}
use ic_oss.Bucket.Error.{Error}
use ic_oss.Bucket.Folders.Shape.{IsTree}
use ic_oss.Bucket.Folders.Deleting.{
  delete_folder-cases, delete_folder-IsTree, without, get-rest, files-detach,
}
use ic_oss.Bucket.Fs.DropKeeps.{
  with_folder, with_folder-IsStore, delete_subfiles-IsStore, drop_listed, delete_all-IsStore,
}
use ic_oss.Bucket.Fs.Invariant.{IsStore}
use ic_oss.Bucket.Fs.FolderKeeps.{put_folder-IsStore}
use ic_oss.Base.Maps
use ic_oss.Bucket.Folders
use ic_oss.Bucket.Folders.{FolderMetadata, FoldersTree, detach}
use ic_oss.Bucket.Fs.{Store, FileMetadata}
use ic_oss.Bucket.Fs.Delete
use ic_oss.Bucket.Fs.Delete.{
  delete_file, delete_found, delete_subfiles, finish_batch, batch_delete_subfiles, unlist,
  drop_file, delete_all, finish_delete, may_delete_folder,
}

module _ {V : Type 0} (s : Store V) (inv : IsStore s) where
  parent_to_update-found :
      (id : ℕ) (folder : FolderMetadata)
      → Folders.parent_to_update s.folders id ≡ ok folder
      → Maps.get id s.folders ≡ some folder
  unfolding Folders.parent_to_update
  parent_to_update-found id folder h = ground arith

  taken-IsStore :
      (id : ℕ) (folder : FolderMetadata)
      → Folders.parent_to_update s.folders id ≡ ok folder
      → IsStore (with_folder id folder s)
  taken-IsStore id folder h =
      put_folder-IsStore s id folder folder inv (parent_to_update-found id folder h) refl refl

  finish_batch-IsStore :
      (k now_ms : ℕ) (removed : List ℕ) (folder : FolderMetadata) (s' : Store V)
      → IsStore (with_folder k folder s')
      → IsStore (finish_batch k now_ms (removed, folder, s')).1
  unfolding finish_batch
  finish_batch-IsStore k now_ms removed folder s' kept =
      let folder' : FolderMetadata =
        if is_empty removed then folder else record folder { updated_at = now_ms } in
      with_folder-IsStore k folder folder' s' (ground arith) (ground arith) kept

  -- `batch_delete_subfiles` keeps the invariant of the store, whether it succeeds or fails.
  pub batch_delete_subfiles-IsStore :
      (parent now_ms : ℕ) (ids : List ℕ) → IsStore (batch_delete_subfiles parent ids now_ms s).1
  unfolding batch_delete_subfiles
  batch_delete_subfiles-IsStore parent now_ms ids =
      elim (Result-cases (Folders.parent_to_update s.folders parent)) [
        | inr (e, failed) ↦ rw (failed, batch_delete_subfiles) inv
        | inl (folder, taken) ↦
            let st = delete_subfiles ids ([], folder, s) in
            rw (taken, batch_delete_subfiles)
              (finish_batch-IsStore parent now_ms st.0 st.1 st.2 (
                delete_subfiles-IsStore parent ids [] folder s (taken-IsStore parent folder taken)))
      ]

  folder_deleted-IsStore :
      (id now_ms : ℕ) (t : FoldersTree) (removed : Bool)
      → Folders.delete_folder s.folders id now_ms ≡ ok (t, removed)
      → IsStore (record s { folders = t })
  folder_deleted-IsStore id now_ms t removed h = elim (delete_folder-cases s.folders id now_ms h) [
    | inl same_tree ↦ rw same_tree inv
    | inr d ↦
        let tree : IsTree t = delete_folder-IsTree s.folders id now_ms inv.tree h in
        let rest : FoldersTree = without s.folders id now_ms d.folder d.parent in
        let at : (j : ℕ)
            → Maps.get j rest ≡ (
                if j == id
                then none
                else if j == d.folder.parent
                then some (detach id now_ms d.parent)
                else Maps.get j s.folders) =
          get-rest s.folders id now_ms d.folder d.parent inv.tree d.not_root d.found d.bare
            d.found_parent in
        let same_files : (detach id now_ms d.parent).files ≡ d.parent.files =
          files-detach s.folders id now_ms d.folder d.parent inv.tree d.not_root d.found d.bare
            d.found_parent in
        let kept : IsStore (record s { folders = rest }) = record {
          tree = rw d.result at tree;
          linked = λ k c. ground (
            arith,
            d.found,
            d.bare_files,
            d.found_parent,
            same_files,
            at k,
            inv.linked k c,
            Sets.contains-nil {K = ℕ} c,
          );
          file_bound = inv.file_bound;
          folder_bound = λ j f e.
              ground
                (arith, d.found_parent, at j, inv.folder_bound j f, inv.folder_bound j d.parent);
          file_id_u32 = inv.file_id_u32;
          folder_id_u32 = inv.folder_id_u32;
          depth_u8 = inv.depth_u8;
        } in
        rw d.result kept
  ]

  delete_found-IsStore :
      (id now_ms : ℕ) (checker : FileMetadata V → Result Error (Unit {0})) (file : FileMetadata V)
      (removed : Bool) (s' : Store V)
      → Maps.get id s.files ≡ some file
      → delete_found id now_ms checker file s ≡ ok (removed, s')
      → IsStore s'
  unfolding delete_found drop_file
  delete_found-IsStore id now_ms checker file removed s' e h =
      elim (Result-cases (Folders.parent_to_update s.folders file.parent)) [
        | inr (x, failed) ↦ absurd (ground arith)
        | inl (parent, taken) ↦
            let found : Maps.get file.parent s.folders ≡ some parent =
              parent_to_update-found file.parent parent taken in
            let listed : Sets.contains id parent.files ≡ true =
              ground (arith, inv.linked file.parent id) in
            let stamped : FolderMetadata = record (unlist id parent) { updated_at = now_ms } in
            let s_eq : s' ≡ drop_file id file (with_folder file.parent stamped s) = ground arith in
            rw s_eq (
              with_folder-IsStore file.parent (unlist id parent) stamped (drop_file id file s) refl
                refl
                (drop_listed file.parent parent s id file (taken-IsStore file.parent parent taken)
                  listed))
      ]

  -- `delete_file` keeps the invariant of the store, whether it succeeds or fails.
  pub delete_file-IsStore :
      (id now_ms : ℕ) (checker : FileMetadata V → Result Error (Unit {0}))
      → IsStore (delete_file id now_ms checker s).1
  unfolding delete_file
  delete_file-IsStore id now_ms checker = elim (Option-cases (Maps.get id s.files)) [
    | inl e ↦ rw (e, delete_file) inv
    | inr (file, e) ↦ elim (Result-cases (delete_found id now_ms checker file s)) [
      | inr (x, failed) ↦ rw (e, delete_file) (rw failed inv)
      | inl ((b, s'), done) ↦
          rw (e, delete_file) (rw done (delete_found-IsStore id now_ms checker file b s' e done))
    ]
  ]

  may_delete_folder-found :
      (id : ℕ) (checker : FolderMetadata → Result Error (Unit {0})) (folder : FolderMetadata)
      → may_delete_folder id checker s ≡ ok folder
      → Folders.parent_to_update s.folders id ≡ ok folder
  unfolding may_delete_folder
  may_delete_folder-found id checker folder h = ground arith

module _ {V : Type 0} where
  finish_delete-IsStore :
      (id now_ms : ℕ) (folder : FolderMetadata) (s : Store V)
      → IsStore (with_folder id folder s)
      → IsStore (finish_delete id now_ms (folder, s)).1
  unfolding finish_delete
  finish_delete-IsStore id now_ms folder s inv =
      elim (Result-cases (Folders.delete_folder (with_folder id folder s).folders id now_ms)) [
        | inr (x, failed) ↦ rw (failed, finish_delete) inv
        | inl ((t, removed), done) ↦
            rw (done, finish_delete)
              (folder_deleted-IsStore (with_folder id folder s) inv id now_ms t removed done)
      ]

  -- `fs::delete_folder` keeps the invariant of the store, whether it succeeds or fails: also where
  -- it has deleted the folder's files and then refuses to delete the folder.
  pub delete_folder-IsStore :
      (id now_ms : ℕ) (checker : FolderMetadata → Result Error (Unit {0})) (s : Store V)
      → IsStore s
      → IsStore (Delete.delete_folder id now_ms checker s).1
  unfolding Delete.delete_folder
  delete_folder-IsStore id now_ms checker s inv =
      elim (Result-cases (may_delete_folder id checker s)) [
        | inr (x, failed) ↦ rw (failed, Delete.delete_folder) inv
        | inl (folder, taken) ↦
            let st = delete_all folder.files (folder, s) in
            rw (taken, Delete.delete_folder)
              (finish_delete-IsStore id now_ms st.0 st.1 (
                delete_all-IsStore id folder.files folder s
                  (taken-IsStore s inv id folder
                    (may_delete_folder-found s inv id checker folder taken))
                  (λ c h. inl h)))
      ]
