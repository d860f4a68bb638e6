-- ===== src/Bucket/Fs/DropKeeps.antt =====
-- The steps of the loops that delete files, in the module `fs` of
-- src/ic_oss_bucket/src/store.rs, with the invariant of the store.

use ic_oss.Base.{
  ℕ, ◌≡◌, ◌⊎◌, inl, inr, true, none, List, [], ◌∷◌, arith, Bool-cases, Option-cases, int_lt, pos,
  nat_ord,
}
use ic_oss.Bucket.Folders.Shape.{SameLinks-IsTree, links}
use ic_oss.Bucket.Fs.Invariant.{IsStore, IsStore-of_folders}
use ic_oss.Bucket.Fs.Delete.{
  drop_file, unlist, delete_listed, delete_all, delete_subfile, delete_subfiles,
}
use ic_oss.Base.Maps
use ic_oss.Base.Sets
use ic_oss.Bucket.Folders.{FolderMetadata}
use ic_oss.Bucket.Fs.{FileMetadata, Store}

-- The state with a folder that has been taken out for a change.
abbrev pub with_folder : {V : Type 0} → ℕ → FolderMetadata → Store V → Store V
with_folder id folder s = record s { folders = Maps.put id folder s.folders }

module _ {V : Type 0} (k : ℕ) (folder : FolderMetadata) (s : Store V) where
  -- A listed file is dropped, and taken off its folder.
  pub drop_listed :
      (id : ℕ) (file : FileMetadata V)
      → IsStore (with_folder k folder s)
      → Sets.contains id folder.files ≡ true
      → IsStore (with_folder k (unlist id folder) (drop_file id file s))
  unfolding drop_file
  drop_listed id file inv listed = record {
    tree =
        SameLinks-IsTree (with_folder k folder s).folders (Maps.put k (unlist id folder) s.folders)
          (λ j. ground (
            arith,
            Maps.get-put j k folder s.folders,
            Maps.get-put j k (unlist id folder) s.folders,
          ))
          inv.tree;
    linked = λ j c. ground (
      arith,
      inv.linked j c,
      inv.linked k c,
      Maps.get-put j k folder s.folders,
      Maps.get-put k k folder s.folders,
      Maps.get-put j k (unlist id folder) s.folders,
      Sets.contains-remove c id folder.files,
      Maps.get-erase c id s.files,
    );
    file_bound = λ j f e. ground (arith, inv.file_bound j f, Maps.get-erase j id s.files);
    folder_bound = λ j f e. ground (
      arith,
      inv.folder_bound j f,
      inv.folder_bound k folder,
      Maps.get-put j k folder s.folders,
      Maps.get-put j k (unlist id folder) s.folders,
    );
    file_id_u32 = inv.file_id_u32;
    folder_id_u32 = inv.folder_id_u32;
    depth_u8 = inv.depth_u8;
  }

  -- A file that is not there is taken off its folder.
  pub unlist_missing :
      (id : ℕ)
      → IsStore (with_folder k folder s)
      → Maps.get id s.files ≡ none
      → IsStore (with_folder k (unlist id folder) s)
  unlist_missing id inv missing = record {
    tree =
        SameLinks-IsTree (with_folder k folder s).folders (Maps.put k (unlist id folder) s.folders)
          (λ j. ground (
            arith,
            Maps.get-put j k folder s.folders,
            Maps.get-put j k (unlist id folder) s.folders,
          ))
          inv.tree;
    linked = λ j c. ground (
      arith,
      inv.linked j c,
      Maps.get-put j k folder s.folders,
      Maps.get-put j k (unlist id folder) s.folders,
      Sets.contains-remove c id folder.files,
    );
    file_bound = inv.file_bound;
    folder_bound = λ j f e. ground (
      arith,
      inv.folder_bound j f,
      inv.folder_bound k folder,
      Maps.get-put j k folder s.folders,
      Maps.get-put j k (unlist id folder) s.folders,
    );
    file_id_u32 = inv.file_id_u32;
    folder_id_u32 = inv.folder_id_u32;
    depth_u8 = inv.depth_u8;
  }

-- Each of the ids is listed by the folder, or no file.
abbrev pub Covered : {V : Type 0} → List ℕ → FolderMetadata → Store V → Type 0
Covered ids folder s =
    (c : ℕ)
    → Sets.contains c ids ≡ true
    → (Sets.contains c folder.files ≡ true) ⊎ (Maps.get c s.files ≡ none)

module _ {V : Type 0} (k : ℕ) where
  pub delete_listed-IsStore :
      (id : ℕ) (folder : FolderMetadata) (s : Store V)
      → IsStore (with_folder k folder s)
      → (Sets.contains id folder.files ≡ true) ⊎ (Maps.get id s.files ≡ none)
      → let (folder', s') = delete_listed id (folder, s) in IsStore (with_folder k folder' s')
  unfolding delete_listed
  delete_listed-IsStore id folder s inv covered = elim (Option-cases (Maps.get id s.files)) [
    | inl e ↦ rw (e, delete_listed) (unlist_missing k folder s id inv e)
    | inr (file, e) ↦ elim (Bool-cases (int_lt file.status (pos 1))) [
      | inr stays ↦ rw (e, delete_listed) (rw stays inv)
      | inl goes ↦
          let listed : Sets.contains id folder.files ≡ true = ground arith in
          rw (e, delete_listed) (rw goes (drop_listed k folder s id file inv listed))
    ]
  ]

  pub delete_listed-Covered :
      (id : ℕ) (ids : List ℕ) (folder : FolderMetadata) (s : Store V)
      → Covered (id ∷ ids) folder s
      → let (folder', s') = delete_listed id (folder, s) in Covered ids folder' s'
  unfolding delete_listed drop_file Sets.contains
  delete_listed-Covered id ids folder s covered c h =
      ground (arith, covered c, Sets.contains-remove c id folder.files, Maps.get-erase c id s.files)

  pub delete_all-IsStore :
      (ids : List ℕ) (folder : FolderMetadata) (s : Store V)
      → IsStore (with_folder k folder s)
      → Covered ids folder s
      → let (folder', s') = delete_all ids (folder, s) in IsStore (with_folder k folder' s')
  unfolding delete_all
  delete_all-IsStore [] folder s inv covered = inv
  delete_all-IsStore (id ∷ ids) folder s inv covered =
      delete_all-IsStore ids (delete_listed id (folder, s)).0 (delete_listed id (folder, s)).1
        (delete_listed-IsStore id folder s inv (covered id (unfold Sets.contains in ground arith)))
        (delete_listed-Covered id ids folder s covered)

  -- Another folder with the same links and files may be put back.
  pub with_folder-IsStore :
      (folder folder' : FolderMetadata) (s : Store V)
      → links folder' ≡ links folder
      → folder'.files ≡ folder.files
      → IsStore (with_folder k folder s)
      → IsStore (with_folder k folder' s)
  with_folder-IsStore folder folder' s same_links same_files inv =
      IsStore-of_folders (with_folder k folder s) (Maps.put k folder' s.folders)
        (λ j. ground (arith, Maps.get-put j k folder s.folders, Maps.get-put j k folder' s.folders))
        (SameLinks-IsTree (with_folder k folder s).folders (Maps.put k folder' s.folders)
          (λ j.
            ground (arith, Maps.get-put j k folder s.folders, Maps.get-put j k folder' s.folders))
          inv.tree)
        inv

  pub delete_subfile-IsStore :
      (id : ℕ) (removed : List ℕ) (folder : FolderMetadata) (s : Store V)
      → IsStore (with_folder k folder s)
      → let (removed', folder', s') = delete_subfile id (removed, folder, s) in
        IsStore (with_folder k folder' s')
  unfolding delete_subfile
  delete_subfile-IsStore id removed folder s inv =
      elim (Bool-cases (Sets.contains id folder.files)) [
        | inr other ↦ rw (other, delete_subfile) inv
        | inl listed ↦ elim (Option-cases (Maps.get id s.files)) [
          | inl e ↦
              rw (listed, delete_subfile)
                (rw (e, delete_subfile) (unlist_missing k folder s id inv e))
          | inr (file, e) ↦ elim (Bool-cases (int_lt file.status (pos 1))) [
            | inr stays ↦ rw (listed, delete_subfile) (rw (e, delete_subfile) (rw stays inv))
            | inl goes ↦
                rw (listed, delete_subfile)
                  (rw (e, delete_subfile) (rw goes (drop_listed k folder s id file inv listed)))
          ]
        ]
      ]

  pub delete_subfiles-IsStore :
      (ids removed : List ℕ) (folder : FolderMetadata) (s : Store V)
      → IsStore (with_folder k folder s)
      → let (removed', folder', s') = delete_subfiles ids (removed, folder, s) in
        IsStore (with_folder k folder' s')
  unfolding delete_subfiles
  delete_subfiles-IsStore [] removed folder s inv = inv
  delete_subfiles-IsStore (id ∷ ids) removed folder s inv =
      delete_subfiles-IsStore ids (delete_subfile id (removed, folder, s)).0
        (delete_subfile id (removed, folder, s)).1 (delete_subfile id (removed, folder, s)).2
        (delete_subfile-IsStore id removed folder s inv)
