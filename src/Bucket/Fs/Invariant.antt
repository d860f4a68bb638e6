-- ===== src/Bucket/Fs/Invariant.antt =====
-- The invariant that ties the folders to the files.
use ic_oss.Base.{
  ℕ, ◌≤◌, ◌<◌, ◌≡◌, inl, inr, Bool, false, none, some, arith, Map, map_option, ◌==◌, Option-cases,
  u32_max, nat_ord,
}
use ic_oss.Bucket.Folders.Shape.{IsTree}
use ic_oss.Base.Maps
use ic_oss.Base.Sets
use ic_oss.Bucket.Folders.{FoldersTree, FolderMetadata}
use ic_oss.Bucket.Fs.{FileMetadata, Store}

-- Folder `k` is there and lists file `c`.
abbrev pub lists : FoldersTree → ℕ → ℕ → Bool
lists t k c = elim (Maps.get k t) [ none ↦ false | some p ↦ Sets.contains c p.files ]

module _ {V : Type 0} where
  -- File `c` is there and has the parent `k`.
  abbrev pub lies_in : Map ℕ (FileMetadata V) → ℕ → ℕ → Bool
  lies_in files k c = elim (Maps.get c files) [ none ↦ false | some f ↦ f.parent == k ]

  pub record IsStore (s : Store V) : Type 0 where
    -- The folders form a tree.
    pub tree : IsTree s.folders
    -- A folder lists the files whose parent it is, and no others.
    pub linked : (k c : ℕ) → lists s.folders k c ≡ lies_in s.files k c
    -- The ids in use lie below the counters.
    pub file_bound :
        (id : ℕ) (f : FileMetadata V) → Maps.get id s.files ≡ some f → id < s.bucket.file_id
    pub folder_bound :
        (id : ℕ) (f : FolderMetadata) → Maps.get id s.folders ≡ some f → id < s.bucket.folder_id
    -- The counters are `u32`.
    pub file_id_u32 : s.bucket.file_id ≤ u32_max
    pub folder_id_u32 : s.bucket.folder_id ≤ u32_max
    -- The depth limit is a `u8`.
    pub depth_u8 : s.bucket.max_folder_depth < 256

  -- Other folders with the same files, in a tree.
  pub IsStore-of_folders :
      (s : Store V) (t : FoldersTree)
      → ((j : ℕ)
          → map_option (λ f. f.files) (Maps.get j t)
            ≡ map_option (λ f. f.files) (Maps.get j s.folders))
      → IsTree t
      → IsStore s
      → IsStore (record s { folders = t })
  IsStore-of_folders s t same_files tree inv = record {
    tree = tree;
    linked = λ k c. ground (arith, same_files k, inv.linked k c);
    file_bound = inv.file_bound;
    folder_bound = λ id f e. elim (Option-cases (Maps.get id s.folders)) [
      | inl e' ↦ absurd (ground (arith, same_files id))
      | inr (g, e') ↦ inv.folder_bound id g e'
    ];
    file_id_u32 = inv.file_id_u32;
    folder_id_u32 = inv.folder_id_u32;
    depth_u8 = inv.depth_u8;
  }
