-- ===== src/Bucket/Fs/FileKeeps.antt =====
-- `fs::add_file` of src/ic_oss_bucket/src/store.rs, with the invariant of the store.
use ic_oss.Types.Ids.{Hash}
use ic_oss.Bucket.Folders.Shape.{SameLinks, SameLinks-IsTree}
use ic_oss.Base.{
  ℕ, ◌≡◌, ◌≢◌, ◌⊎◌, inl, inr, false, ◌||◌, none, some, arith, Map, map_laws, ◌==◌, Bool-cases,
  Option-cases, Result-cases, ok, u32_max, saturating_add_u32, nat_ord,
}
use ic_oss.Bucket.Fs.Invariant.{IsStore, lists, lies_in}
use ic_oss.Base.Maps
use ic_oss.Base.Sets
use ic_oss.Bucket.Folders
use ic_oss.Bucket.Folders.{FoldersTree, FolderMetadata, is_full, is_locked}
use ic_oss.Bucket.Fs.{FileMetadata, Store, add_file, index_hash}

module _ {V : Type 0} (s : Store V) (inv : IsStore s) where
  -- The next id of a file is not in use.
  file_id_fresh : Maps.get s.bucket.file_id s.files ≡ none
  file_id_fresh = elim (Option-cases (Maps.get s.bucket.file_id s.files)) [
    | inl e ↦ e
    | inr (f, e) ↦ absurd (omega (arith, inv.file_bound s.bucket.file_id f e))
  ]

module _ {V : Type 0} where
  abbrev stored : FileMetadata V → FolderMetadata → Map Hash ℕ → Store V → Store V
  stored metadata parent hashs s = record s {
    bucket = record s.bucket { file_id = saturating_add_u32 s.bucket.file_id 1 };
    hashs = hashs;
    folders =
        Maps.put metadata.parent
          (record parent { files = Sets.insert s.bucket.file_id parent.files }) s.folders;
    files = Maps.put s.bucket.file_id metadata s.files;
  }

  pub record Stored (metadata : FileMetadata V) (s s' : Store V) : Type 0 where
    pub parent : FolderMetadata
    pub found : Maps.get metadata.parent s.folders ≡ some parent
    pub room : is_full metadata.parent parent s.bucket.max_children ≡ false
    pub hashs : Map Hash ℕ
    pub indexed :
        index_hash s.bucket.enable_hash_index metadata.hash s.bucket.file_id s.hashs ≡ ok hashs
    pub below_max : s.bucket.file_id ≢ u32_max
    pub result : s' ≡ stored metadata parent hashs s

  -- A failure changes nothing; a success has found a parent with room.
  pub add_file-cases :
      (metadata : FileMetadata V) (s : Store V)
      → ((add_file metadata s).1 ≡ s) ⊎ Stored metadata s (add_file metadata s).1
  unfolding add_file Folders.parent_to_add_file
  add_file-cases metadata s = elim (Option-cases (Maps.get metadata.parent s.folders)) [
    | inl e ↦ inl (ground arith)
    | inr (p, e) ↦
        elim (Result-cases
          (index_hash s.bucket.enable_hash_index metadata.hash s.bucket.file_id s.hashs)) [
            | inr (x, e') ↦ inl (ground arith)
            | inl (h, e') ↦
                elim (Bool-cases (
                  s.bucket.file_id == u32_max
                  || (is_locked p || is_full metadata.parent p s.bucket.max_children))) [
                    | inl bad ↦ inl (ground arith)
                    | inr good ↦ inr (record {
                      parent = p;
                      found = e;
                      room = ground arith;
                      hashs = h;
                      indexed = e';
                      below_max = ground arith;
                      result = ground arith;
                    })
                  ]
          ]
  ]

module _ {V : Type 0} (s : Store V) (inv : IsStore s) (metadata : FileMetadata V)
    (parent : FolderMetadata) (hashs : Map Hash ℕ)
    (found : Maps.get metadata.parent s.folders ≡ some parent)
    (below_max : s.bucket.file_id ≢ u32_max) where
  abbrev next : Store V
  next = stored metadata parent hashs s

  links-stored : SameLinks s.folders next.folders
  links-stored j = simp map_laws (ground arith)

  linked-stored : (k c : ℕ) → lists next.folders k c ≡ lies_in next.files k c
  linked-stored k c = ground (
    arith,
    inv.linked k c,
    file_id_fresh s inv,
    Sets.contains-insert c s.bucket.file_id parent.files,
    Maps.get-put k metadata.parent
        (record parent { files = Sets.insert s.bucket.file_id parent.files }) s.folders,
    Maps.get-put c s.bucket.file_id metadata s.files,
  )

  stored-IsStore : IsStore next
  stored-IsStore = record {
    tree = SameLinks-IsTree s.folders next.folders links-stored inv.tree;
    linked = linked-stored;
    file_bound = λ id f e. ground (
      arith,
      inv.file_bound id f,
      Maps.get-put id s.bucket.file_id metadata s.files,
      inv.file_id_u32,
    );
    folder_bound = λ id f e. ground (
      arith,
      inv.folder_bound id f,
      inv.folder_bound id parent,
      Maps.get-put id metadata.parent
          (record parent { files = Sets.insert s.bucket.file_id parent.files }) s.folders,
    );
    file_id_u32 = omega arith;
    folder_id_u32 = inv.folder_id_u32;
    depth_u8 = inv.depth_u8;
  }

-- `add_file` keeps the invariant of the store, whether it succeeds or fails: the folder tree, the
-- agreement of the folders' sets of files with the files' parents, and the bounds on ids.
pub add_file-IsStore :
    {V : Type 0} (metadata : FileMetadata V) (s : Store V)
    → IsStore s
    → IsStore (add_file metadata s).1
add_file-IsStore metadata s inv = elim (add_file-cases metadata s) [
  | inl unchanged ↦ rw unchanged inv
  | inr st ↦ rw st.result (stored-IsStore s inv metadata st.parent st.hashs st.found st.below_max)
]
