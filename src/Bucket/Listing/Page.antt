-- ===== src/Bucket/Listing/Page.antt =====
-- A page of `list_folders` and `list_files` of src/ic_oss_bucket/src/store.rs.
use ic_oss.Bucket.Listing.Order.{
  take, IsAscending, IsDescending, below_reversed-IsDescending, contains-below_reversed,
  take-IsDescending, length-take, contains-take, take_complete,
}
use ic_oss.Bucket.Access.{Context}
use ic_oss.Bucket.Fs.{Store}
use ic_oss.Bucket.Folders.{FoldersTree, FolderMetadata}
use ic_oss.Bucket.Folders.Shape.{IsTree}
use ic_oss.Bucket.Fs.Invariant.{IsStore}
use ic_oss.Bucket.Listing.{
  below_reversed, list_loop, is_hidden, find_folder, list_folders, find_file, list_files,
  folder_info, file_info, FolderInfo, FileInfo,
}
use ic_oss.Base.{
  ℕ, zero, suc, ◌+◌, ◌-◌, ◌≤◌, ◌<◌, max, ◌≡◌, refl, sym, ap, ◌⊎◌, inl, inr, true, false, Option,
  some, List, [], ◌∷◌, map, arith, map_option, leb, Bool-cases, Option-cases, length, All,
  same_refl, nat_ord,
}
use ic_oss.Base.Maps
use ic_oss.Base.Sets

take-nil {ℓ} : {A : Type ℓ} (n : ℕ) → take {A = A} n [] ≡ []
take-nil zero = refl
take-nil (suc n) = refl

module _ {ℓ} {F : Type ℓ} (find : ℕ → Option F) (id_of : F → ℕ) (size : ℕ) where
  map-list_loop :
      (taken : ℕ) (ids : List ℕ)
      → taken < max size 1
      → ((id : ℕ) → Sets.contains id ids ≡ true → (f : F) × (find id ≡ some f) × (id_of f ≡ id))
      → map id_of (list_loop find size taken ids) ≡ take (max size 1 - taken) ids
  unfolding list_loop Sets.contains
  map-list_loop taken [] h all = sym (take-nil (max size 1 - taken))
  map-list_loop taken (id ∷ ids) h all =
      let (f, e, id_eq) = all id (ground (arith, same_refl id)) in
      elim (Bool-cases (leb size (taken + 1))) [
        | inl last ↦
            let one_left : max size 1 - taken ≡ 1 = ground arith in
            rw one_left (ground (arith, e, id_eq))
        | inr more ↦
            let left : max size 1 - taken ≡ suc (max size 1 - (taken + 1)) = ground arith in
            rw left (
              ground (
                arith,
                e,
                id_eq,
                map-list_loop (taken + 1) ids (ground arith) (λ j h. all j (ground arith)),
              ))
      ]

in_set :
    (x end : ℕ) (s : List ℕ)
    → Sets.contains x (below_reversed end s) ≡ true
    → Sets.contains x s ≡ true
in_set x end s h = ground (arith, contains-below_reversed x end s, h)

listed_folder :
    (t : FoldersTree) (parent prev : ℕ) (p : FolderMetadata)
    → IsTree t
    → Maps.get parent t ≡ some p
    → (id : ℕ) → Sets.contains id (below_reversed prev p.folders) ≡ true
    → (info : FolderInfo) × (find_folder t id ≡ some info) × (info.id ≡ id)
unfolding find_folder
listed_folder t parent prev p tree found id h =
    let (f, nz, e, _) = tree.down parent id p found (in_set id prev p.folders h) in
    (folder_info id f, ap (map_option (folder_info id)) e, refl)

listed_file :
    {V : Type 0} (s : Store V) (parent prev : ℕ) (p : FolderMetadata)
    → IsStore s
    → Maps.get parent s.folders ≡ some p
    → (id : ℕ) → Sets.contains id (below_reversed prev p.files) ≡ true
    → (info : FileInfo V) × (find_file s.files id ≡ some info) × (info.id ≡ id)
unfolding find_file
listed_file s parent prev p inv found id h = elim (Option-cases (Maps.get id s.files)) [
  | inl e ↦ absurd (ground (arith, found, inv.linked parent id, in_set id prev p.files h))
  | inr (f, e) ↦ (file_info id f, ap (map_option (file_info id)) e, refl)
]

-- The ids of a page of `members`: they are members below `prev`, in descending order, at most as many
-- as were asked for, or one where none was; and a member below `prev` that is not among them is
-- lower than them all, and then the page is full.
pub record IsPage (members : List ℕ) (prev size : ℕ) (ids : List ℕ) : Type 0 where
  pub within :
      (id : ℕ) → Sets.contains id ids ≡ true → (id < prev) × (Sets.contains id members ≡ true)
  pub descending : IsDescending ids
  pub bounded : length ids ≤ max size 1
  pub complete :
      (id : ℕ)
      → id < prev
      → Sets.contains id members ≡ true
      → (Sets.contains id ids ≡ true) ⊎ ((length ids ≡ max size 1) × All (λ other. id < other) ids)

take-IsPage :
    (members : List ℕ) (prev size : ℕ)
    → IsAscending members
    → IsPage members prev size (take (max size 1) (below_reversed prev members))
take-IsPage members prev size ascending =
    let below = below_reversed prev members in
    let descending = below_reversed-IsDescending prev members ascending in
    record {
      within = λ id h.
          let there = contains-take id (max size 1) below h in
          (
            ground (arith, there, contains-below_reversed id prev members),
            in_set id prev members there,
          );
      descending = take-IsDescending (max size 1) below descending;
      bounded = length-take (max size 1) below;
      complete = λ id small member.
          take_complete id (max size 1) below descending
            (ground (arith, small, member, contains-below_reversed id prev members));
    }

-- A page of the folders in a folder that is not hidden, in a tree, where the set of its folders is
-- in ascending order: the page's ids are those of its folders below `prev`, from the highest on, as
-- many as were asked for, but at least one where there is one.
pub list_folders-IsPage :
    (t : FoldersTree) (ctx : Context) (parent prev size : ℕ) (p : FolderMetadata)
    → IsTree t
    → Maps.get parent t ≡ some p
    → is_hidden p ctx ≡ false
    → IsAscending p.folders
    → IsPage p.folders prev size (map (λ info. info.id) (list_folders t ctx parent prev size))
unfolding list_folders
list_folders-IsPage t ctx parent prev size p tree found shown ascending =
    let ids : map (λ info. info.id) (list_folders t ctx parent prev size)
        ≡ take (max size 1) (below_reversed prev p.folders) =
      ground (
        arith,
        found,
        shown,
        map-list_loop (find_folder t) (λ info. info.id) size 0 (below_reversed prev p.folders)
            (omega arith) (listed_folder t parent prev p tree found),
      ) in
    rw (ids) (take-IsPage p.folders prev size ascending)

-- A page of the files in a folder that is not hidden, where the folders and the files agree and the
-- set of the folder's files is in ascending order: the page's ids are those of its files below
-- `prev`, from the highest on, as many as were asked for, but at least one where there is one.
pub list_files-IsPage :
    {V : Type 0} (s : Store V) (ctx : Context) (parent prev size : ℕ) (p : FolderMetadata)
    → IsStore s
    → Maps.get parent s.folders ≡ some p
    → is_hidden p ctx ≡ false
    → IsAscending p.files
    → IsPage p.files prev size
        (map (λ info. info.id) (list_files s.folders ctx s.files parent prev size))
unfolding list_files
list_files-IsPage s ctx parent prev size p inv found shown ascending =
    let ids : map (λ info. info.id) (list_files s.folders ctx s.files parent prev size)
        ≡ take (max size 1) (below_reversed prev p.files) =
      ground (
        arith,
        found,
        shown,
        map-list_loop (find_file s.files) (λ info. info.id) size 0 (below_reversed prev p.files)
            (omega arith) (listed_file s parent prev p inv found),
      ) in
    rw (ids) (take-IsPage p.files prev size ascending)
