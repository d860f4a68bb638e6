-- ===== src/Tests/Folders.antt =====
-- Runs of the folder tree of src/ic_oss_bucket/src/store.rs, and its theorems at a tree of three
-- folders.
use ic_oss.Bucket.Folders.Ancestors.{ancestors_map-chain, chain}
use ic_oss.Base.{
  ℕ, ◌≤◌, min, ◌≡◌, refl, true, some, [], ◌∷◌, map, arith, length, pos, Result, ok, err, nat_ord,
}
use ic_oss.Bucket.Folders.Climb.{Climbs}
use ic_oss.Bucket.Folders.Shape.{new-IsTree, IsTree}
use ic_oss.Bucket.Folders.Deleting.{delete_folder-IsTree}
use ic_oss.Bucket.Folders.Adding.{add_folder-IsTree}
use ic_oss.Bucket.Folders.MoveKeeps.{move_folder-IsTree, move_folder-depth}
use ic_oss.Base.Maps
use ic_oss.Base.Sets
use ic_oss.Bucket.Error.{Error}
use ic_oss.Bucket.Folders.{
  FoldersTree, FolderMetadata, new, add_folder, move_folder, check_moving_folder, delete_folder,
  depth, depth_loop, ancestor_loop, depth_or_is_ancestor, parent_to_update, depth_limit,
  ancestors_map, FolderName,
}

abbrev folder_in : ℕ → FolderMetadata
folder_in parent = record {
  parent = parent;
  name = 97 ∷ [];
  files = [];
  folders = [];
  created_at = 1;
  updated_at = 1;
  status = pos 0;
}

abbrev or_new : Result Error FoldersTree → FoldersTree
or_new (ok t) = t
or_new (err e) = new

-- Folder 1 in the root.
abbrev one : FoldersTree
one =
    (
      0,
      record (folder_in 0) {
        name = 114 ∷ 111 ∷ 111 ∷ 116 ∷ [];
        created_at = 0;
        updated_at = 0;
        folders = 1 ∷ [];
      },
    )
    ∷ (1, folder_in 0)
    ∷ []

-- Folders 1 and 2 in the root.
abbrev two : FoldersTree
two =
    (
      0,
      record (folder_in 0) {
        name = 114 ∷ 111 ∷ 111 ∷ 116 ∷ [];
        created_at = 0;
        updated_at = 0;
        folders = 1 ∷ 2 ∷ [];
      },
    )
    ∷ (1, folder_in 0)
    ∷ (2, folder_in 0)
    ∷ []

adds_one : add_folder new (folder_in 0) 1 10 100 ≡ ok one
unfolding add_folder depth depth_loop Maps.get Maps.put Sets.insert
adds_one = refl

adds_two : add_folder one (folder_in 0) 2 10 100 ≡ ok two
unfolding add_folder depth depth_loop Maps.get Maps.put Sets.insert
adds_two = refl

one-IsTree : IsTree one
one-IsTree = add_folder-IsTree new (folder_in 0) 1 10 100 new-IsTree refl adds_one

add_folder-IsTree_example : IsTree two
add_folder-IsTree_example = add_folder-IsTree one (folder_in 0) 2 10 100 one-IsTree refl adds_two

check_passes : check_moving_folder two 2 0 1 10 100 ≡ ok tt
unfolding check_moving_folder depth_or_is_ancestor ancestor_loop Maps.get
check_passes = refl

move_folder-IsTree_example : IsTree (move_folder two 2 0 1 5)
move_folder-IsTree_example =
    move_folder-IsTree two 2 0 1 10 100 5 add_folder-IsTree_example (omega arith) check_passes

move_folder-depth_example : (n : ℕ) × Climbs (move_folder two 2 0 1 5) n 2 × (n ≤ 10)
move_folder-depth_example =
    move_folder-depth two 2 0 1 10 100 5 add_folder-IsTree_example (omega arith) check_passes

deletes :
    delete_folder one 1 7
    ≡ ok (
      ((
        0,
        record (folder_in 0) { name = 114 ∷ 111 ∷ 111 ∷ 116 ∷ []; created_at = 0; updated_at = 7 },
      )
          ∷ []),
      true,
    )
unfolding delete_folder parent_to_update Maps.get Maps.put Maps.erase Sets.contains Sets.remove
deletes = refl

delete_folder-IsTree_example : IsTree (
    (0, record (folder_in 0) { name = 114 ∷ 111 ∷ 111 ∷ 116 ∷ []; created_at = 0; updated_at = 7 })
    ∷ [])
delete_folder-IsTree_example = delete_folder-IsTree one 1 7 one-IsTree deletes

found_two : Maps.get 2 two ≡ some (folder_in 0)
unfolding Maps.get
found_two = refl

abbrev names : ℕ → FolderMetadata → FolderName
names id folder = record { id = id; name = folder.name }

ancestors_map-chain_example :
    (n : ℕ) × (c : Climbs two n 2) × (ancestors_map two 2 names
      ≡ some (map (λ e. names e.0 e.1) (chain two n 2 c)))
    × (length (chain two n 2 c) ≡ n)
    × (depth two 2 ≡ min n depth_limit)
ancestors_map-chain_example =
    ancestors_map-chain names two 2 (folder_in 0) add_folder-IsTree_example found_two
