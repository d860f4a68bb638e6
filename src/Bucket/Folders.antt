-- ===== src/Bucket/Folders.antt =====
-- `FoldersTree` of src/ic_oss_bucket/src/store.rs: folders by id, each with its parent's id and
-- the sets of its sub-folders and files. Folder 0 is the root.
pub mod Climb
pub mod Shape
pub mod Adding
pub mod Moving
pub mod Moved
pub mod MoveKeeps
pub mod Deleting
pub mod Ancestors
use ic_oss.Base.{
  ℕ, zero, suc, ◌+◌, Bool, true, false, not, ◌&&◌, Option, none, some, List, [], ◌∷◌, Map, is_some,
  Set, ltb, leb, ◌==◌, if◌then◌else◌, length, is_empty, Text, int_lt, int_eq, ℤ, pos, ◌>>=◌, ◌>>◌,
  fail_if, ok_or, Result, ok, nat_ord,
}
use ic_oss.Base.Maps
use ic_oss.Base.Sets
use ic_oss.Bucket.Error.{
  Error, folder_exists, folder_depth_exceeds, parent_not_found, parent_not_writable,
  children_exceeds, root_cannot_be_moved, target_is_source, folder_not_found, folder_not_in,
  folder_not_writable, moved_into_sub_folder, root_cannot_be_deleted, folder_readonly,
  folder_not_empty,
}

pub record FolderMetadata : Type 0 where
  pub parent : ℕ
  pub name : Text
  pub files : Set ℕ
  pub folders : Set ℕ
  pub created_at : ℕ
  pub updated_at : ℕ
  pub status : ℤ

pub record FolderName : Type 0 where
  pub id : ℕ
  pub name : Text

abbrev pub FoldersTree : Type 0
FoldersTree = Map ℕ FolderMetadata

-- `FoldersTree::new()`
abbrev pub new : FoldersTree
new =
    (
      0,
      record {
        parent = 0;
        name = 114 ∷ 111 ∷ 111 ∷ 116 ∷ [];
        files = [];
        folders = [];
        created_at = 0;
        updated_at = 0;
        status = pos 0;
      },
    )
    ∷ []

-- The loop of `depth`, with the rounds that are left of its hard limit.
unfoldable pub depth_loop : ℕ → FoldersTree → ℕ → ℕ → ℕ
depth_loop zero t id depth = depth
depth_loop (suc rounds) t id depth = elim (id == 0) [
  | true ↦ depth
  | false ↦ elim (Maps.get id t) [
    | none ↦ depth
    | some folder ↦ depth_loop rounds t folder.parent (depth + 1)
  ]
]

abbrev pub depth_limit : ℕ
depth_limit = 1024

unfoldable pub depth : FoldersTree → ℕ → ℕ
depth t id = depth_loop depth_limit t id 0

-- The loop of `depth_or_is_ancestor`.
unfoldable pub ancestor_loop : ℕ → FoldersTree → ℕ → ℕ → ℕ → ℕ × Bool
ancestor_loop zero t id parent depth = (depth, parent == 0)
ancestor_loop (suc rounds) t id parent depth = elim (id == 0) [
  | true ↦ (depth, parent == 0)
  | false ↦ elim (id == parent) [
    | true ↦ (depth, true)
    | false ↦ elim (Maps.get id t) [
      | none ↦ (depth, parent == 0)
      | some folder ↦ ancestor_loop rounds t folder.parent parent (depth + 1)
    ]
  ]
]

unfoldable pub depth_or_is_ancestor : FoldersTree → ℕ → ℕ → ℕ × Bool
depth_or_is_ancestor t id parent = ancestor_loop depth_limit t id parent 0

-- The loop of `ancestors` and `ancestors_map`, which has no limit of its own. `none` means that it
-- has not ended after the given rounds.
module _ {ℓ} {U : Type ℓ} where
  unfoldable pub ancestors_loop : ℕ → FoldersTree → ℕ → (ℕ → FolderMetadata → U) → Option (List U)
  ancestors_loop zero t parent f = elim (parent == 0) [ true ↦ some [] | false ↦ none ]
  ancestors_loop (suc rounds) t parent f = elim (parent == 0) [
    | true ↦ some []
    | false ↦ elim (Maps.get parent t) [
      | none ↦ some []
      | some folder ↦ elim (ancestors_loop rounds t folder.parent f) [
        | none ↦ none
        | some rest ↦ some (f parent folder ∷ rest)
      ]
    ]
  ]

  -- One round for each folder.
  unfoldable pub ancestors_map : FoldersTree → ℕ → (ℕ → FolderMetadata → U) → Option (List U)
  ancestors_map t parent f = ancestors_loop (length t) t parent f

unfoldable pub ancestors : FoldersTree → ℕ → Option (List FolderName)
ancestors t parent = ancestors_map t parent (λ id folder. record { id = id; name = folder.name })

-- `status != 0`
abbrev pub is_locked : FolderMetadata → Bool
is_locked folder = not (int_eq folder.status (pos 0))

abbrev pub children : FolderMetadata → ℕ
children folder = length folder.folders + length folder.files

-- The children's limit, which the root is free of.
abbrev pub is_full : ℕ → FolderMetadata → ℕ → Bool
is_full id folder max_children = ltb 0 id && leb max_children (children folder)

unfoldable pub add_folder : FoldersTree → FolderMetadata → ℕ → ℕ → ℕ → Result Error FoldersTree
add_folder t metadata id max_folder_depth max_children = do
  fail_if (is_some (Maps.get id t)) (folder_exists id)
  fail_if (leb max_folder_depth (depth t metadata.parent)) folder_depth_exceeds
  parent ← ok_or (Maps.get metadata.parent t) (parent_not_found metadata.parent)
  fail_if (is_locked parent) parent_not_writable
  fail_if (is_full metadata.parent parent max_children) children_exceeds
  ok (
      Maps.put id metadata
        (Maps.put metadata.parent (record parent { folders = Sets.insert id parent.folders }) t))

unfoldable pub parent_to_update : FoldersTree → ℕ → Result Error FolderMetadata
parent_to_update t parent = do
  folder ← ok_or (Maps.get parent t) (parent_not_found parent)
  fail_if (is_locked folder) parent_not_writable
  ok folder

unfoldable pub parent_to_add_file : FoldersTree → ℕ → ℕ → Result Error FolderMetadata
parent_to_add_file t parent max_children = do
  folder ← ok_or (Maps.get parent t) (parent_not_found parent)
  fail_if (is_locked folder) parent_not_writable
  fail_if (is_full parent folder max_children) children_exceeds
  ok folder

-- A folder that has to be there and writable.
writable : FoldersTree → ℕ → Result Error FolderMetadata
writable t id = do
  folder ← ok_or (Maps.get id t) (folder_not_found id)
  fail_if (is_locked folder) (folder_not_writable id)
  ok folder

unfoldable pub check_moving_folder : FoldersTree → ℕ → ℕ → ℕ → ℕ → ℕ → Result Error (Unit {0})
unfolding writable
check_moving_folder t id from to max_folder_depth max_children = do
  fail_if (id == 0) root_cannot_be_moved
  fail_if (from == to) (target_is_source from)
  folder ← ok_or (Maps.get id t) (folder_not_found id)
  fail_if (not (folder.parent == from)) (folder_not_in id from)
  fail_if (is_locked folder) (folder_not_writable id)
  from_folder ← writable t from
  to_folder ← writable t to
  fail_if (is_full to to_folder max_children) children_exceeds
  let found = depth_or_is_ancestor t to id
  fail_if found.1 moved_into_sub_folder
  fail_if (leb max_folder_depth found.0) folder_depth_exceeds
  ok tt

unfoldable pub move_folder : FoldersTree → ℕ → ℕ → ℕ → ℕ → FoldersTree
move_folder t id from to now_ms =
    Maps.modify id (λ folder. record folder { parent = to; updated_at = now_ms })
      (Maps.modify to
        (λ folder. record folder { folders = Sets.insert id folder.folders; updated_at = now_ms })
        (Maps.modify from
          (λ folder. record folder { folders = Sets.remove id folder.folders; updated_at = now_ms })
          t))

unfoldable pub check_moving_file : FoldersTree → ℕ → ℕ → ℕ → Result Error (Unit {0})
unfolding writable
check_moving_file t from to max_children = do
  fail_if (from == to) (target_is_source from)
  from_folder ← writable t from
  to_folder ← writable t to
  fail_if (is_full to to_folder max_children) children_exceeds
  ok tt

unfoldable pub move_file : FoldersTree → ℕ → ℕ → ℕ → ℕ → FoldersTree
move_file t id from to now_ms =
    Maps.modify to
      (λ folder. record folder { files = Sets.insert id folder.files; updated_at = now_ms })
      (Maps.modify from
        (λ folder. record folder { files = Sets.remove id folder.files; updated_at = now_ms }) t)

-- The parent after `if parent.folders.remove(&id) { parent.updated_at = now_ms }`.
unfoldable pub detach : ℕ → ℕ → FolderMetadata → FolderMetadata
detach id now_ms parent =
    if Sets.contains id parent.folders
    then record parent { folders = Sets.remove id parent.folders; updated_at = now_ms }
    else parent

unfoldable pub delete_present :
    FoldersTree → ℕ → ℕ → FolderMetadata → Result Error (FoldersTree × Bool)
unfolding detach
delete_present t id now_ms folder = do
  fail_if (int_lt (pos 0) folder.status) folder_readonly
  fail_if (not (is_empty folder.folders && is_empty folder.files)) folder_not_empty
  parent ← parent_to_update t folder.parent
  let t' = Maps.put folder.parent (detach id now_ms parent) t
  ok (Maps.erase id t', is_some (Maps.get id t'))

unfoldable pub delete_folder : FoldersTree → ℕ → ℕ → Result Error (FoldersTree × Bool)
unfolding delete_present
delete_folder t id now_ms = do
  fail_if (id == 0) root_cannot_be_deleted
  elim (Maps.get id t) [ none ↦ ok (t, false) | some folder ↦ delete_present t id now_ms folder ]
