-- ===== src/Bucket/Folders/Moving.antt =====
-- `FoldersTree::check_moving_folder` of src/ic_oss_bucket/src/store.rs: what a check that passed
-- has found.
use ic_oss.Bucket.Folders.Climb.{Climbs, Avoids, depth_or_is_ancestor-Avoids}
use ic_oss.Bucket.Folders.Shape.{IsTree}
use ic_oss.Base.{
  ℕ, ◌≤◌, ◌<◌, ◌≡◌, ◌≢◌, inl, inr, false, some, arith, map_option, Option-cases, ok, nat_ord,
}
use ic_oss.Base.Maps
use ic_oss.Base.Sets
use ic_oss.Bucket.Folders.{
  FoldersTree, FolderMetadata, depth_or_is_ancestor, is_full, check_moving_folder, depth_limit,
  move_folder,
}

-- What a check that passed has found.
pub record Movable (t : FoldersTree) (id from to max_folder_depth max_children : ℕ) : Type 0 where
  pub not_root : id ≢ 0
  pub apart : from ≢ to
  pub folder : FolderMetadata
  pub found : Maps.get id t ≡ some folder
  pub in_from : folder.parent ≡ from
  pub from_folder : FolderMetadata
  pub found_from : Maps.get from t ≡ some from_folder
  pub to_folder : FolderMetadata
  pub found_to : Maps.get to t ≡ some to_folder
  pub room : is_full to to_folder max_children ≡ false
  pub depth_to : ℕ
  pub not_below : depth_or_is_ancestor t to id ≡ (depth_to, false)
  pub shallow : depth_to < max_folder_depth

pub check_moving_folder-Movable :
    (t : FoldersTree) (id from to max_folder_depth max_children : ℕ)
    → check_moving_folder t id from to max_folder_depth max_children ≡ ok tt
    → Movable t id from to max_folder_depth max_children
unfolding check_moving_folder
check_moving_folder-Movable t id from to d m h = elim (Option-cases (Maps.get id t)) [
  | inl e ↦ absurd (ground arith)
  | inr (f, e) ↦ elim (Option-cases (Maps.get from t)) [
    | inl e' ↦ absurd (ground arith)
    | inr (g, e') ↦ elim (Option-cases (Maps.get to t)) [
      | inl e'' ↦ absurd (ground arith)
      | inr (k, e'') ↦ record {
        not_root = ground arith;
        apart = ground arith;
        folder = f;
        found = e;
        in_from = ground arith;
        from_folder = g;
        found_from = e';
        to_folder = k;
        found_to = e'';
        room = ground arith;
        depth_to = (depth_or_is_ancestor t to id).0;
        not_below = ground arith;
        shallow = ground arith;
      }
    ]
  ]
]

-- A passed check, in a tree: the chain of the target avoids the moved folder.
pub Movable-Avoids :
    (t : FoldersTree) (id from to max_folder_depth max_children : ℕ)
    → IsTree t
    → max_folder_depth ≤ depth_limit
    → (m : Movable t id from to max_folder_depth max_children) → (n : ℕ) → Climbs t n to
    → Avoids t n to id × (m.depth_to ≡ n)
Movable-Avoids t id from to d k tree small m n c =
    let shallow : m.depth_to < d = m.shallow in
    depth_or_is_ancestor-Avoids t n to id m.depth_to m.not_root c m.not_below (omega arith)

-- `move_folder` changes no folder's files, and adds and removes no folder.
pub files-move_folder :
    (t : FoldersTree) (id from to now_ms j : ℕ)
    → map_option (λ f. f.files) (Maps.get j (move_folder t id from to now_ms))
      ≡ map_option (λ f. f.files) (Maps.get j t)
unfolding move_folder
files-move_folder t id from to now_ms j = ground (
  arith,
  Maps.get-modify j id (λ folder. record folder { parent = to; updated_at = now_ms })
      (Maps.modify to
        (λ folder. record folder { folders = Sets.insert id folder.folders; updated_at = now_ms })
        (Maps.modify from
          (λ folder. record folder { folders = Sets.remove id folder.folders; updated_at = now_ms })
          t)),
  Maps.get-modify j to
      (λ folder. record folder { folders = Sets.insert id folder.folders; updated_at = now_ms })
      (Maps.modify from
        (λ folder. record folder { folders = Sets.remove id folder.folders; updated_at = now_ms })
        t),
  Maps.get-modify j from
      (λ folder. record folder { folders = Sets.remove id folder.folders; updated_at = now_ms }) t,
)
