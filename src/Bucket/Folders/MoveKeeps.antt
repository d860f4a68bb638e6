-- ===== src/Bucket/Folders/MoveKeeps.antt =====
-- `fs::move_folder` of src/ic_oss_bucket/src/store.rs: the check, then the move.
use ic_oss.Base.{ℕ, suc, ◌≤◌, ◌<◌, ◌≡◌, arith, ok}
use ic_oss.Bucket.Folders.Climb.{Climbs, Avoids, IsRooted}
use ic_oss.Bucket.Folders.Moved.{Climbs-moved_self, moved-IsTree}
use ic_oss.Bucket.Folders.Shape.{IsTree}
use ic_oss.Bucket.Folders.Moving.{check_moving_folder-Movable, Movable-Avoids, Movable}
use ic_oss.Bucket.Folders.{FoldersTree, move_folder, check_moving_folder, depth_limit}

module _ (t : FoldersTree) (id from to max_folder_depth max_children now_ms : ℕ) (tree : IsTree t)
    (small : max_folder_depth ≤ depth_limit)
    (checked : check_moving_folder t id from to max_folder_depth max_children ≡ ok tt) where
  -- In a tree, with a depth limit of at most 1024, a move that `check_moving_folder` lets pass
  -- keeps the tree. So no folder is ever moved below itself, although the check walks up at most
  -- 1024 parents.
  pub move_folder-IsTree : IsTree (move_folder t id from to now_ms)
  move_folder-IsTree =
      let m : Movable t id from to max_folder_depth max_children =
        check_moving_folder-Movable t id from to max_folder_depth max_children checked in
      let r : IsRooted t to = tree.rooted to m.to_folder m.found_to in
      let a : Avoids t r.0 to id × (m.depth_to ≡ r.0) =
        Movable-Avoids t id from to max_folder_depth max_children tree small m r.0 r.1 in
      moved-IsTree t id from to now_ms m.folder m.to_folder tree m.not_root m.apart m.found
        m.in_from m.found_to r.0 r.1 a.0

  -- Under the same conditions the moved folder is then at most `max_folder_depth` parents away
  -- from the root.
  pub move_folder-depth :
      (n : ℕ) × Climbs (move_folder t id from to now_ms) n id × (n ≤ max_folder_depth)
  move_folder-depth =
      let m : Movable t id from to max_folder_depth max_children =
        check_moving_folder-Movable t id from to max_folder_depth max_children checked in
      let r : IsRooted t to = tree.rooted to m.to_folder m.found_to in
      let a : Avoids t r.0 to id × (m.depth_to ≡ r.0) =
        Movable-Avoids t id from to max_folder_depth max_children tree small m r.0 r.1 in
      let shallow : m.depth_to < max_folder_depth = m.shallow in
      (
        suc r.0,
        Climbs-moved_self t id from to now_ms m.folder m.to_folder tree m.not_root m.apart m.found
            m.in_from m.found_to r.0 r.1 a.0,
        omega arith,
      )
