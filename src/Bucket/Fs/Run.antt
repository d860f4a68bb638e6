-- ===== src/Bucket/Fs/Run.antt =====
-- Any sequence of calls of the operations of `fs`, from a new bucket on. Each call may succeed or
-- fail, and a failed call may have written.
use ic_oss.Base.{ℕ, ◌≤◌, ◌<◌, ◌≡◌, List, [], arith, Result, u32_max}
use ic_oss.Types.Inputs.{UpdateFileInput, UpdateFolderInput}
use ic_oss.Bucket.Folders.Shape.{new-IsTree}
use ic_oss.Bucket.Fs.MoveFileKeeps.{move_file-IsStore}
use ic_oss.Bucket.Fs.DeleteKeeps.{
  batch_delete_subfiles-IsStore, delete_file-IsStore, delete_folder-IsStore,
}
use ic_oss.Bucket.Fs.Invariant.{IsStore}
use ic_oss.Bucket.Fs.FileKeeps.{add_file-IsStore}
use ic_oss.Bucket.Fs.ChangeKeeps.{update_file-IsStore, update_chunk-IsStore}
use ic_oss.Bucket.Fs.FolderKeeps.{add_folder-IsStore, move_folder-IsStore, update_folder-IsStore}
use ic_oss.Base.Sets
use ic_oss.Base.Maps
use ic_oss.Bucket.Error.{Error}
use ic_oss.Bucket.Config.{Bucket}
use ic_oss.Bucket.Folders.{FolderMetadata, new}
use ic_oss.Bucket.Fs
use ic_oss.Bucket.Fs.{FileMetadata, Store}
use ic_oss.Bucket.Fs.Update
use ic_oss.Bucket.Fs.Chunk
use ic_oss.Bucket.Fs.Delete

-- A step is one call, with its arguments. A new folder is empty, as `create_folder` of
-- src/ic_oss_bucket/src/api_update.rs makes it.
pub data Step {V : Type 0} (s : Store V) : Store V → Type 0 where
  add_folder :
      (metadata : FolderMetadata)
      → metadata.folders ≡ []
      → metadata.files ≡ []
      → Step s (Fs.add_folder metadata s).1
  add_file : (metadata : FileMetadata V) → Step s (Fs.add_file metadata s).1
  move_folder : (id from to now_ms : ℕ) → Step s (Fs.move_folder id from to now_ms s).1
  move_file : (id from to now_ms : ℕ) → Step s (Fs.move_file id from to now_ms s).1
  update_folder :
      (change : UpdateFolderInput) (now_ms : ℕ) (checker : FolderMetadata → Result Error (Unit {0}))
      → Step s (Update.update_folder change now_ms checker s).1
  update_file :
      (change : UpdateFileInput V) (now_ms : ℕ) (checker : FileMetadata V → Result Error (Unit {0}))
      → Step s (Update.update_file change now_ms checker s).1
  update_chunk :
      (file_id chunk_index now_ms : ℕ) (chunk : List ℕ)
      (checker : FileMetadata V → Result Error (Unit {0}))
      → Step s (Chunk.update_chunk file_id chunk_index now_ms chunk checker s).1
  delete_folder :
      (id now_ms : ℕ) (checker : FolderMetadata → Result Error (Unit {0}))
      → Step s (Delete.delete_folder id now_ms checker s).1
  delete_file :
      (id now_ms : ℕ) (checker : FileMetadata V → Result Error (Unit {0}))
      → Step s (Delete.delete_file id now_ms checker s).1
  batch_delete_subfiles :
      (parent now_ms : ℕ) (ids : List ℕ)
      → Step s (Delete.batch_delete_subfiles parent ids now_ms s).1

pub data Reach {V : Type 0} (s : Store V) : Store V → Type 0 where
  here : Reach s s
  next : {t u : Store V} → Reach s t → Step t u → Reach s u

module _ {V : Type 0} where
  pub Step-IsStore : {s t : Store V} → Step s t → IsStore s → IsStore t
  Step-IsStore {s} (add_folder m a b) inv = add_folder-IsStore m s a b inv
  Step-IsStore {s} (add_file m) inv = add_file-IsStore m s inv
  Step-IsStore {s} (move_folder id from to now_ms) inv = move_folder-IsStore id from to now_ms s inv
  Step-IsStore {s} (move_file id from to now_ms) inv = move_file-IsStore id from to now_ms s inv
  Step-IsStore {s} (update_folder c now_ms k) inv = update_folder-IsStore c now_ms k s inv
  Step-IsStore {s} (update_file c now_ms k) inv = update_file-IsStore c now_ms k s inv
  Step-IsStore {s} (update_chunk id i now_ms c k) inv = update_chunk-IsStore id i now_ms c k s inv
  Step-IsStore {s} (delete_folder id now_ms k) inv = delete_folder-IsStore id now_ms k s inv
  Step-IsStore {s} (delete_file id now_ms k) inv = delete_file-IsStore s inv id now_ms k
  Step-IsStore {s} (batch_delete_subfiles k now_ms ids) inv =
      batch_delete_subfiles-IsStore s inv k now_ms ids

  pub Reach_keeps : {s t : Store V} → Reach s t → IsStore s → IsStore t
  Reach_keeps here inv = inv
  Reach_keeps (next r st) inv = Step-IsStore st (Reach_keeps r inv)

  -- Before the first call: the root folder, and nothing else.
  abbrev pub fresh : Bucket → Store V
  fresh bucket = record { bucket = bucket; hashs = []; folders = new; files = []; chunks = [] }

  pub fresh-IsStore :
      (bucket : Bucket)
      → 0 < bucket.folder_id
      → bucket.file_id ≤ u32_max
      → bucket.folder_id ≤ u32_max
      → bucket.max_folder_depth < 256
      → IsStore (fresh bucket)
  unfolding Maps.get Sets.contains
  fresh-IsStore bucket some_id file_u32 folder_u32 depth_u8 = record {
    tree = new-IsTree;
    linked = λ k c. ground arith;
    file_bound = λ id f e. absurd (ground arith);
    folder_bound = λ id f e. ground arith;
    file_id_u32 = file_u32;
    folder_id_u32 = folder_u32;
    depth_u8 = depth_u8;
  }

  -- From a new bucket on, whatever the calls and their results, and also after calls that failed
  -- half-way: the folders form a tree, each folder lists just the files whose parent it is, and
  -- all ids lie below the counters. The bucket's counters start as `u32` values, the folders'
  -- above the root, and its depth limit is a `u8`.
  pub Reach-IsStore :
      (bucket : Bucket)
      → 0 < bucket.folder_id
      → bucket.file_id ≤ u32_max
      → bucket.folder_id ≤ u32_max
      → bucket.max_folder_depth < 256
      → {s : Store V} → Reach (fresh bucket) s
      → IsStore s
  Reach-IsStore bucket a b c d reach = Reach_keeps reach (fresh-IsStore bucket a b c d)
