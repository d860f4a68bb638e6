-- ===== src/Tests/Fs.antt =====
-- Runs of the module `fs` of src/ic_oss_bucket/src/store.rs, and its theorems at a bucket with one
-- file.
use ic_oss.Types.Permission.Policies.{read_policies}
use ic_oss.Bucket.Access.{Context, user}
use ic_oss.Bucket.Listing.{list_files}
use ic_oss.Bucket.Listing.Page.{list_files-IsPage, IsPage}
use ic_oss.Bucket.Create.{new_metadata, create_stored}
use ic_oss.Bucket.Create.Creating.{get_full_chunks-create_stored, create_stored_leaves_file}
use ic_oss.Bucket.Upload.{chunks_of, write_chunks}
use ic_oss.Bucket.Upload.RoundTrip.{get_full_chunks-write_chunks}
use ic_oss.Types.Inputs.{UpdateFileInput, CreateFileInput}
use ic_oss.Bucket.Config.{default_bucket}
use ic_oss.Bucket.Fs.{index_hash, FileMetadata, Store}
use ic_oss.Bucket.Folders.{parent_to_add_file, FolderMetadata}
use ic_oss.Bucket.Error.{Error, content_size_mismatch}
use ic_oss.Bucket.Fs.Update.{resized_chunks, may_update, store_changed, update_present, update_file}
use ic_oss.Bucket.Fs.Writing.{update_chunk-IsFilled}
use ic_oss.Bucket.Fs.Filled.{chunk_bytes, IsFilled}
use ic_oss.Bucket.Fs.Invariant.{IsStore}
use ic_oss.Bucket.Fs.Chunk.{
  full_loop, get_chunk, get_full_chunks, with_chunk, may_write, write_chunk, update_chunk,
}
use ic_oss.Bucket.Fs.Run.{Reach-IsStore, Step, Reach, fresh}
use ic_oss.Bucket.Fs.Shrinking.{update_file-shrinks}
use mathlib.Core.Path.{subst}
use ic_oss.Base.{
  ℕ, ◌≤◌, ◌≡◌, refl, ap, ◌⊎◌, none, some, List, [], ◌∷◌, map, arith, if◌then◌else◌, pos, Result, ok,
  err, same, codes, nat_ord, pair_ord,
}
use ic_oss.Base.Maps
use ic_oss.Base.Sets
use ic_oss.Bucket.Fs

-- A file of 3 bytes, in the root, with nothing uploaded.
abbrev new_file : FileMetadata ℕ
new_file = record {
  parent = 0;
  name = codes "a.txt";
  content_type = codes "text/plain";
  size = 3;
  filled = 0;
  created_at = 1;
  updated_at = 1;
  chunks = 0;
  status = pos 0;
  hash = none;
  dek = none;
  custom = none;
  ex = none;
}

abbrev bytes : List ℕ
bytes = 7 ∷ 8 ∷ 9 ∷ []

abbrev anyone : FileMetadata ℕ → Result Error (Unit {0})
anyone file = ok tt

abbrev root : FolderMetadata
root = record {
  parent = 0;
  name = codes "root";
  files = 0 ∷ [];
  folders = [];
  created_at = 0;
  updated_at = 0;
  status = pos 0;
}

-- The bucket after the file was created.
abbrev created : Store ℕ
created = record {
  bucket = record default_bucket { file_id = 1 };
  hashs = [];
  folders = (0, root) ∷ [];
  files = (0, new_file) ∷ [];
  chunks = [];
}

abbrev uploaded_file : FileMetadata ℕ
uploaded_file = record new_file { filled = 3; chunks = 1; updated_at = 5 }

-- The bucket after its chunk was written.
abbrev uploaded : Store ℕ
uploaded = record created { files = (0, uploaded_file) ∷ []; chunks = ((0, 0), bytes) ∷ [] }

creates : Fs.add_file new_file (fresh default_bucket) ≡ (ok 0, created)
unfolding Fs.add_file parent_to_add_file index_hash Maps.get Maps.put Sets.insert
creates = refl

uploads : update_chunk 0 0 5 bytes anyone created ≡ (ok 3, uploaded)
unfolding update_chunk may_write write_chunk with_chunk Maps.get Maps.put
uploads = refl

downloads : get_full_chunks 0 uploaded ≡ ok bytes
unfolding get_full_chunks full_loop Maps.get
downloads = refl

Reach-IsStore_example :
    IsStore (update_chunk 0 0 5 bytes anyone (Fs.add_file new_file (fresh default_bucket)).1).1
Reach-IsStore_example =
    Reach-IsStore default_bucket (omega arith) (omega arith) (omega arith) (omega arith) (
      Reach.next (Reach.next Reach.here (Step.add_file new_file))
        (Step.update_chunk 0 0 5 bytes anyone))

new_file-IsFilled : IsFilled 0 new_file []
unfolding chunk_bytes Maps.get
new_file-IsFilled = record { counted = refl; no_more = λ i h. refl }

found_created : Maps.get 0 created.files ≡ some new_file
unfolding Maps.get
found_created = refl

update_chunk-IsFilled_example :
    (f' : FileMetadata ℕ) × (Maps.get 0 uploaded.files ≡ some f')
    × IsFilled 0 f' uploaded.chunks
    × (3 ≡ chunk_bytes 0 f'.chunks uploaded.chunks)
    × (3 ≤ created.bucket.max_file_size)
    × ((new_file.size ≡ 0) ⊎ (3 ≤ new_file.size))
    × ((k : ℕ × ℕ)
        → Maps.get k uploaded.chunks
          ≡ (if same k (0, 0) then some bytes else Maps.get k created.chunks))
update_chunk-IsFilled_example =
    update_chunk-IsFilled 0 0 5 bytes anyone created new_file found_created new_file-IsFilled
      (omega arith) (omega arith) uploads

-- A change of the file's size to 2 bytes.
abbrev to_two : UpdateFileInput ℕ
to_two = record {
  id = 0;
  name = none;
  content_type = none;
  status = none;
  size = some 2;
  hash = none;
  custom = none;
}

shrinks : (update_file to_two 6 anyone uploaded).0 ≡ ok tt
unfolding update_file update_present may_update store_changed resized_chunks Maps.get
shrinks = refl

found_uploaded : Maps.get 0 uploaded.files ≡ some uploaded_file
unfolding Maps.get
found_uploaded = refl

update_file-shrinks_example :
    let s' = (update_file to_two 6 anyone uploaded).1 in
    (f' : FileMetadata ℕ) × (Maps.get 0 s'.files ≡ some f')
    × (f'.filled ≡ 0)
    × (f'.chunks ≡ 0)
    × ((i : ℕ) → get_chunk 0 i s' ≡ get_chunk 0 i uploaded)
update_file-shrinks_example =
    update_file-shrinks to_two 6 anyone uploaded uploaded_file found_uploaded (omega arith) shrinks

found_new : Maps.get 0 created.files ≡ some new_file
unfolding Maps.get
found_new = refl

no_chunks : (j : ℕ) → Maps.get (0, j) created.chunks ≡ none
unfolding Maps.get
no_chunks j = refl

get_full_chunks-write_chunks_example :
    (s' : Store ℕ) × (write_chunks 0 0 5 (chunks_of bytes) created ≡ (ok tt, s'))
    × (get_full_chunks 0 s' ≡ ok bytes)
get_full_chunks-write_chunks_example =
    get_full_chunks-write_chunks 0 5 bytes new_file created found_new refl refl refl no_chunks refl
      (omega arith) (omega arith)

-- The call that creates the same file with its content, and one that gives another size.
abbrev new_input : CreateFileInput ℕ
new_input = record {
  parent = 0;
  name = codes "a.txt";
  content_type = codes "text/plain";
  size = some 3;
  content = some bytes;
  status = none;
  hash = none;
  dek = none;
  custom = none;
}

abbrev wrong_input : CreateFileInput ℕ
wrong_input = record new_input { size = some 4 }

adds_wrong :
    Fs.add_file (new_metadata wrong_input 1) (fresh default_bucket)
    ≡ (ok 0, record created { files = (0, new_metadata wrong_input 1) ∷ [] })
unfolding Fs.add_file parent_to_add_file index_hash Maps.get Maps.put Sets.insert
adds_wrong = refl

none_stored : (j : ℕ) → Maps.get (0, j) (fresh {V = ℕ} default_bucket).chunks ≡ none
unfolding Maps.get
none_stored j = refl

get_full_chunks-create_stored_example :
    (s' : Store ℕ) × (create_stored new_input 1 (fresh default_bucket) ≡ (ok 0, s'))
    × (get_full_chunks 0 s' ≡ ok bytes)
get_full_chunks-create_stored_example =
    get_full_chunks-create_stored new_input bytes 1 (fresh default_bucket) refl creates refl refl
      (omega arith) (omega arith) none_stored

create_stored_leaves_file_example :
    (create_stored wrong_input 1 (fresh default_bucket) ≡ (
      err content_size_mismatch,
      record created { files = (0, new_metadata wrong_input 1) ∷ [] },
    ))
    × (Maps.get 0 (record created { files = (0, new_metadata wrong_input 1) ∷ [] }).files
        ≡ some (new_metadata wrong_input 1))
create_stored_leaves_file_example =
    create_stored_leaves_file wrong_input bytes 1 (fresh default_bucket) refl adds_wrong refl
      (omega arith) (omega arith) (ground arith)

created-IsStore : IsStore created
created-IsStore = subst IsStore (ap (λ r. r.1) creates) (
    Reach-IsStore default_bucket (omega arith) (omega arith) (omega arith) (omega arith)
      (Reach.next Reach.here (Step.add_file new_file)))

found_root : Maps.get 0 created.folders ≡ some root
unfolding Maps.get
found_root = refl

abbrev reader : Context
reader = record { caller = []; ps = read_policies; role = user }

list_files-IsPage_example :
    IsPage root.files 9 10
      (map (λ info. info.id) (list_files created.folders reader created.files 0 9 10))
list_files-IsPage_example =
    list_files-IsPage created reader 0 9 10 root created-IsStore found_root refl (tt, tt)
