-- ===== src/Bucket/Queries.antt =====
-- The queries of a bucket, src/ic_oss_bucket/src/api_query.rs, with the small reads of the module `fs`.
-- A walk to the root that does not end is the error `walk_unending`.
pub mod Readable
use ic_oss.Types.Ids.{Hash, Principal}
use ic_oss.Types.Validation.{is_some_and}
use ic_oss.Types.Permission.Policies.{Policies}
use ic_oss.Bucket.Checks.{check_folder_list, check_folder_read, check_file_list, check_file_read}
use ic_oss.Bucket.Listing.{folder_info, file_info, FolderInfo, FileInfo}
use ic_oss.Bucket.Fs.{FileMetadata, Store}
use ic_oss.Bucket.Folders.{FolderName, ancestors}
use ic_oss.Bucket.Error.{Error, walk_unending}
use ic_oss.Base.{
  ℕ, min, Bool, false, not, ◌&&◌, Option, none, some, List, [], ◌∷◌, is_some, get_or, Set, ltb,
  if◌then◌else◌, length, Text, int_lt, ℤ, pos, ◌>>=◌, ◌>>◌, fail_if, ok_or, map_err, Result, ok,
  err, same, u32_max, codes, nat_ord, list_ord,
}
use ic_oss.Base.Maps
use ic_oss.Bucket.Folders
use ic_oss.Bucket.Calls.{Runtime, Message, now_sec, require}
use ic_oss.Bucket.Access.{rank, read_permission, AccessError, Context, auditor}
use ic_oss.Bucket.Listing
use ic_oss.Bucket.Fs.Chunk.{get_chunks, FileChunk}

pub data QueryError : Type 0 where
  file_missing : QueryError
  folder_missing : QueryError
  file_archived : QueryError
  no_read_access : AccessError → QueryError
  query_failed : Error → QueryError

-- `CUSTOM_KEY_BY_HASH`
abbrev pub by_hash : Text
by_hash = codes "by_hash"

pub record BucketInfo : Type 0 where
  pub name : Text
  pub file_id : ℕ
  pub folder_id : ℕ
  pub max_file_size : ℕ
  pub max_folder_depth : ℕ
  pub max_children : ℕ
  pub max_custom_data_size : ℕ
  pub enable_hash_index : Bool
  pub status : ℤ
  pub visibility : ℕ
  pub total_files : ℕ
  pub total_chunks : ℕ
  pub total_folders : ℕ
  pub managers : Set Principal
  pub auditors : Set Principal
  pub trusted_ecdsa_pub_keys : List (List ℕ)
  pub trusted_eddsa_pub_keys : List (List ℕ)
  pub governance_canister : Option Principal

-- The end of a walk, or the error that there is none.
abbrev pub walked : {A : Type 0} → Option A → Result QueryError A
walked none = err (query_failed walk_unending)
walked (some a) = ok a

module _ {V : Type 0} where
  -- Whether the given bytes, which are no token then, are the file's hash and may stand for one.
  unfoldable pub read_by_hash : FileMetadata V → Option (List ℕ) → Bool
  read_by_hash file none = false
  read_by_hash file (some access_token) =
      not (int_lt file.status (pos 0))
      && (is_some_and (λ custom. is_some (Maps.get by_hash custom)) file.custom
          && is_some_and (λ hash. same hash access_token) file.hash)

  unfoldable pub get_bucket_info : Store V → BucketInfo
  get_bucket_info s = record {
    name = s.bucket.name;
    file_id = s.bucket.file_id;
    folder_id = s.bucket.folder_id;
    max_file_size = s.bucket.max_file_size;
    max_folder_depth = s.bucket.max_folder_depth;
    max_children = s.bucket.max_children;
    max_custom_data_size = s.bucket.max_custom_data_size;
    enable_hash_index = s.bucket.enable_hash_index;
    status = s.bucket.status;
    visibility = s.bucket.visibility;
    total_files = length s.files;
    total_chunks = length s.chunks;
    total_folders = length s.folders;
    managers = s.bucket.managers;
    auditors = s.bucket.auditors;
    trusted_ecdsa_pub_keys = s.bucket.trusted_ecdsa_pub_keys;
    trusted_eddsa_pub_keys = s.bucket.trusted_eddsa_pub_keys;
    governance_canister = s.bucket.governance_canister;
  }

  unfoldable pub get_file_id : Hash → Store V → Option ℕ
  get_file_id hash s = Maps.get hash s.hashs

  unfoldable pub folder_ancestors : ℕ → Store V → Option (List FolderName)
  folder_ancestors id s = elim (Maps.get id s.folders) [
    | none ↦ some []
    | some folder ↦ Folders.ancestors s.folders folder.parent
  ]

  unfoldable pub file_ancestors : ℕ → Store V → Option (List FolderName)
  file_ancestors id s = elim (Maps.get id s.files) [
    | none ↦ some []
    | some file ↦ Folders.ancestors s.folders file.parent
  ]

module _ {V : Type 0} (runtime : Runtime V) where
  -- `s.read_permission(caller, &canister, access_token, time / SECONDS)`
  unfoldable pub reader : Store V → Message → Result QueryError Context
  reader s m = map_err no_read_access (
      read_permission runtime.from_sign1 s.bucket m.caller runtime.canister m.access_token
        (now_sec m))

  -- The right to read a file.
  unfoldable pub may_read_file :
      ℕ → FileMetadata V → Message → Store V → Result QueryError (Unit {0})
  may_read_file id file m s = if read_by_hash file m.access_token then ok tt else do
    ctx ← reader s m
    map_err query_failed
        (require (check_file_read runtime.to_text ctx.ps runtime.canister s.folders id file.parent))

  unfoldable pub get_file_info : ℕ → Message → Store V → Result QueryError (FileInfo V)
  get_file_info id m s = do
    file ← ok_or (Maps.get id s.files) file_missing
    may_read_file id file m s
    ok (file_info id file)

  unfoldable pub get_file_info_by_hash : Hash → Message → Store V → Result QueryError (FileInfo V)
  get_file_info_by_hash hash m s = do
    id ← ok_or (get_file_id hash s) file_missing
    get_file_info id m s

  -- The right to read a file's chunks: an archived file is for auditors.
  unfoldable pub may_read_chunks :
      ℕ → FileMetadata V → Message → Store V → Result QueryError (Unit {0})
  may_read_chunks id file m s = if read_by_hash file m.access_token then ok tt else do
    ctx ← reader s m
    fail_if (int_lt file.status (pos 0) && ltb (rank ctx.role) (rank auditor)) file_archived
    map_err query_failed
        (require (check_file_read runtime.to_text ctx.ps runtime.canister s.folders id file.parent))

  unfoldable pub get_file_chunks :
      ℕ → ℕ → Option ℕ → Message → Store V → Result QueryError (List FileChunk)
  get_file_chunks id index take m s = do
    file ← ok_or (Maps.get id s.files) file_missing
    may_read_chunks id file m s
    ok (get_chunks id index (min (get_or take 8) 8) s)

  unfoldable pub get_file_ancestors : ℕ → Message → Store V → Result QueryError (List FolderName)
  get_file_ancestors id m s = do
    ancestors ← walked (file_ancestors id s)
    elim ancestors [
      | [] ↦ ok tt
      | ◌∷◌ parent rest ↦ do
        ctx ← reader s m
        map_err query_failed (
            require
              (check_file_read runtime.to_text ctx.ps runtime.canister s.folders id parent.id))
    ]
    ok ancestors

  unfoldable pub list_query :
      (Policies → Option Bool) → Message → Store V → Result QueryError Context
  list_query check m s = do ctx ← reader s m; map_err query_failed (require (check ctx.ps)); ok ctx

  unfoldable pub query_files :
      ℕ → Option ℕ → Option ℕ → Message → Store V → Result QueryError (List (FileInfo V))
  query_files parent prev take m s = do
    ctx ←
        list_query (λ ps. check_file_list runtime.to_text ps runtime.canister s.folders parent) m s
    ok (
        Listing.list_files s.folders ctx s.files parent (get_or prev u32_max)
          (min (get_or take 10) 100))

  unfoldable pub get_folder_info : ℕ → Message → Store V → Result QueryError FolderInfo
  get_folder_info id m s = do
    folder ← ok_or (Maps.get id s.folders) folder_missing
    ctx ← list_query (λ ps. check_folder_read runtime.to_text ps runtime.canister s.folders id) m s
    ok (folder_info id folder)

  unfoldable pub get_folder_ancestors : ℕ → Message → Store V → Result QueryError (List FolderName)
  get_folder_ancestors id m s = do
    ancestors ← walked (folder_ancestors id s)
    elim ancestors [
      | [] ↦ ok tt
      | ◌∷◌ parent rest ↦
          list_query (λ ps. check_folder_read runtime.to_text ps runtime.canister s.folders id) m s
          >>= λ _. ok tt
    ]
    ok ancestors

  unfoldable pub query_folders :
      ℕ → Option ℕ → Option ℕ → Message → Store V → Result QueryError (List FolderInfo)
  query_folders parent prev take m s = do
    ctx ←
        list_query (λ ps. check_folder_list runtime.to_text ps runtime.canister s.folders parent) m
          s
    ok (Listing.list_folders s.folders ctx parent (get_or prev u32_max) (min (get_or take 10) 100))
