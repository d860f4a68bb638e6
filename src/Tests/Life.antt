-- ===== src/Tests/Life.antt =====
-- The life of a bucket and its queries, at concrete inputs.
use ic_oss.Types.Permission.Rule.{check_constraint, permission_ord}
use ic_oss.Types.Permission.Kind.{check_resource, check_operation, resource_ord, operation_ord}
use ic_oss.Bucket.Checks.{check_file_read}
use ic_oss.Bucket.Access.{Context, role_of, read_permission}
use ic_oss.Bucket.Admin.{AdminCall}
use ic_oss.Bucket.Fs.{FileMetadata, Store}
use ic_oss.Bucket.Install.{CanisterArgs}
use ic_oss.Bucket.Queries.{read_by_hash, get_file_chunks, reader, may_read_chunks}
use ic_oss.Bucket.Life.{live-IsStore, Event, live}
use ic_oss.Bucket.Fs.Invariant.{IsStore}
use ic_oss.Bucket.Queries.Readable.{get_file_chunks-IsReadable, IsReadable}
use ic_oss.Base.{
  ℕ, min, ◌≡◌, refl, ◌⊎◌, true, none, some, List, [], ◌∷◌, arith, get_or, length, pos, ok, err,
  same, nat_ord, list_cmp, list_ord, codes, decimal,
}
use ic_oss.Base.Maps
use ic_oss.Bucket.Config.{default_bucket, Bucket}
use ic_oss.Base.Sets
use ic_oss.Types.Permission.Rule
use ic_oss.Types.Permission.Policy
use ic_oss.Types.Permission.Policy.{covers_all, collect, policy_ord, Policy}
use ic_oss.Types.Permission.Policies.{grants, read_policies}
use ic_oss.Bucket.Queries.{reader, read_by_hash, may_read_chunks, get_file_chunks}
use ic_oss.Bucket.Install
use ic_oss.Bucket.Fs.Run.{fresh}
use ic_oss.Bucket.Fs.Chunk.{get_chunks, FileChunk, get_chunks_loop}
use ic_oss.Bucket.Calls.{Runtime, Message}
use ic_oss.Bucket.Calls.Reaching.{Call}

abbrev life_runtime : Runtime ℕ
life_runtime = record {
  canister = 9 ∷ [];
  from_sign1 = λ bytes ecdsa eddsa aad now_sec. err (codes "invalid token");
  to_text = λ p. p;
  cbor_length = λ m. length m;
}

abbrev life_args : Install.InitArgs
life_args = record {
  name = codes "photos";
  file_id = 3;
  max_file_size = 0;
  max_folder_depth = 5;
  max_children = 0;
  max_custom_data_size = 0;
  enable_hash_index = true;
  visibility = 1;
  governance_canister = none;
}

abbrev photos : Bucket
photos = record default_bucket {
  name = codes "photos";
  file_id = 3;
  max_folder_depth = 5;
  enable_hash_index = true;
  visibility = 1;
}

photos_installed :
    Install.init (some (CanisterArgs.to_install life_args)) default_bucket ≡ some photos
unfolding Install.init
photos_installed = refl

abbrev life_events : List (Event ℕ)
life_events =
    Event.admin_call (1 ∷ []) (AdminCall.add_managers ((2 ∷ []) ∷ []))
    ∷ Event.update_call (Call.create_folder (record { parent = 0; name = codes "docs" }))
        (record { caller = 2 ∷ []; time = 0; access_token = none })
    ∷ Event.canister_upgrade none
    ∷ []

live-IsStore_example : IsStore (live life_runtime (λ p. same p (1 ∷ [])) life_events (fresh photos))
live-IsStore_example =
    live-IsStore life_runtime (λ p. same p (1 ∷ [])) (some (CanisterArgs.to_install life_args))
      photos life_events photos_installed (omega arith, omega arith) (tt, (tt, (tt, tt)))

abbrev a_file : FileMetadata ℕ
a_file = record {
  parent = 0;
  name = codes "a";
  content_type = codes "text";
  size = 2;
  filled = 2;
  created_at = 0;
  updated_at = 0;
  chunks = 1;
  status = pos 0;
  hash = none;
  dek = none;
  custom = none;
  ex = none;
}

abbrev one_file : Store ℕ
one_file = record (fresh photos) { files = (1, a_file) ∷ []; chunks = ((1, 0), 7 ∷ 8 ∷ []) ∷ [] }

abbrev anyone : Message
anyone = record { caller = 5 ∷ []; time = 0; access_token = none }

abbrev its_chunks : List FileChunk
its_chunks = record { index = 0; content = 7 ∷ 8 ∷ [] } ∷ []

chunks_read : get_file_chunks life_runtime 1 0 none anyone one_file ≡ ok its_chunks
unfolding get_file_chunks Maps.get may_read_chunks read_by_hash reader read_permission role_of
    check_file_read grants read_policies list_cmp Policy.has_permission Rule.check check_resource
    check_operation check_constraint Policy.check_path covers_all Sets.contains Sets.insert
    get_chunks get_chunks_loop collect decimal
chunks_read = refl

get_file_chunks-IsReadable_example :
    (file : FileMetadata ℕ) × (Maps.get 1 one_file.files ≡ some file)
    × (its_chunks ≡ get_chunks 1 0 (min (get_or none 8) 8) one_file)
    × ((read_by_hash file anyone.access_token ≡ true)
        ⊎ ((ctx : Context) × IsReadable life_runtime 1 file anyone one_file ctx))
get_file_chunks-IsReadable_example =
    get_file_chunks-IsReadable life_runtime 1 0 none anyone one_file its_chunks chunks_read
