-- ===== src/Bucket/Config.antt =====
-- `Bucket` of src/ic_oss_bucket/src/store.rs: the configuration and the counters of the canister.
use ic_oss.Types.Ids.{Principal}
use ic_oss.Base.{ℕ, Bool, false, Option, none, List, [], ◌∷◌, Set, Text, ℤ, pos}

pub record Bucket : Type 0 where
  pub name : Text
  pub file_id : ℕ
  pub folder_id : ℕ
  pub max_file_size : ℕ
  pub max_folder_depth : ℕ
  pub max_children : ℕ
  pub max_custom_data_size : ℕ
  pub enable_hash_index : Bool
  pub status : ℤ
  pub visibility : ℕ
  pub managers : Set Principal
  pub auditors : Set Principal
  pub trusted_ecdsa_pub_keys : List (List ℕ)
  pub trusted_eddsa_pub_keys : List (List ℕ)
  pub governance_canister : Option Principal

abbrev pub max_file_size : ℕ
max_file_size = 412316860416

abbrev pub max_file_size_per_call : ℕ
max_file_size_per_call = 2048000

abbrev pub chunk_size : ℕ
chunk_size = 262144

-- `Bucket::default()`
abbrev pub default_bucket : Bucket
default_bucket = record {
  name = 100 ∷ 101 ∷ 102 ∷ 97 ∷ 117 ∷ 108 ∷ 116 ∷ [];
  file_id = 0;
  folder_id = 1;
  max_file_size = max_file_size;
  max_folder_depth = 10;
  max_children = 100;
  max_custom_data_size = 4096;
  enable_hash_index = false;
  status = pos 0;
  visibility = 0;
  managers = [];
  auditors = [];
  trusted_ecdsa_pub_keys = [];
  trusted_eddsa_pub_keys = [];
  governance_canister = none;
}
