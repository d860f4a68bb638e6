-- ===== src/Bucket/Install.antt =====
-- The installation and the upgrade of a bucket, src/ic_oss_bucket/src/api_init.rs. `none` stands for
-- a trap. The certified data of the HTTP interface are a package's.
use ic_oss.Types.Ids.{Principal}
use ic_oss.Types.Validation.{is_some_and}
use ic_oss.Base.{
  ℕ, Bool, Option, none, some, get_or, ltb, leb, if◌then◌else◌, is_empty, Text, ◌>>◌, fail_if,
  Result, ok, err,
}
use ic_oss.Bucket.Config.{max_file_size, Bucket}
use ic_oss.Bucket.Admin.{
  is_zero, AdminError, zero_max_file_size, large_max_file_size, zero_max_folder_depth,
  zero_max_children, zero_max_custom_data_size,
}

pub record InitArgs : Type 0 where
  pub name : Text
  pub file_id : ℕ
  pub max_file_size : ℕ
  pub max_folder_depth : ℕ
  pub max_children : ℕ
  pub max_custom_data_size : ℕ
  pub enable_hash_index : Bool
  pub visibility : ℕ
  pub governance_canister : Option Principal

pub record UpgradeArgs : Type 0 where
  pub max_file_size : Option ℕ
  pub max_folder_depth : Option ℕ
  pub max_children : Option ℕ
  pub max_custom_data_size : Option ℕ
  pub enable_hash_index : Option Bool
  pub governance_canister : Option Principal

pub data CanisterArgs : Type 0 where
  to_install : InitArgs → CanisterArgs
  to_upgrade : UpgradeArgs → CanisterArgs

-- `UpgradeArgs::validate`
unfoldable pub validate_upgrade : UpgradeArgs → Result AdminError (Unit {0})
validate_upgrade args = do
  fail_if (is_zero args.max_file_size) zero_max_file_size
  fail_if (is_some_and (λ n. leb max_file_size n) args.max_file_size) large_max_file_size
  fail_if (is_zero args.max_folder_depth) zero_max_folder_depth
  fail_if (is_zero args.max_children) zero_max_children
  fail_if (is_zero args.max_custom_data_size) zero_max_custom_data_size
  ok tt

-- `if arg > 0 { field = arg }`
abbrev pub or_default : ℕ → ℕ → ℕ
or_default n old = if ltb 0 n then n else old

-- `init`, from `Bucket::default()` on.
unfoldable pub init : Option CanisterArgs → Bucket → Option Bucket
init none b = some b
init (some (to_upgrade args)) b = none
init (some (to_install args)) b = some (record b {
  name = if is_empty args.name then b.name else args.name;
  file_id = args.file_id;
  max_file_size = or_default args.max_file_size b.max_file_size;
  max_folder_depth = or_default args.max_folder_depth b.max_folder_depth;
  max_children = or_default args.max_children b.max_children;
  visibility = if ltb 0 args.visibility then 1 else b.visibility;
  max_custom_data_size = or_default args.max_custom_data_size b.max_custom_data_size;
  enable_hash_index = args.enable_hash_index;
  governance_canister = args.governance_canister;
})

unfoldable pub reconfigured : UpgradeArgs → Bucket → Bucket
reconfigured args b = record b {
  max_file_size = get_or args.max_file_size b.max_file_size;
  max_folder_depth = get_or args.max_folder_depth b.max_folder_depth;
  max_children = get_or args.max_children b.max_children;
  max_custom_data_size = get_or args.max_custom_data_size b.max_custom_data_size;
  enable_hash_index = get_or args.enable_hash_index b.enable_hash_index;
  governance_canister = elim args.governance_canister [
    | some p ↦ some p
    | none ↦ b.governance_canister
  ];
}

-- `post_upgrade`, with the bucket that was saved before.
unfoldable pub post_upgrade : Option CanisterArgs → Bucket → Option Bucket
post_upgrade none b = some b
post_upgrade (some (to_install args)) b = none
post_upgrade (some (to_upgrade args)) b = elim (validate_upgrade args) [
  | err e ↦ none
  | ok _ ↦ some (reconfigured args b)
]
