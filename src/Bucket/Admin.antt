-- ===== src/Bucket/Admin.antt =====
-- The administration of a bucket, src/ic_oss_bucket/src/api_admin.rs, with the guard and the test
-- of principals in lib.rs and the input in src/ic_oss_types/src/bucket.rs.
use ic_oss.Types.Ids.{Principal}
use ic_oss.Types.Validation.{is_some_and, is_outside}
use ic_oss.Base.{
  ℕ, Bool, false, not, ◌&&◌, ◌||◌, Option, none, some, List, [], ◌∷◌, get_or, Set, ltb, ◌==◌,
  is_empty, any, Text, ℤ, negsuc, ◌>>◌, fail_if, commit, Result, ok, same, nat_ord, list_ord,
}
use ic_oss.Base.Sets
use ic_oss.Types.FileName.{is_whitespace}
use ic_oss.Bucket.Config.{max_file_size, Bucket}

pub data AdminError : Type 0 where
  not_controller : AdminError
  no_principals : AdminError
  anonymous_principal : AdminError
  invalid_bucket_name : AdminError
  zero_max_file_size : AdminError
  small_max_file_size : AdminError
  large_max_file_size : AdminError
  zero_max_folder_depth : AdminError
  zero_max_children : AdminError
  zero_max_custom_data_size : AdminError
  invalid_status : AdminError
  invalid_visibility : AdminError

-- `Principal::anonymous()`
abbrev pub anonymous : Principal
anonymous = 4 ∷ []

unfoldable pub is_controller : Bucket → Principal → Bool
is_controller b caller = elim b.governance_canister [ none ↦ false | some p ↦ same p caller ]

unfoldable pub validate_principals : Set Principal → Result AdminError (Unit {0})
validate_principals principals = do
  fail_if (is_empty principals) no_principals
  fail_if (Sets.contains anonymous principals) anonymous_principal
  ok tt

pub record UpdateBucketInput : Type 0 where
  pub name : Option Text
  pub max_file_size : Option ℕ
  pub max_folder_depth : Option ℕ
  pub max_children : Option ℕ
  pub max_custom_data_size : Option ℕ
  pub enable_hash_index : Option Bool
  pub status : Option ℤ
  pub visibility : Option ℕ
  pub trusted_ecdsa_pub_keys : Option (List (List ℕ))
  pub trusted_eddsa_pub_keys : Option (List (List ℕ))

-- `name.trim().is_empty()`
abbrev pub is_blank : Text → Bool
is_blank name = not (any (λ c. not (is_whitespace c)) name)

abbrev pub is_zero : Option ℕ → Bool
is_zero = is_some_and (λ n. n == 0)

-- `UpdateBucketInput::validate`
unfoldable pub validate_bucket : UpdateBucketInput → Result AdminError (Unit {0})
validate_bucket input = do
  fail_if (is_some_and is_blank input.name) invalid_bucket_name
  fail_if (is_zero input.max_file_size) zero_max_file_size
  fail_if (is_some_and (λ n. ltb n max_file_size) input.max_file_size) small_max_file_size
  fail_if (is_zero input.max_folder_depth) zero_max_folder_depth
  fail_if (is_zero input.max_children) zero_max_children
  fail_if (is_zero input.max_custom_data_size) zero_max_custom_data_size
  fail_if (is_some_and (is_outside (negsuc 0)) input.status) invalid_status
  fail_if (is_some_and (λ n. not (n == 0) && not (n == 1)) input.visibility) invalid_visibility
  ok tt

unfoldable pub updated_bucket : UpdateBucketInput → Bucket → Bucket
updated_bucket input b = record b {
  name = get_or input.name b.name;
  max_file_size = get_or input.max_file_size b.max_file_size;
  max_folder_depth = get_or input.max_folder_depth b.max_folder_depth;
  max_children = get_or input.max_children b.max_children;
  max_custom_data_size = get_or input.max_custom_data_size b.max_custom_data_size;
  enable_hash_index = get_or input.enable_hash_index b.enable_hash_index;
  status = get_or input.status b.status;
  visibility = get_or input.visibility b.visibility;
  trusted_ecdsa_pub_keys = get_or input.trusted_ecdsa_pub_keys b.trusted_ecdsa_pub_keys;
  trusted_eddsa_pub_keys = get_or input.trusted_eddsa_pub_keys b.trusted_eddsa_pub_keys;
}

-- One call of the administration, with its argument.
pub data AdminCall : Type 0 where
  set_managers add_managers remove_managers : Set Principal → AdminCall
  set_auditors add_auditors remove_auditors : Set Principal → AdminCall
  update_bucket : UpdateBucketInput → AdminCall

-- The test of a call, which its `validate2_` twin makes alone.
unfoldable pub validate_admin : AdminCall → Result AdminError (Unit {0})
validate_admin (AdminCall.set_managers args) = validate_principals args
validate_admin (AdminCall.add_managers args) = validate_principals args
validate_admin (AdminCall.remove_managers args) = validate_principals args
validate_admin (AdminCall.set_auditors args) = validate_principals args
validate_admin (AdminCall.add_auditors args) = validate_principals args
validate_admin (AdminCall.remove_auditors args) = validate_principals args
validate_admin (AdminCall.update_bucket input) = validate_bucket input

-- The change that a call makes.
unfoldable pub apply_admin : AdminCall → Bucket → Bucket
apply_admin (AdminCall.set_managers args) b = record b { managers = args }
apply_admin (AdminCall.add_managers args) b = record b {
  managers = Sets.insert_all args b.managers;
}
apply_admin (AdminCall.remove_managers args) b = record b {
  managers = Sets.remove_all args b.managers;
}
apply_admin (AdminCall.set_auditors args) b = record b { auditors = args }
apply_admin (AdminCall.add_auditors args) b = record b {
  auditors = Sets.insert_all args b.auditors;
}
apply_admin (AdminCall.remove_auditors args) b = record b {
  auditors = Sets.remove_all args b.auditors;
}
apply_admin (AdminCall.update_bucket input) b = updated_bucket input b

-- A call: the guard, the test, and the change.
unfoldable pub administer :
    (Principal → Bool) → Principal → AdminCall → Bucket → Result AdminError (Unit {0}) × Bucket
administer platform_controls caller call b = commit b (do
  fail_if (not (platform_controls caller || is_controller b caller)) not_controller
  validate_admin call
  ok (tt, apply_admin call b))
