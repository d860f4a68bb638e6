-- ===== src/Tests/Calls.antt =====
-- Runs of the update calls of a bucket, and their theorems at a new bucket with one manager.
use ic_oss.Types.Ids.{Principal}
use ic_oss.Types.Permission.Rule.{check_constraint, permission_ord}
use ic_oss.Types.Permission.Kind.{check_resource, check_operation, resource_ord, operation_ord}
use ic_oss.Types.Validation.{validate_create_folder}
use ic_oss.Types.Permission.Policies.{grants, all_policies}
use ic_oss.Bucket.Access.{with_token, write_permission, Token, role_of}
use ic_oss.Bucket.Checks.{check_folder_create, check_folder_delete}
use ic_oss.Bucket.Config.{default_bucket, Bucket}
use ic_oss.Bucket.Fs.{Store}
use ic_oss.Bucket.Calls.Permitted.{HasRight, perform-HasRight}
use ic_oss.Bucket.Calls.Failing.{is_successful, failed_call_leaves}
use ic_oss.Bucket.Fs.Run.{fresh}
use ic_oss.Base.{
  ℕ, ◌≡◌, refl, ◌⊎◌, false, none, List, [], ◌∷◌, length, Text, ℤ, Result, err, list_cmp, codes,
  split,
}
use ic_oss.Base.Maps
use ic_oss.Base.Sets
use ic_oss.Bucket.Fs
use ic_oss.Bucket.Folders
use ic_oss.Bucket.Calls
use ic_oss.Bucket.Calls.{Runtime, Message, now_sec, writer, may_create_folder, may_move_folder}
use ic_oss.Bucket.Calls.Reaching.{Call, perform}
use ic_oss.Types.Permission.Rule
use ic_oss.Types.Permission.Policy
use ic_oss.Types.Permission.Policy.{covers_all, policy_ord, Policy}
use ic_oss.Types.FileName.{
  is_whitespace, ends_in_whitespace, is_trimmed, byte_length, last_component, file_name,
  valid_file_name,
}

abbrev manager_id : Principal
manager_id = 1 ∷ []

abbrev no_token : List ℕ → List (List ℕ) → List (List ℕ) → Text → ℤ → Result Text Token
no_token bytes ecdsa eddsa aad now_sec = err (codes "invalid token")

abbrev test_runtime : Runtime ℕ
test_runtime = record {
  canister = 9 ∷ [];
  from_sign1 = no_token;
  to_text = λ p. p;
  cbor_length = λ m. length m;
}

abbrev managed : Bucket
managed = record default_bucket { managers = manager_id ∷ [] }

abbrev empty_store : Store ℕ
empty_store = fresh managed

abbrev by_manager : Message
by_manager = record { caller = manager_id; time = 5000000000; access_token = none }

abbrev by_stranger : Message
by_stranger = record { caller = 2 ∷ []; time = 5000000000; access_token = none }

abbrev docs : Call ℕ
docs = Call.create_folder (record { parent = 0; name = codes "docs" })

abbrev move_docs : Call ℕ
move_docs = Call.move_folder (record { id = 1; from = 0; to = 7 })

-- A stranger's call changes nothing, and the manager's makes the folder.
stranger_is_refused : perform test_runtime docs by_stranger empty_store ≡ empty_store
unfolding perform Calls.create_folder Calls.proceed may_create_folder validate_create_folder
    valid_file_name is_trimmed is_whitespace ends_in_whitespace byte_length file_name last_component
    split list_cmp writer write_permission role_of with_token Sets.contains
stranger_is_refused = refl

perform-HasRight_example :
    (perform test_runtime docs by_manager empty_store ≡ empty_store)
    ⊎ HasRight test_runtime docs by_manager empty_store
perform-HasRight_example = perform-HasRight test_runtime docs by_manager empty_store

move_fails : is_successful test_runtime move_docs by_manager empty_store ≡ false
unfolding is_successful Calls.move_folder Calls.proceed Calls.reply_with may_move_folder writer
    write_permission role_of with_token Sets.contains check_folder_delete check_folder_create grants
    Fs.move_folder Folders.check_moving_folder Maps.get list_cmp all_policies Policy.has_permission
    Rule.check check_resource check_operation check_constraint Policy.check_path covers_all
move_fails = refl

failed_call_leaves_example : perform test_runtime move_docs by_manager empty_store ≡ empty_store
failed_call_leaves_example =
    failed_call_leaves test_runtime move_docs by_manager empty_store refl move_fails
