-- ===== src/Tests/Cluster.antt =====
-- Runs of the cluster, and its theorems at concrete inputs.
use ic_oss.Cluster.Versions.Logs.{full_info, bucket_deployment_logs-page, nth}
use ic_oss.Cluster.Deploy.{
  plan_deploy, validate_deploy_bucket, CanisterInfo, DeployWasmInput, is_ok,
}
use ic_oss.Cluster.Versions.Adding.{add_wasm-dry_run, dry, done, new_wasm}
use ic_oss.Cluster.Deploy.Validating.{validate_deploy_bucket-plan_deploy}
use ic_oss.Cluster.Upgrade.{upgrade_buckets, Turn}
use ic_oss.Cluster.Upgrade.Latest.{IsKnown, IsPath-upgraded, upgrade_buckets-latest, upgraded}
use ic_oss.Cluster.Upgrade.Steps.{IsOrdered, steps_left}
use ic_oss.Types.Ids.{Principal, Hash, zero_hash}
use ic_oss.Types.Permission.Name.{is_name_char, validate_chars, validate_name}
use ic_oss.Types.Permission.Kind.{Resource, Operation, resource_ord, operation_ord}
use ic_oss.Types.Permission.Policies.{print_policies}
use ic_oss.Types.Permission.PolicyRoundTrip.{IsPlainPolicy}
use ic_oss.Cluster.Auth.Issued.{write_permission-get_token}
use ic_oss.Cluster.Auth.Detached.{detach_policies-holds}
use ic_oss.Base.{
  ℕ, ◌-◌, ◌<◌, ◌≡◌, refl, ◌≢◌, ◌⊎◌, inr, true, false, not, ◌&&◌, ◌||◌, Option, none, some, List, [],
  ◌∷◌, arith, map_option, is_some, ltb, leb, ◌==◌, if◌then◌else◌, length, All, Text, ℤ, Result, ok,
  err, same, same_iff, nat_ord, list_cmp, list_ord, codes,
}
use ic_oss.Base.Maps
use ic_oss.Base.Sets
use ic_oss.Types.Permission.Policy.{policy_ord, Policy}
use ic_oss.Bucket.Access.{bucket_token_aad, as_i64, write_permission, Token, Context}
use ic_oss.Bucket.Config.{default_bucket}
use ic_oss.Cluster.{Cluster, anonymous, Wasm, DeployLog, ClusterError}
use ic_oss.Cluster.Auth.{get_token, get_all_policies, attach_policies, detach_policies}
use ic_oss.Cluster.Auth.Attached.{
  holds, stored_text, with_text, with_text-IsAuth, attach_policies-holds, IsAuth,
}
use ic_oss.Cluster.Versions.{
  add_wasm, previous_version, run_add_wasm, with_version, get_latest, AddWasmInput, get_log,
  bucket_deployment_logs, next_version,
}
use ic_oss.Cluster.Versions.Leading.{
  IsPath, is_version, new-IsPath, add_all, add_all-Leads, Leads, Addition, with_version-IsPath,
}
use ic_oss.Cluster.Admin.Anonymous.{IsNamed, apply_changes, apply_changes-IsNamed, RoleChange}

abbrev empty_cluster : Cluster
empty_cluster = record {
  state = record {
    name = codes "cluster";
    ecdsa_key_name = codes "key";
    schnorr_key_name = codes "key";
    ecdsa_token_public_key = [];
    schnorr_ed25519_token_public_key = [];
    weak_ed25519_secret_key = [];
    weak_ed25519_token_public_key = [];
    token_expiration = 3600;
    managers = [];
    committers = [];
    bucket_latest_version = zero_hash;
    bucket_upgrade_path = [];
    bucket_deployed_list = [];
    bucket_upgrade_process = none;
    bucket_topup_threshold = 0;
    bucket_topup_amount = 0;
    governance_canister = none;
  };
  auth = [];
  wasms = [];
  logs = [];
}

abbrev a_user : Principal
a_user = 1 ∷ []

abbrev a_bucket : Principal
a_bucket = 9 ∷ []

abbrev write_files : Policy
write_files = record {
  permission = record {
    resource = Resource.folder;
    operation = Operation.write;
    constraint = some Resource.file;
  };
  resources = codes "1" ∷ [];
}

name_is_valid : validate_name (codes "1") ≡ ok tt
unfolding validate_name validate_chars is_name_char
name_is_valid = refl

write_files-IsPlainPolicy : IsPlainPolicy write_files
write_files-IsPlainPolicy = record {
  permission = record { resource = tt; operation = tt; constraint = tt };
  constraint = ground arith;
  names = (name_is_valid, tt);
  ascending = tt;
}

empty-IsAuth : IsAuth empty_cluster
unfolding Maps.get
empty-IsAuth = record { printed = λ s a text e. absurd (ground arith) }

attach_policies-holds_example :
    (c' : Cluster) × (attach_policies a_user a_bucket (write_files ∷ []) empty_cluster ≡ some c')
    × IsAuth c'
    × ((s a : Principal) (p : Policy)
        → holds s a p c' ≡ (
            if same s a_user && same a a_bucket
            then holds s a p empty_cluster || Sets.contains p (write_files ∷ [])
            else holds s a p empty_cluster))
attach_policies-holds_example =
    attach_policies-holds a_user a_bucket (write_files ∷ []) empty_cluster empty-IsAuth
      (write_files-IsPlainPolicy, tt)

-- The user holds one policy on the bucket.
abbrev with_user : Cluster
with_user = with_text a_user a_bucket (print_policies (write_files ∷ [])) empty_cluster

with_user-IsAuth : IsAuth with_user
with_user-IsAuth =
    with_text-IsAuth a_user a_bucket (write_files ∷ []) (write_files-IsPlainPolicy, tt)
      empty_cluster empty-IsAuth

detach_policies-holds_example :
    (c' : Cluster) × (detach_policies a_user a_bucket (write_files ∷ []) with_user ≡ some c')
    × IsAuth c'
    × ((s a : Principal) (p : Policy)
        → holds s a p c' ≡ (
            if same s a_user && same a a_bucket
            then holds s a p with_user && not (Sets.contains p (write_files ∷ []))
            else holds s a p with_user))
    × ((s a : Principal) → is_some (stored_text s a c') ≡ is_some (stored_text s a with_user))
detach_policies-holds_example =
    detach_policies-holds a_user a_bucket (write_files ∷ []) with_user with_user-IsAuth

abbrev user_token : Token
user_token = record {
  subject = a_user;
  audience = a_bucket;
  policies = print_policies (write_files ∷ []);
}

-- A verification that accepts the byte 7 alone, as the user's token.
abbrev accepts_seven : List ℕ → List (List ℕ) → List (List ℕ) → Text → ℤ → Result Text Token
accepts_seven bytes ecdsa eddsa aad now_sec =
    if same bytes (7 ∷ []) then ok user_token else err (codes "invalid token")

token_issued : get_token a_user a_bucket with_user ≡ ok user_token
unfolding get_token get_all_policies Maps.get Maps.put list_cmp
token_issued = refl

token_verified : accepts_seven (7 ∷ []) [] [] bucket_token_aad (as_i64 5) ≡ ok user_token
unfolding list_cmp
token_verified = refl

nobody_manages : Sets.contains (2 ∷ []) default_bucket.managers ≡ false
unfolding Sets.contains
nobody_manages = refl

write_permission-get_token_example :
    (ctx : Context) × (write_permission accepts_seven default_bucket
        (2 ∷ [])
        a_bucket
        (some (7 ∷ []))
        5
      ≡ ok ctx)
    × (ctx.caller ≡ a_user)
    × ((p : Policy) → Sets.contains p ctx.ps ≡ holds a_user a_bucket p with_user)
write_permission-get_token_example =
    write_permission-get_token accepts_seven default_bucket (2 ∷ []) a_bucket a_user (7 ∷ []) 5
      with_user user_token with_user-IsAuth token_issued token_verified refl nobody_manages

-- A digest for these runs.
abbrev digest : List ℕ → Hash
digest bytes = 1 ∷ bytes

digest_nonzero : (bytes : List ℕ) → digest bytes ≢ zero_hash
digest_nonzero bytes e = ground arith

abbrev addition : List ℕ → Addition
addition bytes = record {
  caller = a_user;
  now_ms = 0;
  args = record { description = codes "v"; wasm = bytes };
}

empty-IsPath : IsPath empty_cluster
empty-IsPath = new-IsPath empty_cluster refl refl refl

abbrev two_versions : Cluster
two_versions =
    add_all digest digest_nonzero (addition (5 ∷ []) ∷ addition (6 ∷ []) ∷ []) empty_cluster

first_is_version : is_version (1 ∷ 5 ∷ []) two_versions ≡ true
unfolding add_all add_wasm run_add_wasm previous_version Maps.get Maps.put list_cmp
first_is_version = refl

add_all-Leads_example : Leads two_versions two_versions.state.bucket_latest_version (1 ∷ 5 ∷ [])
add_all-Leads_example =
    add_all-Leads digest digest_nonzero (addition (5 ∷ []) ∷ addition (6 ∷ []) ∷ []) empty_cluster
      empty-IsPath (1 ∷ 5 ∷ []) (inr first_is_version)

nobody-IsNamed : IsNamed empty_cluster
unfolding Sets.contains
nobody-IsNamed = record { managers = refl; committers = refl }

apply_changes-IsNamed_example : IsNamed (
    apply_changes
      (λ p. same p a_user)
      (RoleChange.add_managers a_user (anonymous ∷ [])
        ∷ RoleChange.add_committers a_user (a_bucket ∷ [])
        ∷ [])
      empty_cluster)
apply_changes-IsNamed_example =
    apply_changes-IsNamed (λ p. same p a_user)
      (RoleChange.add_managers a_user (anonymous ∷ [])
        ∷ RoleChange.add_committers a_user (a_bucket ∷ [])
        ∷ [])
      empty_cluster nobody-IsNamed

abbrev a_program : Wasm
a_program = record { created_at = 0; created_by = a_user; description = codes "v"; wasm = 0 ∷ [] }

unknown_first : is_version (1 ∷ []) empty_cluster ≡ false
unfolding Maps.get
unknown_first = refl

abbrev first_version : Cluster
first_version = with_version zero_hash (1 ∷ []) a_program empty_cluster

first-IsPath : IsPath first_version
first-IsPath =
    with_version-IsPath (1 ∷ []) a_program empty_cluster empty-IsPath unknown_first
      λ e. ground arith

unknown_second : is_version (2 ∷ []) first_version ≡ false
unfolding Maps.get Maps.put list_cmp
unknown_second = refl

-- Two versions, and a bucket at the first.
abbrev behind : Cluster
behind = upgraded (with_version (1 ∷ []) (2 ∷ []) a_program first_version) a_bucket 0 (1 ∷ []) []

behind-IsPath : IsPath behind
behind-IsPath =
    IsPath-upgraded (with_version (1 ∷ []) (2 ∷ []) a_program first_version) a_bucket 0 (1 ∷ []) []
      (with_version-IsPath (2 ∷ []) a_program first_version first-IsPath unknown_second
        λ e. ground arith)

abbrev quiet : Turn
quiet = record { installed = ok tt; now_ms = 0; meanwhile = λ c. c }

abbrev no_error : List DeployLog → DeployLog → Option Text
no_error logs log = none

bucket_in_order : IsOrdered behind.state.bucket_deployed_list
unfolding Maps.put
bucket_in_order = (tt, tt)

bucket-IsKnown : All (IsKnown behind) behind.state.bucket_deployed_list
unfolding Maps.put Maps.get list_cmp
bucket-IsKnown = (inr refl, tt)

-- The versions before each: two before any, and one before the second.
abbrev before : Hash → ℕ
before hash = if same hash (2 ∷ []) then 0 else if same hash (1 ∷ []) then 1 else 2

before_next :
    (hash next : Hash)
    → Maps.get hash behind.state.bucket_upgrade_path ≡ some next
    → before next < before hash
unfolding list_cmp
before_next hash next e = ground (
  arith,
  e,
  Maps.get-put {V = Hash} hash (1 ∷ []) (2 ∷ []) (Maps.put zero_hash (1 ∷ []) []),
  Maps.get-put {K = Hash} {V = Hash} hash zero_hash (1 ∷ []) [],
  Maps.get-nil {V = Hash} hash,
  same_iff hash zero_hash,
  same_iff hash (1 ∷ []),
  same_iff hash (2 ∷ []),
  same_iff next (1 ∷ []),
)

two_turns_suffice : steps_left before behind.state.bucket_deployed_list < 2
unfolding steps_left Maps.put list_cmp
two_turns_suffice = omega arith

upgrade_buckets-latest_example :
    (c' : Cluster) × (upgrade_buckets no_error (quiet ∷ quiet ∷ []) behind ≡ (some (ok tt), c'))
    × (c'.state.bucket_upgrade_process ≡ none)
    × (c'.state.bucket_latest_version ≡ behind.state.bucket_latest_version)
    × All (λ b. b.1.1 ≡ c'.state.bucket_latest_version) c'.state.bucket_deployed_list
upgrade_buckets-latest_example =
    upgrade_buckets-latest no_error (λ logs log. refl) before (quiet ∷ quiet ∷ []) behind
      behind-IsPath before_next ((refl, λ c. refl), ((refl, λ c. refl), tt)) bucket_in_order
      bucket-IsKnown two_turns_suffice

abbrev second_input : AddWasmInput
second_input = record { description = codes "v"; wasm = 6 ∷ [] }

add_wasm-dry_run_example :
    (dry digest a_user 0 second_input none behind
      ≡ ((done digest a_user 0 second_input none behind).0, behind))
    × ((((done digest a_user 0 second_input none behind).0 ≡ ok tt)
          × (Maps.get (digest second_input.wasm) behind.wasms ≡ none)
          × (get_latest (done digest a_user 0 second_input none behind).1
              ≡ ok (digest second_input.wasm, new_wasm digest a_user 0 second_input none behind))
          × (next_version behind.state.bucket_latest_version
                (done digest a_user 0 second_input none behind).1
              ≡ ok (digest second_input.wasm, new_wasm digest a_user 0 second_input none behind)))
        ⊎ ((e : ClusterError) × ((done digest a_user 0 second_input none behind).0 ≡ err e)
            × ((done digest a_user 0 second_input none behind).1 ≡ behind)))
add_wasm-dry_run_example = add_wasm-dry_run digest a_user 0 second_input none behind

abbrev to_bucket : DeployWasmInput
to_bucket = record { canister = a_bucket; args = none }

abbrev bucket_info : CanisterInfo
bucket_info = record { controllers = a_user ∷ []; module_hash = none }

validate_deploy_bucket-plan_deploy_example :
    is_ok (validate_deploy_bucket a_user to_bucket none (ok bucket_info) behind)
    ≡ is_ok (plan_deploy a_user to_bucket none (ok bucket_info) behind)
validate_deploy_bucket-plan_deploy_example =
    validate_deploy_bucket-plan_deploy a_user to_bucket none (ok bucket_info) behind

abbrev a_log : DeployLog
a_log = record {
  deploy_at = 0;
  canister = a_bucket;
  prev_hash = zero_hash;
  wasm_hash = 1 ∷ [];
  args = [];
  error = none;
}

abbrev with_logs : Cluster
with_logs = record empty_cluster { logs = a_log ∷ a_log ∷ [] }

bucket_deployment_logs-page_example : nth 1 (bucket_deployment_logs (some 2) 5 with_logs) ≡ (
    if ltb 1 2 && leb 2 (length with_logs.logs) && (1 == 0 || ltb 1 5)
    then map_option full_info (get_log (2 - 1 - 1) with_logs.logs)
    else none)
bucket_deployment_logs-page_example = bucket_deployment_logs-page (some 2) 5 with_logs 1
