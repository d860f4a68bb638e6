-- ===== src/Cluster.antt =====
-- The cluster canister, src/ic_oss_cluster: its state, in src/ic_oss_cluster/src/store.rs, and the
-- guards of its calls, in lib.rs. The children model the policies of principals, the versions of
-- the bucket's program, its deployment, and the administration.
pub mod Auth
pub mod Versions
pub mod Deploy
pub mod Upgrade
pub mod Admin
pub mod Queries
use ic_oss.Types.Permission.Name.{ParseError}
use ic_oss.Base.{
  ℕ, Bool, false, ◌||◌, Option, none, some, List, [], ◌∷◌, Map, Set, if◌then◌else◌, Text, Result,
  ok, err, same, nat_ord, list_ord,
}
use ic_oss.Base.Sets
use ic_oss.Types.Ids.{Principal, Hash}

pub record State : Type 0 where
  pub name : Text
  pub ecdsa_key_name : Text
  pub ecdsa_token_public_key : Text
  pub token_expiration : ℕ
  pub managers : Set Principal
  pub bucket_latest_version : Hash
  pub bucket_upgrade_path : Map Hash Hash
  pub bucket_deployed_list : Map Principal (ℕ × Hash)
  pub bucket_upgrade_process : Option (List ℕ)
  pub bucket_topup_threshold : ℕ
  pub bucket_topup_amount : ℕ
  pub schnorr_key_name : Text
  pub schnorr_ed25519_token_public_key : Text
  pub weak_ed25519_secret_key : List ℕ
  pub weak_ed25519_token_public_key : Text
  pub governance_canister : Option Principal
  pub committers : Set Principal

pub record Wasm : Type 0 where
  pub created_at : ℕ
  pub created_by : Principal
  pub description : Text
  pub wasm : List ℕ

pub record DeployLog : Type 0 where
  pub deploy_at : ℕ
  pub canister : Principal
  pub prev_hash : Hash
  pub wasm_hash : Hash
  pub args : List ℕ
  pub error : Option Text

-- `PoliciesTable`: the text of the policies on each audience.
abbrev pub PoliciesTable : Type 0
PoliciesTable = Map Principal Text

-- `STATE`, `AUTH_STORE`, `WASM_STORE` and `INSTALL_LOGS`
pub record Cluster : Type 0 where
  pub state : State
  pub auth : Map Principal PoliciesTable
  pub wasms : Map Hash Wasm
  pub logs : List DeployLog

pub data ClusterError : Type 0 where
  not_controller : ClusterError
  not_manager : ClusterError
  not_committer : ClusterError
  no_principals : ClusterError
  anonymous_principal : ClusterError
  bad_policies : ParseError → ClusterError
  no_policies : ClusterError
  wasm_exists : ClusterError
  no_prev_hash : ClusterError
  no_latest_wasm : ClusterError
  no_next_version : ClusterError
  next_version_not_found : ClusterError
  wasm_not_found : Hash → ClusterError
  log_failed : Text → ClusterError
  call_failed : Text → ClusterError
  not_canister_controller : Principal → ClusterError
  prev_hash_mismatch : Hash → Hash → ClusterError
  upgrade_running : ClusterError
  not_deployed : Principal → ClusterError
  topup_disabled : ClusterError
  no_bucket : ClusterError
  low_balance : ℕ → ClusterError

-- `Principal::anonymous()`
abbrev pub anonymous : Principal
anonymous = 4 ∷ []

-- Whether an optional principal is this one.
abbrev pub is_principal : Option Principal → Principal → Bool
is_principal none caller = false
is_principal (some p) caller = same p caller

unfoldable pub is_controller : Cluster → Principal → Bool
is_controller c caller = is_principal c.state.governance_canister caller

unfoldable pub is_manager : Cluster → Principal → Bool
is_manager c caller = Sets.contains caller c.state.managers

unfoldable pub is_committer : Cluster → Principal → Bool
is_committer c caller = Sets.contains caller c.state.committers

-- The guards of lib.rs, over the canister's controllers, whom the platform knows.
module _ (platform_controls : Principal → Bool) where
  unfoldable pub guard_controller : Cluster → Principal → Result ClusterError (Unit {0})
  guard_controller c caller =
      if platform_controls caller || is_controller c caller then ok tt else err not_controller

  unfoldable pub guard_manager : Cluster → Principal → Result ClusterError (Unit {0})
  guard_manager c caller =
      if platform_controls caller || is_controller c caller || is_manager c caller
      then ok tt
      else err not_manager

  unfoldable pub guard_committer : Cluster → Principal → Result ClusterError (Unit {0})
  guard_committer c caller =
      if platform_controls caller
        || is_controller c caller
        || is_manager c caller
        || is_committer c caller
      then ok tt
      else err not_committer
