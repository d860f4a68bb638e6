-- ===== src/Cluster/Queries.antt =====
-- The queries of the cluster, src/ic_oss_cluster/src/api_query.rs, with `state::get_cluster_info`.
use ic_oss.Types.Ids.{Principal, Hash}
use ic_oss.Cluster.Versions.{get_wasm, BucketDeploymentInfo}
use ic_oss.Cluster.Auth.{get_all_policies}
use ic_oss.Base.{
  ℕ, min, not, ◌&&◌, Option, List, is_some, get_or, Set, length, Text, ◌>>=◌, ◌>>◌, fail_if, ok_or,
  Result, ok, same, nat_ord, list_ord,
}
use ic_oss.Base.Maps
use ic_oss.Cluster.{Cluster, PoliciesTable, ClusterError, no_policies, wasm_not_found, no_bucket}
use ic_oss.Cluster.Admin.{keys}
use ic_oss.Cluster.Versions.{bucket_deployment_logs, get_wasm, BucketDeploymentInfo}

pub record ClusterInfo : Type 0 where
  pub name : Text
  pub ecdsa_key_name : Text
  pub schnorr_key_name : Text
  pub ecdsa_token_public_key : Text
  pub schnorr_ed25519_token_public_key : Text
  pub weak_ed25519_token_public_key : Text
  pub token_expiration : ℕ
  pub managers : Set Principal
  pub committers : Set Principal
  pub subject_authz_total : ℕ
  pub bucket_latest_version : Hash
  pub bucket_wasm_total : ℕ
  pub bucket_deployed_total : ℕ
  pub bucket_deployment_logs : ℕ
  pub governance_canister : Option Principal

unfoldable pub get_cluster_info : Cluster → ClusterInfo
get_cluster_info c = record {
  name = c.state.name;
  ecdsa_key_name = c.state.ecdsa_key_name;
  schnorr_key_name = c.state.schnorr_key_name;
  ecdsa_token_public_key = c.state.ecdsa_token_public_key;
  schnorr_ed25519_token_public_key = c.state.schnorr_ed25519_token_public_key;
  weak_ed25519_token_public_key = c.state.weak_ed25519_token_public_key;
  token_expiration = c.state.token_expiration;
  managers = c.state.managers;
  committers = c.state.committers;
  subject_authz_total = length c.auth;
  bucket_latest_version = c.state.bucket_latest_version;
  bucket_wasm_total = length c.wasms;
  bucket_deployed_total = length c.state.bucket_deployed_list;
  bucket_deployment_logs = length c.logs;
  governance_canister = c.state.governance_canister;
}

pub record WasmInfo : Type 0 where
  pub created_at : ℕ
  pub created_by : Principal
  pub description : Text
  pub wasm : List ℕ
  pub hash : Hash

unfoldable pub get_bucket_wasm : Hash → Cluster → Result ClusterError WasmInfo
get_bucket_wasm hash c = do
  w ← ok_or (get_wasm hash c) (wasm_not_found hash)
  ok (record {
    created_at = w.created_at;
    created_by = w.created_by;
    description = w.description;
    wasm = w.wasm;
    hash = hash;
  })

unfoldable pub get_buckets : Cluster → List Principal
get_buckets c = keys c.state.bucket_deployed_list

-- The canister whose status is asked: this one, or a bucket.
unfoldable pub status_canister :
    Principal → Option Principal → Cluster → Result ClusterError Principal
status_canister self_id asked c = do
  let canister = get_or asked self_id
  fail_if
      (not (same canister self_id)
        && not (is_some (Maps.get canister c.state.bucket_deployed_list)))
      no_bucket
  ok canister

-- At most 1,000 logs, and 10 where no number is given.
unfoldable pub query_logs : Option ℕ → Option ℕ → Cluster → List BucketDeploymentInfo
query_logs prev take c = bucket_deployment_logs prev (min (get_or take 10) 1000) c

unfoldable pub get_subject_policies : Principal → Cluster → Result ClusterError PoliciesTable
get_subject_policies subject c = ok_or (get_all_policies subject c) no_policies

unfoldable pub get_subject_policies_for : Principal → Principal → Cluster → Result ClusterError Text
get_subject_policies_for subject audience c = do
  table ← ok_or (get_all_policies subject c) no_policies
  ok_or (Maps.get audience table) no_policies
