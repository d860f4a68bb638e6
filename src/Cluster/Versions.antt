-- ===== src/Cluster/Versions.antt =====
-- The versions of the bucket's program and the log of its deployments: the module `wasm` of
-- src/ic_oss_cluster/src/store.rs. SHA-256 is a parameter, and so is the error of a log that cannot
-- grow, which the package for stable memory reports.
pub mod Logs
pub mod Adding
pub mod Leading
use ic_oss.Types.Ids.{Principal, Hash}
use ic_oss.Base.{
  ℕ, zero, suc, ◌+◌, ◌-◌, Bool, not, ◌||◌, Option, none, some, List, [], ◌∷◌, ◌++◌, Map, is_some,
  get_or, ltb, leb, ◌==◌, if◌then◌else◌, length, Text, ◌>>=◌, ◌>>◌, fail_if, ok_or, commit, Result,
  ok, err, nat_ord, list_ord,
}
use ic_oss.Base.Maps
use ic_oss.Cluster.{
  Cluster, State, Wasm, DeployLog, ClusterError, wasm_exists, no_prev_hash, no_latest_wasm,
  no_next_version, next_version_not_found, log_failed,
}

pub record AddWasmInput : Type 0 where
  pub description : Text
  pub wasm : List ℕ

pub record BucketDeploymentInfo : Type 0 where
  pub deploy_at : ℕ
  pub canister : Principal
  pub prev_hash : Hash
  pub wasm_hash : Hash
  pub args : Option (List ℕ)
  pub error : Option Text

-- The version that a new one follows: one that already has a next version, if it is forced.
unfoldable pub previous_version : Option Hash → State → Result ClusterError Hash
previous_version none state = ok state.bucket_latest_version
previous_version (some hash) state =
    fail_if (not (is_some (Maps.get hash state.bucket_upgrade_path))) no_prev_hash >> ok hash

-- The new version, as the one after `prev_hash` and the latest.
abbrev pub with_version : Hash → Hash → Wasm → Cluster → Cluster
with_version prev_hash hash wasm c = record c {
  state = record c.state {
    bucket_upgrade_path = Maps.put prev_hash hash c.state.bucket_upgrade_path;
    bucket_latest_version = hash;
  };
  wasms = Maps.put hash wasm c.wasms;
}

module _ (sha256 : List ℕ → Hash) where
  -- The dry run of `add_wasm`, which makes its tests alone.
  unfoldable pub dry_add_wasm :
      AddWasmInput → Option Hash → Cluster → Result ClusterError (Unit {0})
  dry_add_wasm args force_prev_hash c = do
    fail_if (is_some (Maps.get (sha256 args.wasm) c.wasms)) wasm_exists
    elim force_prev_hash [
      | none ↦ ok tt
      | some hash ↦ fail_if (not (is_some (Maps.get hash c.state.bucket_upgrade_path))) no_prev_hash
    ]

  -- The run of `add_wasm`.
  unfoldable pub run_add_wasm :
      Principal
      → ℕ
      → AddWasmInput
      → Option Hash
      → Cluster
      → Result ClusterError (Unit {0}) × Cluster
  run_add_wasm caller now_ms args force_prev_hash c = commit c (do
    fail_if (is_some (Maps.get (sha256 args.wasm) c.wasms)) wasm_exists
    prev_hash ← previous_version force_prev_hash c.state
    ok (
      tt,
      with_version prev_hash (sha256 args.wasm)
          (record {
            created_at = now_ms;
            created_by = caller;
            description = args.description;
            wasm = args.wasm;
          })
          c,
    ))

  unfoldable pub add_wasm :
      Principal
      → ℕ
      → AddWasmInput
      → Option Hash
      → Bool
      → Cluster
      → Result ClusterError (Unit {0}) × Cluster
  add_wasm caller now_ms args force_prev_hash dry_run c =
      if dry_run
      then (dry_add_wasm args force_prev_hash c, c)
      else run_add_wasm caller now_ms args force_prev_hash c

unfoldable pub get_wasm : Hash → Cluster → Option Wasm
get_wasm hash c = Maps.get hash c.wasms

unfoldable pub get_latest : Cluster → Result ClusterError (Hash × Wasm)
get_latest c = do
  wasm ← ok_or (Maps.get c.state.bucket_latest_version c.wasms) no_latest_wasm
  ok (c.state.bucket_latest_version, wasm)

unfoldable pub next_version : Hash → Cluster → Result ClusterError (Hash × Wasm)
next_version prev_hash c = do
  hash ← ok_or (Maps.get prev_hash c.state.bucket_upgrade_path) no_next_version
  wasm ← ok_or (Maps.get hash c.wasms) next_version_not_found
  ok (hash, wasm)

-- `logs.get(idx)`
unfoldable pub get_log : ℕ → List DeployLog → Option DeployLog
get_log n [] = none
get_log zero (log ∷ logs) = some log
get_log (suc n) (log ∷ logs) = get_log n logs

-- It returns the index of the log.
unfoldable pub add_log :
    (List DeployLog → DeployLog → Option Text)
    → DeployLog
    → Cluster
    → Result ClusterError ℕ × Cluster
add_log append_error log c = elim (append_error c.logs log) [
  | some e ↦ (err (log_failed e), c)
  | none ↦ (ok (length c.logs), record c { logs = c.logs ++ log ∷ [] })
]

abbrev pub deployment_info : Option (List ℕ) → DeployLog → BucketDeploymentInfo
deployment_info args log = record {
  deploy_at = log.deploy_at;
  canister = log.canister;
  prev_hash = log.prev_hash;
  wasm_hash = log.wasm_hash;
  args = args;
  error = log.error;
}

-- The logs of the deployed buckets, in the order of the buckets, without those not found.
unfoldable pub deployed_logs : Map Principal (ℕ × Hash) → List DeployLog → List BucketDeploymentInfo
deployed_logs [] logs = []
deployed_logs ((canister, (id, hash)) ∷ buckets) logs =
    let rest = deployed_logs buckets logs in
    elim (get_log id logs) [ none ↦ rest | some log ↦ deployment_info none log ∷ rest ]

unfoldable pub get_deployed_buckets : Cluster → List BucketDeploymentInfo
get_deployed_buckets c = deployed_logs c.state.bucket_deployed_list c.logs

-- The loop of `bucket_deployment_logs`, from a log down, with the number of those it has.
unfoldable pub logs_loop : ℕ → ℕ → ℕ → List DeployLog → List BucketDeploymentInfo
logs_loop zero count take logs = elim (get_log zero logs) [
  | none ↦ []
  | some log ↦ deployment_info (some log.args) log ∷ []
]
logs_loop (suc idx) count take logs = elim (get_log (suc idx) logs) [
  | none ↦ []
  | some log ↦
      deployment_info (some log.args) log
      ∷ (let rest = logs_loop idx (count + 1) take logs in
          if leb take (count + 1) then [] else rest)
]

unfoldable pub bucket_deployment_logs : Option ℕ → ℕ → Cluster → List BucketDeploymentInfo
bucket_deployment_logs prev take c =
    let latest = length c.logs in
    let start = get_or prev latest in
    if latest == 0
    then []
    else if ltb latest start || start == 0
    then []
    else logs_loop (start - 1) 0 take c.logs
