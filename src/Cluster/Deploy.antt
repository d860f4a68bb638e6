-- ===== src/Cluster/Deploy.antt =====
-- The deployment of buckets, in src/ic_oss_cluster/src/api_admin.rs. The results of the calls of
-- other canisters, which create canisters and install code, are arguments; what other calls did to
-- the cluster while one waited for its result is a function of the cluster, `meanwhile`.
pub mod Validating
use ic_oss.Types.Ids.{Principal, Hash, zero_hash}
use ic_oss.Base.{
  ℕ, Bool, true, false, not, Option, none, some, List, [], ◌∷◌, ◌++◌, is_some, get_or, ◌==◌,
  if◌then◌else◌, length, Text, ◌>>=◌, ◌>>◌, fail_if, ok_or, map_err, Result, ok, err, same, codes,
  nat_ord, list_ord,
}
use ic_oss.Base.Maps
use ic_oss.Base.Sets
use ic_oss.Cluster.{
  Cluster, Wasm, DeployLog, ClusterError, wasm_not_found, call_failed, not_canister_controller,
  prev_hash_mismatch,
}
use ic_oss.Cluster.Versions.{add_log, get_wasm, get_latest, next_version}

-- `EMPTY_CANDID_ARGS`
abbrev pub empty_candid_args : List ℕ
empty_candid_args = 68 ∷ 73 ∷ 68 ∷ 76 ∷ 0 ∷ 0 ∷ []

-- What `canister_info` says of a canister.
pub record CanisterInfo : Type 0 where
  pub controllers : List Principal
  pub module_hash : Option Hash

pub record DeployWasmInput : Type 0 where
  pub canister : Principal
  pub args : Option (List ℕ)

pub data InstallMode : Type 0 where
  install upgrade : InstallMode

-- What `install_code` is asked to do, with the hashes of the two versions.
pub record Plan : Type 0 where
  pub mode : InstallMode
  pub canister : Principal
  pub prev_hash : Hash
  pub wasm_hash : Hash
  pub wasm_module : List ℕ
  pub arg : List ℕ

abbrev pub error_of : Result Text (Unit {0}) → Option Text
error_of (ok _) = none
error_of (err e) = some e

abbrev pub is_ok {ℓ κ} : {E : Type ℓ} {A : Type κ} → Result E A → Bool
is_ok (ok a) = true
is_ok (err e) = false

abbrev pub set_deployed : Principal → ℕ → Hash → Cluster → Cluster
set_deployed canister id hash c = record c {
  state = record c.state {
    bucket_deployed_list = Maps.put canister (id, hash) c.state.bucket_deployed_list;
  };
}

-- What a new bucket is installed with, once its canister was created.
unfoldable pub plan_create :
    Result Text Principal → Option (List ℕ) → Cluster → Result ClusterError Plan
plan_create created args c = do
  canister ← map_err call_failed created
  latest ← get_latest c
  ok (record {
    mode = install;
    canister = canister;
    prev_hash = zero_hash;
    wasm_hash = latest.0;
    wasm_module = latest.1.wasm;
    arg = get_or args empty_candid_args;
  })

abbrev pub log_of : Plan → ℕ → Result Text (Unit {0}) → DeployLog
log_of plan now_ms installed = record {
  deploy_at = now_ms;
  canister = plan.canister;
  prev_hash = plan.prev_hash;
  wasm_hash = plan.wasm_hash;
  args = plan.arg;
  error = error_of installed;
}

-- The canister's module hash, as 32 bytes, and those of no program where there is none.
unfoldable pub module_hash_of : CanisterInfo → Result ClusterError Hash
module_hash_of info = elim info.module_hash [
  | none ↦ ok zero_hash
  | some hash ↦ fail_if (not (length hash == 32)) (call_failed (codes "try_from")) >> ok hash
]

-- The version to deploy: the next, or the latest where the previous one is to be ignored.
unfoldable pub version_to_deploy : Option Hash → Hash → Cluster → Result ClusterError (Hash × Wasm)
version_to_deploy none prev_hash c = next_version prev_hash c
version_to_deploy (some ignored) prev_hash c =
    fail_if (not (same ignored prev_hash)) (prev_hash_mismatch prev_hash ignored) >> get_latest c

module _ (self_id : Principal) where
  -- The controllers of a new canister, with the cluster itself.
  unfoldable pub with_self : Option (List Principal) → List Principal
  with_self controllers =
      let given = get_or controllers [] in
      if Sets.contains self_id given then given else given ++ self_id ∷ []

  unfoldable pub plan_deploy :
      DeployWasmInput → Option Hash → Result Text CanisterInfo → Cluster → Result ClusterError Plan
  plan_deploy args ignore_prev_hash found c = do
    info ← map_err call_failed found
    fail_if (not (Sets.contains self_id info.controllers)) (not_canister_controller args.canister)
    prev_hash ← module_hash_of info
    version ← version_to_deploy ignore_prev_hash prev_hash c
    ok (record {
      mode = if is_some info.module_hash then upgrade else install;
      canister = args.canister;
      prev_hash = prev_hash;
      wasm_hash = version.0;
      wasm_module = version.1.wasm;
      arg = get_or args.args empty_candid_args;
    })

  -- `validate_admin_deploy_bucket`
  unfoldable pub validate_deploy_bucket :
      DeployWasmInput
      → Option Hash
      → Result Text CanisterInfo
      → Cluster
      → Result ClusterError (Unit {0})
  validate_deploy_bucket args ignore_prev_hash found c = do
    info ← map_err call_failed found
    fail_if (not (Sets.contains self_id info.controllers)) (not_canister_controller args.canister)
    prev_hash ← module_hash_of info
    elim ignore_prev_hash [
      | none ↦ next_version prev_hash c >>= λ _. ok tt
      | some ignored ↦ do
        fail_if (not (same ignored prev_hash)) (prev_hash_mismatch prev_hash ignored)
        wasm ←
            ok_or (get_wasm c.state.bucket_latest_version c)
              (wasm_not_found c.state.bucket_latest_version)
        ok tt
    ]

module _ (append_error : List DeployLog → DeployLog → Option Text) where
  -- After `install_code`: the log, and the bucket's version if the code was installed.
  unfoldable pub record_install :
      DeployLog → Result Text (Unit {0}) → Cluster → Result ClusterError (Unit {0}) × Cluster
  record_install log installed c =
      let (added, c') = add_log append_error log c in
      elim added [
        | err e ↦ (err e, c')
        | ok id ↦
            (ok tt, if is_ok installed then set_deployed log.canister id log.wasm_hash c' else c')
      ]

  -- `admin_create_bucket`, and `admin_create_bucket_on` with the same steps, from the result of
  -- the creation on. It replies with the canister also where the installation failed.
  unfoldable pub admin_create_bucket :
      Result Text Principal
      → Option (List ℕ)
      → Result Text (Unit {0})
      → ℕ
      → (Cluster → Cluster)
      → Cluster
      → Result ClusterError Principal × Cluster
  admin_create_bucket created args installed now_ms meanwhile c =
      elim (plan_create created args c) [
        | err e ↦ (err e, c)
        | ok plan ↦
            let (recorded, c') =
              record_install (log_of plan now_ms installed) installed (meanwhile c) in
            ((recorded >> ok plan.canister), c')
      ]

-- From the information on the canister on. The reply is that of the installation.
unfoldable pub admin_deploy_bucket :
    (List DeployLog → DeployLog → Option Text)
    → Principal
    → DeployWasmInput
    → Option Hash
    → Result Text CanisterInfo
    → Result Text (Unit {0})
    → ℕ
    → (Cluster → Cluster)
    → Cluster
    → Result ClusterError (Unit {0}) × Cluster
admin_deploy_bucket append_error self_id args ignore_prev_hash found installed now_ms meanwhile c =
    elim (plan_deploy self_id args ignore_prev_hash found c) [
      | err e ↦ (err e, c)
      | ok plan ↦
          let (recorded, c') =
            record_install append_error (log_of plan now_ms installed) installed (meanwhile c) in
          ((recorded >> map_err call_failed installed), c')
    ]
