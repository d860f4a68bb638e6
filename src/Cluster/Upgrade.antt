-- ===== src/Cluster/Upgrade.antt =====
-- The upgrade of all buckets, in src/ic_oss_cluster/src/api_admin.rs: one bucket after the other, each
-- in a turn of its own, until none has a next version.
pub mod Steps
pub mod Latest
use ic_oss.Types.Ids.{Principal, Hash}
use ic_oss.Cluster.Versions.{get_wasm}
use ic_oss.Base.{
  ℕ, Option, none, some, List, [], ◌∷◌, Map, is_some, get_or, Text, ◌>>=◌, ◌>>◌, fail_if, map_err,
  Result, ok, err, nat_ord, list_ord,
}
use ic_oss.Base.Maps
use ic_oss.Cluster.{Cluster, DeployLog, ClusterError, wasm_not_found, call_failed, upgrade_running}
use ic_oss.Cluster.Deploy.{record_install, empty_candid_args, error_of}

-- The first bucket, in the order of the principals, whose version has a next one.
unfoldable pub next_upgrade :
    Map Principal (ℕ × Hash) → Map Hash Hash → Option (Principal × Hash × Hash)
next_upgrade [] path = none
next_upgrade ((canister, (id, hash)) ∷ buckets) path =
    let rest = next_upgrade buckets path in
    elim (Maps.get hash path) [ some next ↦ some (canister, hash, next) | none ↦ rest ]

-- The result of an installation, its time, and what other calls did meanwhile.
pub record Turn : Type 0 where
  pub installed : Result Text (Unit {0})
  pub now_ms : ℕ
  pub meanwhile : Cluster → Cluster

abbrev pub stop_process : Cluster → Cluster
stop_process c = record c { state = record c.state { bucket_upgrade_process = none } }

module _ (append_error : List DeployLog → DeployLog → Option Text) where
  -- From the installation on.
  unfoldable pub finish_upgrade :
      Principal → Hash → Hash → Turn → Cluster → Result ClusterError (Option Principal) × Cluster
  finish_upgrade canister prev hash turn c =
      let (recorded, c') =
        record_install append_error
          (record {
            deploy_at = turn.now_ms;
            canister = canister;
            prev_hash = prev;
            wasm_hash = hash;
            args = [];
            error = error_of turn.installed;
          })
          turn.installed c in
      ((recorded >> map_err call_failed turn.installed >> ok (some canister)), c')

  unfoldable pub upgrade_bucket : Turn → Cluster → Result ClusterError (Option Principal) × Cluster
  upgrade_bucket turn c =
      elim (next_upgrade c.state.bucket_deployed_list c.state.bucket_upgrade_path) [
        | none ↦ (ok none, c)
        | some (canister, prev, hash) ↦ elim (get_wasm hash c) [
          | none ↦ (err (wasm_not_found hash), c)
          | some wasm ↦ finish_upgrade canister prev hash turn (turn.meanwhile c)
        ]
      ]

  -- `upgrade_buckets`: after a bucket a timer runs it again, with the next turn; `none` stands for
  -- a process that still runs after the last turn.
  unfoldable pub upgrade_buckets :
      List Turn → Cluster → Option (Result ClusterError (Unit {0})) × Cluster
  upgrade_buckets [] c = (none, c)
  upgrade_buckets (turn ∷ turns) c =
      let (upgraded, c') = upgrade_bucket turn c in
      elim upgraded [
        | err e ↦ (some (err e), stop_process c')
        | ok none ↦ (some (ok tt), stop_process c')
        | ok (some canister) ↦ upgrade_buckets turns c'
      ]

-- The start of `admin_upgrade_all_buckets`.
unfoldable pub start_process : Option (List ℕ) → Cluster → Result ClusterError Cluster
start_process args c = do
  fail_if (is_some c.state.bucket_upgrade_process) upgrade_running
  ok (record c {
    state = record c.state { bucket_upgrade_process = some (get_or args empty_candid_args) };
  })
