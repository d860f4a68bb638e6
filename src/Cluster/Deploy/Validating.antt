-- ===== src/Cluster/Deploy/Validating.antt =====
-- The validation of a deployment, before a proposal is made for it.
use ic_oss.Types.Ids.{Principal, Hash}
use ic_oss.Cluster.Versions.{get_wasm, get_latest, next_version}
use ic_oss.Base.{◌≡◌, inl, inr, Option, arith, Option-cases, Text, Result-cases, Result}
use ic_oss.Cluster.{Cluster}
use ic_oss.Cluster.Deploy.{
  module_hash_of, is_ok, version_to_deploy, plan_deploy, validate_deploy_bucket, CanisterInfo,
  DeployWasmInput,
}

module _ (self_id : Principal) (args : DeployWasmInput) (ignore_prev_hash : Option Hash)
    (found : Result Text CanisterInfo) (c : Cluster) where
  -- `validate_admin_deploy_bucket` accepts just the deployments for which `admin_deploy_bucket`
  -- finds a version to install.
  pub validate_deploy_bucket-plan_deploy :
      is_ok (validate_deploy_bucket self_id args ignore_prev_hash found c)
      ≡ is_ok (plan_deploy self_id args ignore_prev_hash found c)
  unfolding validate_deploy_bucket plan_deploy version_to_deploy get_latest get_wasm next_version
  validate_deploy_bucket-plan_deploy = elim (Result-cases found) [
    | inr (x, e) ↦ ground (arith, e)
    | inl (info, e) ↦ elim (Result-cases (module_hash_of info)) [
      | inr (x, h) ↦ ground (arith, e, h)
      | inl (prev, h) ↦ elim (Option-cases ignore_prev_hash) [
        | inl i ↦ ground (arith, e, h, i)
        | inr (ignored, i) ↦ ground (arith, e, h, i)
      ]
    ]
  ]
