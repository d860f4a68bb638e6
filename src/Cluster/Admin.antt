-- ===== src/Cluster/Admin.antt =====
-- The administration of the cluster, in lib.rs, api_admin.rs and init.rs of src/ic_oss_cluster/src.
-- The setters stand behind the guards of the parent module, which the platform checks first.
pub mod Anonymous
use ic_oss.Types.Ids.{Principal}
use ic_oss.Base.{
  ℕ, Bool, not, Option, none, some, List, [], ◌∷◌, Map, map_option, is_some, get_or, Set, ◌==◌,
  if◌then◌else◌, is_empty, Text, ◌>>=◌, ◌>>◌, fail_if, map_err, commit, Result, ok, nat_ord,
  list_ord,
}
use ic_oss.Base.Maps
use ic_oss.Base.Sets
use ic_oss.Cluster.{
  Cluster, anonymous, guard_controller, State, ClusterError, no_principals, anonymous_principal,
  call_failed, not_deployed, no_bucket,
}

unfoldable pub validate_principals : Set Principal → Result ClusterError (Unit {0})
validate_principals principals = do
  fail_if (is_empty principals) no_principals
  fail_if (Sets.contains anonymous principals) anonymous_principal
  ok tt

abbrev pub with_managers : Set Principal → Cluster → Cluster
with_managers managers c = record c { state = record c.state { managers = managers } }

abbrev pub with_committers : Set Principal → Cluster → Cluster
with_committers committers c = record c { state = record c.state { committers = committers } }

module _ (platform_controls : Principal → Bool) where
  -- A change of the cluster by a controller, with a set of principals that is valid.
  unfoldable pub change_by_controller :
      (Set Principal → Cluster → Cluster)
      → Principal
      → Set Principal
      → Cluster
      → Result ClusterError (Unit {0}) × Cluster
  change_by_controller change caller args c = commit c (do
    guard_controller platform_controls c caller
    validate_principals args
    ok (tt, change args c))

  unfoldable pub admin_set_managers :
      Principal → Set Principal → Cluster → Result ClusterError (Unit {0}) × Cluster
  admin_set_managers = change_by_controller (λ args c. with_managers args c)

  unfoldable pub admin_add_managers :
      Principal → Set Principal → Cluster → Result ClusterError (Unit {0}) × Cluster
  admin_add_managers =
      change_by_controller (λ args c. with_managers (Sets.insert_all args c.state.managers) c)

  unfoldable pub admin_remove_managers :
      Principal → Set Principal → Cluster → Result ClusterError (Unit {0}) × Cluster
  admin_remove_managers =
      change_by_controller (λ args c. with_managers (Sets.remove_all args c.state.managers) c)

  unfoldable pub admin_add_committers :
      Principal → Set Principal → Cluster → Result ClusterError (Unit {0}) × Cluster
  admin_add_committers =
      change_by_controller (λ args c. with_committers (Sets.insert_all args c.state.committers) c)

  unfoldable pub admin_remove_committers :
      Principal → Set Principal → Cluster → Result ClusterError (Unit {0}) × Cluster
  admin_remove_committers =
      change_by_controller (λ args c. with_committers (Sets.remove_all args c.state.committers) c)

abbrev pub keys {ℓ κ} : {K : Type ℓ} {V : Type κ} → Map K V → List K
keys [] = []
keys ((k, v) ∷ m) = k ∷ keys m

-- The first of some buckets that is not deployed.
unfoldable pub all_deployed : List Principal → Cluster → Result ClusterError (Unit {0})
all_deployed [] c = ok tt
all_deployed (id ∷ ids) c = do
  fail_if (not (is_some (Maps.get id c.state.bucket_deployed_list))) (not_deployed id)
  all_deployed ids c

-- The buckets that `admin_batch_call_buckets` calls: those given, or all.
unfoldable pub buckets_to_call : Set Principal → Cluster → Result ClusterError (List Principal)
buckets_to_call buckets c = do
  all_deployed buckets c
  ok (if is_empty buckets then keys c.state.bucket_deployed_list else buckets)

-- The calls, one after the other, up to the first that fails.
unfoldable pub batch_call :
    (Principal → Result Text (List ℕ)) → List Principal → Result ClusterError (List (List ℕ))
batch_call call [] = ok []
batch_call call (id ∷ ids) = do
  reply ← map_err call_failed (call id)
  rest ← batch_call call ids
  ok (reply ∷ rest)

-- The test of `admin_update_bucket_canister_settings`.
unfoldable pub bucket_found : Principal → Cluster → Result ClusterError (Unit {0})
bucket_found canister c =
    fail_if (not (is_some (Maps.get canister c.state.bucket_deployed_list))) no_bucket

pub record InitArgs : Type 0 where
  pub name : Text
  pub ecdsa_key_name : Text
  pub schnorr_key_name : Text
  pub token_expiration : ℕ
  pub bucket_topup_threshold : ℕ
  pub bucket_topup_amount : ℕ
  pub governance_canister : Option Principal

pub record UpgradeArgs : Type 0 where
  pub name : Option Text
  pub token_expiration : Option ℕ
  pub bucket_topup_threshold : Option ℕ
  pub bucket_topup_amount : Option ℕ
  pub governance_canister : Option Principal

pub data ChainArgs : Type 0 where
  for_init : InitArgs → ChainArgs
  for_upgrade : UpgradeArgs → ChainArgs

-- An hour, where no expiration is given.
abbrev pub expiration : ℕ → ℕ
expiration n = if n == 0 then 3600 else n

-- `init`, from `State::default()` on; `none` stands for a trap.
unfoldable pub init : Option ChainArgs → State → Option State
init none s = none
init (some (for_upgrade args)) s = none
init (some (for_init args)) s = some (record s {
  name = args.name;
  ecdsa_key_name = args.ecdsa_key_name;
  schnorr_key_name = args.schnorr_key_name;
  token_expiration = expiration args.token_expiration;
  bucket_topup_threshold = args.bucket_topup_threshold;
  bucket_topup_amount = args.bucket_topup_amount;
  governance_canister = args.governance_canister;
})

-- `if let Some(value) = arg { field = value }` for an optional field
abbrev pub or_keep {ℓ} : {A : Type ℓ} → Option A → Option A → Option A
or_keep none old = old
or_keep (some a) old = some a

abbrev pub upgraded_state : UpgradeArgs → State → State
upgraded_state args s = record s {
  name = get_or args.name s.name;
  token_expiration = get_or (map_option expiration args.token_expiration) s.token_expiration;
  bucket_topup_threshold = get_or args.bucket_topup_threshold s.bucket_topup_threshold;
  bucket_topup_amount = get_or args.bucket_topup_amount s.bucket_topup_amount;
  governance_canister = or_keep args.governance_canister s.governance_canister;
}

abbrev pub default_schnorr : State → State
default_schnorr s =
    if is_empty s.schnorr_key_name then record s { schnorr_key_name = s.ecdsa_key_name } else s

-- `post_upgrade`, with the state that was saved before.
unfoldable pub post_upgrade : Option ChainArgs → State → Option State
post_upgrade none s = some (default_schnorr s)
post_upgrade (some (for_init args)) s = none
post_upgrade (some (for_upgrade args)) s = some (default_schnorr (upgraded_state args s))
