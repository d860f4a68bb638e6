-- ===== src/Cluster/Auth.antt =====
-- The policies of principals: `PoliciesTable` and the module `auth` of
-- src/ic_oss_cluster/src/store.rs, and the calls on them in api_admin.rs and api_auth.rs. `none`
-- stands for a trap, where a stored text does not parse.
pub mod Attached
pub mod Detached
pub mod Issued
use ic_oss.Types.Ids.{Principal}
use ic_oss.Types.Permission.Policies.{print_policies, parse_policies, Policies}
use ic_oss.Bucket.Access.{Token}
use ic_oss.Base.{
  Bool, Option, none, some, [], map_option, get_or, if◌then◌else◌, is_empty, Text, ◌>>=◌, ◌>>◌,
  ok_or, map_err, Result, ok, err, nat_ord, list_ord,
}
use ic_oss.Base.Maps
use ic_oss.Types.Permission.Policies
use ic_oss.Cluster.{Cluster, PoliciesTable, ClusterError, bad_policies, no_policies, guard_manager}

-- `Policies::try_from(e.as_str()).expect(..)`
abbrev pub expect_policies : Text → Option Policies
expect_policies text = elim (parse_policies text) [ ok ps ↦ some ps | err e ↦ none ]

-- `PoliciesTable::attach`
unfoldable pub attach : Principal → Policies → PoliciesTable → Option PoliciesTable
attach audience policies table = elim (Maps.get audience table) [
  | none ↦ some (Maps.put audience (print_policies policies) table)
  | some text ↦
      map_option (λ ps. Maps.put audience (print_policies (Policies.append ps policies).0) table)
        (expect_policies text)
]

-- `PoliciesTable::detach`
unfoldable pub detach : Principal → Policies → PoliciesTable → Option PoliciesTable
detach audience policies table = elim (Maps.get audience table) [
  | none ↦ some table
  | some text ↦
      map_option (λ ps. Maps.put audience (print_policies (Policies.remove ps policies)) table)
        (expect_policies text)
]

unfoldable pub get_all_policies : Principal → Cluster → Option PoliciesTable
get_all_policies subject c = Maps.get subject c.auth

unfoldable pub attach_policies : Principal → Principal → Policies → Cluster → Option Cluster
attach_policies subject audience policies c =
    map_option (λ table. record c { auth = Maps.put subject table c.auth })
      (attach audience policies (get_or (Maps.get subject c.auth) []))

-- A table that is empty then is removed.
abbrev pub store_table : Principal → PoliciesTable → Cluster → Cluster
store_table subject table c =
    if is_empty table
    then record c { auth = Maps.erase subject c.auth }
    else record c { auth = Maps.put subject table c.auth }

unfoldable pub detach_policies : Principal → Principal → Policies → Cluster → Option Cluster
detach_policies subject audience policies c = elim (Maps.get subject c.auth) [
  | none ↦ some c
  | some table ↦
      map_option (λ table'. store_table subject table' c) (detach audience policies table)
]

-- `admin_attach_policies`, from its argument, a token: it replies, or traps (`none`).
module _ (platform_controls : Principal → Bool) where
  unfoldable pub admin_attach_policies :
      Principal → Token → Cluster → Option (Result ClusterError (Unit {0}) × Cluster)
  admin_attach_policies caller args c =
      elim (guard_manager platform_controls c caller
        >> map_err bad_policies (parse_policies args.policies)) [
          | err e ↦ some (err e, c)
          | ok policies ↦
              map_option (λ c'. (ok tt, c')) (attach_policies args.subject args.audience policies c)
        ]

  unfoldable pub admin_detach_policies :
      Principal → Token → Cluster → Option (Result ClusterError (Unit {0}) × Cluster)
  admin_detach_policies caller args c =
      elim (guard_manager platform_controls c caller
        >> map_err bad_policies (parse_policies args.policies)) [
          | err e ↦ some (err e, c)
          | ok policies ↦
              map_option (λ c'. (ok tt, c')) (detach_policies args.subject args.audience policies c)
        ]

-- `get_token` of api_auth.rs: what a subject's token for an audience says.
unfoldable pub get_token : Principal → Principal → Cluster → Result ClusterError Token
get_token subject audience c = do
  table ← ok_or (get_all_policies subject c) no_policies
  policies ← ok_or (Maps.get audience table) no_policies
  ok (record { subject = subject; audience = audience; policies = policies })
