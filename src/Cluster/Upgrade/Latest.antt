-- ===== src/Cluster/Upgrade/Latest.antt =====
-- The upgrade of all buckets comes to an end, with all of them at the latest version.
use ic_oss.Types.Ids.{Principal, Hash, zero_hash}
use ic_oss.Base.{
  ℕ, ◌<◌, ◌≡◌, refl, ◌∙◌, ◌⊎◌, inl, inr, true, Option, none, some, List, [], ◌∷◌, ◌++◌, arith, Map,
  Option-cases, length, All, Text, ok, nat_ord, list_ord,
}
use ic_oss.Base.Maps
use ic_oss.Cluster.{Cluster, DeployLog}
use ic_oss.Cluster.Versions.Leading.{IsPath, is_version, Leads}
use ic_oss.Cluster.Deploy.{record_install, set_deployed, error_of}
use ic_oss.Cluster.Upgrade.{
  next_upgrade, finish_upgrade, upgrade_bucket, Turn, stop_process, upgrade_buckets,
}
use ic_oss.Cluster.Upgrade.Steps.{
  next_upgrade-get, IsOrdered, put-All, next_upgrade-none, steps_left, steps_left-put,
}
use ic_oss.Cluster.Versions.{add_log, get_wasm, next_version}

-- A bucket's version is one that was added, or none.
abbrev pub IsKnown : Cluster → Principal × (ℕ × Hash) → Type 0
IsKnown c (canister, (id, hash)) = (hash ≡ zero_hash) ⊎ (is_version hash c ≡ true)

-- A turn in which the installation succeeds and nothing else happens.
abbrev pub IsQuiet : Turn → Type 0
IsQuiet turn = (turn.installed ≡ ok tt) × ((c : Cluster) → turn.meanwhile c ≡ c)

-- A bucket's version leads to the latest.
known-Leads :
    (c : Cluster) (b : Principal × (ℕ × Hash))
    → IsPath c
    → IsKnown c b
    → Leads c c.state.bucket_latest_version b.1.1
known-Leads c (canister, (id, hash)) inv (inl z) = rw (z) inv.leads_from_zero
known-Leads c (canister, (id, hash)) inv (inr known) = inv.leads hash known

-- A version without a next one that leads to another is that one.
Leads-last :
    (c : Cluster) (target hash : Hash)
    → Leads c target hash
    → Maps.get hash c.state.bucket_upgrade_path ≡ none
    → hash ≡ target
unfolding next_version
Leads-last c target hash Leads.arrived h = refl
Leads-last c target hash (Leads.step e rest) h = absurd (ground (arith, e, h))

all_latest :
    (c : Cluster) (buckets : Map Principal (ℕ × Hash))
    → IsPath c
    → All (IsKnown c) buckets
    → All (λ b. Maps.get b.1.1 c.state.bucket_upgrade_path ≡ none) buckets
    → All (λ b. b.1.1 ≡ c.state.bucket_latest_version) buckets
all_latest c [] inv known ends = tt
all_latest c (b ∷ buckets) inv (k, known) (e, ends) = (
  Leads-last c c.state.bucket_latest_version b.1.1 (known-Leads c b inv k) e,
  all_latest c buckets inv known ends,
)

-- The cluster after a bucket was upgraded.
abbrev pub upgraded : Cluster → Principal → ℕ → Hash → List DeployLog → Cluster
upgraded c canister id next logs = set_deployed canister id next (record c { logs = logs })

next_version-upgraded :
    (c : Cluster) (canister : Principal) (id : ℕ) (next : Hash) (logs : List DeployLog)
    (hash : Hash)
    → next_version hash (upgraded c canister id next logs) ≡ next_version hash c
unfolding next_version
next_version-upgraded c canister id next logs hash = refl

Leads-upgraded :
    (c : Cluster) (canister : Principal) (id : ℕ) (next : Hash) (logs : List DeployLog)
    (target : Hash) {hash : Hash}
    → Leads c target hash
    → Leads (upgraded c canister id next logs) target hash
Leads-upgraded c canister id next logs target Leads.arrived = Leads.arrived
Leads-upgraded c canister id next logs target (Leads.step {hash} e rest) =
    Leads.step (next_version-upgraded c canister id next logs hash ∙ e)
      (Leads-upgraded c canister id next logs target rest)

pub IsPath-upgraded :
    (c : Cluster) (canister : Principal) (id : ℕ) (next : Hash) (logs : List DeployLog)
    → IsPath c
    → IsPath (upgraded c canister id next logs)
IsPath-upgraded c canister id next logs inv = record {
  last = inv.last;
  from_version = inv.from_version;
  latest_version = inv.latest_version;
  to_version = inv.to_version;
  remaining = inv.remaining;
  remaining_next = inv.remaining_next;
  leads = λ hash known. Leads-upgraded c canister id next logs _ (inv.leads hash known);
  leads_from_zero = Leads-upgraded c canister id next logs _ inv.leads_from_zero;
}

module _ (append_error : List DeployLog → DeployLog → Option Text)
    (can_append : (logs : List DeployLog) (log : DeployLog) → append_error logs log ≡ none) where
  abbrev upgrade_log : Turn → Principal → Hash → Hash → DeployLog
  upgrade_log turn canister prev next = record {
    deploy_at = turn.now_ms;
    canister = canister;
    prev_hash = prev;
    wasm_hash = next;
    args = [];
    error = error_of turn.installed;
  }

  -- A turn that upgrades a bucket.
  upgrade_bucket-found :
      (turn : Turn) (c : Cluster) (canister : Principal) (prev next : Hash)
      → IsQuiet turn
      → IsPath c
      → next_upgrade c.state.bucket_deployed_list c.state.bucket_upgrade_path
        ≡ some (canister, prev, next)
      → (logs : List DeployLog) × (upgrade_bucket append_error turn c
          ≡ (ok (some canister), upgraded c canister (length c.logs) next logs))
  unfolding upgrade_bucket finish_upgrade record_install add_log get_wasm
  upgrade_bucket-found turn c canister prev next (installed, alone) inv found =
      elim (Option-cases (Maps.get next c.wasms)) [
        | inl e ↦
            let step =
              next_upgrade-get c.state.bucket_upgrade_path c.state.bucket_deployed_list canister
                prev next found in
            absurd (ground (arith, e, inv.to_version prev next step))
        | inr (wasm, e) ↦ (
          c.logs ++ upgrade_log turn canister prev next ∷ [],
          ground (
            arith,
            found,
            e,
            installed,
            alone c,
            can_append c.logs (upgrade_log turn canister prev next),
          ),
        )
      ]

  upgrade_bucket-none :
      (turn : Turn) (c : Cluster)
      → next_upgrade c.state.bucket_deployed_list c.state.bucket_upgrade_path ≡ none
      → upgrade_bucket append_error turn c ≡ (ok none, c)
  unfolding upgrade_bucket
  upgrade_bucket-none turn c e = ground (arith, e)

  -- Where all installations succeed, the logs can be written and no other call changes the cluster
  -- meanwhile, the upgrade of all buckets ends without an error, if there are more turns than
  -- versions before the buckets; it is no longer marked as running, and all buckets are at the
  -- latest version. Before it, each version that was added leads to the latest, and the buckets
  -- have such versions, or none, and stand in the order of their principals. The number of versions
  -- before a version is any number that becomes less from a version to the next.
  pub upgrade_buckets-latest :
      (remaining : Hash → ℕ) (turns : List Turn) (c : Cluster)
      → IsPath c
      → ((hash next : Hash)
          → Maps.get hash c.state.bucket_upgrade_path ≡ some next
          → remaining next < remaining hash)
      → All IsQuiet turns
      → IsOrdered c.state.bucket_deployed_list
      → All (IsKnown c) c.state.bucket_deployed_list
      → steps_left remaining c.state.bucket_deployed_list < length turns
      → (c' : Cluster) × (upgrade_buckets append_error turns c ≡ (some (ok tt), c'))
        × (c'.state.bucket_upgrade_process ≡ none)
        × (c'.state.bucket_latest_version ≡ c.state.bucket_latest_version)
        × All (λ b. b.1.1 ≡ c'.state.bucket_latest_version) c'.state.bucket_deployed_list
  unfolding upgrade_buckets
  upgrade_buckets-latest remaining [] c inv fewer_left quiet ordered known enough =
      absurd (omega (arith, enough))
  upgrade_buckets-latest remaining (turn ∷ turns) c inv fewer_left (alone, quiet) ordered known
        enough =
      elim (Option-cases (next_upgrade c.state.bucket_deployed_list c.state.bucket_upgrade_path)) [
        | inl e ↦ (
          stop_process c,
          ground (arith, upgrade_bucket-none turn c e),
          refl,
          refl,
          all_latest c c.state.bucket_deployed_list inv known
              (next_upgrade-none c.state.bucket_upgrade_path c.state.bucket_deployed_list e),
        )
        | inr ((canister, prev, next), e) ↦
            let (logs, done) = upgrade_bucket-found turn c canister prev next alone inv e in
            let (fewer, ordered') =
              steps_left-put c.state.bucket_upgrade_path remaining fewer_left
                c.state.bucket_deployed_list canister prev next (length c.logs) ordered e in
            let known' =
              put-All (IsKnown c) canister (length c.logs, next) c.state.bucket_deployed_list
                (inr (
                  inv.to_version prev next (
                    next_upgrade-get c.state.bucket_upgrade_path c.state.bucket_deployed_list
                      canister prev next e)))
                known in
            let (c', rest, stopped, latest, all) =
              upgrade_buckets-latest remaining turns (upgraded c canister (length c.logs) next logs)
                (IsPath-upgraded c canister (length c.logs) next logs inv) fewer_left quiet ordered'
                known' (omega (arith, fewer, enough)) in
            (c', ground (arith, done, rest), stopped, latest, all)
      ]
