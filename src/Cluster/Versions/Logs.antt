-- ===== src/Cluster/Versions/Logs.antt =====
-- The pages of the deployment logs.
use ic_oss.Base.{
  ℕ, zero, suc, ◌+◌, ◌-◌, ◌<◌, ◌≡◌, refl, inl, inr, ◌&&◌, ◌||◌, Option, none, some, List, [], ◌∷◌,
  arith, map_option, get_or, ltb, leb, ◌==◌, if◌then◌else◌, Bool-cases, length,
}
use ic_oss.Cluster.{Cluster, DeployLog}
use ic_oss.Cluster.Versions.{
  get_log, deployment_info, logs_loop, bucket_deployment_logs, BucketDeploymentInfo,
}

abbrev pub nth {ℓ} : {A : Type ℓ} → ℕ → List A → Option A
nth n [] = none
nth zero (x ∷ xs) = some x
nth (suc n) (x ∷ xs) = nth n xs

-- What the list says of a log.
abbrev pub full_info : DeployLog → BucketDeploymentInfo
full_info log = deployment_info (some log.args) log

get_log-lt :
    (n : ℕ) (logs : List DeployLog)
    → n < length logs
    → (log : DeployLog) × (get_log n logs ≡ some log)
unfolding get_log
get_log-lt n [] h = absurd (omega (arith, h))
get_log-lt zero (log ∷ logs) h = (log, refl)
get_log-lt (suc n) (log ∷ logs) h = get_log-lt n logs (omega (arith, h))

logs_loop-page :
    (idx count take : ℕ) (logs : List DeployLog) (k : ℕ)
    → idx < length logs
    → nth k (logs_loop idx count take logs) ≡ (
        if leb k idx && (k == 0 || ltb (count + k) take)
        then map_option full_info (get_log (idx - k) logs)
        else none)
unfolding logs_loop
logs_loop-page zero count take logs k h = let (log, e) = get_log-lt 0 logs h in ground (arith, e)
logs_loop-page (suc idx) count take logs zero h =
    let (log, e) = get_log-lt (suc idx) logs h in ground (arith, e)
logs_loop-page (suc idx) count take logs (suc k) h =
    let (log, e) = get_log-lt (suc idx) logs h in
    let rest = logs_loop-page idx (count + 1) take logs k (omega (arith, h)) in
    ground (arith, e, rest)

-- The deployment logs before the one with index `prev`, or before the end, from the last on: their
-- number is at most `take`, but at least one, and there is none where `prev` is 0 or too large.
pub bucket_deployment_logs-page :
    (prev : Option ℕ) (take : ℕ) (c : Cluster) (k : ℕ)
    → nth k (bucket_deployment_logs prev take c) ≡ (
        let start = get_or prev (length c.logs) in
        if ltb k start && leb start (length c.logs) && (k == 0 || ltb k take)
        then map_option full_info (get_log (start - 1 - k) c.logs)
        else none)
unfolding bucket_deployment_logs
bucket_deployment_logs-page prev take c k =
    let start = get_or prev (length c.logs) in
    elim (Bool-cases (start == 0 || ltb (length c.logs) start)) [
      | inl b ↦ ground (arith, b)
      | inr b ↦ ground (arith, b, logs_loop-page (start - 1) 0 take c.logs k (ground (arith, b)))
    ]
