-- ===== src/Cluster/Versions/Adding.antt =====
-- A new version of the bucket's program: the dry run, and what is stored.
use ic_oss.Types.Ids.{Principal, Hash}
use ic_oss.Base.{
  ℕ, ◌≡◌, refl, ◌⊎◌, inl, inr, true, false, Option, none, List, arith, is_some, get_or, Bool-cases,
  Option-cases, Result, ok, err, same_refl, nat_ord, list_ord,
}
use ic_oss.Base.Maps
use ic_oss.Cluster.{Cluster, Wasm, ClusterError, wasm_exists, no_prev_hash}
use ic_oss.Cluster.Versions.{
  add_wasm, dry_add_wasm, run_add_wasm, previous_version, next_version, get_latest, AddWasmInput,
  with_version,
}

module _ (sha256 : List ℕ → Hash) (caller : Principal) (now_ms : ℕ) (args : AddWasmInput)
    (force_prev_hash : Option Hash) (c : Cluster) where
  abbrev pub new_wasm : Wasm
  new_wasm = record {
    created_at = now_ms;
    created_by = caller;
    description = args.description;
    wasm = args.wasm;
  }

  abbrev pub dry : Result ClusterError (Unit {0}) × Cluster
  dry = add_wasm sha256 caller now_ms args force_prev_hash true c

  abbrev pub done : Result ClusterError (Unit {0}) × Cluster
  done = add_wasm sha256 caller now_ms args force_prev_hash false c

  -- What is read of the new version after it was added behind another.
  with_version-found :
      (prev : Hash)
      → (get_latest (with_version prev (sha256 args.wasm) new_wasm c)
          ≡ ok (sha256 args.wasm, new_wasm))
        × (next_version prev (with_version prev (sha256 args.wasm) new_wasm c)
            ≡ ok (sha256 args.wasm, new_wasm))
  unfolding get_latest next_version
  with_version-found prev =
      let stored = Maps.get-put (sha256 args.wasm) (sha256 args.wasm) new_wasm c.wasms in
      let path = Maps.get-put prev prev (sha256 args.wasm) c.state.bucket_upgrade_path in
      (
        ground (arith, stored, same_refl (sha256 args.wasm)),
        ground (arith, stored, path, same_refl (sha256 args.wasm), same_refl prev),
      )

  -- A dry run of `add_wasm` changes nothing, and replies what the run would. If the run replies with
  -- success, its program was not stored before, is the latest afterwards, and is the next version
  -- after the forced one or else after the latest before; if it replies with an error, it has
  -- changed nothing.
  pub add_wasm-dry_run :
      (dry ≡ (done.0, c))
      × (((done.0 ≡ ok tt)
            × (Maps.get (sha256 args.wasm) c.wasms ≡ none)
            × (get_latest done.1 ≡ ok (sha256 args.wasm, new_wasm))
            × (next_version (get_or force_prev_hash c.state.bucket_latest_version) done.1
                ≡ ok (sha256 args.wasm, new_wasm)))
          ⊎ ((e : ClusterError) × (done.0 ≡ err e) × (done.1 ≡ c)))
  unfolding add_wasm dry_add_wasm run_add_wasm previous_version
  add_wasm-dry_run = elim (Option-cases (Maps.get (sha256 args.wasm) c.wasms)) [
    | inr (wasm, e) ↦ rw (e) (refl, inr (wasm_exists, refl, refl))
    | inl e ↦ elim (Option-cases force_prev_hash) [
      | inl f ↦
          let (latest, next) = with_version-found c.state.bucket_latest_version in
          rw (e, f) (refl, inl (refl, refl, latest, next))
      | inr (hash, f) ↦ elim (Bool-cases (is_some (Maps.get hash c.state.bucket_upgrade_path))) [
        | inl b ↦
            let (latest, next) = with_version-found hash in
            rw (e, f, b) (refl, inl (refl, refl, latest, next))
        | inr b ↦ rw (e, f, b) (refl, inr (no_prev_hash, refl, refl))
      ]
    ]
  ]
