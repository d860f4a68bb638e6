-- ===== src/Cluster/Versions/Leading.antt =====
-- The path from each version of the bucket's program to the latest.
use ic_oss.Types.Ids.{Hash, zero_hash, Principal}
use ic_oss.Base.{
  ℕ, ◌+◌, ◌<◌, ◌≡◌, ◌∙◌, ◌≢◌, ◌⊎◌, inl, inr, Bool, true, false, ◌||◌, none, some, List, [], ◌∷◌,
  arith, is_some, if◌then◌else◌, Bool-cases, Option-cases, ok, same, same_iff, same_refl, nat_ord,
  list_ord,
}
use ic_oss.Base.Maps
use ic_oss.Cluster.{Cluster, Wasm}
use ic_oss.Cluster.Versions.{
  next_version, with_version, previous_version, run_add_wasm, add_wasm, AddWasmInput,
}

-- The steps of `next_version` from one version to another.
pub data Leads (c : Cluster) (target : Hash) : Hash → Type 0 where
  arrived : Leads c target target
  step :
      {hash next : Hash} {wasm : Wasm}
      → next_version hash c ≡ ok (next, wasm)
      → Leads c target next
      → Leads c target hash

abbrev pub is_version : Hash → Cluster → Bool
is_version hash c = is_some (Maps.get hash c.wasms)

pub record IsPath (c : Cluster) : Type 0 where
  -- The latest version is the last.
  pub last : Maps.get c.state.bucket_latest_version c.state.bucket_upgrade_path ≡ none
  -- A version with a next version is one that was added, or the one of no program.
  pub from_version :
      (hash : Hash)
      → Maps.get hash c.state.bucket_upgrade_path ≢ none
      → (hash ≡ zero_hash) ⊎ (is_version hash c ≡ true)
  pub latest_version :
      (c.state.bucket_latest_version ≡ zero_hash)
      ⊎ (is_version c.state.bucket_latest_version c ≡ true)
  -- A next version is one that was added.
  pub to_version :
      (hash next : Hash)
      → Maps.get hash c.state.bucket_upgrade_path ≡ some next
      → is_version next c ≡ true
  -- A version has more steps before it than its next version.
  pub remaining : Hash → ℕ
  pub remaining_next :
      (hash next : Hash)
      → Maps.get hash c.state.bucket_upgrade_path ≡ some next
      → remaining next < remaining hash
  -- Every version leads to the latest.
  pub leads : (hash : Hash) → is_version hash c ≡ true → Leads c c.state.bucket_latest_version hash
  pub leads_from_zero : Leads c c.state.bucket_latest_version zero_hash

module _ (new : Hash) (program : Wasm) (c : Cluster) (inv : IsPath c)
    (unknown : is_version new c ≡ false) (nonzero : new ≢ zero_hash) where
  abbrev added : Cluster
  added = with_version c.state.bucket_latest_version new program c

  -- The old steps are still there, since the latest version had none.
  next_version-added :
      (hash next : Hash) (wasm : Wasm)
      → next_version hash c ≡ ok (next, wasm)
      → next_version hash added ≡ ok (next, wasm)
  unfolding next_version
  next_version-added hash next wasm e =
      elim (Option-cases (Maps.get hash c.state.bucket_upgrade_path)) [
        | inl g ↦ absurd (ground (arith, g, e))
        | inr (n, g) ↦ elim (Option-cases (Maps.get n c.wasms)) [
          | inl g' ↦ absurd (ground (arith, g, g', e))
          | inr (w, g') ↦ ground (
            arith,
            e,
            g,
            g',
            unknown,
            inv.last,
            Maps.get-put hash c.state.bucket_latest_version new c.state.bucket_upgrade_path,
            Maps.get-put n new program c.wasms,
            same_iff hash c.state.bucket_latest_version,
            same_iff n new,
          )
        ]
      ]

  next_version-latest : next_version c.state.bucket_latest_version added ≡ ok (new, program)
  unfolding next_version
  next_version-latest = ground (
    arith,
    Maps.get-put c.state.bucket_latest_version c.state.bucket_latest_version new
        c.state.bucket_upgrade_path,
    Maps.get-put new new program c.wasms,
    same_refl c.state.bucket_latest_version,
    same_refl new,
  )

  Leads-added : {hash : Hash} → Leads c c.state.bucket_latest_version hash → Leads added new hash
  Leads-added Leads.arrived = Leads.step next_version-latest Leads.arrived
  Leads-added (Leads.step {hash} {next} {wasm} e rest) =
      Leads.step (next_version-added hash next wasm e) (Leads-added rest)

  no_next : Maps.get new c.state.bucket_upgrade_path ≡ none
  no_next = elim (Option-cases (Maps.get new c.state.bucket_upgrade_path)) [
    | inl e ↦ e
    | inr (n, e) ↦ elim (inv.from_version new (λ h. ground (arith, e, h))) [
      | inl z ↦ absurd (nonzero z)
      | inr known ↦ absurd (ground (arith, known, unknown))
    ]
  ]

  not_latest : same new c.state.bucket_latest_version ≡ false
  not_latest = elim inv.latest_version [
    | inl z ↦ ground (arith, z, nonzero, same_iff new c.state.bucket_latest_version)
    | inr known ↦ ground (arith, known, unknown, same_iff new c.state.bucket_latest_version)
  ]

  is_version-added : (hash : Hash) → is_version hash added ≡ (same hash new || is_version hash c)
  is_version-added hash = ground (arith, Maps.get-put hash new program c.wasms)

  put_path :
      (hash : Hash)
      → Maps.get hash added.state.bucket_upgrade_path ≡ (
          if same hash c.state.bucket_latest_version
          then some new
          else Maps.get hash c.state.bucket_upgrade_path)
  put_path hash = Maps.get-put hash c.state.bucket_latest_version new c.state.bucket_upgrade_path

  pub with_version-IsPath : IsPath added
  with_version-IsPath = record {
    last = ground (
      arith,
      no_next,
      not_latest,
      Maps.get-put new c.state.bucket_latest_version new c.state.bucket_upgrade_path,
    );
    from_version = λ hash some_next. elim (Bool-cases (same hash c.state.bucket_latest_version)) [
      | inl b ↦ elim inv.latest_version [
        | inl z ↦ inl ((same_iff hash c.state.bucket_latest_version).0 b ∙ z)
        | inr known ↦ inr (
            ground
              (arith, known, b, is_version-added hash, same_iff hash c.state.bucket_latest_version))
      ]
      | inr b ↦
          elim (inv.from_version hash (λ h. some_next (
            ground (
              arith,
              b,
              h,
              Maps.get-put hash c.state.bucket_latest_version new c.state.bucket_upgrade_path,
            )))) [ inl z ↦ inl z | inr known ↦ inr (ground (arith, known, is_version-added hash)) ]
    ];
    latest_version = inr (ground (arith, is_version-added new, same_refl new));
    to_version = λ hash next e. elim (Bool-cases (same hash c.state.bucket_latest_version)) [
      | inl b ↦ ground (arith, b, e, is_version-added next, same_iff next new, put_path hash)
      | inr b ↦ ground (arith, b, is_version-added next, put_path hash, e, inv.to_version hash next)
    ];
    remaining = λ hash. if same hash new then 0 else inv.remaining hash + 1;
    remaining_next = λ hash next e. elim (Bool-cases (same hash c.state.bucket_latest_version)) [
      | inl b ↦ ground (
        arith,
        b,
        e,
        put_path hash,
        same_iff next new,
        not_latest,
        same_iff hash new,
        same_iff hash c.state.bucket_latest_version,
        same_iff new c.state.bucket_latest_version,
      )
      | inr b ↦
          let old : Maps.get hash c.state.bucket_upgrade_path ≡ some next =
            ground (arith, b, put_path hash, e) in
          ground (
            arith,
            unknown,
            old,
            inv.remaining_next hash next old,
            inv.to_version hash next old,
            same_iff next new,
            same_iff hash new,
            no_next,
          )
    ];
    leads = λ hash known. elim (Bool-cases (same hash new)) [
      | inl b ↦ rw ((same_iff hash new).0 b) Leads.arrived
      | inr b ↦ Leads-added (inv.leads hash (ground (arith, known, b, is_version-added hash)))
    ];
    leads_from_zero = Leads-added inv.leads_from_zero;
  }

-- A cluster without a version.
pub new-IsPath :
    (c : Cluster)
    → c.state.bucket_latest_version ≡ zero_hash
    → c.state.bucket_upgrade_path ≡ []
    → c.wasms ≡ []
    → IsPath c
unfolding Maps.get
new-IsPath c no_version no_path no_wasm = record {
  last = ground (arith, no_path);
  from_version = λ hash h. absurd (ground (arith, no_path, h));
  latest_version = inl no_version;
  to_version = λ hash next e. absurd (ground (arith, no_path, e));
  remaining = λ hash. 0;
  remaining_next = λ hash next e. absurd (ground (arith, no_path, e));
  leads = λ hash h. absurd (ground (arith, no_wasm, h));
  leads_from_zero = rw (no_version) Leads.arrived;
}

-- One call of `add_wasm` without a forced previous version.
pub record Addition : Type 0 where
  pub caller : Principal
  pub now_ms : ℕ
  pub args : AddWasmInput

module _ (sha256 : List ℕ → Hash) (nonzero : (bytes : List ℕ) → sha256 bytes ≢ zero_hash) where
  unfoldable pub add_all : List Addition → Cluster → Cluster
  add_all [] c = c
  add_all (a ∷ additions) c =
      add_all additions (add_wasm sha256 a.caller a.now_ms a.args none false c).1

  add_wasm-IsPath :
      (a : Addition) (c : Cluster)
      → IsPath c
      → IsPath (add_wasm sha256 a.caller a.now_ms a.args none false c).1
  unfolding add_wasm run_add_wasm previous_version
  add_wasm-IsPath a c inv = elim (Bool-cases (is_version (sha256 a.args.wasm) c)) [
    | inl known ↦ rw (known) inv
    | inr unknown ↦
        rw (unknown)
          (with_version-IsPath (sha256 a.args.wasm) _ c inv unknown (nonzero a.args.wasm))
  ]

  -- After any additions of programs, none with a forced previous version, each version that is
  -- stored, and the hash of no program, leads to the latest by `next_version`. Before them the
  -- versions lead to the latest, as in a cluster without one. SHA-256 gives no program the hash of
  -- zeros.
  pub add_all-Leads :
      (additions : List Addition) (c : Cluster)
      → IsPath c
      → ((hash : Hash)
          → (hash ≡ zero_hash) ⊎ (is_version hash (add_all additions c) ≡ true)
          → Leads (add_all additions c) (add_all additions c).state.bucket_latest_version hash)
  unfolding add_all
  add_all-Leads [] c inv hash (inl z) = rw (z) inv.leads_from_zero
  add_all-Leads [] c inv hash (inr known) = inv.leads hash known
  add_all-Leads (a ∷ additions) c inv hash h =
      add_all-Leads additions (add_wasm sha256 a.caller a.now_ms a.args none false c).1
        (add_wasm-IsPath a c inv) hash h
