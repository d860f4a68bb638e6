-- ===== src/Cluster/Upgrade/Steps.antt =====
-- The bucket that the next turn upgrades, and the steps that are left.

use ic_oss.Types.Ids.{Principal, Hash}
use ic_oss.Base.{
  ℕ, ◌+◌, ◌<◌, ◌≡◌, refl, sym, ap, inl, inr, none, some, [], ◌∷◌, arith, Map, Option-cases, All,
  nat_ord, Ordering-cases, list_ord, Ord, Ordering,
}
use ic_oss.Base.Maps
use ic_oss.Cluster.Upgrade.{next_upgrade}

-- The keys of a map ascend, as those of a `BTreeMap`: each lies below those behind it.
abbrev pub IsOrdered {ℓ κ} : {K : Type ℓ} {V : Type κ} ⦃o : Ord K⦄ → Map K V → Type (ℓ ⊔ κ)
IsOrdered [] = Unit
IsOrdered ⦃o⦄ ((k, v) ∷ m) = All (λ e. o.cmp e.0 k ≡ Ordering.gt) m × IsOrdered m

pub put-All {ℓ κ} :
    {K : Type ℓ} {V : Type κ} ⦃o : Ord K⦄ (P : K × V → Type 0) (k : K) (v : V) (m : Map K V)
    → P (k, v)
    → All P m
    → All P (Maps.put k v m)
unfolding Maps.put
put-All P k v [] p all = (p, tt)
put-All ⦃o⦄ P k v ((j, w) ∷ m) p (q, all) = elim (Ordering-cases (o.cmp k j)) [
  | inl e ↦ rw (Maps.put, e) (p, (q, all))
  | inr (inl e) ↦ rw (Maps.put, e) (p, all)
  | inr (inr e) ↦ rw (Maps.put, e) (q, put-All P k v m p all)
]

module _ {ℓ κ} {K : Type ℓ} {V : Type κ} ⦃o : Ord K⦄ (k j : K) (v w : V) (m : Map K V) where
  put_behind : o.cmp k j ≡ Ordering.gt → Maps.put k v ((j, w) ∷ m) ≡ (j, w) ∷ Maps.put k v m
  unfolding Maps.put
  put_behind e = rw (Maps.put, e) refl

  put_here : o.cmp k j ≡ Ordering.eq → Maps.put k v ((j, w) ∷ m) ≡ (k, v) ∷ m
  unfolding Maps.put
  put_here e = rw (Maps.put, e) refl

module _ (path : Map Hash Hash) where
  -- The bucket found is one of them.
  pub next_upgrade-All :
      (P : Principal × (ℕ × Hash) → Type 0) (buckets : Map Principal (ℕ × Hash))
      (canister : Principal) (prev next : Hash)
      → All P buckets
      → next_upgrade buckets path ≡ some (canister, prev, next)
      → (id : ℕ) × P (canister, (id, prev))
  unfolding next_upgrade
  next_upgrade-All P [] canister prev next all h = absurd (ground arith)
  next_upgrade-All P ((k, (id, hash)) ∷ buckets) canister prev next (p, all) h =
      elim (Option-cases (Maps.get hash path)) [
        | inl e ↦ next_upgrade-All P buckets canister prev next all (ground (arith, e, h))
        | inr (n, e) ↦
            let same_key : k ≡ canister = ground (arith, e, h) in
            let same_hash : hash ≡ prev = ground (arith, e, h) in
            (id, rw (sym same_key, sym same_hash) p)
      ]

  pub next_upgrade-get :
      (buckets : Map Principal (ℕ × Hash)) (canister : Principal) (prev next : Hash)
      → next_upgrade buckets path ≡ some (canister, prev, next)
      → Maps.get prev path ≡ some next
  unfolding next_upgrade
  next_upgrade-get [] canister prev next h = absurd (ground arith)
  next_upgrade-get ((k, (id, hash)) ∷ buckets) canister prev next h =
      elim (Option-cases (Maps.get hash path)) [
        | inl e ↦ next_upgrade-get buckets canister prev next (ground (arith, e, h))
        | inr (n, e) ↦ ground (arith, e, h)
      ]

  -- Where no bucket is found, none has a next version.
  pub next_upgrade-none :
      (buckets : Map Principal (ℕ × Hash))
      → next_upgrade buckets path ≡ none
      → All (λ b. Maps.get b.1.1 path ≡ none) buckets
  unfolding next_upgrade
  next_upgrade-none [] h = tt
  next_upgrade-none ((k, (id, hash)) ∷ buckets) h = elim (Option-cases (Maps.get hash path)) [
    | inl e ↦ (e, next_upgrade-none buckets (ground (arith, e, h)))
    | inr (n, e) ↦ absurd (ground (arith, e, h))
  ]

-- The steps that the buckets have before them.
unfoldable pub steps_left : (Hash → ℕ) → Map Principal (ℕ × Hash) → ℕ
steps_left remaining [] = 0
steps_left remaining ((canister, (id, hash)) ∷ buckets) =
    remaining hash + steps_left remaining buckets

module _ (path : Map Hash Hash) (remaining : Hash → ℕ)
    (remaining_next : (hash next : Hash)
      → Maps.get hash path ≡ some next
      → remaining next < remaining hash) where
  -- Its new version takes the place of the old, and has fewer steps before it.
  pub steps_left-put :
      (buckets : Map Principal (ℕ × Hash)) (canister : Principal) (prev next : Hash) (id : ℕ)
      → IsOrdered buckets
      → next_upgrade buckets path ≡ some (canister, prev, next)
      → (steps_left remaining (Maps.put canister (id, next) buckets) < steps_left remaining buckets)
        × IsOrdered (Maps.put canister (id, next) buckets)
  unfolding next_upgrade steps_left
  steps_left-put [] canister prev next id ordered h = absurd (ground arith)
  steps_left-put ((k, (i, hash)) ∷ buckets) canister prev next id (above, ordered) h =
      elim (Option-cases (Maps.get hash path)) [
        | inl e ↦
            let found : next_upgrade buckets path ≡ some (canister, prev, next) =
              ground (arith, e, h) in
            let (_, gt) =
              next_upgrade-All path (λ e'. list_ord.cmp e'.0 k ≡ Ordering.gt) buckets canister prev
                next above found in
            let (less, ordered') = steps_left-put buckets canister prev next id ordered found in
            rw (put_behind canister k (id, next) (i, hash) buckets gt) (
              omega (arith, less),
              (
                put-All (λ e'. list_ord.cmp e'.0 k ≡ Ordering.gt) canister (id, next) buckets gt
                    above,
                ordered',
              ),
            )
        | inr (n, e) ↦
            let same_key : canister ≡ k = ground (arith, e, h) in
            let same_hash : prev ≡ hash = ground (arith, e, h) in
            let same_next : next ≡ n = ground (arith, e, h) in
            let is_eq : list_ord.cmp canister k ≡ Ordering.eq =
              (list_ord.cmp_eq canister k).1 same_key in
            rw (put_here canister k (id, next) (i, hash) buckets is_eq) (
              omega (arith, remaining_next hash n e, ap remaining same_next),
              (rw (same_key) above, ordered),
            )
      ]
