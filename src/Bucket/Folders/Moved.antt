-- ===== src/Bucket/Folders/Moved.antt =====
-- `FoldersTree::move_folder` of src/ic_oss_bucket/src/store.rs and the shape of the tree.

use ic_oss.Base.{
  ℕ, zero, suc, ◌≡◌, refl, sym, ◌∙◌, ◌≢◌, ◌⊎◌, inl, inr, true, false, some, arith, map_laws,
  map_option, ◌==◌, ==_iff, Bool-cases, Option-cases, same_refl, nat_ord,
}
use ic_oss.Bucket.Folders.Climb.{
  Climbs, Avoids, IsRooted, HasParent, IsRooted-of_steps, Climbs-of_Avoids, parent_ne,
}
use ic_oss.Bucket.Folders.Shape.{IsTree}
use ic_oss.Base.Maps
use ic_oss.Base.Sets
use ic_oss.Bucket.Folders.{FoldersTree, FolderMetadata, move_folder}

module _ (t : FoldersTree) (id from to now_ms : ℕ) (folder to_folder : FolderMetadata)
    (tree : IsTree t) (nz : id ≢ 0) (apart : from ≢ to) (found : Maps.get id t ≡ some folder)
    (in_from : folder.parent ≡ from) (found_to : Maps.get to t ≡ some to_folder) (n : ℕ)
    (climbs_to : Climbs t n to) (avoids_to : Avoids t n to id) where
  abbrev moved : FoldersTree
  moved = move_folder t id from to now_ms

  abbrev leave : FolderMetadata → FolderMetadata
  leave f = record f { folders = Sets.remove id f.folders; updated_at = now_ms }

  abbrev enter : FolderMetadata → FolderMetadata
  enter f = record f { folders = Sets.insert id f.folders; updated_at = now_ms }

  abbrev turn : FolderMetadata → FolderMetadata
  turn f = record f { parent = to; updated_at = now_ms }

  id_ne_from : id ≢ from
  id_ne_from e =
      let r : IsRooted t id = tree.rooted id folder found in
      parent_ne t r.0 id folder nz r.1 found (in_from ∙ sym e)

  id_ne_to : (k : ℕ) → Climbs t k to → Avoids t k to id → id ≢ to
  id_ne_to zero c a e = nz (e ∙ c)
  id_ne_to (suc k) c (f, ne, e', a) e = ne (sym e)

  get-moved_self : Maps.get id moved ≡ some (turn folder)
  unfolding move_folder
  get-moved_self =
      simp map_laws (ground (arith, id_ne_from, id_ne_to n climbs_to avoids_to, same_refl id))

  get-moved_to : Maps.get to moved ≡ some (enter to_folder)
  unfolding move_folder
  get-moved_to = simp map_laws (ground (arith, id_ne_to n climbs_to avoids_to))

  get-moved_from : Maps.get from moved ≡ map_option leave (Maps.get from t)
  unfolding move_folder
  get-moved_from = simp map_laws (ground (arith, id_ne_from))

  get-moved_ne :
      (j : ℕ)
      → (j == id) ≡ false
      → (j == to) ≡ false
      → (j == from) ≡ false
      → Maps.get j moved ≡ Maps.get j t
  unfolding move_folder
  get-moved_ne j a b c = simp map_laws (ground arith)

  -- All but the moved folder keep their parents.
  HasParent-moved :
      (j : ℕ) (f : FolderMetadata) → j ≢ id → Maps.get j t ≡ some f → HasParent moved j f.parent
  HasParent-moved j f ne e = elim (Bool-cases (j == to)) [
    | inl at_to ↦
        rw ((==_iff j to).0 at_to)
          (enter to_folder, get-moved_to, ground (arith, (==_iff j to).0 at_to))
    | inr other ↦ elim (Bool-cases (j == from)) [
      | inl at_from ↦
          let j_from : j ≡ from = (==_iff j from).0 at_from in
          rw j_from (leave f, ground (arith, get-moved_from), refl)
      | inr none_of ↦ (f, ground (arith, get-moved_ne j), refl)
    ]
  ]

  IsRooted-moved_to : Climbs moved n to
  IsRooted-moved_to = Climbs-of_Avoids t moved id HasParent-moved n to climbs_to avoids_to

  -- The moved folder climbs through its new parent.
  pub Climbs-moved_self : Climbs moved (suc n) id
  Climbs-moved_self = (turn folder, nz, get-moved_self, IsRooted-moved_to)

  step-moved :
      (k : ℕ) (f : FolderMetadata)
      → k ≢ 0
      → Unit {0}
      → Maps.get k t ≡ some f
      → IsRooted moved k ⊎ (HasParent moved k f.parent × Unit {0})
  step-moved k f nz' _ e = elim (Bool-cases (k == id)) [
    | inl at_id ↦ inl (rw ((==_iff k id).0 at_id) (suc n, Climbs-moved_self))
    | inr other ↦ inr (HasParent-moved k f (ground arith) e, tt)
  ]

  -- Every folder of the new tree, as it was.
  before_moved :
      (j : ℕ) (f : FolderMetadata)
      → Maps.get j moved ≡ some f
      → (f' : FolderMetadata) × (Maps.get j t ≡ some f')
        × ((j == id) ≡ false → f'.parent ≡ f.parent)
  before_moved j f e = elim (Bool-cases (j == id)) [
    | inl at_id ↦ (folder, rw ((==_iff j id).0 at_id) found, λ h. cc)
    | inr other ↦ elim (Bool-cases (j == to)) [
      | inl at_to ↦ (to_folder, rw ((==_iff j to).0 at_to) found_to, ground (arith, get-moved_to))
      | inr other' ↦ elim (Bool-cases (j == from)) [
        | inl at_from ↦ elim (Option-cases (Maps.get from t)) [
          | inl e' ↦ absurd (ground (arith, get-moved_from))
          | inr (g, e') ↦ (g, rw ((==_iff j from).0 at_from) e', ground (arith, get-moved_from))
        ]
        | inr none_of ↦ (f, ground (arith, get-moved_ne j), λ _. refl)
      ]
    ]
  ]

  IsRooted-moved : (j : ℕ) (f : FolderMetadata) → Maps.get j moved ≡ some f → IsRooted moved j
  IsRooted-moved j f e =
      let (f', e', _) = before_moved j f e in
      let r : IsRooted t j = tree.rooted j f' e' in
      IsRooted-of_steps t moved (λ _. Unit) step-moved r.0 j tt r.1

  -- What a folder other than the moved one lists, it still lists.
  listed-moved :
      (k c : ℕ) (q : FolderMetadata)
      → (c == id) ≡ false
      → Maps.get k t ≡ some q
      → Sets.contains c q.folders ≡ true
      → (q' : FolderMetadata) × (Maps.get k moved ≡ some q') × (Sets.contains c q'.folders ≡ true)
  listed-moved k c q ne e h = elim (Bool-cases (k == id)) [
    | inl at_id ↦
        let k_id : k ≡ id = (==_iff k id).0 at_id in
        (turn folder, rw k_id get-moved_self, ground (arith, found))
    | inr other ↦ elim (Bool-cases (k == to)) [
      | inl at_to ↦
          let k_to : k ≡ to = (==_iff k to).0 at_to in
          (enter to_folder, rw k_to get-moved_to, simp Sets.contains-insert (ground arith))
      | inr other' ↦ elim (Bool-cases (k == from)) [
        | inl at_from ↦
            let k_from : k ≡ from = (==_iff k from).0 at_from in
            (leave q, ground (arith, get-moved_from), simp Sets.contains-remove (ground arith))
        | inr none_of ↦ (q, ground (arith, get-moved_ne k), h)
      ]
    ]
  ]

  up-moved :
      (j : ℕ) (f : FolderMetadata)
      → Maps.get j moved ≡ some f
      → j ≢ 0
      → (q : FolderMetadata) × (Maps.get f.parent moved ≡ some q)
        × (Sets.contains j q.folders ≡ true)
  up-moved j f e nz' = elim (Bool-cases (j == id)) [
    | inl at_id ↦
        let j_id : j ≡ id = (==_iff j id).0 at_id in
        let f_turn : f ≡ turn folder = ground (arith, get-moved_self) in
        rw f_turn (enter to_folder, get-moved_to, simp Sets.contains-insert (ground arith))
    | inr other ↦
        let (f', e', pe) = before_moved j f e in
        let (q, eq, h) = tree.up j f' e' nz' in
        rw (← pe other) (listed-moved f'.parent j q other eq h)
  ]

  -- An old link to a folder other than the moved one.
  linked-moved :
      (j c : ℕ) (q : FolderMetadata)
      → (c == id) ≡ false
      → Maps.get j t ≡ some q
      → Sets.contains c q.folders ≡ true
      → (f : FolderMetadata) × (c ≢ 0) × (Maps.get c moved ≡ some f) × (f.parent ≡ j)
  linked-moved j c q ne e h =
      let (f, nz', e', pe) = tree.down j c q e h in
      let (g, e'', pe') = HasParent-moved c f (ground arith) e' in (g, nz', e'', pe' ∙ pe)

  -- Only the old parent listed the moved folder.
  listed_by_from :
      (j : ℕ) (q : FolderMetadata)
      → Maps.get j t ≡ some q
      → Sets.contains id q.folders ≡ true
      → j ≡ from
  listed_by_from j q e h = let (f, nz', e', pe) = tree.down j id q e h in ground arith

  listed_before :
      (j c : ℕ) (q : FolderMetadata)
      → (c == id) ≡ false
      → Maps.get j moved ≡ some q
      → Sets.contains c q.folders ≡ true
      → (q' : FolderMetadata) × (Maps.get j t ≡ some q') × (Sets.contains c q'.folders ≡ true)
  listed_before j c q ne e h = elim (Bool-cases (j == id)) [
    | inl at_id ↦
        let j_id : j ≡ id = (==_iff j id).0 at_id in
        (folder, rw j_id found, ground (arith, get-moved_self))
    | inr other ↦ elim (Bool-cases (j == to)) [
      | inl at_to ↦
          let j_to : j ≡ to = (==_iff j to).0 at_to in
          (
            to_folder,
            rw j_to found_to,
            ground (arith, get-moved_to, Sets.contains-insert c id to_folder.folders),
          )
      | inr other' ↦ elim (Bool-cases (j == from)) [
        | inl at_from ↦ elim (Option-cases (Maps.get from t)) [
          | inl e' ↦ absurd (ground (arith, get-moved_from))
          | inr (g, e') ↦
              let j_from : j ≡ from = (==_iff j from).0 at_from in
              (g, rw j_from e', ground (arith, get-moved_from, Sets.contains-remove c id g.folders))
        ]
        | inr none_of ↦ (q, ground (arith, get-moved_ne j), h)
      ]
    ]
  ]

  -- Only the new parent lists the moved folder now.
  listed_by_to :
      (j : ℕ) (q : FolderMetadata)
      → Maps.get j moved ≡ some q
      → Sets.contains id q.folders ≡ true
      → j ≡ to
  listed_by_to j q e h = elim (Bool-cases (j == to)) [
    | inl at_to ↦ (==_iff j to).0 at_to
    | inr other ↦ elim (Bool-cases (j == id)) [
      | inl at_id ↦
          absurd (ground (arith, get-moved_self, listed_by_from id folder found, id_ne_from))
      | inr other' ↦ elim (Bool-cases (j == from)) [
        | inl at_from ↦ elim (Option-cases (Maps.get from t)) [
          | inl e' ↦ absurd (ground (arith, get-moved_from))
          | inr (g, e') ↦
              absurd (ground (arith, get-moved_from, Sets.contains-remove id id g.folders))
        ]
        | inr none_of ↦
            absurd (ground (arith, listed_by_from j q (ground (arith, get-moved_ne j)) h))
      ]
    ]
  ]

  down-moved :
      (j c : ℕ) (q : FolderMetadata)
      → Maps.get j moved ≡ some q
      → Sets.contains c q.folders ≡ true
      → (f : FolderMetadata) × (c ≢ 0) × (Maps.get c moved ≡ some f) × (f.parent ≡ j)
  down-moved j c q e h = elim (Bool-cases (c == id)) [
    | inl child ↦
        let c_id : c ≡ id = (==_iff c id).0 child in
        let j_to : j ≡ to = listed_by_to j q e (rw c_id at h) in
        (turn folder, ground arith, rw c_id get-moved_self, sym j_to)
    | inr other ↦
        let (q', e', h') = listed_before j c q other e h in linked-moved j c q' other e' h'
  ]

  root-moved : (r : FolderMetadata) × (Maps.get 0 moved ≡ some r)
  root-moved = elim (Bool-cases (0 == to)) [
    | inl at_to ↦
        let zero_to : 0 ≡ to = (==_iff 0 to).0 at_to in (enter to_folder, rw zero_to get-moved_to)
    | inr other ↦ elim (Bool-cases (0 == from)) [
      | inl at_from ↦
          let zero_from : 0 ≡ from = (==_iff 0 from).0 at_from in
          (leave tree.root.0, ground (arith, get-moved_from, tree.root.1))
      | inr none_of ↦ (tree.root.0, ground (arith, get-moved_ne 0, tree.root.1))
    ]
  ]

  pub moved-IsTree : IsTree moved
  moved-IsTree = record {
    root = root-moved;
    rooted = IsRooted-moved;
    up = up-moved;
    down = down-moved;
  }
