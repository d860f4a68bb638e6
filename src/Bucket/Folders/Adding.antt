-- ===== src/Bucket/Folders/Adding.antt =====
-- `FoldersTree::add_folder` of src/ic_oss_bucket/src/store.rs and the shape of the tree.
use ic_oss.Bucket.Folders.Climb.{Climbs, IsRooted, HasParent, IsRooted-of_steps}
use ic_oss.Bucket.Folders.Shape.{IsTree}
use ic_oss.Base.{
  ℕ, suc, ◌<◌, ◌≡◌, refl, ◌∙◌, ◌≢◌, inl, inr, true, false, none, some, [], arith, map_laws, ◌==◌,
  if◌then◌else◌, ==_iff, Bool-cases, Option-cases, ok, nat_ord,
}
use ic_oss.Base.Maps
use ic_oss.Base.Sets
use ic_oss.Bucket.Folders.{FoldersTree, FolderMetadata, depth, is_full, add_folder, new}

abbrev pub added : FoldersTree → FolderMetadata → ℕ → FolderMetadata → FoldersTree
added t metadata id parent =
    Maps.put id metadata
      (Maps.put metadata.parent (record parent { folders = Sets.insert id parent.folders }) t)

-- What a successful call has found, and the tree that it leaves.
pub record Added (t : FoldersTree) (metadata : FolderMetadata)
    (id max_folder_depth max_children : ℕ) (t' : FoldersTree) : Type 0 where
  pub fresh : Maps.get id t ≡ none
  pub shallow : depth t metadata.parent < max_folder_depth
  pub parent : FolderMetadata
  pub found : Maps.get metadata.parent t ≡ some parent
  pub room : is_full metadata.parent parent max_children ≡ false
  pub result : t' ≡ added t metadata id parent

pub add_folder-Added :
    (t : FoldersTree) (metadata : FolderMetadata) (id max_folder_depth max_children : ℕ)
    {t' : FoldersTree}
    → add_folder t metadata id max_folder_depth max_children ≡ ok t'
    → Added t metadata id max_folder_depth max_children t'
unfolding add_folder
add_folder-Added t metadata id d m h = elim (Option-cases (Maps.get metadata.parent t)) [
  | inl e ↦ absurd (ground arith)
  | inr (p, e) ↦ record {
    fresh = ground arith;
    shallow = ground arith;
    parent = p;
    found = e;
    room = ground arith;
    result = ground arith;
  }
]

module _ (t : FoldersTree) (metadata : FolderMetadata) (id : ℕ) (p : FolderMetadata)
    (tree : IsTree t) (fresh : Maps.get id t ≡ none)
    (found : Maps.get metadata.parent t ≡ some p) where
  abbrev with_child : FolderMetadata
  with_child = record p { folders = Sets.insert id p.folders }

  get-added :
      (j : ℕ)
      → Maps.get j (added t metadata id p) ≡ (
          if j == id
          then some metadata
          else if j == metadata.parent
          then some with_child
          else Maps.get j t)
  get-added j = simp map_laws

  zero_ne_id : id ≢ 0
  zero_ne_id e = ground (arith, tree.root.1)

  -- The folders that were there keep their parents.
  HasParent-added :
      (j : ℕ) (f : FolderMetadata)
      → Maps.get j t ≡ some f
      → HasParent (added t metadata id p) j f.parent
  HasParent-added j f e = elim (Bool-cases (j == metadata.parent)) [
    | inl same_parent ↦ (with_child, ground (arith, get-added j), ground arith)
    | inr other ↦ (f, ground (arith, get-added j), refl)
  ]

  IsRooted-added : (j n : ℕ) → Climbs t n j → IsRooted (added t metadata id p) j
  IsRooted-added j n c =
      IsRooted-of_steps t (added t metadata id p) (λ _. Unit)
        (λ k f nz _ e. inr (HasParent-added k f e, tt)) n j tt c

  IsRooted-added_self : IsRooted (added t metadata id p) id
  IsRooted-added_self =
      let r : IsRooted t metadata.parent = tree.rooted metadata.parent p found in
      let r' : IsRooted (added t metadata id p) metadata.parent =
        IsRooted-added metadata.parent r.0 r.1 in
      (suc r'.0, (metadata, zero_ne_id, ground (arith, get-added id), r'.1))

  IsRooted-added_any :
      (j : ℕ) (f : FolderMetadata)
      → Maps.get j (added t metadata id p) ≡ some f
      → IsRooted (added t metadata id p) j
  IsRooted-added_any j f e = elim (Bool-cases (j == id)) [
    | inl new ↦ rw ((==_iff j id).0 new) IsRooted-added_self
    | inr old ↦ elim (Bool-cases (j == metadata.parent)) [
      | inl at_parent ↦
          let r : IsRooted t metadata.parent = tree.rooted metadata.parent p found in
          IsRooted-added j r.0 (rw ((==_iff j metadata.parent).0 at_parent) r.1)
      | inr other ↦
          let r : IsRooted t j = tree.rooted j f (ground (arith, get-added j)) in
          IsRooted-added j r.0 r.1
    ]
  ]

  -- An old folder, as it was.
  before_added :
      (j : ℕ) (f : FolderMetadata)
      → Maps.get j (added t metadata id p) ≡ some f
      → (j == id) ≡ false
      → (f' : FolderMetadata) × (Maps.get j t ≡ some f') × (f'.parent ≡ f.parent)
  before_added j f e old = elim (Bool-cases (j == metadata.parent)) [
    | inl at_parent ↦
        (p, rw ((==_iff j metadata.parent).0 at_parent) found, ground (arith, get-added j))
    | inr other ↦ (f, ground (arith, get-added j), refl)
  ]

  -- An old folder still lists what it listed.
  listed-added :
      (k c : ℕ) (q : FolderMetadata)
      → Maps.get k t ≡ some q
      → Sets.contains c q.folders ≡ true
      → (q' : FolderMetadata) × (Maps.get k (added t metadata id p) ≡ some q')
        × (Sets.contains c q'.folders ≡ true)
  listed-added k c q e h = elim (Bool-cases (k == metadata.parent)) [
    | inl at_parent ↦ (
      with_child,
      ground (arith, get-added k),
      simp Sets.contains-insert (ground (arith, (==_iff k metadata.parent).0 at_parent)),
    )
    | inr other ↦ (q, ground (arith, get-added k), h)
  ]

  up-added :
      (j : ℕ) (f : FolderMetadata)
      → Maps.get j (added t metadata id p) ≡ some f
      → j ≢ 0
      → (q : FolderMetadata) × (Maps.get f.parent (added t metadata id p) ≡ some q)
        × (Sets.contains j q.folders ≡ true)
  up-added j f e nz = elim (Bool-cases (j == id)) [
    | inl new ↦ (
      with_child,
      ground (arith, get-added j, get-added f.parent),
      simp Sets.contains-insert (ground arith),
    )
    | inr old ↦
        let (f', e', pe) = before_added j f e old in
        let (q, eq, h) = tree.up j f' e' nz in rw (← pe) (listed-added f'.parent j q eq h)
  ]

  -- An old link, from a folder to one that it listed.
  linked-added :
      (j c : ℕ) (q : FolderMetadata)
      → Maps.get j t ≡ some q
      → Sets.contains c q.folders ≡ true
      → (f : FolderMetadata) × (c ≢ 0)
        × (Maps.get c (added t metadata id p) ≡ some f)
        × (f.parent ≡ j)
  linked-added j c q e h =
      let (f, nz, e', pe) = tree.down j c q e h in
      let (g, e'', pe') = HasParent-added c f e' in (g, nz, e'', pe' ∙ pe)

  down-added :
      metadata.folders ≡ []
      → (j c : ℕ) (q : FolderMetadata) → Maps.get j (added t metadata id p) ≡ some q
      → Sets.contains c q.folders ≡ true
      → (f : FolderMetadata) × (c ≢ 0)
        × (Maps.get c (added t metadata id p) ≡ some f)
        × (f.parent ≡ j)
  down-added bare j c q e h = elim (Bool-cases (j == id)) [
    | inl new ↦ absurd (grind (arith, get-added j, bare, Sets.contains-nil {K = ℕ} c))
    | inr old ↦ elim (Bool-cases (j == metadata.parent)) [
      | inl at_parent ↦ elim (Bool-cases (c == id)) [
        | inl child ↦
            (metadata, ground (arith, zero_ne_id), ground (arith, get-added c), ground arith)
        | inr other ↦
            linked-added j c p (rw ((==_iff j metadata.parent).0 at_parent) found)
              (ground (arith, get-added j, Sets.contains-insert c id p.folders))
      ]
      | inr other ↦ linked-added j c q (ground (arith, get-added j)) h
    ]
  ]

  added-IsTree : metadata.folders ≡ [] → IsTree (added t metadata id p)
  added-IsTree bare = record {
    root = elim (Bool-cases (0 == metadata.parent)) [
      | inl at_parent ↦ (with_child, ground (arith, get-added 0, zero_ne_id))
      | inr other ↦ (tree.root.0, ground (arith, get-added 0, zero_ne_id, tree.root.1))
    ];
    rooted = IsRooted-added_any;
    up = up-added;
    down = down-added bare;
  }

-- A successful `add_folder` of a folder that has no sub-folders yet keeps the tree: every folder
-- still climbs to the root, and the sets of sub-folders are still the inverse of the parent links.
pub add_folder-IsTree :
    (t : FoldersTree) (metadata : FolderMetadata) (id max_folder_depth max_children : ℕ)
    {t' : FoldersTree}
    → IsTree t
    → metadata.folders ≡ []
    → add_folder t metadata id max_folder_depth max_children ≡ ok t'
    → IsTree t'
add_folder-IsTree t metadata id d m tree bare h =
    let a : Added t metadata id d m _ = add_folder-Added t metadata id d m h in
    rw a.result (added-IsTree t metadata id a.parent tree a.fresh a.found bare)
