-- ===== src/Bucket/Folders/Deleting.antt =====
-- `FoldersTree::delete_folder` of src/ic_oss_bucket/src/store.rs and the shape of the tree.
use ic_oss.Base.{
  ℕ, ◌≡◌, refl, ◌∙◌, ◌≢◌, ◌⊎◌, inl, inr, Bool, true, false, not, ◌&&◌, none, some, [], arith,
  map_laws, ◌==◌, if◌then◌else◌, Bool-cases, Option-cases, ok, nat_ord,
}
use ic_oss.Bucket.Folders.Climb.{IsRooted, HasParent, IsRooted-of_steps, parent_ne}
use ic_oss.Bucket.Folders.Shape.{IsTree}
use ic_oss.Base.Maps
use ic_oss.Base.Sets
use ic_oss.Bucket.Folders.{FoldersTree, FolderMetadata, delete_folder, detach, parent_to_update}

abbrev pub without : FoldersTree → ℕ → ℕ → FolderMetadata → FolderMetadata → FoldersTree
without t id now_ms folder parent =
    Maps.erase id (Maps.put folder.parent (detach id now_ms parent) t)

pub record Deleted (t : FoldersTree) (id now_ms : ℕ) (t' : FoldersTree) : Type 0 where
  pub not_root : id ≢ 0
  pub folder : FolderMetadata
  pub found : Maps.get id t ≡ some folder
  pub bare : folder.folders ≡ []
  pub bare_files : folder.files ≡ []
  pub parent : FolderMetadata
  pub found_parent : Maps.get folder.parent t ≡ some parent
  pub result : t' ≡ without t id now_ms folder parent

module _ (t : FoldersTree) (id now_ms : ℕ) (folder parent : FolderMetadata) (tree : IsTree t)
    (nz : id ≢ 0) (found : Maps.get id t ≡ some folder) (bare : folder.folders ≡ [])
    (found_parent : Maps.get folder.parent t ≡ some parent) where
  abbrev rest : FoldersTree
  rest = without t id now_ms folder parent

  parent_ne_id : folder.parent ≢ id
  parent_ne_id =
      let r : IsRooted t id = tree.rooted id folder found in parent_ne t r.0 id folder nz r.1 found

  pub get-rest :
      (j : ℕ)
      → Maps.get j rest ≡ (
          if j == id
          then none
          else if j == folder.parent
          then some (detach id now_ms parent)
          else Maps.get j t)
  get-rest j = simp map_laws

  parent-detach : (detach id now_ms parent).parent ≡ parent.parent
  unfolding detach
  parent-detach = ground arith

  pub files-detach : (detach id now_ms parent).files ≡ parent.files
  unfolding detach
  files-detach = ground arith

  contains-detach :
      (c : ℕ)
      → Sets.contains c (detach id now_ms parent).folders
        ≡ (not (c == id) && Sets.contains c parent.folders)
  unfolding detach
  contains-detach c = ground (arith, Sets.contains-remove c id parent.folders)

  -- The folder is nobody's parent.
  not_parent : (j : ℕ) (f : FolderMetadata) → j ≢ 0 → Maps.get j t ≡ some f → f.parent ≢ id
  not_parent j f nz' e at_id =
      let (p, ep, h) = tree.up j f e nz' in ground (arith, Sets.contains-nil {K = ℕ} j)

  HasParent-rest :
      (j : ℕ) (f : FolderMetadata) → j ≢ id → Maps.get j t ≡ some f → HasParent rest j f.parent
  HasParent-rest j f ne e = elim (Bool-cases (j == folder.parent)) [
    | inl at_parent ↦
        (detach id now_ms parent, ground (arith, get-rest j), ground (arith, parent-detach))
    | inr other ↦ (f, ground (arith, get-rest j), refl)
  ]

  step-rest :
      (k : ℕ) (f : FolderMetadata)
      → k ≢ 0
      → k ≢ id
      → Maps.get k t ≡ some f
      → IsRooted rest k ⊎ (HasParent rest k f.parent × (f.parent ≢ id))
  step-rest k f nz' ne e = inr (HasParent-rest k f ne e, not_parent k f nz' e)

  before_rest :
      (j : ℕ) (f : FolderMetadata)
      → Maps.get j rest ≡ some f
      → (f' : FolderMetadata) × (j ≢ id) × (Maps.get j t ≡ some f') × (f'.parent ≡ f.parent)
  before_rest j f e = elim (Bool-cases (j == folder.parent)) [
    | inl at_parent ↦ (
      parent,
      ground (arith, get-rest j),
      ground (arith, get-rest j),
      ground (arith, get-rest j, parent-detach),
    )
    | inr other ↦ (f, ground (arith, get-rest j), ground (arith, get-rest j), refl)
  ]

  IsRooted-rest : (j : ℕ) (f : FolderMetadata) → Maps.get j rest ≡ some f → IsRooted rest j
  IsRooted-rest j f e =
      let (f', ne, e', _) = before_rest j f e in
      let r : IsRooted t j = tree.rooted j f' e' in
      IsRooted-of_steps t rest (λ k. k ≢ id) step-rest r.0 j ne r.1

  up-rest :
      (j : ℕ) (f : FolderMetadata)
      → Maps.get j rest ≡ some f
      → j ≢ 0
      → (q : FolderMetadata) × (Maps.get f.parent rest ≡ some q)
        × (Sets.contains j q.folders ≡ true)
  up-rest j f e nz' =
      let (f', ne, e', pe) = before_rest j f e in
      let (q, eq, h) = tree.up j f' e' nz' in
      let not_id : f'.parent ≢ id = not_parent j f' nz' e' in
      rw (← pe) (elim (Bool-cases (f'.parent == folder.parent)) [
        | inl at_parent ↦ (
          detach id now_ms parent,
          ground (arith, get-rest f'.parent),
          ground (arith, contains-detach j),
        )
        | inr other ↦ (q, ground (arith, get-rest f'.parent), h)
      ])

  linked-rest :
      (j c : ℕ) (q : FolderMetadata)
      → c ≢ id
      → Maps.get j t ≡ some q
      → Sets.contains c q.folders ≡ true
      → (f : FolderMetadata) × (c ≢ 0) × (Maps.get c rest ≡ some f) × (f.parent ≡ j)
  linked-rest j c q ne e h =
      let (f, nz', e', pe) = tree.down j c q e h in
      let (g, e'', pe') = HasParent-rest c f ne e' in (g, nz', e'', pe' ∙ pe)

  -- Only its parent listed the folder.
  listed_elsewhere :
      (j : ℕ) (q : FolderMetadata)
      → Maps.get j t ≡ some q
      → Sets.contains id q.folders ≡ true
      → (j == folder.parent) ≡ false
      → ⊥
  listed_elsewhere j q e h other = let (f, nz', e', pe) = tree.down j id q e h in ground arith

  down-rest :
      (j c : ℕ) (q : FolderMetadata)
      → Maps.get j rest ≡ some q
      → Sets.contains c q.folders ≡ true
      → (f : FolderMetadata) × (c ≢ 0) × (Maps.get c rest ≡ some f) × (f.parent ≡ j)
  down-rest j c q e h = elim (Bool-cases (j == folder.parent)) [
    | inl at_parent ↦
        linked-rest j c parent (ground (arith, get-rest j, contains-detach c, parent_ne_id))
          (ground (arith, get-rest j, contains-detach c, parent_ne_id))
          (ground (arith, get-rest j, contains-detach c, parent_ne_id))
    | inr other ↦
        let at_old : Maps.get j t ≡ some q = ground (arith, get-rest j) in
        linked-rest j c q (λ c_id. listed_elsewhere j q at_old (rw c_id at h) other) at_old h
  ]

  rest-IsTree : IsTree rest
  rest-IsTree = record {
    root = elim (Bool-cases (0 == folder.parent)) [
      | inl at_parent ↦ (detach id now_ms parent, ground (arith, get-rest 0))
      | inr other ↦ (tree.root.0, ground (arith, get-rest 0, tree.root.1))
    ];
    rooted = IsRooted-rest;
    up = up-rest;
    down = down-rest;
  }

pub delete_folder-cases :
    (t : FoldersTree) (id now_ms : ℕ) {t' : FoldersTree} {removed : Bool}
    → delete_folder t id now_ms ≡ ok (t', removed)
    → (t' ≡ t) ⊎ Deleted t id now_ms t'
unfolding delete_folder parent_to_update
delete_folder-cases t id now_ms h = elim (Option-cases (Maps.get id t)) [
  | inl e ↦ inl (ground arith)
  | inr (f, e) ↦ elim (Option-cases (Maps.get f.parent t)) [
    | inl e' ↦ absurd (ground arith)
    | inr (p, e') ↦ inr (record {
      not_root = ground arith;
      folder = f;
      found = e;
      bare = ground arith;
      bare_files = ground arith;
      parent = p;
      found_parent = e';
      result = ground arith;
    })
  ]
]

-- A `delete_folder` that does not fail keeps the tree.
pub delete_folder-IsTree :
    (t : FoldersTree) (id now_ms : ℕ) {t' : FoldersTree} {removed : Bool}
    → IsTree t
    → delete_folder t id now_ms ≡ ok (t', removed)
    → IsTree t'
delete_folder-IsTree t id now_ms tree h = elim (delete_folder-cases t id now_ms h) [
  | inl same_tree ↦ rw same_tree tree
  | inr d ↦
      rw d.result
        (rest-IsTree t id now_ms d.folder d.parent tree d.not_root d.found d.bare d.found_parent)
]
