-- ===== src/Bucket/Checks/Inherited.antt =====
-- The checks of src/ic_oss_bucket/src/permission.rs over the folders above a folder.
use ic_oss.Types.Ids.{Principal}
use ic_oss.Types.Permission.Kind.{Resource, Operation}
use ic_oss.Types.Permission.Granting.{grants-le-any, grants_any-eq}
use ic_oss.Types.Permission.Rule.{Permission}
use ic_oss.Types.Permission.Policies.{Policies, grants, grants_any}
use ic_oss.Bucket.Checks.{
  get_ancestors, granted_above, right, check_folder_list, check_folder_read, check_file_list,
  check_file_read, check_file_create, check_file_delete, check_file_update, check_folder_create,
  check_folder_delete,
}
use ic_oss.Bucket.Folders.{FoldersTree, FolderMetadata, ancestors_loop, ancestors_map}
use ic_oss.Bucket.Folders.Climb.{Climbs}
use ic_oss.Bucket.Folders.Shape.{IsTree}
use ic_oss.Bucket.Folders.Ancestors.{ancestors_map-chain, chain}
use ic_oss.Base.{
  ℕ, zero, suc, ◌<◌, ◌≡◌, ◌≢◌, ◌↔◌, ◌⊎◌, inl, inr, Bool, true, none, some, List, [], map, arith,
  Bool-cases, Option-cases, length, any, Text, decimal, nat_ord,
}
use ic_oss.Base.Maps

-- Folder `a` is `k` or lies above it, and is not the root.
pub data IsAbove (t : FoldersTree) (a : ℕ) : ℕ → Type 0 where
  self : (f : FolderMetadata) → a ≢ 0 → Maps.get a t ≡ some f → IsAbove t a a
  below :
      {k : ℕ} (f : FolderMetadata)
      → k ≢ 0
      → Maps.get k t ≡ some f
      → IsAbove t a f.parent
      → IsAbove t a k

-- The walk from a folder that is not there ends at once.
ancestors_loop-none :
    (rounds k : ℕ) (t : FoldersTree) (g : ℕ → FolderMetadata → Text)
    → 0 < rounds
    → Maps.get k t ≡ none
    → ancestors_loop rounds t k g ≡ some []
unfolding ancestors_loop
ancestors_loop-none zero k t g h e = absurd (omega arith)
ancestors_loop-none (suc rounds) k t g h e = ground arith

-- The walk up to the root ends in a tree, also from a folder that is not there.
pub get_ancestors-ends :
    (t : FoldersTree) (k : ℕ) → IsTree t → (paths : List Text) × (get_ancestors t k ≡ some paths)
unfolding get_ancestors ancestors_map
get_ancestors-ends t k tree = elim (Option-cases (Maps.get k t)) [
  | inl absent ↦
      let (r, found) = tree.root in
      let shorter : length (Maps.erase 0 t) < length t = Maps.length-erase-lt 0 r t found in
      ([], ancestors_loop-none (length t) k t (λ id folder. decimal id) (omega arith) absent)
  | inr (f, e) ↦
      let (n, c, walk, _, _) = ancestors_map-chain (λ id folder. decimal id) t k f tree e in
      (_, walk)
]

module _ (ps : Policies) (p : Permission) (t : FoldersTree) where
  any-chain :
      (f : Text → Bool) (a k n : ℕ) (c : Climbs t n k)
      → IsAbove t a k
      → f (decimal a) ≡ true
      → any f (map (λ e. decimal e.0) (chain t n k c)) ≡ true
  unfolding chain
  any-chain f a k zero c (self g nz e) h = absurd (nz c)
  any-chain f a k zero c (below g nz e above) h = absurd (nz c)
  any-chain f a k (suc n) (g', nz', e', c) (self g nz e) h = ground arith
  any-chain f a k (suc n) (g', nz', e', c) (below g nz e above) h =
      let same_folder : g ≡ g' = ground arith in
      ground (arith, any-chain f a g'.parent n c (rw same_folder at above))

  -- A path of the walk that the test accepts is that of a folder above.
  any-IsAbove :
      (f : Text → Bool) (k n : ℕ) (c : Climbs t n k)
      → any f (map (λ e. decimal e.0) (chain t n k c)) ≡ true
      → (a : ℕ) × IsAbove t a k × (f (decimal a) ≡ true)
  unfolding chain
  any-IsAbove f k zero c h = absurd (ground arith)
  any-IsAbove f k (suc n) (g, nz, e, c) h = elim (Bool-cases (f (decimal k))) [
    | inl here ↦ (k, IsAbove.self g nz e, here)
    | inr further ↦
        let (a, above, accepted) = any-IsAbove f g.parent n c (ground arith) in
        (a, IsAbove.below g nz e above, accepted)
  ]

  grants_any-chain :
      (k n : ℕ) (c : Climbs t n k)
      → k ≢ 0
      → grants_any ps p (map (λ e. decimal e.0) (chain t n k c))
        ≡ any (grants ps p) (map (λ e. decimal e.0) (chain t n k c))
  unfolding chain
  grants_any-chain k zero c nz = absurd (nz c)
  grants_any-chain k (suc n) (g, nz', e, c) nz =
      grants_any-eq ps p (decimal k) (map (λ e. decimal e.0) (chain t n g.parent c))

  IsAbove-found : (a k : ℕ) → IsAbove t a k → (f : FolderMetadata) × (Maps.get k t ≡ some f)
  IsAbove-found a k (self f nz e) = (f, e)
  IsAbove-found a k (below f nz e above) = (f, e)

  pub granted_above-IsAbove :
      (a k : ℕ)
      → IsTree t
      → IsAbove t a k
      → grants ps p (decimal a) ≡ true
      → granted_above ps p t k ≡ some true
  unfolding granted_above get_ancestors
  granted_above-IsAbove a k tree above h =
      let (found, e) = IsAbove-found a k above in
      let (n, c, walk, _, _) = ancestors_map-chain (λ id folder. decimal id) t k found tree e in
      ground (
        arith,
        walk,
        grants-le-any ps p (map (λ e. decimal e.0) (chain t n k c))
            (any-chain (grants ps p) a k n c above h),
      )

-- The paths of the walk from a folder other than the root, in a tree, where at least one is.
module _ (ps : Policies) (p : Permission) (t : FoldersTree) (tree : IsTree t) (k : ℕ)
    (f : FolderMetadata) (nz : k ≢ 0) (found : Maps.get k t ≡ some f) where
  granted_above-only :
      granted_above ps p t k ≡ some true
      → (a : ℕ) × IsAbove t a k × (grants ps p (decimal a) ≡ true)
  unfolding granted_above get_ancestors chain
  granted_above-only h =
      let (n, c, walk, _, _) = ancestors_map-chain (λ id folder. decimal id) t k f tree found in
      any-IsAbove ps p t (grants ps p) k n c
        (ground (arith, walk, grants_any-chain ps p t k n c nz))

  pub granted_above_iff :
      (granted_above ps p t k ≡ some true)
      ↔ ((a : ℕ) × IsAbove t a k × (grants ps p (decimal a) ≡ true))
  granted_above_iff =
      (granted_above-only, λ (a, above, h). granted_above-IsAbove ps p t a k tree above h)

module _ (to_text : Principal → Text) (ps : Policies) (canister : Principal) (t : FoldersTree)
    (tree : IsTree t) (id k : ℕ) (f : FolderMetadata) (nz : k ≢ 0)
    (found : Maps.get k t ≡ some f) where
  -- A file in folder `k`, not the root, of a tree may be read just when the policies grant to read
  -- this file, or the files of the bucket, or the files of `k` or of a folder above it.
  pub check_file_read_iff : (check_file_read to_text ps canister t id k ≡ some true) ↔ (
      (grants ps (right Resource.file Operation.read none) (decimal id) ≡ true)
      ⊎ (grants ps (right Resource.bucket Operation.read (some Resource.file)) (to_text canister)
          ≡ true)
      ⊎ ((a : ℕ) × IsAbove t a k
          × (grants ps (right Resource.folder Operation.read (some Resource.file)) (decimal a)
              ≡ true)))
  unfolding check_file_read
  check_file_read_iff =
      let above =
        granted_above_iff ps (right Resource.folder Operation.read (some Resource.file)) t tree k f
          nz found in
      ground (arith, above)

  -- A file in folder `k`, not the root, of a tree may be changed just when the policies grant to
  -- write this file, or the files of the bucket, or the files of `k` or of a folder above it.
  pub check_file_update_iff : (check_file_update to_text ps canister t id k ≡ some true) ↔ (
      (grants ps (right Resource.file Operation.write none) (decimal id) ≡ true)
      ⊎ (grants ps (right Resource.bucket Operation.write (some Resource.file)) (to_text canister)
          ≡ true)
      ⊎ ((a : ℕ) × IsAbove t a k
          × (grants ps (right Resource.folder Operation.write (some Resource.file)) (decimal a)
              ≡ true)))
  unfolding check_file_update check_file_create
  check_file_update_iff =
      let above =
        granted_above_iff ps (right Resource.folder Operation.write (some Resource.file)) t tree k f
          nz found in
      ground (arith, above)

module _ (to_text : Principal → Text) (ps : Policies) (canister : Principal) (t : FoldersTree)
    (tree : IsTree t) (a k : ℕ) (above : IsAbove t a k) where
  -- The right that each check asks of a folder, in a call that does not hold `FOLDERS` borrowed:
  -- where the policies grant it on folder `a`, the check passes for `k` and, for the checks of a
  -- file, for the files in it. Here `a` is `k` or any folder above it, except the root, in a tree.
  pub checks_inherit :
      (grants ps (right Resource.folder Operation.list none) (decimal a) ≡ true
        → check_folder_list to_text ps canister t k ≡ some true)
      × (grants ps (right Resource.folder Operation.read (some Resource.folder)) (decimal a) ≡ true
          → check_folder_read to_text ps canister t k ≡ some true)
      × (grants ps (right Resource.folder Operation.list (some Resource.file)) (decimal a) ≡ true
          → check_file_list to_text ps canister t k ≡ some true)
      × (grants ps (right Resource.folder Operation.read (some Resource.file)) (decimal a) ≡ true
          → (id : ℕ) → check_file_read to_text ps canister t id k ≡ some true)
      × (grants ps (right Resource.folder Operation.write (some Resource.file)) (decimal a) ≡ true
          → (check_file_create to_text ps canister t k ≡ some true)
            × ((id : ℕ) → check_file_update to_text ps canister t id k ≡ some true))
      × (grants ps (right Resource.folder Operation.delete (some Resource.file)) (decimal a) ≡ true
          → check_file_delete to_text ps canister t k ≡ some true)
      × (grants ps (right Resource.folder Operation.write (some Resource.folder)) (decimal a) ≡ true
          → check_folder_create to_text ps canister t k ≡ some true)
      × (grants ps (right Resource.folder Operation.delete (some Resource.folder)) (decimal a)
            ≡ true
          → check_folder_delete to_text ps canister t k ≡ some true)
  unfolding check_folder_list check_folder_read check_file_list check_file_read check_file_create
      check_file_update check_file_delete check_folder_create check_folder_delete
  checks_inherit =
      let inherit = λ (p : Permission) (h : grants ps p (decimal a) ≡ true).
        granted_above-IsAbove ps p t a k tree above h in
      (
        λ h. ground (arith, inherit _ h),
        λ h. ground (arith, inherit _ h),
        λ h. ground (arith, inherit _ h),
        λ h id. ground (arith, inherit _ h),
        λ h. (ground (arith, inherit _ h), λ id. ground (arith, inherit _ h)),
        λ h. ground (arith, inherit _ h),
        λ h. ground (arith, inherit _ h),
        λ h. ground (arith, inherit _ h),
      )
