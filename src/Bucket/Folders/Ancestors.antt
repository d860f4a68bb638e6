-- ===== src/Bucket/Folders/Ancestors.antt =====
-- The loops of `ancestors` and `ancestors_map` of src/ic_oss_bucket/src/store.rs, which have
-- no limit of their own.
use ic_oss.Base.{
  ℕ, zero, suc, ◌≤◌, ◌<◌, min, ◌≡◌, refl, ap, inl, inr, some, List, [], ◌∷◌, map, arith, map_laws,
  ◌==◌, ==_iff, Bool-cases, length, nat_ord,
}
use ic_oss.Bucket.Folders.Climb.{Climbs, Climbs-unique, depth-eq-min}
use ic_oss.Bucket.Folders.Shape.{IsTree}
use ic_oss.Base.Maps
use ic_oss.Bucket.Folders.{
  FoldersTree, FolderMetadata, ancestors_loop, ancestors_map, depth_limit, depth,
}

-- A chain climbs without each folder that is farther from the root.
Climbs-erase :
    (t : FoldersTree) (n p k x : ℕ)
    → Climbs t n p
    → Climbs t k x
    → n < k
    → Climbs (Maps.erase x t) n p
Climbs-erase t zero p k x c d h = c
Climbs-erase t (suc n) p k x (f, nz, e, c) d h = elim (Bool-cases (p == x)) [
  | inl same_id ↦
      let p_x : p ≡ x = (==_iff p x).0 same_id in
      let d' : Climbs t k p = rw p_x d in
      absurd (omega (arith, Climbs-unique t (suc n) k p (f, nz, e, c) d'))
  | inr other ↦
      (f, nz, simp map_laws (ground arith), Climbs-erase t n f.parent k x c d (omega arith))
]

pub Climbs-le-length : (n : ℕ) (t : FoldersTree) (id : ℕ) → Climbs t n id → n ≤ length t
Climbs-le-length zero t id c = omega arith
Climbs-le-length (suc n) t id (f, nz, e, c) = omega (
  arith,
  Climbs-le-length n (Maps.erase id t) f.parent
      (Climbs-erase t n f.parent (suc n) id c (f, nz, e, c) (omega arith)),
  Maps.length-erase-lt id f t e,
)

-- The folders from `id` up to, and without, the root.
unfoldable pub chain : (t : FoldersTree) (n id : ℕ) → Climbs t n id → List (ℕ × FolderMetadata)
chain t zero id c = []
chain t (suc n) id (f, nz, e, c) = (id, f) ∷ chain t n f.parent c

length-chain : (t : FoldersTree) (n id : ℕ) (c : Climbs t n id) → length (chain t n id c) ≡ n
unfolding chain
length-chain t zero id c = refl
length-chain t (suc n) id (f, nz, e, c) = ap suc (length-chain t n f.parent c)

module _ {ℓ} {U : Type ℓ} (g : ℕ → FolderMetadata → U) where
  ancestors_loop-chain :
      (t : FoldersTree) (rounds n id : ℕ) (c : Climbs t n id)
      → n ≤ rounds
      → ancestors_loop rounds t id g ≡ some (map (λ e. g e.0 e.1) (chain t n id c))
  unfolding ancestors_loop chain
  ancestors_loop-chain t zero zero id c h = ground arith
  ancestors_loop-chain t zero (suc n) id c h = absurd (omega arith)
  ancestors_loop-chain t (suc rounds) zero id c h = ground arith
  ancestors_loop-chain t (suc rounds) (suc n) id (f, nz, e, c) h =
      ground (arith, ancestors_loop-chain t rounds n f.parent c (omega arith))

  -- In a tree the loop of `ancestors_map` ends, and its result is the whole chain of parents from
  -- the given folder up to the root, in that order and mapped by `g`; `depth` counts the same
  -- chain up to its limit.
  pub ancestors_map-chain :
      (t : FoldersTree) (id : ℕ) (folder : FolderMetadata)
      → IsTree t
      → Maps.get id t ≡ some folder
      → (n : ℕ) × (c : Climbs t n id) × (ancestors_map t id g
          ≡ some (map (λ e. g e.0 e.1) (chain t n id c)))
        × (length (chain t n id c) ≡ n)
        × (depth t id ≡ min n depth_limit)
  unfolding ancestors_map
  ancestors_map-chain t id folder tree e =
      let (n, c) = tree.rooted id folder e in
      (
        n,
        c,
        ancestors_loop-chain t (length t) n id c (Climbs-le-length n t id c),
        length-chain t n id c,
        depth-eq-min t n id c,
      )
