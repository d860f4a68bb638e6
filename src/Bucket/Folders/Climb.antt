-- ===== src/Bucket/Folders/Climb.antt =====
-- The chain of parents from a folder up to the root, and what the loops over it compute.
use ic_oss.Base.{
  ℕ, zero, suc, ◌+◌, ◌<◌, min, ◌≡◌, refl, ◌∙◌, ◌≢◌, ◌⊎◌, inl, inr, false, some, arith, nat_ord,
}
use ic_oss.Base.Maps
use ic_oss.Bucket.Folders.{
  FoldersTree, FolderMetadata, depth_loop, depth_limit, depth, ancestor_loop, depth_or_is_ancestor,
}

-- From `id` the root is `n` parents away.
abbrev pub Climbs : FoldersTree → ℕ → ℕ → Type 0
Climbs t zero id = id ≡ 0
Climbs t (suc n) id =
    (f : FolderMetadata) × (id ≢ 0) × (Maps.get id t ≡ some f) × Climbs t n f.parent

pub Climbs-unique : (t : FoldersTree) (n m id : ℕ) → Climbs t n id → Climbs t m id → n ≡ m
Climbs-unique t zero zero id c d = refl
Climbs-unique t zero (suc m) id c d = absurd (d.1 c)
Climbs-unique t (suc n) zero id c d = absurd (c.1 d)
Climbs-unique t (suc n) (suc m) id (f, nz, e, c) (g, nz', e', d) =
    ground (arith, Climbs-unique t n m f.parent c (ground arith))

depth_loop-Climbs :
    (t : FoldersTree) (rounds n id acc : ℕ)
    → Climbs t n id
    → depth_loop rounds t id acc ≡ acc + min n rounds
unfolding depth_loop
depth_loop-Climbs t zero n id acc c = omega arith
depth_loop-Climbs t (suc rounds) zero id acc c = ground arith
depth_loop-Climbs t (suc rounds) (suc n) id acc (f, nz, e, c) =
    ground (arith, depth_loop-Climbs t rounds n f.parent (acc + 1) c)

-- `depth` counts the parents from a folder up to the root, and stops at its hard limit of 1024.
pub depth-eq-min : (t : FoldersTree) (n id : ℕ) → Climbs t n id → depth t id ≡ min n depth_limit
unfolding depth
depth-eq-min t n id c = depth_loop-Climbs t depth_limit n id 0 c ∙ omega arith

-- The first `n` folders from `id` up are there and none of them is `p`.
abbrev pub Avoids : FoldersTree → ℕ → ℕ → ℕ → Type 0
Avoids t zero id p = Unit
Avoids t (suc n) id p =
    (f : FolderMetadata) × (id ≢ p) × (Maps.get id t ≡ some f) × Avoids t n f.parent p

ancestor_loop-Avoids :
    (t : FoldersTree) (rounds n id p acc d : ℕ)
    → p ≢ 0
    → Climbs t n id
    → ancestor_loop rounds t id p acc ≡ (d, false)
    → d < acc + rounds
    → Avoids t n id p × (d ≡ acc + n)
unfolding ancestor_loop
ancestor_loop-Avoids t zero n id p acc d nz c e h = absurd (ground arith)
ancestor_loop-Avoids t (suc rounds) zero id p acc d nz c e h = (tt, ground arith)
ancestor_loop-Avoids t (suc rounds) (suc n) id p acc d nz (f, nz', g, c) e h =
    let r : Avoids t n f.parent p × (d ≡ acc + 1 + n) =
      ancestor_loop-Avoids t rounds n f.parent p (acc + 1) d nz c (ground arith) (omega arith) in
    ((f, ground arith, g, r.0), omega arith)

-- A negative answer of `depth_or_is_ancestor` within its limit is right: the whole chain was
-- walked, `p` is not on it, and the depth is its length.
pub depth_or_is_ancestor-Avoids :
    (t : FoldersTree) (n id p d : ℕ)
    → p ≢ 0
    → Climbs t n id
    → depth_or_is_ancestor t id p ≡ (d, false)
    → d < depth_limit
    → Avoids t n id p × (d ≡ n)
unfolding depth_or_is_ancestor
depth_or_is_ancestor-Avoids t n id p d nz c e h =
    let r : Avoids t n id p × (d ≡ 0 + n) =
      ancestor_loop-Avoids t depth_limit n id p 0 d nz c e (ground arith) in
    (r.0, omega arith)

abbrev pub IsRooted : FoldersTree → ℕ → Type 0
IsRooted t id = (n : ℕ) × Climbs t n id

-- The parent of a folder in another tree.
abbrev pub HasParent : FoldersTree → ℕ → ℕ → Type 0
HasParent t id p = (g : FolderMetadata) × (Maps.get id t ≡ some g) × (g.parent ≡ p)

-- The chains of `t` climb in `u` too, if each of their folders has its parent there, or is known
-- to climb.
pub IsRooted-of_steps :
    (t u : FoldersTree) (P : ℕ → Type 0)
    → ((j : ℕ) (f : FolderMetadata)
        → j ≢ 0
        → P j
        → Maps.get j t ≡ some f
        → IsRooted u j ⊎ (HasParent u j f.parent × P f.parent))
    → (n j : ℕ) → P j
    → Climbs t n j
    → IsRooted u j
IsRooted-of_steps t u P step zero j hp c = (0, c)
IsRooted-of_steps t u P step (suc n) j hp (f, nz, e, c) = elim (step j f nz hp e) [
  | inl r ↦ r
  | inr ((g, e', pe), hp') ↦
      let r : IsRooted u f.parent = IsRooted-of_steps t u P step n f.parent hp' c in
      (suc r.0, (g, nz, e', rw pe r.1))
]

-- A chain that avoids `p` climbs as far in a tree where all but `p` keep their parents.
pub Climbs-of_Avoids :
    (t u : FoldersTree) (p : ℕ)
    → ((j : ℕ) (f : FolderMetadata) → j ≢ p → Maps.get j t ≡ some f → HasParent u j f.parent)
    → (n j : ℕ) → Climbs t n j
    → Avoids t n j p
    → Climbs u n j
Climbs-of_Avoids t u p keep zero j c a = c
Climbs-of_Avoids t u p keep (suc n) j (f, nz, e, c) (g, ne, e', a) =
    let (h, eh, ph) = keep j f ne e in
    let g_f : g ≡ f = ground arith in
    let a' : Avoids t n f.parent p = rw g_f at a in
    (h, nz, eh, rw ph (Climbs-of_Avoids t u p keep n f.parent c a'))

-- A folder that climbs is not its own parent.
pub parent_ne :
    (t : FoldersTree) (n id : ℕ) (f : FolderMetadata)
    → id ≢ 0
    → Climbs t n id
    → Maps.get id t ≡ some f
    → f.parent ≢ id
parent_ne t zero id f nz c e = absurd (nz c)
parent_ne t (suc n) id f nz (g, nz', e', c) e = λ (loop : f.parent ≡ id).
    let g_f : g ≡ f = ground arith in
    let c' : Climbs t n id = rw (g_f, loop) at c in
    absurd (omega (arith, Climbs-unique t (suc n) n id (g, nz', e', c) c'))
