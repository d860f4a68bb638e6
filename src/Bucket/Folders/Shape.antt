-- ===== src/Bucket/Folders/Shape.antt =====
-- What it is for the folders to form a tree, with the sets of sub-folders as the inverse of the
-- parent links.
use ic_oss.Base.{
  ℕ, ◌≡◌, refl, sym, ◌∙◌, ◌≢◌, inl, inr, true, some, arith, map_option, Set, Option-cases, nat_ord,
}
use ic_oss.Bucket.Folders.{FoldersTree, FolderMetadata, new}
use ic_oss.Bucket.Folders.Climb.{IsRooted, IsRooted-of_steps}
use mathlib.Core.Path.{subst}
use ic_oss.Base.Maps
use ic_oss.Base.Sets

pub record IsTree (t : FoldersTree) : Type 0 where
  -- There is a root.
  pub root : (r : FolderMetadata) × (Maps.get 0 t ≡ some r)
  -- From each folder the parents lead to the root.
  pub rooted : (id : ℕ) (f : FolderMetadata) → Maps.get id t ≡ some f → IsRooted t id
  -- Each folder but the root is listed by its parent.
  pub up :
      (id : ℕ) (f : FolderMetadata)
      → Maps.get id t ≡ some f
      → id ≢ 0
      → (p : FolderMetadata) × (Maps.get f.parent t ≡ some p) × (Sets.contains id p.folders ≡ true)
  -- Whatever a folder lists is a folder with this parent.
  pub down :
      (id c : ℕ) (p : FolderMetadata)
      → Maps.get id t ≡ some p
      → Sets.contains c p.folders ≡ true
      → (f : FolderMetadata) × (c ≢ 0) × (Maps.get c t ≡ some f) × (f.parent ≡ id)

-- The tree that a new bucket starts with.
pub new-IsTree : IsTree new
unfolding Maps.get Sets.contains
new-IsTree = record {
  root = (_, refl);
  rooted = λ id f e. (0, ground arith);
  up = λ id f e nz. absurd (ground arith);
  down = λ id c p e h. absurd (ground arith);
}

-- What ties a folder to others.
abbrev pub links : FolderMetadata → ℕ × Set ℕ
links f = (f.parent, f.folders)

-- The same folders, with the same parents and sub-folders.
abbrev pub SameLinks : FoldersTree → FoldersTree → Type 0
SameLinks t u = (j : ℕ) → map_option links (Maps.get j t) ≡ map_option links (Maps.get j u)

SameLinks-get :
    (t u : FoldersTree) (j : ℕ) (f : FolderMetadata)
    → SameLinks t u
    → Maps.get j t ≡ some f
    → (g : FolderMetadata) × (Maps.get j u ≡ some g)
      × (g.parent ≡ f.parent)
      × (g.folders ≡ f.folders)
SameLinks-get t u j f same_links e = elim (Option-cases (Maps.get j u)) [
  | inl e' ↦ absurd (ground (arith, same_links j))
  | inr (g, e') ↦ (g, e', ground (arith, same_links j), ground (arith, same_links j))
]

-- The shape does not depend on anything else.
pub SameLinks-IsTree : (t u : FoldersTree) → SameLinks t u → IsTree t → IsTree u
SameLinks-IsTree t u same_links tree =
    let back : SameLinks u t = λ j. sym (same_links j) in
    record {
      root =
          let (r, e) = tree.root in
          let (g, e', _, _) = SameLinks-get t u 0 r same_links e in (g, e');
      rooted = λ j f e.
          let (f', e', _, _) = SameLinks-get u t j f back e in
          let (n, c) = tree.rooted j f' e' in
          IsRooted-of_steps t u (λ _. Unit)
            (λ k h nz _ eh.
              let (g, eg, pg, _) = SameLinks-get t u k h same_links eh in inr ((g, eg, pg), tt))
            n j tt c;
      up = λ j f e nz.
          let (f', e', pe, _) = SameLinks-get u t j f back e in
          let (q, eq, h) = tree.up j f' e' nz in
          let (g, eg, _, fg) = SameLinks-get t u f'.parent q same_links eq in
          (g, subst (λ k. Maps.get k u ≡ some g) pe eg, rw fg h);
      down = λ j c p e h.
          let (p', e', _, fe) = SameLinks-get u t j p back e in
          let (f, nz, ef, pf) = tree.down j c p' e' (rw fe h) in
          let (g, eg, pg, _) = SameLinks-get t u c f same_links ef in (g, nz, eg, pg ∙ pf);
    }
