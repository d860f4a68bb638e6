-- ===== src/Bucket/Upload/Pieces.antt =====
-- The chunks that create_file of src/ic_oss_bucket/src/api_update.rs cuts a content into.
use ic_oss.Bucket.Config.{chunk_size}
use ic_oss.Bucket.Upload.{chunks_of, cut}
use ic_oss.Base.{
  ℕ, zero, suc, ◌+◌, ◌-◌, ◌≤◌, ◌<◌, ◌≡◌, refl, sym, ap, ◌∙◌, List, [], ◌∷◌, ◌++◌, arith, length,
  length-append, All,
}

-- The bytes of the pieces in one sequence.
abbrev pub joined : List (List ℕ) → List ℕ
joined [] = []
joined (piece ∷ pieces) = piece ++ joined pieces

abbrev pub IsPiece : ℕ → List ℕ → Type 0
IsPiece n piece = (0 < length piece) × (length piece ≤ n)

joined-cut : (n room : ℕ) (xs : List ℕ) → (cut n room xs).0 ++ joined (cut n room xs).1 ≡ xs
unfolding cut
joined-cut n room [] = refl
joined-cut n zero (x ∷ xs) = ap (◌∷◌ x) (joined-cut n n xs)
joined-cut n (suc room) (x ∷ xs) = ap (◌∷◌ x) (joined-cut n room xs)

cut-bounds :
    (n room : ℕ) (xs : List ℕ)
    → (length (cut n room xs).0 ≤ room) × All (IsPiece (n + 1)) (cut n room xs).1
unfolding cut
cut-bounds n room [] = ground arith
cut-bounds n zero (x ∷ xs) = ground (arith, cut-bounds n n xs)
cut-bounds n (suc room) (x ∷ xs) = ground (arith, cut-bounds n room xs)

append-empty : (xs ys : List ℕ) → length xs ≤ 0 → xs ++ ys ≡ ys
append-empty [] ys h = refl
append-empty (x ∷ xs) ys h = absurd (omega arith)

pub joined-chunks_of : (content : List ℕ) → joined (chunks_of content) ≡ content
unfolding chunks_of
joined-chunks_of content =
    sym (
      append-empty (cut (chunk_size - 1) 0 content).0 (joined (cut (chunk_size - 1) 0 content).1)
        (cut-bounds (chunk_size - 1) 0 content).0)
    ∙ joined-cut (chunk_size - 1) 0 content

pub chunks_of-All : (content : List ℕ) → All (IsPiece chunk_size) (chunks_of content)
unfolding chunks_of
chunks_of-All content = (cut-bounds (chunk_size - 1) 0 content).1

pub length-le-joined :
    (n : ℕ) (pieces : List (List ℕ))
    → All (IsPiece n) pieces
    → length pieces ≤ length (joined pieces)
length-le-joined n [] h = omega arith
length-le-joined n (p ∷ ps) (piece, h) =
    omega (arith, length-le-joined n ps h, length-append p (joined ps), piece.0)
