-- ===== src/Bucket/Upload.antt =====
-- The upload of a file's content in `create_file` of src/ic_oss_bucket/src/api_update.rs: the
-- content is cut into chunks, which are written one after the other.
pub mod Pieces
pub mod RoundTrip
use ic_oss.Bucket.Config.{chunk_size}
use ic_oss.Bucket.Error.{Error}
use ic_oss.Base.{ℕ, zero, suc, ◌+◌, ◌-◌, ◌%◌, List, [], ◌∷◌, Result, ok, err}
use ic_oss.Bucket.Fs.{Store}
use ic_oss.Bucket.Fs.Chunk.{update_chunk}

-- What is left of the current piece, with `room` for more bytes, and the pieces behind it.
unfoldable pub cut : ℕ → ℕ → List ℕ → List ℕ × List (List ℕ)
cut n room [] = ([], [])
cut n zero (x ∷ xs) = let (piece, pieces) = cut n n xs in ([], (x ∷ piece) ∷ pieces)
cut n (suc room) (x ∷ xs) = let (piece, pieces) = cut n room xs in (x ∷ piece, pieces)

-- `content.chunks(CHUNK_SIZE as usize)`
unfoldable pub chunks_of : List ℕ → List (List ℕ)
chunks_of content = (cut (chunk_size - 1) 0 content).1

module _ {V : Type 0} where
  -- The loop over the chunks from index `i` on, up to the first error.
  unfoldable pub write_chunks :
      ℕ → ℕ → ℕ → List (List ℕ) → Store V → Result Error (Unit {0}) × Store V
  write_chunks id i now_ms [] s = (ok tt, s)
  write_chunks id i now_ms (chunk ∷ chunks) s =
      let (written, s') = update_chunk id (i % 4294967296) now_ms chunk (λ _. ok tt) s in
      elim written [ err e ↦ (err e, s') | ok _ ↦ write_chunks id (i + 1) now_ms chunks s' ]
