-- ===== src/Bucket/Fs/Filled.antt =====
-- What `filled` and `chunks` of a file's metadata say of its stored chunks.
use ic_oss.Base.{
  ℕ, zero, suc, ◌+◌, ◌≤◌, ◌≡◌, inl, inr, none, some, List, arith, ltb, ◌==◌, if◌then◌else◌, ==_iff,
  Bool-cases, length, nat_ord, pair_ord,
}
use ic_oss.Base.Maps
use ic_oss.Bucket.Fs.{FileMetadata, Chunks}

-- The length of a chunk, or 0 where there is none.
abbrev pub size_at : ℕ → ℕ → Chunks → ℕ
size_at id i m = elim (Maps.get (id, i) m) [ none ↦ 0 | some chunk ↦ length chunk ]

-- The bytes of the first `n` chunks.
unfoldable pub chunk_bytes : ℕ → ℕ → Chunks → ℕ
chunk_bytes id zero m = 0
chunk_bytes id (suc n) m = chunk_bytes id n m + size_at id n m

-- `filled` counts the bytes of the file's chunks, and there are no chunks from `chunks` on.
pub record IsFilled {V : Type 0} (id : ℕ) (f : FileMetadata V) (m : Chunks) : Type 0 where
  pub counted : f.filled ≡ chunk_bytes id f.chunks m
  pub no_more : (i : ℕ) → f.chunks ≤ i → Maps.get (id, i) m ≡ none

pub size_at-put :
    (id i n : ℕ) (chunk : List ℕ) (m : Chunks)
    → size_at id n (Maps.put (id, i) chunk m) ≡ (if n == i then length chunk else size_at id n m)
size_at-put id i n chunk m = ground (arith, Maps.get-put (id, n) (id, i) chunk m)

-- A chunk that is written replaces the bytes that it had.
pub chunk_bytes-put :
    (id i n : ℕ) (chunk : List ℕ) (m : Chunks)
    → chunk_bytes id n (Maps.put (id, i) chunk m) + (if ltb i n then size_at id i m else 0)
      ≡ chunk_bytes id n m + (if ltb i n then length chunk else 0)
unfolding chunk_bytes
chunk_bytes-put id i zero chunk m = ground arith
chunk_bytes-put id i (suc n) chunk m =
    ground (arith, chunk_bytes-put id i n chunk m, size_at-put id i n chunk m)

-- Chunks that are not there add nothing.
pub chunk_bytes_above :
    (id n k : ℕ) (m : Chunks)
    → ((i : ℕ) → n ≤ i → Maps.get (id, i) m ≡ none)
    → n ≤ k
    → chunk_bytes id k m ≡ chunk_bytes id n m
unfolding chunk_bytes
chunk_bytes_above id n zero m absent h = rw (let e : n ≡ 0 = omega arith in e)
chunk_bytes_above id n (suc k) m absent h = elim (Bool-cases (n == suc k)) [
  | inl top ↦ rw ((==_iff n (suc k)).0 top)
  | inr below ↦
      ground (arith, absent k (ground arith), chunk_bytes_above id n k m absent (ground arith))
]
