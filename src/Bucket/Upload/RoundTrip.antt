-- ===== src/Bucket/Upload/RoundTrip.antt =====
-- The upload of a content and its download by `fs::get_full_chunks` of
-- src/ic_oss_bucket/src/store.rs.
use ic_oss.Bucket.Upload.{write_chunks, chunks_of}
use ic_oss.Bucket.Config.{chunk_size}
use ic_oss.Bucket.Upload.Pieces.{IsPiece, joined, joined-chunks_of, chunks_of-All, length-le-joined}
use ic_oss.Base.{
  ℕ, zero, suc, ◌+◌, ◌%◌, ◌≤◌, ◌<◌, ◌≡◌, refl, sym, ◌∙◌, inl, inr, none, some, List, [], ◌∷◌, ◌++◌,
  arith, Option-cases, length, length-append, All, pos, Result-cases, ok, same_refl, u32_max,
  add_u64, nat_ord, pair_ord,
}
use ic_oss.Base.Maps
use mathlib.Core.List.{append-nil, append_assoc}
use ic_oss.Bucket.Fs.{Chunks, FileMetadata, Store}
use ic_oss.Bucket.Fs.Chunk.{
  full_loop, with_chunk, update_chunk, may_write, write_chunk, get_full_chunks,
}

full_loop-put :
    (n id i k : ℕ) (chunk : List ℕ) (m : Chunks)
    → i + n ≤ k
    → full_loop n id i (Maps.put (id, k) chunk m) ≡ full_loop n id i m
unfolding full_loop
full_loop-put zero id i k chunk m h = refl
full_loop-put (suc n) id i k chunk m h = ground (
  arith,
  Maps.get-put (id, i) (id, k) chunk m,
  full_loop-put n id (i + 1) k chunk m (omega arith),
)

full_loop-snoc :
    (n id i : ℕ) (xs chunk : List ℕ) (m : Chunks)
    → full_loop n id i m ≡ ok xs
    → Maps.get (id, i + n) m ≡ some chunk
    → full_loop (suc n) id i m ≡ ok (xs ++ chunk)
unfolding full_loop
full_loop-snoc zero id i xs chunk m h e =
    let here : Maps.get (id, i) m ≡ some chunk = rw (let z : i + 0 ≡ i = omega arith in z) at e in
    ground (arith, append-nil chunk)
full_loop-snoc (suc n) id i xs chunk m h e = elim (Option-cases (Maps.get (id, i) m)) [
  | inl absent ↦ absurd (ground arith)
  | inr (first, found) ↦ elim (Result-cases (full_loop n id (i + 1) m)) [
    | inr (x, failed) ↦ absurd (ground arith)
    | inl (rest, read) ↦
        let further : full_loop (suc n) id (i + 1) m ≡ ok (rest ++ chunk) =
          full_loop-snoc n id (i + 1) rest chunk m read
            (rw (let z : i + 1 + n ≡ i + suc n = omega arith in z) e) in
        ground (arith, further, append_assoc first rest chunk)
  ]
]

-- The first `i` chunks of the file are `done`, and the file is written no further.
record IsUploaded {V : Type 0} (id i : ℕ) (done : List ℕ) (f : FileMetadata V) (s : Store V)
    : Type 0 where
  found : Maps.get id s.files ≡ some f
  writable : f.status ≡ pos 0
  filled : f.filled ≡ length done
  chunks : f.chunks ≡ i
  read : full_loop i id 0 s.chunks ≡ ok done
  no_more : (j : ℕ) → i ≤ j → Maps.get (id, j) s.chunks ≡ none

module _ {V : Type 0} (id now_ms : ℕ) where
  may_write-ok :
      (i : ℕ) (done chunk : List ℕ) (f : FileMetadata V) (s : Store V)
      → IsUploaded id i done f s
      → IsPiece chunk_size chunk
      → length done + length chunk ≤ f.size
      → f.size ≤ s.bucket.max_file_size
      → f.size ≤ u32_max
      → may_write id chunk (λ _. ok tt) s ≡ ok f
  unfolding may_write
  may_write-ok i done chunk f s up piece fits within small =
      ground (arith, up.found, up.writable, up.filled)

  update_chunk-next :
      (i : ℕ) (done chunk : List ℕ) (f : FileMetadata V) (s : Store V)
      → IsUploaded id i done f s
      → IsPiece chunk_size chunk
      → length done + length chunk ≤ f.size
      → f.size ≤ s.bucket.max_file_size
      → f.size ≤ u32_max
      → i < u32_max
      → (f' : FileMetadata V) × (s' : Store V) × (n : ℕ) × (update_chunk id
            (i % 4294967296)
            now_ms
            chunk
            (λ _. ok tt)
            s
          ≡ (ok n, s'))
        × IsUploaded id (suc i) (done ++ chunk) f' s'
        × (f'.size ≡ f.size)
        × (s'.bucket ≡ s.bucket)
  unfolding with_chunk update_chunk write_chunk
  update_chunk-next i done chunk f s up piece fits within small few =
      let new : Maps.get (id, i) s.chunks ≡ none = up.no_more i (omega arith) in
      let f' : FileMetadata V =
        with_chunk (add_u64 f.filled (length chunk)) i none (record f { updated_at = now_ms }) in
      let s' : Store V = record s {
        chunks = Maps.put (id, i) chunk s.chunks;
        files = Maps.put id f' s.files;
      } in
      (
        f',
        s',
        f'.filled,
        ground (arith, may_write-ok i done chunk f s up piece fits within small, new, up.filled),
        record {
          found = ground (arith, Maps.get-put id id f' s.files, same_refl id);
          writable = up.writable;
          filled = ground (arith, up.filled, length-append done chunk);
          chunks = ground (arith, up.chunks);
          read =
              full_loop-snoc i id 0 done chunk s'.chunks
                (full_loop-put i id 0 i chunk s.chunks (omega arith) ∙ up.read)
                (ground (
                  arith,
                  Maps.get-put (id, i) (id, i) chunk s.chunks,
                  same_refl {K = ℕ × ℕ} (id, i),
                ));
          no_more = λ j h.
              ground
                (arith, Maps.get-put (id, j) (id, i) chunk s.chunks, up.no_more j (omega arith));
        },
        refl,
        refl,
      )

  write_chunks-IsUploaded :
      (pieces : List (List ℕ)) (i : ℕ) (done : List ℕ) (f : FileMetadata V) (s : Store V)
      → IsUploaded id i done f s
      → All (IsPiece chunk_size) pieces
      → length done + length (joined pieces) ≡ f.size
      → f.size ≤ s.bucket.max_file_size
      → f.size ≤ u32_max
      → i + length pieces ≤ u32_max
      → (f' : FileMetadata V) × (s' : Store V) × (write_chunks id i now_ms pieces s ≡ (ok tt, s'))
        × IsUploaded id (i + length pieces) (done ++ joined pieces) f' s'
        × (f'.size ≡ f.size)
  unfolding write_chunks
  write_chunks-IsUploaded [] i done f s up pieces total within small few =
      (f, s, refl, rw (let z : i + 0 ≡ i = omega arith in z) (rw (append-nil done) up), refl)
  write_chunks-IsUploaded (p ∷ ps) i done f s up (piece, pieces) total within small few =
      let (f', s', n, wrote, up', same_size, same_bucket) =
        update_chunk-next i done p f s up piece (omega (arith, length-append p (joined ps))) within
          small (omega arith) in
      let (f2, s2, rest, up2, size2) =
        write_chunks-IsUploaded ps (suc i) (done ++ p) f' s' up' pieces
          (omega (arith, length-append done p, length-append p (joined ps)))
          (ground (arith, same_size, same_bucket)) (omega arith) (omega arith) in
      (
        f2,
        s2,
        ground (arith, wrote, rest),
        rw (let z : i + suc (length ps) ≡ suc i + length ps = omega arith in z)
            (rw (sym (append_assoc done p (joined ps))) up2),
        size2 ∙ same_size,
      )

  get_full_chunks-IsUploaded :
      (n : ℕ) (content : List ℕ) (f : FileMetadata V) (s : Store V)
      → IsUploaded id n content f s
      → f.size ≡ length content
      → length content ≤ u32_max
      → get_full_chunks id s ≡ ok content
  unfolding get_full_chunks
  get_full_chunks-IsUploaded n content f s up total small =
      ground (arith, up.found, up.filled, up.chunks, up.read)

  -- A file that is writable, has nothing uploaded and no chunk stored, and has the size of the
  -- content: writing the content's chunks one after the other succeeds, and the file is then read
  -- back as that content. The size is within the bucket's limit, and a `usize`.
  pub get_full_chunks-write_chunks :
      (content : List ℕ) (f : FileMetadata V) (s : Store V)
      → Maps.get id s.files ≡ some f
      → f.status ≡ pos 0
      → f.filled ≡ 0
      → f.chunks ≡ 0
      → ((j : ℕ) → Maps.get (id, j) s.chunks ≡ none)
      → f.size ≡ length content
      → length content ≤ s.bucket.max_file_size
      → length content ≤ u32_max
      → (s' : Store V) × (write_chunks id 0 now_ms (chunks_of content) s ≡ (ok tt, s'))
        × (get_full_chunks id s' ≡ ok content)
  unfolding full_loop
  get_full_chunks-write_chunks content f s found writable empty unwritten no_chunk size within
        small =
      let whole : joined (chunks_of content) ≡ content = joined-chunks_of content in
      let all_pieces : All (IsPiece chunk_size) (chunks_of content) = chunks_of-All content in
      let count : length (chunks_of content) ≤ length content =
        rw whole at (length-le-joined chunk_size (chunks_of content) all_pieces) in
      let start : IsUploaded id 0 [] f s = record {
        found = found;
        writable = writable;
        filled = empty;
        chunks = unwritten;
        read = refl;
        no_more = λ j h. no_chunk j;
      } in
      let (f', s', wrote, up, same_size) =
        write_chunks-IsUploaded (chunks_of content) 0 [] f s start all_pieces
          (rw whole (omega (arith, size))) (omega arith) (omega arith) (omega arith) in
      (
        s',
        wrote,
        get_full_chunks-IsUploaded (0 + length (chunks_of content)) content f' s' (rw whole at up)
            (same_size ∙ size) small,
      )
