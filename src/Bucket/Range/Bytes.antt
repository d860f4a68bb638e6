-- ===== src/Bucket/Range/Bytes.antt =====
-- The bytes of a file whose chunks are full, read one by one: the description that the ranges of
-- src/ic_oss_bucket/src/api_http.rs are compared with.
use ic_oss.Bucket.Config.{chunk_size}
use ic_oss.Bucket.Fs.{Chunks}
use ic_oss.Base.{
  ℕ, zero, suc, ◌+◌, ◌*◌, ◌/◌, ◌%◌, ◌≤◌, ◌<◌, ◌≡◌, refl, sym, ap, ◌∙◌, inl, inr, Option, none, some,
  List, [], ◌∷◌, ◌++◌, arith, map_option, get_or, Option-cases, length, get_elem?, nat_ord,
  pair_ord,
}
use ic_oss.Base.Maps
use ic_oss.Bucket.Range.{subslice}

-- The byte at a position of a file whose chunks are full.
abbrev pub byte_at : ℕ → Chunks → ℕ → Option ℕ
byte_at id m place = elim (Maps.get (id, place / chunk_size) m) [
  | none ↦ none
  | some chunk ↦ get_elem? (place % chunk_size) chunk
]

-- So many bytes from a position on, if all are there.
unfoldable pub read_bytes : ℕ → Chunks → ℕ → ℕ → Option (List ℕ)
read_bytes id m zero place = some []
read_bytes id m (suc count) place = elim (byte_at id m place) [
  | none ↦ none
  | some byte ↦ map_option (◌∷◌ byte) (read_bytes id m count (place + 1))
]

pub get_elem?-short : (n : ℕ) (xs : List ℕ) → length xs ≤ n → get_elem? n xs ≡ none
get_elem?-short n [] h = refl
get_elem?-short zero (x ∷ xs) h = absurd (omega arith)
get_elem?-short (suc n) (x ∷ xs) h = get_elem?-short n xs (omega arith)

subslice-next :
    (start count : ℕ) (xs : List ℕ)
    → start < length xs
    → (x : ℕ) × (get_elem? start xs ≡ some x)
      × (subslice start (suc count) xs ≡ x ∷ subslice (suc start) count xs)
unfolding subslice
subslice-next start count [] h = absurd (omega arith)
subslice-next zero count (x ∷ xs) h = (x, refl, refl)
subslice-next (suc start) count (x ∷ xs) h = subslice-next start count xs (omega arith)

subslice-zero : (start : ℕ) (xs : List ℕ) → subslice start 0 xs ≡ []
unfolding subslice
subslice-zero start [] = refl
subslice-zero zero (x ∷ xs) = refl
subslice-zero (suc start) (x ∷ xs) = subslice-zero start xs

-- A position in the chunk `i`.
position :
    (i n : ℕ) → n < 262144 → ((i * 262144 + n) / 262144 ≡ i) × ((i * 262144 + n) % 262144 ≡ n)
position i n h = (omega arith, omega arith)

-- The bytes, and then those of a reading.
abbrev pub after : List ℕ → Option (List ℕ) → Option (List ℕ)
after xs o = map_option (λ ys. xs ++ ys) o

after-empty : (o : Option (List ℕ)) → o ≡ after [] o
after-empty none = refl
after-empty (some xs) = refl

after-next :
    (x : ℕ) (xs : List ℕ) (o : Option (List ℕ)) → map_option (◌∷◌ x) (after xs o) ≡ after (x ∷ xs) o
after-next x xs none = refl
after-next x xs (some ys) = refl

module _ (id : ℕ) (m : Chunks) where
  abbrev pub chunk_at : ℕ → List ℕ
  chunk_at i = get_or (Maps.get (id, i) m) []

  byte_at-eq :
      (place : ℕ) → byte_at id m place ≡ get_elem? (place % 262144) (chunk_at (place / 262144))
  byte_at-eq place = elim (Option-cases (Maps.get (id, place / 262144) m)) [
    | inl e ↦ ground (arith, e)
    | inr (chunk, e) ↦ ground (arith, e)
  ]

  pub byte_at-chunk_at :
      (i n : ℕ) → n < 262144 → byte_at id m (i * 262144 + n) ≡ get_elem? n (chunk_at i)
  byte_at-chunk_at i n h =
      byte_at-eq (i * 262144 + n)
      ∙ ap (λ k. get_elem? k (chunk_at ((i * 262144 + n) / 262144))) (position i n h).1
      ∙ ap (λ k. get_elem? n (chunk_at k)) (position i n h).0

  pub read_bytes-none :
      (count place j : ℕ)
      → j < count
      → byte_at id m (place + j) ≡ none
      → read_bytes id m count place ≡ none
  unfolding read_bytes
  read_bytes-none zero place j h e = absurd (omega arith)
  read_bytes-none (suc count) place zero h e =
      ground (arith, rw (let z : place + 0 ≡ place = omega arith in z) at e)
  read_bytes-none (suc count) place (suc j) h e =
      let rest =
        read_bytes-none count (place + 1) j (omega arith)
          (rw (let z : place + suc j ≡ place + 1 + j = omega arith in z) at e) in
      elim (Option-cases (byte_at id m place)) [
        | inl h' ↦ ground (arith, h')
        | inr (x, h') ↦ ground (arith, h', rest)
      ]

  read_bytes-next :
      (count place x : ℕ)
      → byte_at id m place ≡ some x
      → read_bytes id m (suc count) place ≡ map_option (◌∷◌ x) (read_bytes id m count (place + 1))
  unfolding read_bytes
  read_bytes-next count place x h = ground (arith, h)

  pub read_bytes-chunk :
      (i n k count : ℕ)
      → n + k ≤ length (chunk_at i)
      → n + k ≤ 262144
      → read_bytes id m (k + count) (i * 262144 + n)
        ≡ after (subslice n k (chunk_at i)) (read_bytes id m count (i * 262144 + n + k))
  unfolding read_bytes
  read_bytes-chunk i n zero count h1 h2 =
      rw
        (
          let z : 0 + count ≡ count = omega arith in z,
          let z : i * 262144 + n + 0 ≡ i * 262144 + n = omega arith in z,
          subslice-zero n (chunk_at i),
        )
        (after-empty (read_bytes id m count (i * 262144 + n)))
  read_bytes-chunk i n (suc k) count h1 h2 =
      let (x, e1, e2) = subslice-next n k (chunk_at i) (omega arith) in
      let here : byte_at id m (i * 262144 + n) ≡ some x = byte_at-chunk_at i n (omega arith) ∙ e1 in
      let ih = read_bytes-chunk i (suc n) k count (omega arith) (omega arith) in
      let rest : read_bytes id m (k + count) (i * 262144 + n + 1)
          ≡ after (subslice (suc n) k (chunk_at i))
              (read_bytes id m count (i * 262144 + n + suc k)) =
        rw
          (
            let z : i * 262144 + suc n ≡ i * 262144 + n + 1 = omega arith in z,
            let z : i * 262144 + n + 1 + k ≡ i * 262144 + n + suc k = omega arith in z,
          )
          at ih in
      ap (λ c. read_bytes id m c (i * 262144 + n))
        (let z : suc k + count ≡ suc (k + count) = omega arith in z)
      ∙ read_bytes-next (k + count) (i * 262144 + n) x here
      ∙ ap (map_option (◌∷◌ x)) rest
      ∙ after-next x (subslice (suc n) k (chunk_at i))
          (read_bytes id m count (i * 262144 + n + suc k))
      ∙ ap (λ xs. after xs (read_bytes id m count (i * 262144 + n + suc k))) (sym e2)
