-- ===== src/Bucket/Range/Reading.antt =====
-- The bytes that the loop of `range_response` in src/ic_oss_bucket/src/api_http.rs returns are those
-- that one finds one by one.
use ic_oss.Bucket.Range.Bytes.{
  read_bytes, get_elem?-short, chunk_at, byte_at-chunk_at, read_bytes-none, read_bytes-chunk,
  byte_at, after,
}
use ic_oss.Bucket.Fs.{Chunks}
use ic_oss.Base.{
  ℕ, zero, suc, ◌+◌, ◌-◌, ◌*◌, ◌/◌, ◌%◌, ◌≤◌, ◌<◌, ◌≡◌, sym, ap, ◌∙◌, inl, inr, none, List, arith,
  leb, ◌==◌, Bool-cases, length, Result-cases, ok_option, Result,
}
use ic_oss.Bucket.Range.{subslice, first_in, last_in, range_loop, RangeError, range_bytes}

-- The loop of the range from `ci * 262144 + co` to `ce * 262144 + eo`.
module _ (id ci co ce eo : ℕ) (m : Chunks) (first : co < 262144) (last : eo < 262144)
    (ordered : ci * 262144 + co ≤ ce * 262144 + eo) (small : ce < 4294967296) where
  first_in-last_in :
      (i : ℕ)
      → ci ≤ i
      → i ≤ ce
      → (first_in id ci co ce eo m i ≤ last_in id ci co ce eo m i)
        × (last_in id ci co ce eo m i < 262144)
        × (first_in id ci co ce eo m (i + 1) ≡ 0)
        × ((i ≡ ce) → last_in id ci co ce eo m i ≡ eo)
        × (i < ce → last_in id ci co ce eo m i ≡ 262143)
  first_in-last_in i h1 h2 =
      (ground arith, ground arith, ground arith, λ e. ground (arith, e), λ h. ground (arith, h))

  abbrev loop : ℕ → ℕ → Result RangeError (List ℕ)
  loop = range_loop id ci co ce eo m

  abbrev place_of : ℕ → ℕ
  place_of i = i * 262144 + first_in id ci co ce eo m i

  abbrev left : ℕ → ℕ
  left i = ce * 262144 + eo + 1 - place_of i

  -- The sum of the bytes of a chunk and of those after it.
  count_of : ℕ → ℕ
  count_of i = last_in id ci co ce eo m i + 1 - first_in id ci co ce eo m i

  left-split : (i : ℕ) → ci ≤ i → i ≤ ce → count_of i + left (i + 1) ≡ left i
  unfolding count_of
  left-split i h1 h2 =
      let (low, below, next, at_end, inside) = first_in-last_in i h1 h2 in
      elim (Bool-cases (i == ce)) [
        | inl h ↦ omega (
          arith,
          at_end (ground (arith, h)),
          low,
          next,
          (let z : i ≡ ce = ground (arith, h) in z),
        )
        | inr h ↦ omega (
          arith,
          inside (ground (arith, h)),
          low,
          next,
          (let z : i < ce = ground (arith, h) in z),
        )
      ]

  read_bytes-next_chunk :
      (i : ℕ)
      → ci ≤ i
      → i ≤ ce
      → read_bytes id m (left (i + 1)) (place_of (i + 1))
        ≡ read_bytes id m (left (i + 1)) (place_of i + count_of i)
  unfolding count_of read_bytes
  read_bytes-next_chunk i h1 h2 =
      let (low, below, next, at_end, inside) = first_in-last_in i h1 h2 in
      elim (Bool-cases (i == ce)) [
        | inl h ↦
            let e : left (i + 1) ≡ 0 =
              omega (arith, next, (let z : i ≡ ce = ground (arith, h) in z)) in
            ap (λ c. read_bytes id m c (place_of (i + 1))) e
            ∙ sym (ap (λ c. read_bytes id m c (place_of i + count_of i)) e)
        | inr h ↦
            ap (read_bytes id m (left (i + 1)))
              (omega (arith, inside (ground (arith, h)), low, next))
      ]

  loop-short :
      (rounds i : ℕ)
      → ci ≤ i
      → i ≤ ce
      → length (chunk_at id m i) ≤ last_in id ci co ce eo m i
      → ok_option (loop (suc rounds) i) ≡ read_bytes id m (left i) (place_of i)
  unfolding range_loop count_of
  loop-short rounds i h1 h2 short =
      let (low, below, next, at_end, inside) = first_in-last_in i h1 h2 in
      let there : place_of i + (last_in id ci co ce eo m i - first_in id ci co ce eo m i)
          ≡ i * 262144 + last_in id ci co ce eo m i =
        omega (arith, low) in
      let missing : byte_at id m
            (place_of i + (last_in id ci co ce eo m i - first_in id ci co ce eo m i))
          ≡ none =
        ap (byte_at id m) there
        ∙ byte_at-chunk_at id m i (last_in id ci co ce eo m i) below
        ∙ get_elem?-short (last_in id ci co ce eo m i) (chunk_at id m i) short in
      let here : i % 4294967296 ≡ i = omega arith in
      let stops : ok_option (loop (suc rounds) i) ≡ none = ground (arith, here, short) in
      stops
      ∙ sym (
          read_bytes-none id m (left i) (place_of i)
            (last_in id ci co ce eo m i - first_in id ci co ce eo m i)
            (omega
              (arith, low, left-split i h1 h2, (let z : 0 < count_of i = omega (arith, low) in z)))
            missing)

  loop-next :
      (rounds i : ℕ)
      → i ≤ ce
      → last_in id ci co ce eo m i < length (chunk_at id m i)
      → ok_option (loop (suc rounds) i)
        ≡ after
            (subslice (first_in id ci co ce eo m i) (count_of i) (chunk_at id m i))
            (ok_option (loop rounds (i + 1)))
  unfolding range_loop count_of
  loop-next rounds i h2 long =
      let here : i % 4294967296 ≡ i = omega arith in
      elim (Result-cases (loop rounds (i + 1))) [
        | inl (more, e) ↦ ground (arith, here, long, e)
        | inr (x, e) ↦ ground (arith, here, long, e)
      ]

  loop-read_bytes :
      (rounds i : ℕ)
      → ci ≤ i
      → i + rounds ≡ ce + 1
      → ok_option (loop rounds i) ≡ read_bytes id m (left i) (place_of i)
  unfolding range_loop read_bytes count_of
  loop-read_bytes zero i h1 h2 =
      sym (ap (λ c. read_bytes id m c (place_of i)) (let z : left i ≡ 0 = ground arith in z))
  loop-read_bytes (suc rounds) i h1 h2 =
      elim (Bool-cases (leb (length (chunk_at id m i)) (last_in id ci co ce eo m i))) [
        | inl short ↦ loop-short rounds i h1 (omega arith) (ground (arith, short))
        | inr long ↦
            let (low, below, next, at_end, inside) = first_in-last_in i h1 (omega arith) in
            let enough : last_in id ci co ce eo m i < length (chunk_at id m i) =
              ground (arith, long) in
            let chunk = subslice (first_in id ci co ce eo m i) (count_of i) (chunk_at id m i) in
            loop-next rounds i (omega arith) enough
            ∙ ap (after chunk) (loop-read_bytes rounds (i + 1) (omega arith) (omega arith))
            ∙ ap (after chunk) (read_bytes-next_chunk i h1 (omega arith))
            ∙ sym (
                read_bytes-chunk id m i (first_in id ci co ce eo m i) (count_of i) (left (i + 1))
                  (omega (arith, enough, low)) (omega (arith, below, low)))
            ∙ ap (λ c. read_bytes id m c (place_of i)) (left-split i h1 (omega arith))
      ]

  starts : place_of ci ≡ ci * 262144 + co
  starts = ground arith

-- The range from `start` to `end` is read as its bytes are one by one, where a position has its chunk
-- in `u32`; it fails exactly if one of them is not there.
pub range_bytes-read_bytes :
    (id start end : ℕ) (m : Chunks)
    → start ≤ end
    → end < 1125899906842624
    → ok_option (range_bytes id (start, end) m) ≡ read_bytes id m (end + 1 - start) start
unfolding range_bytes
range_bytes-read_bytes id start end m h1 h2 =
    let ci = start / 262144 in
    let co = start % 262144 in
    let ce = end / 262144 in
    let eo = end % 262144 in
    let first : co < 262144 = omega arith in
    let last : eo < 262144 = omega arith in
    let ordered : ci * 262144 + co ≤ ce * 262144 + eo = omega arith in
    let small : ce < 4294967296 = omega arith in
    let at_start : place_of id ci co ce eo m first last ordered small ci ≡ start =
      starts id ci co ce eo m first last ordered small ∙ omega arith in
    let all : left id ci co ce eo m first last ordered small ci ≡ end + 1 - start =
      ap (λ p. ce * 262144 + eo + 1 - p) at_start ∙ omega arith in
    loop-read_bytes id ci co ce eo m first last ordered small (ce + 1 - ci) ci (omega arith)
      (omega arith)
    ∙ ap (λ n. read_bytes id m n (place_of id ci co ce eo m first last ordered small ci)) all
    ∙ ap (read_bytes id m (end + 1 - start)) at_start
