-- ===== src/Bucket/Range/Bounded.antt =====
-- The range that `detect_range` of src/ic_oss_bucket/src/api_http.rs finds lies in the file.
use ic_oss.Bucket.Config.{max_file_size_per_call}
use ic_oss.Base.{
  ℕ, ◌+◌, ◌-◌, ◌%◌, ◌≤◌, ◌<◌, ◌≡◌, inl, inr, some, List, [], ◌∷◌, arith, ltb, Bool-cases,
  Option-cases, Text, Result-cases, ok, same, nat_ord, list_ord, add_u64, codes,
}
use ic_oss.Bucket.Range.{
  capped, RangePackage, find_header, if_range, one_range, detect_range, bytes, unregistered, date,
  entity_tag,
}

-- A range in order, in the file, and of at most as many bytes as one reply holds.
abbrev pub IsBounded : ℕ → ℕ × ℕ → Type 0
IsBounded full_length (from, to) =
    (from ≤ to) × (to < full_length) × (to < from + max_file_size_per_call)

module _ {S : Type 0} (hyper : RangePackage S) where
  -- A satisfiable range is in order and in the file.
  abbrev pub IsSatisfiable : Type 0
  IsSatisfiable =
      (spec : S) (full_length from to : ℕ)
      → hyper.to_satisfiable_range spec full_length ≡ some (from, to)
      → (from ≤ to) × (to < full_length)

  capped-bounds :
      (full_length from to : ℕ)
      → from ≤ to
      → to < full_length
      → full_length < 18446744073709551616
      → IsBounded full_length (capped (from, to))
  unfolding capped
  capped-bounds full_length from to h1 h2 h3 =
      let size : (add_u64 to 1 + (18446744073709551616 - from)) % 18446744073709551616
          ≡ to + 1 - from =
        omega arith in
      rw (size) elim (Bool-cases (ltb 2048000 (to + 1 - from))) [
        | inl b ↦
            let end : (from + 2047999) % 18446744073709551616 ≡ from + 2047999 =
              ground (arith, b) in
            rw (b, end) (ground arith, ground (arith, b), ground arith)
        | inr b ↦ rw (b) (h1, h2, ground (arith, b))
      ]

  if_range-eq :
      (headers : List (Text × Text)) (etag : Text) (range found : ℕ × ℕ)
      → if_range hyper headers etag range ≡ ok found
      → found ≡ range
  unfolding if_range
  if_range-eq headers etag range found h =
      elim (Option-cases (find_header (codes "if-range") headers)) [
        | inl e ↦ ground (arith, h, e)
        | inr (value, e) ↦ elim (Result-cases (hyper.parse_if_range value)) [
          | inr (x, r) ↦ absurd (ground (arith, h, e, r))
          | inl (date, r) ↦ absurd (ground (arith, h, e, r))
          | inl (entity_tag tag, r) ↦ elim (Bool-cases (same tag etag)) [
            | inl b ↦ ground (arith, h, e, r, b)
            | inr b ↦ absurd (ground (arith, h, e, r, b))
          ]
        ]
      ]

  one_range-bounds :
      IsSatisfiable
      → (headers : List (Text × Text)) (full_length : ℕ) (etag : Text) (specs : List S)
        (range : ℕ × ℕ)
      → full_length < 18446744073709551616
      → one_range hyper headers full_length etag specs ≡ ok range
      → IsBounded full_length range
  unfolding one_range
  one_range-bounds sat headers full_length etag [] range small h = absurd (ground (arith, h))
  one_range-bounds sat headers full_length etag (spec ∷ other ∷ specs) range small h =
      absurd (ground (arith, h))
  one_range-bounds sat headers full_length etag (spec ∷ []) range small h =
      elim (Option-cases (hyper.to_satisfiable_range spec full_length)) [
        | inl e ↦ absurd (ground (arith, h, e))
        | inr ((from, to), e) ↦
            let bounds = sat spec full_length from to e in
            let found : range ≡ capped (from, to) =
              if_range-eq headers etag (capped (from, to)) range (ground (arith, h, e)) in
            rw (found) (capped-bounds full_length from to bounds.0 bounds.1 small)
      ]

  -- A range that is found is in order, lies in the file, and has at most as many bytes as one reply
  -- holds, where the package finds ranges in order and in the file, and the file's size is in `u64`.
  pub detect_range-IsBounded :
      IsSatisfiable
      → (headers : List (Text × Text)) (full_length : ℕ) (etag : Text) (range : ℕ × ℕ)
      → full_length < 18446744073709551616
      → detect_range hyper headers full_length etag ≡ some (ok range)
      → IsBounded full_length range
  unfolding detect_range
  detect_range-IsBounded sat headers full_length etag range small h =
      elim (Option-cases (find_header (codes "range") headers)) [
        | inl e ↦ absurd (ground (arith, h, e))
        | inr (value, e) ↦ elim (Result-cases (hyper.parse_range value)) [
          | inr (x, r) ↦ absurd (ground (arith, h, e, r))
          | inl (unregistered, r) ↦ absurd (ground (arith, h, e, r))
          | inl (bytes specs, r) ↦
              one_range-bounds sat headers full_length etag specs range small
                (ground (arith, h, e, r))
        ]
      ]
