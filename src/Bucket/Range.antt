-- ===== src/Bucket/Range.antt =====
-- The ranges of a file that the HTTP interface of a bucket serves: `detect_range` and the loop of
-- `range_response` in src/ic_oss_bucket/src/api_http.rs. Reading the headers is the package's work
-- (hyperx), and so is the range that a specification selects.
pub mod Bounded
pub mod Bytes
pub mod Reading
use ic_oss.Base.{
  ℕ, zero, suc, ◌+◌, ◌-◌, ◌/◌, ◌%◌, ◌&&◌, Option, none, some, List, [], ◌∷◌, ◌++◌, map, get_or, ltb,
  leb, ◌==◌, if◌then◌else◌, length, Text, ◌>>=◌, ◌>>◌, ok_or, Result, ok, err, same, nat_ord,
  pair_ord, list_ord, add_u64, codes,
}
use ic_oss.Bucket.Config.{max_file_size_per_call, chunk_size}
use ic_oss.Bucket.Fs.{Chunks}
use ic_oss.Base.Maps

-- `Range` of hyperx, where `S` is one specification of a range of bytes.
pub data RangeHeader (S : Type 0) : Type 0 where
  bytes : List S → RangeHeader S
  unregistered : RangeHeader S

-- `IfRange` of hyperx, with the tag of an entity tag.
pub data IfRange : Type 0 where
  date : IfRange
  entity_tag : Text → IfRange

pub record RangePackage (S : Type 0) : Type 0 where
  pub parse_range : Text → Result Text (RangeHeader S)
  pub parse_if_range : Text → Result Text IfRange
  pub to_satisfiable_range : S → ℕ → Option (ℕ × ℕ)

pub data RangeError : Type 0 where
  header_error : Text → RangeError
  custom_range : RangeError
  multiple_ranges : RangeError
  out_of_range : RangeError
  if_range_date : RangeError
  etag_not_match : RangeError
  range_at_chunk : ℕ → RangeError

-- A letter of ASCII in lower case. No other character has a lower case among the letters of the
-- names that are looked for.
abbrev pub lower : ℕ → ℕ
lower c = if leb 65 c && leb c 90 then c + 32 else c

-- The value of the first header with a name in lower case.
unfoldable pub find_header : Text → List (Text × Text) → Option Text
find_header name [] = none
find_header name ((key, value) ∷ headers) =
    let rest = find_header name headers in if same (map lower key) name then some value else rest

-- The range in at most so many bytes as a call returns, computed in `u64`.
unfoldable pub capped : ℕ × ℕ → ℕ × ℕ
capped (from, to) =
    if ltb max_file_size_per_call
      ((add_u64 to 1 + (18446744073709551616 - from)) % 18446744073709551616)
    then (from, add_u64 from (max_file_size_per_call - 1))
    else (from, to)

-- The slice `chunk[start..=end]` of a chunk that is longer than `end`.
unfoldable pub subslice : ℕ → ℕ → List ℕ → List ℕ
subslice start count [] = []
subslice zero zero (x ∷ xs) = []
subslice zero (suc count) (x ∷ xs) = x ∷ subslice zero count xs
subslice (suc start) count (x ∷ xs) = subslice start count xs

module _ {S : Type 0} (hyper : RangePackage S) where
  -- The range if the header `if-range` is there and has the entity tag.
  unfoldable pub if_range : List (Text × Text) → Text → ℕ × ℕ → Result RangeError (ℕ × ℕ)
  if_range headers etag range = elim (find_header (codes "if-range") headers) [
    | none ↦ ok range
    | some value ↦ elim (hyper.parse_if_range value) [
      | err e ↦ err (header_error e)
      | ok date ↦ err if_range_date
      | ok (entity_tag tag) ↦ if same tag etag then ok range else err etag_not_match
    ]
  ]

  unfoldable pub one_range : List (Text × Text) → ℕ → Text → List S → Result RangeError (ℕ × ℕ)
  one_range headers full_length etag [] = err multiple_ranges
  one_range headers full_length etag (spec ∷ _ ∷ _) = err multiple_ranges
  one_range headers full_length etag (spec ∷ []) = do
    range ← ok_or (hyper.to_satisfiable_range spec full_length) out_of_range
    if_range headers etag (capped range)

  unfoldable pub detect_range : List (Text × Text) → ℕ → Text → Option (Result RangeError (ℕ × ℕ))
  detect_range headers full_length etag = elim (find_header (codes "range") headers) [
    | none ↦ none
    | some value ↦ some (elim (hyper.parse_range value) [
      | err e ↦ err (header_error e)
      | ok unregistered ↦ err custom_range
      | ok (bytes specs) ↦ one_range headers full_length etag specs
    ])
  ]

-- The loop of `range_response`: `rounds` chunks from `i` on, between an offset in the first chunk
-- and one in the last.
module _ (id chunk_index chunk_offset chunk_end end_offset : ℕ) (m : Chunks) where
  abbrev pub first_in : ℕ → ℕ
  first_in i = if i == chunk_index then chunk_offset else 0

  abbrev pub last_in : ℕ → ℕ
  last_in i = if i == chunk_end then end_offset else chunk_size - 1

  unfoldable pub range_loop : ℕ → ℕ → Result RangeError (List ℕ)
  range_loop zero i = ok []
  range_loop (suc rounds) i =
      let chunk = get_or (Maps.get (id, i % 4294967296) m) [] in
      let rest = range_loop rounds (i + 1) in
      if leb (length chunk) (last_in i) then err (range_at_chunk i) else elim rest [
        | err e ↦ err e
        | ok more ↦ ok (subslice (first_in i) (last_in i + 1 - first_in i) chunk ++ more)
      ]

-- The bytes of the range from `start` to `end`, which is not before it.
unfoldable pub range_bytes : ℕ → ℕ × ℕ → Chunks → Result RangeError (List ℕ)
range_bytes id (start, end) m =
    range_loop id (start / chunk_size) (start % chunk_size) (end / chunk_size) (end % chunk_size) m
      (end / chunk_size + 1 - start / chunk_size) (start / chunk_size)
