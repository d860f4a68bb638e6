-- ===== src/Tests/Http.antt =====
-- Runs of the HTTP interface of a bucket, and its theorems at concrete inputs.
use ic_oss.Bucket.Fs.Chunk.{get_chunk}
use ic_oss.Types.Url.{UrlFileParam}
use ic_oss.Bucket.Config.{default_bucket}
use ic_oss.Bucket.Fs.{Chunks, FileMetadata, Store}
use ic_oss.Bucket.Http.Streaming.{whole_response-download, download, followed}
use ic_oss.Bucket.Range.Reading.{range_bytes-read_bytes}
use ic_oss.Bucket.Range.Bounded.{IsSatisfiable, IsBounded, detect_range-IsBounded}
use ic_oss.Bucket.Range.Bytes.{read_bytes}
use ic_oss.Base.{
  ℕ, ◌≡◌, refl, inl, inr, true, ◌&&◌, none, some, [], ◌∷◌, arith, ltb, leb, if◌then◌else◌,
  Bool-cases, pos, ok_option, ok, err, list_cmp, codes,
}
use ic_oss.Base.Maps
use ic_oss.Bucket.Range
use ic_oss.Bucket.Http
use ic_oss.Bucket.Fs.Chunk
use ic_oss.Bucket.Fs.Run.{fresh}
use ic_oss.Bucket.Range.{bytes, range_bytes, IfRange, RangePackage}
use ic_oss.Bucket.Http.{whole_response, HttpPackage}

-- A package that reads every header as a range from 1 to 2.
abbrev test_ranges : RangePackage (ℕ × ℕ)
test_ranges = record {
  parse_range = λ value. ok (bytes ((1, 2) ∷ []));
  parse_if_range = λ value. ok (IfRange.entity_tag value);
  to_satisfiable_range =
      λ spec full_length. if leb spec.0 spec.1 && ltb spec.1 full_length then some spec else none;
}

abbrev test_http : HttpPackage (ℕ × ℕ)
test_http = record {
  urls = record {
    parse_url = λ url. none;
    hex_decode = λ value. err value;
    base64_decode = λ value. none;
  };
  ranges = test_ranges;
  base64 = λ hash. hash;
  certificate = λ url. url;
  cel_expr = [];
  inline_disposition = codes "inline";
  attachment_disposition = λ name. name;
  content_range = λ range size. [];
}

abbrev parts : Chunks
parts = ((1, 0), 10 ∷ 20 ∷ 30 ∷ 40 ∷ []) ∷ []

test_ranges-IsSatisfiable : IsSatisfiable test_ranges
test_ranges-IsSatisfiable (low, high) full_length from to h =
    elim (Bool-cases (leb low high && ltb high full_length)) [
      | inl b ↦ (ground (arith, b, h), ground (arith, b, h))
      | inr b ↦ absurd (ground (arith, b, h))
    ]

range_bytes-read_bytes_example : ok_option (range_bytes 1 (1, 2) parts) ≡ read_bytes 1 parts 2 1
range_bytes-read_bytes_example = range_bytes-read_bytes 1 1 2 parts (omega arith) (omega arith)

range_is_read : range_bytes 1 (1, 2) parts ≡ ok (20 ∷ 30 ∷ [])
unfolding range_bytes Range.range_loop Maps.get Range.subslice
range_is_read = refl

detect_range-IsBounded_example : IsBounded 4 (1, 2)
unfolding Range.detect_range Range.find_header list_cmp Range.one_range Range.if_range Range.capped
detect_range-IsBounded_example =
    detect_range-IsBounded test_ranges test_ranges-IsSatisfiable
      ((codes "Range", codes "bytes=1-2") ∷ []) 4 [] (1, 2) (omega arith) refl

-- A file of two chunks that are given in two calls.
abbrev large_file : FileMetadata ℕ
large_file = record {
  parent = 0;
  name = codes "a.txt";
  content_type = codes "text/plain";
  size = 5;
  filled = 5;
  created_at = 1;
  updated_at = 1;
  chunks = 2;
  status = pos 0;
  hash = none;
  dek = none;
  custom = none;
  ex = none;
}

abbrev with_file : Store ℕ
with_file = record (fresh {V = ℕ} default_bucket) {
  files = (1, large_file) ∷ [];
  chunks = ((1, 0), 10 ∷ 20 ∷ 30 ∷ 40 ∷ []) ∷ ((1, 1), 50 ∷ []) ∷ [];
}

abbrev no_params : UrlFileParam
no_params = record { file = 1; hash = none; token = none; name = none; inline = true }

whole_response-download_example :
    download 1 with_file (whole_response test_http [] no_params 1 large_file with_file)
    ≡ some (10 ∷ 20 ∷ 30 ∷ 40 ∷ 50 ∷ [])
unfolding Maps.get Chunk.get_full_chunks Chunk.full_loop
whole_response-download_example =
    whole_response-download 1 large_file with_file (10 ∷ 20 ∷ 30 ∷ 40 ∷ 50 ∷ []) refl refl test_http
      [] no_params (omega arith) (omega arith)

second_part_follows :
    followed 1 with_file (some (record { id = 1; chunk_index = 1; chunks = 2; token = none }))
    ≡ some (50 ∷ [])
unfolding followed Http.http_request_streaming_callback get_chunk Maps.get Http.next_token
second_part_follows = refl
