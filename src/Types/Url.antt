-- ===== src/Types/Url.antt =====
-- The parameters of a request for a file: `UrlFileParam` of src/ic_oss_types/src/file.rs. The parts
-- of a URL, hexadecimal and Base64 are packages' work.
use ic_oss.Types.Ids.{Hash}
use ic_oss.Base.{
  ℕ, ◌+◌, ◌-◌, ◌*◌, Bool, true, false, not, ◌&&◌, Option, none, some, List, [], ◌∷◌, ◌++◌, get_or,
  leb, ◌==◌, if◌then◌else◌, length, is_empty, Text, head?, tail, ◌>>=◌, ◌>>◌, fail_if, ok_or,
  map_err, Result, ok, err, same, nat_ord, list_ord, codes,
}

pub record Url : Type 0 where
  pub path_segments : Option (List Text)
  pub query_pairs : List (Text × Text)

pub record UrlPackage : Type 0 where
  pub parse_url : Text → Option Url
  pub hex_decode : Text → Result Text (List ℕ)
  pub base64_decode : Text → Option (List ℕ)

pub data UrlError : Type 0 where
  invalid_url : Text → UrlError
  invalid_url_path : Text → UrlError
  invalid_file_id : UrlError
  invalid_hex : Text → UrlError
  invalid_hash_length : UrlError
  invalid_token_text : Text → UrlError

pub record UrlFileParam : Type 0 where
  pub file : ℕ
  pub hash : Option Hash
  pub token : Option (List ℕ)
  pub name : Option Text
  pub inline : Bool

-- The digits of a number in `u32`, after those of `n`.
unfoldable pub digits_u32 : ℕ → Text → Option ℕ
digits_u32 n [] = some n
digits_u32 n (c ∷ cs) =
    let n' = n * 10 + (c - 48) in
    let rest = digits_u32 n' cs in if leb 48 c && leb c 57 && leb n' 4294967295 then rest else none

-- `text.parse::<u32>()`
unfoldable pub parse_u32 : Text → Option ℕ
parse_u32 [] = none
parse_u32 (c ∷ cs) = elim (c == 43 && not (is_empty cs)) [
  | true ↦ digits_u32 0 cs
  | false ↦ digits_u32 0 (c ∷ cs)
]

abbrev pub starts_with : ℕ → Text → Bool
starts_with c [] = false
starts_with c (x ∷ xs) = x == c

module _ (urls : UrlPackage) where
  -- The parameters that the first two segments of the path give.
  unfoldable pub path_param : Text → List Text → Result UrlError UrlFileParam
  path_param req_url segments = elim (head? segments) [
    | none ↦ err (invalid_url_path req_url)
    | some kind ↦
        let second = get_or (head? (tail segments)) [] in
        elim (same kind (codes "f")) [
          | true ↦ do
            file ← ok_or (parse_u32 second) invalid_file_id
            ok (record { file = file; hash = none; token = none; name = none; inline = false })
          | false ↦ elim (same kind (codes "h")) [
            | true ↦ do
              hash ← map_err invalid_hex (urls.hex_decode second)
              fail_if (not (length hash == 32)) invalid_hash_length
              ok (record { file = 0; hash = some hash; token = none; name = none; inline = false })
            | false ↦ err (invalid_url_path req_url)
          ]
        ]
  ]

  -- The loop over the pairs of the query, up to a token.
  unfoldable pub query_params : List (Text × Text) → UrlFileParam → Result UrlError UrlFileParam
  query_params [] param = ok param
  query_params ((key, value) ∷ pairs) param =
      let next =
        if same key (codes "filename")
        then record param { name = some value }
        else if same key (codes "inline")
        then record param { inline = true }
        else param in
      let rest = query_params pairs next in
      if same key (codes "token")
      then (do
        bytes ← ok_or (urls.base64_decode value) (invalid_token_text value)
        ok (record param { token = some bytes }))
      else rest

  unfoldable pub from_url : Text → Result UrlError UrlFileParam
  from_url req_url = do
    url ←
        ok_or
          (urls.parse_url
            (if starts_with 47 req_url then codes "http://localhost" ++ req_url else req_url))
          (invalid_url req_url)
    segments ← ok_or url.path_segments (invalid_url_path req_url)
    first ← path_param req_url segments
    param ← query_params url.query_pairs first
    elim (head? (tail (tail segments))) [
      | none ↦ ok param
      | some filename ↦ ok (record param { name = some filename })
    ]
