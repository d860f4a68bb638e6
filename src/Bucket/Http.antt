-- ===== src/Bucket/Http.antt =====
-- The HTTP interface of a bucket, src/ic_oss_bucket/src/api_http.rs. The certificate, Base64 and the
-- text of the headers are packages' work; the ranges that the package finds are in order. As in the
-- queries, a walk to the root that does not end is the error `walk_unending`.
use ic_oss.Types.Ids.{Principal}
use ic_oss.Types.Url.{from_url, UrlPackage, UrlError, UrlFileParam}
use ic_oss.Types.FileName.{file_name}
use ic_oss.Bucket.Calls.{Runtime}
use ic_oss.Bucket.Config.{max_file_size_per_call}
use ic_oss.Bucket.Fs.{FileMetadata, Store}
use ic_oss.Bucket.Range.{detect_range, range_bytes, RangePackage, RangeError}
use ic_oss.Bucket.Queries.{
  get_file_id, may_read_chunks, QueryError, file_missing, folder_missing, file_archived,
  no_read_access, query_failed,
}
pub mod Streaming
use ic_oss.Base.Maps
use ic_oss.Base.{
  ℕ, ◌-◌, not, Option, none, some, List, [], ◌∷◌, ◌++◌, map_option, is_some, get_or, leb, ◌==◌,
  if◌then◌else◌, length, is_empty, Text, ok_option, ok, err, same, nat_ord, list_ord, add_u32,
  codes, decimal,
}
use ic_oss.Bucket.Access.{status_code}
use ic_oss.Bucket.Fs.Chunk.{get_chunk, get_full_chunks}

pub record HttpPackage (S : Type 0) : Type 0 where
  pub urls : UrlPackage
  pub ranges : RangePackage S
  pub base64 : List ℕ → Text
  pub certificate : Text → Text
  pub cel_expr : Text
  pub inline_disposition : Text
  pub attachment_disposition : Text → Text
  pub content_range : ℕ × ℕ → ℕ → Text

pub record HttpRequest : Type 0 where
  pub method : Text
  pub url : Text
  pub headers : List (Text × Text)

pub record StreamingCallbackToken : Type 0 where
  pub id : ℕ
  pub chunk_index : ℕ
  pub chunks : ℕ
  pub token : Option (List ℕ)

pub data HttpError : Type 0 where
  bad_url : UrlError → HttpError
  not_served : QueryError → HttpError
  not_uploaded : HttpError
  bad_range : RangeError → HttpError

pub data Body : Type 0 where
  bytes_of : List ℕ → Body
  message : HttpError → Body

pub record HttpStreamingResponse : Type 0 where
  pub status_code : ℕ
  pub headers : List (Text × Text)
  pub body : Body
  pub streaming_strategy : Option StreamingCallbackToken

-- `StreamingCallbackToken::next`
unfoldable pub next_token : StreamingCallbackToken → Option StreamingCallbackToken
next_token t =
    if leb t.chunks (add_u32 t.chunk_index 1)
    then none
    else some (record t { chunk_index = add_u32 t.chunk_index 1 })

-- The status of an error of the access.
abbrev pub query_status : QueryError → ℕ
query_status file_missing = 404
query_status folder_missing = 404
query_status file_archived = 403
query_status (no_read_access e) = status_code e
query_status (query_failed e) = 403

-- `headers[0].1 = value`
abbrev pub set_first : Text → List (Text × Text) → List (Text × Text)
set_first value [] = []
set_first value ((name, old) ∷ headers) = (name, value) ∷ headers

abbrev pub refused : ℕ → List (Text × Text) → HttpError → HttpStreamingResponse
refused status headers e = record {
  status_code = status;
  headers = headers;
  body = message e;
  streaming_strategy = none;
}

abbrev pub cache_control : Text × Text
cache_control = (codes "cache-control", codes "max-age=2592000, public")

-- `"etag"` in quotes, if there is one.
abbrev pub etag_header : Text → List (Text × Text)
etag_header etag = if is_empty etag then [] else (codes "etag", 34 ∷ etag ++ 34 ∷ []) ∷ []

module _ {S : Type 0} (http : HttpPackage S) where
  unfoldable pub content_disposition : Text → Text
  content_disposition filename =
      if is_empty filename
      then http.inline_disposition
      else http.attachment_disposition (get_or (file_name filename) filename)

  abbrev pub base_headers : Text → List (Text × Text)
  base_headers url =
      (codes "content-type", codes "text/plain")
      ∷ (codes "x-content-type-options", codes "nosniff")
      ∷ (codes "ic-certificateexpression", http.cel_expr)
      ∷ (codes "ic-certificate", http.certificate url)
      ∷ []

  abbrev pub disposed : Text → Text × Text
  disposed filename = (codes "content-disposition", content_disposition filename)

module _ {V : Type 0} where
  abbrev pub type_of : FileMetadata V → Text
  type_of file =
      if is_empty file.content_type then codes "application/octet-stream" else file.content_type

  abbrev pub shown_name : UrlFileParam → FileMetadata V → Text
  shown_name param file = if param.inline then [] else get_or param.name file.name

  unfoldable pub http_request_streaming_callback :
      Store V → StreamingCallbackToken → Option (List ℕ × Option StreamingCallbackToken)
  http_request_streaming_callback s t =
      map_option (λ chunk. (chunk.content, next_token t)) (get_chunk t.id t.chunk_index s)

  -- The index and the bytes of the first part of a file: all of a small one, else the first chunk.
  unfoldable pub first_part : ℕ → FileMetadata V → Store V → ℕ × List ℕ
  first_part id file s =
      if leb file.size max_file_size_per_call
      then (file.chunks - 1, get_or (ok_option (get_full_chunks id s)) [])
      else (0, get_or (map_option (λ chunk. chunk.content) (get_chunk id 0 s)) [])

  module _ {S : Type 0} (http : HttpPackage S) where
    abbrev pub etag_of : FileMetadata V → Text
    etag_of file = elim file.hash [ none ↦ [] | some hash ↦ http.base64 hash ]

    abbrev pub file_headers : Text → FileMetadata V → List (Text × Text)
    file_headers url file = set_first (type_of file) (
        base_headers http url
        ++ (codes "accept-ranges", codes "bytes") ∷ etag_header (etag_of file))

    unfoldable pub range_response :
        List (Text × Text) → ℕ → FileMetadata V → ℕ × ℕ → Store V → HttpStreamingResponse
    range_response headers id file range s = elim (range_bytes id range s.chunks) [
      | err e ↦ refused 416 headers (bad_range e)
      | ok content ↦ record {
        status_code = 206;
        headers =
            set_first (type_of file) headers
            ++ disposed http file.name
              ∷ (codes "content-length", decimal (length content))
              ∷ (codes "content-range", http.content_range range file.size)
              ∷ [];
        body = bytes_of content;
        streaming_strategy = none;
      }
    ]

    -- The reply to a `HEAD` request.
    unfoldable pub head_response :
        List (Text × Text) → UrlFileParam → FileMetadata V → HttpStreamingResponse
    head_response headers param file = record {
      status_code = 200;
      headers =
          headers
          ++ (codes "content-length", decimal file.size)
            ∷ cache_control
            ∷ disposed http (shown_name param file)
            ∷ [];
      body = bytes_of [];
      streaming_strategy = none;
    }

    -- The reply with a file that no range is asked of.
    unfoldable pub whole_response :
        List (Text × Text) → UrlFileParam → ℕ → FileMetadata V → Store V → HttpStreamingResponse
    whole_response headers param id file s =
        let part = first_part id file s in
        let strategy =
          next_token
            (record { id = id; chunk_index = part.0; chunks = file.chunks; token = none }) in
        record {
          status_code = 200;
          headers =
              headers
              ++ disposed http (shown_name param file)
                ∷ (if is_some strategy
                    then []
                    else (codes "content-length", decimal (length part.1)) ∷ cache_control ∷ []);
          body = bytes_of part.1;
          streaming_strategy = strategy;
        }

    -- The reply with a file that may be read.
    unfoldable pub served :
        HttpRequest → UrlFileParam → ℕ → FileMetadata V → Store V → HttpStreamingResponse
    served request param id file s =
        let headers = file_headers request.url file in
        if not (file.size == file.filled)
        then refused 422 (base_headers http request.url) not_uploaded
        else if same request.method (codes "HEAD")
        then head_response headers param file
        else elim (detect_range http.ranges request.headers file.size (etag_of file)) [
          | some (err e) ↦ refused 416 headers (bad_range e)
          | some (ok range) ↦ range_response headers id file range s
          | none ↦ whole_response headers param id file s
        ]

    -- The file that the parameters name; a hash that is not there is the file 0.
    abbrev pub requested : UrlFileParam → Store V → ℕ
    requested param s = elim param.hash [
      | some hash ↦ get_or (get_file_id hash s) 0
      | none ↦ param.file
    ]

    unfoldable pub http_request :
        Runtime V → HttpRequest → Principal → ℕ → Store V → HttpStreamingResponse
    http_request runtime request caller time s = elim (from_url http.urls request.url) [
      | err e ↦ refused 400 (base_headers http request.url) (bad_url e)
      | ok param ↦
          let id = requested param s in
          elim (Maps.get id s.files) [
            | none ↦ refused 404 (base_headers http request.url) (not_served file_missing)
            | some file ↦
                elim (may_read_chunks runtime id file
                  (record { caller = caller; time = time; access_token = param.token }) s) [
                    | err e ↦
                        refused (query_status e) (base_headers http request.url) (not_served e)
                    | ok _ ↦ served request param id file s
                  ]
          ]
    ]
