-- ===== src/Bucket/Http/Streaming.antt =====
-- What a client gets that follows the streaming of src/ic_oss_bucket/src/api_http.rs.
use mathlib.Core.List.{append-nil}
use ic_oss.Types.Url.{UrlFileParam}
use ic_oss.Bucket.Config.{max_file_size_per_call}
use ic_oss.Bucket.Fs.{Store, FileMetadata, Chunks}
use ic_oss.Bucket.Fs.Chunk.{full_loop, get_chunk, get_full_chunks}
use ic_oss.Base.{
  ℕ, zero, suc, ◌+◌, ◌-◌, ◌%◌, ◌<◌, ◌≡◌, refl, sym, ap, ◌∙◌, inl, inr, true, false, Option, none,
  some, List, [], ◌++◌, arith, map_option, leb, Bool-cases, Option-cases, Text, Result-cases, ok,
  nat_ord, pair_ord,
}
use ic_oss.Base.Maps
use ic_oss.Bucket.Http.{
  bytes_of, message, next_token, http_request_streaming_callback, StreamingCallbackToken,
  HttpStreamingResponse, first_part, whole_response, HttpPackage,
}

full_loop-first :
    (n id i : ℕ) (m : Chunks) (content : List ℕ)
    → full_loop (suc n) id i m ≡ ok content
    → (chunk : List ℕ) × (rest : List ℕ) × (Maps.get (id, i) m ≡ some chunk)
      × (full_loop n id (i + 1) m ≡ ok rest)
      × (content ≡ chunk ++ rest)
unfolding full_loop
full_loop-first n id i m content e = elim (Option-cases (Maps.get (id, i) m)) [
  | inl a ↦ absurd (ground (arith, a, e))
  | inr (chunk, a) ↦ elim (Result-cases (full_loop n id (i + 1) m)) [
    | inr (x, r) ↦ absurd (ground (arith, a, e, r))
    | inl (rest, r) ↦ (chunk, rest, a, r, ground (arith, a, e, r))
  ]
]

module _ {V : Type 0} where
  -- The bytes of the reply to a token and of those to the tokens that the replies hold; `none` if
  -- there is no end after so many calls, or if one of them traps.
  unfoldable pub followed : ℕ → Store V → Option StreamingCallbackToken → Option (List ℕ)
  followed calls s none = some []
  followed zero s (some t) = none
  followed (suc calls) s (some t) = elim (http_request_streaming_callback s t) [
    | none ↦ none
    | some (content, next) ↦ map_option (λ rest. content ++ rest) (followed calls s next)
  ]

  -- The bytes of a response and of what follows it.
  unfoldable pub download : ℕ → Store V → HttpStreamingResponse → Option (List ℕ)
  download calls s response = elim response.body [
    | message e ↦ none
    | bytes_of content ↦
        map_option (λ rest. content ++ rest) (followed calls s response.streaming_strategy)
  ]

  module _ (s : Store V) (id chunks : ℕ) (small : chunks < 4294967296) where
    abbrev token : ℕ → StreamingCallbackToken
    token i = record { id = id; chunk_index = i; chunks = chunks; token = none }

    next_token-last : (i : ℕ) → i + 1 ≡ chunks → next_token (token i) ≡ none
    unfolding next_token
    next_token-last i h = ground arith

    next_token-inside : (i : ℕ) → i + 1 < chunks → next_token (token i) ≡ some (token (i + 1))
    unfolding next_token
    next_token-inside i h =
        let z : (i + 1) % 4294967296 ≡ i + 1 = omega arith in rw (z) (ground arith)

    followed-full_loop :
        (n i : ℕ) (rest : List ℕ)
        → i + 1 + n ≡ chunks
        → full_loop n id (i + 1) s.chunks ≡ ok rest
        → followed n s (next_token (token i)) ≡ some rest
    unfolding followed full_loop http_request_streaming_callback get_chunk
    followed-full_loop zero i rest h e = rw (next_token-last i (omega arith)) (ground (arith, e))
    followed-full_loop (suc n) i rest h e = elim (Option-cases (Maps.get (id, i + 1) s.chunks)) [
      | inl a ↦ absurd (ground (arith, a, e))
      | inr (chunk, a) ↦ elim (Result-cases (full_loop n id (i + 1 + 1) s.chunks)) [
        | inr (x, r) ↦ absurd (ground (arith, a, e, r))
        | inl (more, r) ↦
            let ih = followed-full_loop n (i + 1) more (omega arith) r in
            rw (next_token-inside i (omega arith)) (ground (arith, a, r, e, ih))
      ]
    ]

  module _ (id : ℕ) (file : FileMetadata V) (s : Store V) (content : List ℕ)
      (there : Maps.get id s.files ≡ some file) (full : get_full_chunks id s ≡ ok content) where
    get_full_chunks-full_loop : full_loop file.chunks id 0 s.chunks ≡ ok content
    unfolding get_full_chunks
    get_full_chunks-full_loop = elim (Result-cases (full_loop file.chunks id 0 s.chunks)) [
      | inr (x, r) ↦ absurd (ground (arith, there, full, r))
      | inl (found, r) ↦ r ∙ ground (arith, there, full, r)
    ]

    first_part-small :
        leb file.size max_file_size_per_call ≡ true
        → first_part id file s ≡ (file.chunks - 1, content)
    unfolding first_part
    first_part-small b = ground (arith, b, full)

    first_part-large :
        (chunk : List ℕ)
        → leb file.size max_file_size_per_call ≡ false
        → Maps.get (id, 0) s.chunks ≡ some chunk
        → first_part id file s ≡ (0, chunk)
    unfolding first_part get_chunk
    first_part-large chunk b h = ground (arith, b, h)

    module _ {S : Type 0} (http : HttpPackage S) (headers : List (Text × Text))
        (param : UrlFileParam) where
      download-first_part :
          (i : ℕ) (head rest : List ℕ)
          → first_part id file s ≡ (i, head)
          → followed
              (file.chunks - 1)
              s
              (next_token (record { id = id; chunk_index = i; chunks = file.chunks; token = none }))
            ≡ some rest
          → download (file.chunks - 1) s (whole_response http headers param id file s)
            ≡ some (head ++ rest)
      unfolding download whole_response
      download-first_part i head rest e1 e2 = rw (e1, e2) refl

      -- Following the reply with a whole file ends after as many calls as the file has further chunks
      -- and gives the file's content, where it has from 1 to 2 ^ 32 - 1 chunks and they can be read.
      pub whole_response-download :
          0 < file.chunks
          → file.chunks < 4294967296
          → download (file.chunks - 1) s (whole_response http headers param id file s)
            ≡ some content
      unfolding followed
      whole_response-download h small = elim (Bool-cases (leb file.size max_file_size_per_call)) [
        | inl b ↦
            download-first_part (file.chunks - 1) content [] (first_part-small b)
              (rw (next_token-last s id file.chunks small (file.chunks - 1) (omega arith)) refl)
            ∙ ap some (append-nil content)
        | inr b ↦
            let z : file.chunks ≡ suc (file.chunks - 1) = omega arith in
            let whole = get_full_chunks-full_loop in
            let (chunk, rest, first, others, e) =
              full_loop-first (file.chunks - 1) id 0 s.chunks content (rw (z) at whole) in
            download-first_part 0 chunk rest (first_part-large chunk b first) (
              followed-full_loop s id file.chunks small (file.chunks - 1) 0 rest (omega arith)
                others)
            ∙ ap some (sym e)
      ]
