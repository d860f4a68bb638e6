-- ===== src/Bucket/Queries/Readable.antt =====
-- What the replies with a file's chunks rest on.
use ic_oss.Bucket.Checks.{check_file_read}
use ic_oss.Bucket.Fs.{FileMetadata, Store}
use ic_oss.Base.{
  ℕ, ◌≤◌, min, ◌≡◌, ◌⊎◌, inl, inr, true, Option, some, List, arith, get_or, Bool-cases,
  Option-cases, int_lt, pos, Result-cases, ok, nat_ord,
}
use ic_oss.Base.Maps
use ic_oss.Bucket.Calls.{Runtime, Message, now_sec}
use ic_oss.Bucket.Queries.{reader, read_by_hash, may_read_chunks, get_file_chunks}
use ic_oss.Bucket.Access.{auditor, rank, read_permission, Context}
use ic_oss.Bucket.Fs.Chunk.{get_chunks, FileChunk}

module _ {V : Type 0} (runtime : Runtime V) (id : ℕ) (file : FileMetadata V) (m : Message)
    (s : Store V) where
  -- The caller may read, the policies permit to read this file, and an archived file is read by an
  -- auditor or a manager.
  pub record IsReadable (ctx : Context) : Type 0 where
    pub access :
        read_permission runtime.from_sign1 s.bucket m.caller runtime.canister m.access_token
          (now_sec m)
        ≡ ok ctx
    pub permitted :
        check_file_read runtime.to_text ctx.ps runtime.canister s.folders id file.parent ≡ some true
    pub for_auditors : int_lt file.status (pos 0) ≡ true → rank auditor ≤ rank ctx.role

  may_read_chunks-IsReadable :
      may_read_chunks runtime id file m s ≡ ok tt
      → (read_by_hash file m.access_token ≡ true) ⊎ ((ctx : Context) × IsReadable ctx)
  unfolding may_read_chunks reader
  may_read_chunks-IsReadable h = elim (Bool-cases (read_by_hash file m.access_token)) [
    | inl b ↦ inl b
    | inr b ↦
        elim (Result-cases (
          read_permission runtime.from_sign1 s.bucket m.caller runtime.canister m.access_token
            (now_sec m))) [
              | inr (x, e) ↦ absurd (ground (arith, h, b, e))
              | inl (ctx, e) ↦ inr (
                ctx,
                record {
                  access = e;
                  permitted = ground (arith, h, b, e);
                  for_auditors = λ archived. ground (arith, h, b, e, archived);
                },
              )
            ]
  ]

module _ {V : Type 0} (runtime : Runtime V) (id index : ℕ) (take : Option ℕ) (m : Message)
    (s : Store V) (chunks : List FileChunk) where
  -- A reply of `get_file_chunks` holds chunks of a file that is there, at most 8 of them are asked
  -- for, and either the token is the file's hash, which may stand for one, or the caller may read
  -- the file.
  pub get_file_chunks-IsReadable :
      get_file_chunks runtime id index take m s ≡ ok chunks
      → (file : FileMetadata V) × (Maps.get id s.files ≡ some file)
        × (chunks ≡ get_chunks id index (min (get_or take 8) 8) s)
        × ((read_by_hash file m.access_token ≡ true)
            ⊎ ((ctx : Context) × IsReadable runtime id file m s ctx))
  unfolding get_file_chunks
  get_file_chunks-IsReadable h = elim (Option-cases (Maps.get id s.files)) [
    | inl e ↦ absurd (ground (arith, e, h))
    | inr (file, e) ↦ elim (Result-cases (may_read_chunks runtime id file m s)) [
      | inr (x, r) ↦ absurd (ground (arith, e, r, h))
      | inl (_, r) ↦
          (file, e, ground (arith, e, r, h), may_read_chunks-IsReadable runtime id file m s r)
    ]
  ]
