-- ===== src/Bucket/Create.antt =====
-- The part of `create_file` of src/ic_oss_bucket/src/api_update.rs that writes: it adds the file,
-- uploads the content that comes with the call, and sets the status. It stands in a block and not
-- in a closure, so that a `?` in it returns from `create_file` and what was written stays.
pub mod Creating
use ic_oss.Types.Inputs.{CreateFileInput}
use ic_oss.Bucket.Upload.{chunks_of, write_chunks}
use ic_oss.Bucket.Error.{Error, content_size_mismatch}
use ic_oss.Base.{
  ℕ, ◌%◌, not, ◌&&◌, Option, none, some, get_or, ltb, ◌==◌, if◌then◌else◌, length, ℤ, pos, Result,
  ok, err,
}
use ic_oss.Bucket.Fs
use ic_oss.Bucket.Fs.{FileMetadata, Store}
use ic_oss.Bucket.Fs.Update.{update_file}

module _ {V : Type 0} where
  -- The metadata of the new file; what is not given has its default.
  abbrev pub new_metadata : CreateFileInput V → ℕ → FileMetadata V
  new_metadata input now_ms = record {
    parent = input.parent;
    name = input.name;
    content_type = input.content_type;
    size = get_or input.size 0;
    filled = 0;
    created_at = now_ms;
    updated_at = now_ms;
    chunks = 0;
    status = pos 0;
    hash = input.hash;
    dek = input.dek;
    custom = input.custom;
    ex = none;
  }

  -- The status at the end, where one is given.
  unfoldable pub set_status : Option ℤ → ℕ → ℕ → Store V → Result Error (Unit {0}) × Store V
  set_status none id now_ms s = (ok tt, s)
  set_status (some status) id now_ms s =
      update_file
        (record {
          id = id;
          name = none;
          content_type = none;
          status = some status;
          size = none;
          hash = none;
          custom = none;
        })
        now_ms (λ _. ok tt) s

  -- The content, where one is given: its size is compared with the one given, as a `usize`.
  unfoldable pub store_content :
      CreateFileInput V → ℕ → ℕ → Store V → Result Error (Unit {0}) × Store V
  store_content input id now_ms s = elim input.content [
    | none ↦ (ok tt, s)
    | some content ↦
        let size = get_or input.size 0 in
        if ltb 0 size && not (length content == size % 4294967296)
        then (err content_size_mismatch, s)
        else (let (written, s') = write_chunks id 0 now_ms (chunks_of content) s in
            elim written [ err e ↦ (err e, s') | ok _ ↦ set_status input.status id now_ms s' ])
  ]

  unfoldable pub create_stored : CreateFileInput V → ℕ → Store V → Result Error ℕ × Store V
  create_stored input now_ms s =
      let (added, s') = Fs.add_file (new_metadata input now_ms) s in
      elim added [
        | err e ↦ (err e, s')
        | ok id ↦
            let (filled, s'') = store_content input id now_ms s' in
            elim filled [ err e ↦ (err e, s'') | ok _ ↦ (ok id, s'') ]
      ]
