-- ===== src/Tests/Can.antt =====
-- Runs of the store for other canisters, and its theorems at concrete inputs.

use ic_oss.Base.Maps
use ic_oss.Base.Sets
use ic_oss.Can
use ic_oss.Can.Calls
use ic_oss.Base.{ℕ, ◌≡◌, refl, none, [], ◌∷◌, ok, err, nat_ord, pair_ord, list_cmp, codes}
use ic_oss.Can.{default_files, FileMetadata, update_chunk, get_full_chunks, CanStore, CanError}
use ic_oss.Can.Reserved.{perform_can, perform_can_keeps, CanCall}

abbrev small_file : FileMetadata
small_file = record {
  name = codes "a";
  content_type = codes "text/plain";
  size = 2;
  filled = 0;
  created_at = 1;
  updated_at = 1;
  chunks = 0;
  hash = none;
}

-- A store with one file, and the metadata saved under the key 0.
abbrev can_store : CanStore
can_store = record {
  metadata = record default_files {
    file_id = 2;
    files = (1, small_file) ∷ [];
    managers = (7 ∷ []) ∷ [];
  };
  chunks = ((0, 0), 9 ∷ []) ∷ [];
}

abbrev write_two : CanCall ℕ
write_two = CanCall.writing (record { id = 1; chunk_index = 0; content = 5 ∷ 6 ∷ [] })

perform_can_keeps_example :
    Maps.get (0, 0) (perform_can write_two (7 ∷ []) 3000000000 can_store).chunks
    ≡ Maps.get (0, 0) can_store.chunks
perform_can_keeps_example = perform_can_keeps write_two (7 ∷ []) 3000000000 can_store 0

two_are_read :
    get_full_chunks (perform_can write_two (7 ∷ []) 3000000000 can_store) 1 ≡ ok (5 ∷ 6 ∷ [])
unfolding get_full_chunks Maps.get perform_can Calls.update_file_chunk Sets.contains list_cmp
    update_chunk Can.may_write Maps.put Can.after_chunk Can.gather
two_are_read = refl

-- A chunk above the limit is refused and counted all the same.
refused_is_counted :
    update_chunk
      (record can_store { metadata = record can_store.metadata { max_file_size = 1 } })
      1
      0
      3
      (5 ∷ 6 ∷ [])
    ≡ (
      err (CanError.over_limit 1),
      record {
        metadata = record can_store.metadata {
          max_file_size = 1;
          files = (1, record small_file { filled = 2; updated_at = 3 }) ∷ [];
        };
        chunks = can_store.chunks;
      },
    )
unfolding update_chunk Can.may_write Maps.get Maps.put
refused_is_counted = refl
