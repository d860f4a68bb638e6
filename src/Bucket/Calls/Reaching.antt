-- ===== src/Bucket/Calls/Reaching.antt =====
-- The update calls as sequences of operations of the module `fs`: whatever a call does to the store,
-- a sequence of operations does.
use ic_oss.Bucket.Create.{new_metadata, set_status, store_content, create_stored}
use ic_oss.Bucket.Fs.Chunk.{update_chunk}
use ic_oss.Types.Inputs.{
  UpdateFileInput, UpdateFolderInput, CreateFileInput, UpdateFileChunkInput, MoveInput,
  CreateFolderInput,
}
use ic_oss.Bucket.Fs.{Store}
use ic_oss.Bucket.Upload.{write_chunks, chunks_of}
use ic_oss.Bucket.Error.{Error}
use ic_oss.Bucket.Fs.Run.{Reach, Step}
use ic_oss.Base.{
  ℕ, ◌+◌, ◌%◌, refl, inl, inr, not, ◌&&◌, Option, none, some, List, [], ◌∷◌, get_or, Set, ltb, ◌==◌,
  Bool-cases, Option-cases, length, ℤ, Result, ok, err,
}
use ic_oss.Bucket.Fs
use ic_oss.Bucket.Calls
use ic_oss.Bucket.Calls.{
  Runtime, Message, now_ms, reply_with, reply_or_trap, proceed, CallError, Outcome, is_panic,
  reply_or_panic,
}

-- One update call, with its input.
pub data Call (V : Type 0) : Type 0 where
  create_file : CreateFileInput V → Call V
  update_file_info : UpdateFileInput V → Call V
  update_file_chunk : UpdateFileChunkInput → Call V
  move_file : MoveInput → Call V
  delete_file : ℕ → Call V
  batch_delete_subfiles : ℕ → Set ℕ → Call V
  create_folder : CreateFolderInput → Call V
  update_folder_info : UpdateFolderInput → Call V
  move_folder : MoveInput → Call V
  delete_folder : ℕ → Call V

module _ {V : Type 0} (runtime : Runtime V) where
  -- The store after a call.
  unfoldable pub perform : Call V → Message → Store V → Store V
  perform (Call.create_file input) m s = (Calls.create_file runtime input m s).1
  perform (Call.update_file_info input) m s = (Calls.update_file_info runtime input m s).1
  perform (Call.update_file_chunk input) m s = (Calls.update_file_chunk runtime input m s).1
  perform (Call.move_file input) m s = (Calls.move_file runtime input m s).1
  perform (Call.delete_file id) m s = (Calls.delete_file runtime id m s).1
  perform (Call.batch_delete_subfiles parent ids) m s =
      (Calls.batch_delete_subfiles runtime parent ids m s).1
  perform (Call.create_folder input) m s = (Calls.create_folder runtime input m s).1
  perform (Call.update_folder_info input) m s = (Calls.update_folder_info runtime input m s).1
  perform (Call.move_folder input) m s = (Calls.move_folder runtime input m s).1
  perform (Call.delete_folder id) m s = (Calls.delete_folder runtime id m s).1

module _ {V : Type 0} where
  Reach_trans : {s t u : Store V} → Reach s t → Reach t u → Reach s u
  Reach_trans r Reach.here = r
  Reach_trans r (Reach.next r' step) = Reach.next (Reach_trans r r') step

  -- A call that proceeds reaches what its operation reaches; one that does not changes nothing.
  Reach-proceed :
      {A B : Type 0} (s : Store V) (test : Result CallError A) (rest : A → Outcome B × Store V)
      → ((a : A) → Reach s (rest a).1)
      → Reach s (proceed s test rest).1
  unfolding proceed
  Reach-proceed s (ok a) rest reach = reach a
  Reach-proceed s (err e) rest reach = Reach.here

  Reach-reply_with :
      {A B : Type 0} (s : Store V) (f : A → B) (done : Result Error A × Store V)
      → Reach s done.1
      → Reach s (reply_with f done).1
  unfolding reply_with
  Reach-reply_with s f (ok a, s') reach = reach
  Reach-reply_with s f (err e, s') reach = reach

  Reach-reply_or_trap :
      {A B : Type 0} (s : Store V) (f : A → B) (done : Result Error A × Store V)
      → Reach s done.1
      → Reach s (reply_or_trap s f done).1
  unfolding reply_or_trap
  Reach-reply_or_trap s f (ok a, s') reach = reach
  Reach-reply_or_trap s f (err e, s') reach = Reach.here

  Reach-reply_or_panic :
      {A B : Type 0} (s : Store V) (f : A → B) (done : Result Error A × Store V)
      → Reach s done.1
      → Reach s (reply_or_panic s f done).1
  unfolding reply_or_panic
  Reach-reply_or_panic s f (ok a, s') reach = reach
  Reach-reply_or_panic s f (err e, s') reach = elim (Bool-cases (is_panic e)) [
    | inl b ↦ rw (reply_or_panic, b) Reach.here
    | inr b ↦ rw (reply_or_panic, b) reach
  ]

  -- A step whose error ends the call, and otherwise the rest.
  abbrev and_then :
      {A B : Type 0}
      → Result Error A × Store V
      → (A → Store V → Result Error B × Store V)
      → Result Error B × Store V
  and_then done rest =
      let (result, s') = done in elim result [ err e ↦ (err e, s') | ok a ↦ rest a s' ]

  Reach-and_then :
      {A B : Type 0} {s : Store V} (done : Result Error A × Store V)
      (rest : A → Store V → Result Error B × Store V)
      → Reach s done.1
      → ((a : A) (s' : Store V) → Reach s' (rest a s').1)
      → Reach s (and_then done rest).1
  Reach-and_then (ok a, s') rest reach next = Reach_trans reach (next a s')
  Reach-and_then (err e, s') rest reach next = reach

  Reach-write_chunks :
      (id i now_ms : ℕ) (chunks : List (List ℕ)) (s : Store V)
      → Reach s (write_chunks id i now_ms chunks s).1
  unfolding write_chunks
  Reach-write_chunks id i now_ms [] s = Reach.here
  Reach-write_chunks id i now_ms (chunk ∷ chunks) s =
      Reach-and_then (update_chunk id (i % 4294967296) now_ms chunk (λ _. ok tt) s)
        (λ _. write_chunks id (i + 1) now_ms chunks)
        (Reach.next Reach.here (Step.update_chunk id (i % 4294967296) now_ms chunk (λ _. ok tt)))
        (λ _ s'. Reach-write_chunks id (i + 1) now_ms chunks s')

  Reach-set_status :
      (status : Option ℤ) (id now_ms : ℕ) (s : Store V) → Reach s (set_status status id now_ms s).1
  unfolding set_status
  Reach-set_status none id now_ms s = Reach.here
  Reach-set_status (some status) id now_ms s =
      Reach.next Reach.here (Step.update_file _ now_ms (λ _. ok tt))

  Reach-store_content :
      (input : CreateFileInput V) (id now_ms : ℕ) (s : Store V)
      → Reach s (store_content input id now_ms s).1
  unfolding store_content
  Reach-store_content input id now_ms s = elim (Option-cases input.content) [
    | inl e ↦ rw (store_content, e) Reach.here
    | inr (content, e) ↦
        elim (Bool-cases (
          ltb 0 (get_or input.size 0)
          && not (length content == get_or input.size 0 % 4294967296))) [
            | inl differs ↦ rw (store_content, e, differs) Reach.here
            | inr same_size ↦
                rw (store_content, e, same_size)
                  (Reach-and_then (write_chunks id 0 now_ms (chunks_of content) s)
                    (λ _. set_status input.status id now_ms)
                    (Reach-write_chunks id 0 now_ms (chunks_of content) s)
                    (λ _ s'. Reach-set_status input.status id now_ms s'))
          ]
  ]

  Reach-create_stored :
      (input : CreateFileInput V) (now_ms : ℕ) (s : Store V)
      → Reach s (create_stored input now_ms s).1
  unfolding create_stored
  Reach-create_stored input now_ms s =
      Reach-and_then (Fs.add_file (new_metadata input now_ms) s)
        (λ id s'.
          let (filled, s'') = store_content input id now_ms s' in
          elim filled [ err e ↦ (err e, s'') | ok _ ↦ (ok id, s'') ])
        (Reach.next Reach.here (Step.add_file (new_metadata input now_ms)))
        (λ id s'.
          Reach-and_then (store_content input id now_ms s') (λ _ s''. (ok id, s''))
            (Reach-store_content input id now_ms s') (λ _ s''. Reach.here))

module _ {V : Type 0} (runtime : Runtime V) where
  pub Reach-perform :
      (call : Call V) (m : Message) (s : Store V) → Reach s (perform runtime call m s)
  unfolding perform Calls.create_file Calls.update_file_info Calls.update_file_chunk Calls.move_file
      Calls.delete_file Calls.batch_delete_subfiles Calls.create_folder Calls.update_folder_info
      Calls.move_folder Calls.delete_folder
  Reach-perform (Call.create_file input) m s =
      Reach-proceed s _ _ λ _. Reach-reply_with s _ _ (Reach-create_stored input (now_ms m) s)
  Reach-perform (Call.update_file_info input) m s =
      Reach-proceed s _ _
        λ _. Reach-reply_or_trap s _ _ (Reach.next Reach.here (Step.update_file input _ _))
  Reach-perform (Call.update_file_chunk input) m s =
      Reach-proceed s _ _
        λ _. Reach-reply_or_trap s _ _ (Reach.next Reach.here (Step.update_chunk _ _ _ _ _))
  Reach-perform (Call.move_file input) m s =
      Reach-proceed s _ _
        λ _. Reach-reply_with s _ _ (Reach.next Reach.here (Step.move_file _ _ _ _))
  Reach-perform (Call.delete_file id) m s =
      Reach-proceed s _ _
        λ _. Reach-reply_with s _ _ (Reach.next Reach.here (Step.delete_file _ _ _))
  Reach-perform (Call.batch_delete_subfiles parent ids) m s =
      Reach-proceed s _ _
        λ _. Reach-reply_with s _ _ (Reach.next Reach.here (Step.batch_delete_subfiles _ _ _))
  Reach-perform (Call.create_folder input) m s =
      Reach-proceed s _ _
        λ _. Reach-reply_with s _ _ (Reach.next Reach.here (Step.add_folder _ refl refl))
  Reach-perform (Call.update_folder_info input) m s =
      Reach-proceed s _ _
        λ _. Reach-reply_or_panic s _ _ (Reach.next Reach.here (Step.update_folder _ _ _))
  Reach-perform (Call.move_folder input) m s =
      Reach-proceed s _ _
        λ _. Reach-reply_with s _ _ (Reach.next Reach.here (Step.move_folder _ _ _ _))
  Reach-perform (Call.delete_folder id) m s =
      Reach-proceed s _ _
        λ _. Reach-reply_or_panic s _ _ (Reach.next Reach.here (Step.delete_folder _ _ _))
