-- ===== src/Bucket/Calls/Failing.antt =====
-- What an update call leaves when it fails: its reply is an error, or it traps.
use ic_oss.Bucket.Fs.{FileMetadata, Store}
use ic_oss.Bucket.Error.{Error}
use ic_oss.Base.{
  ℕ, ◌≡◌, refl, inl, inr, Bool, true, false, List, arith, Bool-cases, Option-cases, commit, Result,
  ok, err, nat_ord,
}
use ic_oss.Base.Maps
use ic_oss.Bucket.Fs
use ic_oss.Bucket.Fs.Update
use ic_oss.Bucket.Fs.Delete
use ic_oss.Bucket.Calls
use ic_oss.Bucket.Calls.{
  Runtime, Message, reply_with, reply_or_trap, proceed, CallError, Outcome, replied, trapped,
  is_panic, reply_or_panic,
}
use ic_oss.Bucket.Calls.Reaching.{Call, perform}

abbrev is_done {ℓ} : {A : Type ℓ} → Outcome A → Bool
is_done (replied (ok a)) = true
is_done (replied (err e)) = false
is_done (trapped e) = false

module _ {V : Type 0} where
  -- The calls that write nothing before all their tests passed, or trap. The others are
  -- create_file, and delete_folder, which deletes the files before it tests that the folder is
  -- empty.
  abbrev pub is_atomic : Call V → Bool
  is_atomic (Call.create_file input) = false
  is_atomic (Call.delete_folder id) = false
  is_atomic call = true

  -- An operation whose error leaves the store.
  KeepsOnError : {A : Type 0} → Store V → Result Error A × Store V → Type 0
  KeepsOnError {A} s done = (e : Error) → done.0 ≡ err e → done.1 ≡ s

  commit-KeepsOnError :
      {A : Type 0} (s : Store V) (r : Result Error (A × Store V)) → KeepsOnError s (commit s r)
  unfolding KeepsOnError
  commit-KeepsOnError s (ok (a, s')) e h = absurd (ground arith)
  commit-KeepsOnError s (err x) e h = refl

  delete_file-KeepsOnError :
      (id now : ℕ) (checker : FileMetadata V → Result Error (Unit {0})) (s : Store V)
      → KeepsOnError s (Delete.delete_file id now checker s)
  unfolding Delete.delete_file KeepsOnError
  delete_file-KeepsOnError id now checker s e h = elim (Option-cases (Maps.get id s.files)) [
    | inl g ↦ ground (arith, g, h)
    | inr (file, g) ↦ ground (arith, g, h)
  ]

  batch-KeepsOnError :
      (parent : ℕ) (ids : List ℕ) (now : ℕ) (s : Store V)
      → KeepsOnError s (Delete.batch_delete_subfiles parent ids now s)
  unfolding Delete.batch_delete_subfiles Delete.finish_batch KeepsOnError
  batch-KeepsOnError parent ids now s e h = ground (arith, h)

  leaves-proceed :
      {A B : Type 0} (s : Store V) (test : Result CallError A) (rest : A → Outcome B × Store V)
      → ((a : A) → test ≡ ok a → is_done (rest a).0 ≡ false → (rest a).1 ≡ s)
      → is_done (proceed s test rest).0 ≡ false
      → (proceed s test rest).1 ≡ s
  unfolding proceed
  leaves-proceed s (ok a) rest keeps h = keeps a refl h
  leaves-proceed s (err e) rest keeps h = refl

  leaves-reply_with :
      {A B : Type 0} (s : Store V) (f : A → B) (done : Result Error A × Store V)
      → KeepsOnError s done
      → is_done (reply_with f done).0 ≡ false
      → (reply_with f done).1 ≡ s
  unfolding reply_with KeepsOnError
  leaves-reply_with s f (ok a, s') keeps h = absurd (ground arith)
  leaves-reply_with s f (err e, s') keeps h = keeps e refl

  leaves-reply_or_panic :
      {A B : Type 0} (s : Store V) (f : A → B) (done : Result Error A × Store V)
      → KeepsOnError s done
      → is_done (reply_or_panic s f done).0 ≡ false
      → (reply_or_panic s f done).1 ≡ s
  unfolding reply_or_panic KeepsOnError
  leaves-reply_or_panic s f (ok a, s') keeps h = absurd (ground arith)
  leaves-reply_or_panic s f (err e, s') keeps h = elim (Bool-cases (is_panic e)) [
    | inl b ↦ rw (reply_or_panic, b) refl
    | inr b ↦ rw (reply_or_panic, b) (keeps e refl)
  ]

  leaves-reply_or_trap :
      {A B : Type 0} (s : Store V) (f : A → B) (done : Result Error A × Store V)
      → is_done (reply_or_trap s f done).0 ≡ false
      → (reply_or_trap s f done).1 ≡ s
  unfolding reply_or_trap
  leaves-reply_or_trap s f (ok a, s') h = absurd (ground arith)
  leaves-reply_or_trap s f (err e, s') h = refl

module _ {V : Type 0} (runtime : Runtime V) where
  -- Whether a call replies without an error.
  unfoldable pub is_successful : Call V → Message → Store V → Bool
  is_successful (Call.create_file input) m s = is_done (Calls.create_file runtime input m s).0
  is_successful (Call.update_file_info input) m s =
      is_done (Calls.update_file_info runtime input m s).0
  is_successful (Call.update_file_chunk input) m s =
      is_done (Calls.update_file_chunk runtime input m s).0
  is_successful (Call.move_file input) m s = is_done (Calls.move_file runtime input m s).0
  is_successful (Call.delete_file id) m s = is_done (Calls.delete_file runtime id m s).0
  is_successful (Call.batch_delete_subfiles parent ids) m s =
      is_done (Calls.batch_delete_subfiles runtime parent ids m s).0
  is_successful (Call.create_folder input) m s = is_done (Calls.create_folder runtime input m s).0
  is_successful (Call.update_folder_info input) m s =
      is_done (Calls.update_folder_info runtime input m s).0
  is_successful (Call.move_folder input) m s = is_done (Calls.move_folder runtime input m s).0
  is_successful (Call.delete_folder id) m s = is_done (Calls.delete_folder runtime id m s).0

  -- A call other than create_file and delete_folder that fails leaves the store as it was.
  pub failed_call_leaves :
      (call : Call V) (m : Message) (s : Store V)
      → is_atomic call ≡ true
      → is_successful call m s ≡ false
      → perform runtime call m s ≡ s
  unfolding perform is_successful Calls.update_file_info Calls.update_file_chunk Calls.move_file
      Calls.delete_file Calls.batch_delete_subfiles Calls.create_folder Calls.update_folder_info
      Calls.move_folder Fs.move_file Fs.add_folder Fs.move_folder Update.update_folder
  failed_call_leaves (Call.create_file input) m s atomic h = absurd (ground arith)
  failed_call_leaves (Call.delete_folder id) m s atomic h = absurd (ground arith)
  failed_call_leaves (Call.update_file_info input) m s atomic h =
      leaves-proceed s _ _ (λ ctx _ h'. leaves-reply_or_trap s _ _ h') h
  failed_call_leaves (Call.update_file_chunk input) m s atomic h =
      leaves-proceed s _ _ (λ ctx _ h'. leaves-reply_or_trap s _ _ h') h
  failed_call_leaves (Call.move_file input) m s atomic h =
      leaves-proceed s _ _ (λ _ _ h'. leaves-reply_with s _ _ (commit-KeepsOnError s _) h') h
  failed_call_leaves (Call.delete_file id) m s atomic h =
      leaves-proceed s _ _
        (λ ctx _ h'. leaves-reply_with s _ _ (delete_file-KeepsOnError id _ _ s) h') h
  failed_call_leaves (Call.batch_delete_subfiles parent ids) m s atomic h =
      leaves-proceed s _ _
        (λ _ _ h'. leaves-reply_with s _ _ (batch-KeepsOnError parent ids _ s) h') h
  failed_call_leaves (Call.create_folder input) m s atomic h =
      leaves-proceed s _ _ (λ _ _ h'. leaves-reply_with s _ _ (commit-KeepsOnError s _) h') h
  failed_call_leaves (Call.update_folder_info input) m s atomic h =
      leaves-proceed s _ _ (λ ctx _ h'. leaves-reply_or_panic s _ _ (commit-KeepsOnError s _) h') h
  failed_call_leaves (Call.move_folder input) m s atomic h =
      leaves-proceed s _ _ (λ _ _ h'. leaves-reply_with s _ _ (commit-KeepsOnError s _) h') h
