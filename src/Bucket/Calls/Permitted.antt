-- ===== src/Bucket/Calls/Permitted.antt =====
-- What a change of the store by an update call rests on: the access of the caller and the policies.
use ic_oss.Types.Permission.Policies.{Policies}
use ic_oss.Bucket.Access.{write_permission, Context}
use ic_oss.Bucket.Checks.{
  check_file_create, check_file_delete, check_file_update, check_folder_create, check_folder_delete,
  check_folder_delete_borrowed, check_folder_update_borrowed,
}
use ic_oss.Types.Inputs.{UpdateFileInput, UpdateFolderInput}
use ic_oss.Bucket.Fs.{FileMetadata, Store}
use ic_oss.Bucket.Folders.{FolderMetadata}
use ic_oss.Bucket.Error.{Error}
use ic_oss.Base.{
  ℕ, ◌/◌, ◌≡◌, refl, ◌⊎◌, inl, inr, Bool, true, Option, some, List, arith, Bool-cases, Option-cases,
  ◌>>=◌, ◌>>◌, map_err, Result-cases, Result, ok, err, nat_ord,
}
use ic_oss.Base.Maps
use ic_oss.Bucket.Folders
use ic_oss.Bucket.Fs.Update
use ic_oss.Bucket.Fs.Chunk
use ic_oss.Bucket.Fs.Delete
use ic_oss.Bucket.Calls
use ic_oss.Bucket.Calls.{
  Runtime, Message, require, writer, now_ms, reply_with, reply_or_trap, proceed, may_create_file,
  file_updater, may_update_file, may_move_file, may_delete_subfiles, may_create_folder,
  may_update_folder, may_move_folder, CallError, Outcome, failed, now_sec, is_panic, reply_or_panic,
}
use ic_oss.Bucket.Calls.Reaching.{Call, perform}

-- The checks of an operation with a checker, by what the store holds.
module _ {V : Type 0} (s : Store V) where
  update_file-checks :
      (change : UpdateFileInput V) (now : ℕ) (checker : FileMetadata V → Result Error (Unit {0}))
      → ((Update.update_file change now checker s).1 ≡ s)
        ⊎ ((file : FileMetadata V) × (Maps.get change.id s.files ≡ some file)
            × (checker file ≡ ok tt))
  unfolding Update.update_file Update.update_present
  update_file-checks change now checker = elim (Option-cases (Maps.get change.id s.files)) [
    | inl e ↦ ground (arith, e)
    | inr (file, e) ↦ elim (Result-cases (checker file)) [
      | inl (_, c) ↦ inr (file, e, ground (arith, c))
      | inr (x, c) ↦ ground (arith, e, c)
    ]
  ]

  update_chunk-checks :
      (id i now : ℕ) (chunk : List ℕ) (checker : FileMetadata V → Result Error (Unit {0}))
      → ((Chunk.update_chunk id i now chunk checker s).1 ≡ s)
        ⊎ ((file : FileMetadata V) × (Maps.get id s.files ≡ some file) × (checker file ≡ ok tt))
  unfolding Chunk.update_chunk Chunk.may_write
  update_chunk-checks id i now chunk checker = elim (Option-cases (Maps.get id s.files)) [
    | inl e ↦ ground (arith, e)
    | inr (file, e) ↦ elim (Result-cases (checker file)) [
      | inl (_, c) ↦ inr (file, e, ground (arith, c))
      | inr (x, c) ↦ ground (arith, e, c)
    ]
  ]

  delete_file-checks :
      (id now : ℕ) (checker : FileMetadata V → Result Error (Unit {0}))
      → ((Delete.delete_file id now checker s).1 ≡ s)
        ⊎ ((file : FileMetadata V) × (Maps.get id s.files ≡ some file) × (checker file ≡ ok tt))
  unfolding Delete.delete_file Delete.delete_found
  delete_file-checks id now checker = elim (Option-cases (Maps.get id s.files)) [
    | inl e ↦ ground (arith, e)
    | inr (file, e) ↦ elim (Result-cases (checker file)) [
      | inl (_, c) ↦ inr (file, e, ground (arith, c))
      | inr (x, c) ↦ ground (arith, e, c)
    ]
  ]

  update_folder-checks :
      (change : UpdateFolderInput) (now : ℕ) (checker : FolderMetadata → Result Error (Unit {0}))
      → ((Update.update_folder change now checker s).1 ≡ s)
        ⊎ ((folder : FolderMetadata) × (Maps.get change.id s.folders ≡ some folder)
            × (checker folder ≡ ok tt))
  unfolding Update.update_folder
  update_folder-checks change now checker = elim (Option-cases (Maps.get change.id s.folders)) [
    | inl e ↦ ground (arith, e)
    | inr (folder, e) ↦ elim (Result-cases (checker folder)) [
      | inl (_, c) ↦ inr (folder, e, ground (arith, c))
      | inr (x, c) ↦ ground (arith, e, c)
    ]
  ]

  delete_folder-checks :
      (id now : ℕ) (checker : FolderMetadata → Result Error (Unit {0}))
      → ((Delete.delete_folder id now checker s).1 ≡ s)
        ⊎ ((folder : FolderMetadata) × (Maps.get id s.folders ≡ some folder)
            × (checker folder ≡ ok tt))
  unfolding Delete.delete_folder Delete.may_delete_folder Folders.parent_to_update
  delete_folder-checks id now checker = elim (Option-cases (Maps.get id s.folders)) [
    | inl e ↦ ground (arith, e)
    | inr (folder, e) ↦ elim (Result-cases (checker folder)) [
      | inl (_, c) ↦ inr (folder, e, ground (arith, c))
      | inr (x, c) ↦ ground (arith, e, c)
    ]
  ]

module _ {V : Type 0} (runtime : Runtime V) where
  -- What the policies have to permit for a call, by the folders of the store that it finds.
  pub IsPermitted : Policies → Call V → Store V → Type 0
  IsPermitted ps (Call.create_file input) s =
      check_file_create runtime.to_text ps runtime.canister s.folders input.parent ≡ some true
  IsPermitted ps (Call.update_file_info input) s =
      (file : FileMetadata V) × (Maps.get input.id s.files ≡ some file)
      × (check_file_update runtime.to_text ps runtime.canister s.folders input.id file.parent
          ≡ some true)
  IsPermitted ps (Call.update_file_chunk input) s =
      (file : FileMetadata V) × (Maps.get input.id s.files ≡ some file)
      × (check_file_update runtime.to_text ps runtime.canister s.folders input.id file.parent
          ≡ some true)
  IsPermitted ps (Call.move_file input) s =
      (check_file_delete runtime.to_text ps runtime.canister s.folders input.from ≡ some true)
      × (check_file_create runtime.to_text ps runtime.canister s.folders input.to ≡ some true)
  IsPermitted ps (Call.delete_file id) s =
      (file : FileMetadata V) × (Maps.get id s.files ≡ some file)
      × (check_file_delete runtime.to_text ps runtime.canister s.folders file.parent ≡ some true)
  IsPermitted ps (Call.batch_delete_subfiles parent ids) s =
      check_file_delete runtime.to_text ps runtime.canister s.folders parent ≡ some true
  IsPermitted ps (Call.create_folder input) s =
      check_folder_create runtime.to_text ps runtime.canister s.folders input.parent ≡ some true
  IsPermitted ps (Call.update_folder_info input) s =
      (folder : FolderMetadata) × (Maps.get input.id s.folders ≡ some folder)
      × (check_folder_update_borrowed runtime.to_text ps runtime.canister input.id ≡ ok tt)
  IsPermitted ps (Call.move_folder input) s =
      (check_folder_delete runtime.to_text ps runtime.canister s.folders input.from ≡ some true)
      × (check_folder_create runtime.to_text ps runtime.canister s.folders input.to ≡ some true)
  IsPermitted ps (Call.delete_folder id) s =
      (folder : FolderMetadata) × (Maps.get id s.folders ≡ some folder)
      × (check_folder_delete_borrowed runtime.to_text ps runtime.canister ≡ ok tt)

  -- The call has the right to write, as the caller or by its token, and its policies permit it.
  pub HasRight : Call V → Message → Store V → Type 0
  HasRight call m s =
      (ctx : Context) × (write_permission runtime.from_sign1 s.bucket m.caller runtime.canister
          m.access_token (m.time / 1000000000)
        ≡ ok ctx)
      × IsPermitted ctx.ps call s

  require_ok : (c : Option Bool) → require c ≡ ok tt → c ≡ some true
  require_ok c h = ground arith

  write_permission_ok :
      (s : Store V) (m : Message) (sec : ℕ) (ctx : Context)
      → writer runtime s m sec ≡ ok ctx
      → sec ≡ m.time / 1000000000
      → write_permission runtime.from_sign1 s.bucket m.caller runtime.canister m.access_token
          (m.time / 1000000000)
        ≡ ok ctx
  unfolding writer
  write_permission_ok s m sec ctx h e = ground (arith, h, e)

  writer_ok :
      (s : Store V) (m : Message) (ctx : Context)
      → writer runtime s m (m.time / 1000000 / 1000) ≡ ok ctx
      → write_permission runtime.from_sign1 s.bucket m.caller runtime.canister m.access_token
          (m.time / 1000000000)
        ≡ ok ctx
  writer_ok s m ctx h = write_permission_ok s m (m.time / 1000000 / 1000) ctx h (omega arith)

  -- A call that does not proceed leaves the store.
  leaves-proceed :
      {A B : Type 0} {P : Type 0} (s : Store V) (test : Result CallError A)
      (rest : A → Outcome B × Store V)
      → ((a : A) → test ≡ ok a → ((rest a).1 ≡ s) ⊎ P)
      → ((proceed s test rest).1 ≡ s) ⊎ P
  unfolding proceed
  leaves-proceed s (ok a) rest h = h a refl
  leaves-proceed s (err e) rest h = inl refl

  leaves-reply_with :
      {A B : Type 0} {P : Type 0} (s : Store V) (f : A → B) (done : Result Error A × Store V)
      → (done.1 ≡ s) ⊎ P
      → ((reply_with f done).1 ≡ s) ⊎ P
  unfolding reply_with
  leaves-reply_with s f (ok a, s') h = h
  leaves-reply_with s f (err e, s') h = h

  leaves-reply_or_panic :
      {A B : Type 0} {P : Type 0} (s : Store V) (f : A → B) (done : Result Error A × Store V)
      → (done.1 ≡ s) ⊎ P
      → ((reply_or_panic s f done).1 ≡ s) ⊎ P
  unfolding reply_or_panic
  leaves-reply_or_panic s f (ok a, s') h = h
  leaves-reply_or_panic s f (err e, s') h = elim (Bool-cases (is_panic e)) [
    | inl b ↦ inl (rw (reply_or_panic, b) refl)
    | inr b ↦ rw (reply_or_panic, b) h
  ]

  leaves-reply_or_trap :
      {A B : Type 0} {P : Type 0} (s : Store V) (f : A → B) (done : Result Error A × Store V)
      → (done.1 ≡ s) ⊎ P
      → ((reply_or_trap s f done).1 ≡ s) ⊎ P
  unfolding reply_or_trap
  leaves-reply_or_trap s f (ok a, s') h = h
  leaves-reply_or_trap s f (err e, s') h = inl refl

  -- A test that asks for the right to write first.
  checked :
      (s : Store V) (m : Message) (test : Policies → Result CallError (Unit {0}))
      → (writer runtime s m (m.time / 1000000 / 1000) >>= λ ctx. test ctx.ps) ≡ ok tt
      → (ctx : Context) × (write_permission runtime.from_sign1 s.bucket m.caller runtime.canister
            m.access_token
            (m.time / 1000000000)
          ≡ ok ctx)
        × (test ctx.ps ≡ ok tt)
  checked s m test h = elim (Result-cases (writer runtime s m (m.time / 1000000 / 1000))) [
    | inl (ctx, e) ↦ (ctx, writer_ok s m ctx e, ground (arith, e, h))
    | inr (x, e) ↦ absurd (ground (arith, e, h))
  ]

  -- A call changes the store only if it has the right to; for
  -- update_folder_info that is one on the folder itself or on the bucket, and for delete_folder one
  -- on the bucket.
  pub perform-HasRight :
      (call : Call V) (m : Message) (s : Store V)
      → (perform runtime call m s ≡ s) ⊎ HasRight call m s
  unfolding perform Calls.create_file Calls.update_file_info Calls.update_file_chunk Calls.move_file
      Calls.delete_file Calls.batch_delete_subfiles Calls.create_folder Calls.update_folder_info
      Calls.move_folder Calls.delete_folder may_create_file may_update_file may_move_file
      may_delete_subfiles may_create_folder may_update_folder may_move_folder HasRight IsPermitted
  perform-HasRight (Call.create_file input) m s = leaves-proceed s _ _ λ _ passed.
      let (ctx, permitted, h) =
        checked s m
          (λ ps. map_err failed (
            require (check_file_create runtime.to_text ps runtime.canister s.folders input.parent)))
          (ground arith) in
      inr (ctx, permitted, require_ok _ (ground arith))
  perform-HasRight (Call.update_file_info input) m s = leaves-proceed s _ _ λ ctx passed.
      leaves-reply_or_trap s _ _
        (elim (update_file-checks s input (now_ms m) (file_updater runtime ctx s input.id)) [
          | inl kept ↦ inl kept
          | inr (file, found, c) ↦
              inr (ctx, writer_ok s m ctx (ground arith), (file, found, require_ok _ c))
        ])
  perform-HasRight (Call.update_file_chunk input) m s = leaves-proceed s _ _ λ ctx passed.
      leaves-reply_or_trap s _ _
        (elim (update_chunk-checks s input.id input.chunk_index (now_ms m) input.content
          (file_updater runtime ctx s input.id)) [
            | inl kept ↦ inl kept
            | inr (file, found, c) ↦ inr (
              ctx,
              write_permission_ok s m (now_sec m) ctx passed refl,
              (file, found, require_ok _ c),
            )
          ])
  perform-HasRight (Call.move_file input) m s = leaves-proceed s _ _ λ _ passed.
      let (ctx, permitted, h) =
        checked s m
          (λ ps.
            map_err failed
              (require (check_file_delete runtime.to_text ps runtime.canister s.folders input.from))
            >> map_err failed (
                require (check_file_create runtime.to_text ps runtime.canister s.folders input.to)))
          (ground arith) in
      inr (ctx, permitted, (require_ok _ (ground arith), require_ok _ (ground arith)))
  perform-HasRight (Call.delete_file id) m s = leaves-proceed s _ _ λ ctx passed.
      leaves-reply_with s _ _ (elim (delete_file-checks s id (now_ms m) _) [
        | inl kept ↦ inl kept
        | inr (file, found, c) ↦
            inr (ctx, writer_ok s m ctx (ground arith), (file, found, require_ok _ c))
      ])
  perform-HasRight (Call.batch_delete_subfiles parent ids) m s = leaves-proceed s _ _ λ _ passed.
      let (ctx, permitted, h) =
        checked s m
          (λ ps.
            map_err failed
              (require (check_file_delete runtime.to_text ps runtime.canister s.folders parent)))
          (ground arith) in
      inr (ctx, permitted, require_ok _ (ground arith))
  perform-HasRight (Call.create_folder input) m s = leaves-proceed s _ _ λ _ passed.
      let (ctx, permitted, h) =
        checked s m
          (λ ps. map_err failed (
            require
              (check_folder_create runtime.to_text ps runtime.canister s.folders input.parent)))
          (ground arith) in
      inr (ctx, permitted, require_ok _ (ground arith))
  perform-HasRight (Call.update_folder_info input) m s = leaves-proceed s _ _ λ ctx passed.
      leaves-reply_or_panic s _ _ (elim (update_folder-checks s input (now_ms m) _) [
        | inl kept ↦ inl kept
        | inr (folder, found, c) ↦ inr (ctx, writer_ok s m ctx (ground arith), (folder, found, c))
      ])
  perform-HasRight (Call.move_folder input) m s = leaves-proceed s _ _ λ _ passed.
      let (ctx, permitted, h) =
        checked s m
          (λ ps.
            map_err failed (
              require
                (check_folder_delete runtime.to_text ps runtime.canister s.folders input.from))
            >> map_err failed (
                require
                  (check_folder_create runtime.to_text ps runtime.canister s.folders input.to)))
          (ground arith) in
      inr (ctx, permitted, (require_ok _ (ground arith), require_ok _ (ground arith)))
  perform-HasRight (Call.delete_folder id) m s = leaves-proceed s _ _ λ ctx passed.
      leaves-reply_or_panic s _ _ (elim (delete_folder-checks s id (now_ms m) _) [
        | inl kept ↦ inl kept
        | inr (folder, found, c) ↦ inr (ctx, writer_ok s m ctx (ground arith), (folder, found, c))
      ])
