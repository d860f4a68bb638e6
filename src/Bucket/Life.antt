-- ===== src/Bucket/Life.antt =====
-- The life of a bucket: its installation, and then update calls, calls of the administration and
-- upgrades, in any order.
use ic_oss.Bucket.Fs.Run.{Reach_keeps, fresh-IsStore, fresh}
use ic_oss.Types.Ids.{Principal}
use ic_oss.Bucket.Admin.{
  AdminCall, administer, updated_bucket, apply_admin, is_controller, validate_admin,
}
use ic_oss.Bucket.Fs.{Store}
use ic_oss.Bucket.Install.{CanisterArgs, validate_upgrade, reconfigured}
use ic_oss.Bucket.Fs.Invariant.{IsStore}
use ic_oss.Base.{
  ℕ, ◌≤◌, ◌<◌, ◌≡◌, refl, inl, inr, Bool, ◌||◌, Option, none, some, List, [], ◌∷◌, arith, get_or,
  Bool-cases, All, Result-cases, u32_max,
}
use ic_oss.Bucket.Config.{Bucket, default_bucket}
use ic_oss.Bucket.Install
use ic_oss.Bucket.Calls.{Runtime, Message}
use ic_oss.Bucket.Calls.Reaching.{Call, perform, Reach-perform}

pub data Event (V : Type 0) : Type 0 where
  update_call : Call V → Message → Event V
  admin_call : Principal → AdminCall → Event V
  canister_upgrade : Option CanisterArgs → Event V

-- An upgrade that traps leaves the bucket as it was.
unfoldable pub upgraded_store : {V : Type 0} → Option CanisterArgs → Store V → Store V
upgraded_store args s = elim (Install.post_upgrade args s.bucket) [
  | none ↦ s
  | some b ↦ record s { bucket = b }
]

module _ {V : Type 0} (runtime : Runtime V) (platform_controls : Principal → Bool) where
  unfoldable pub happen : Event V → Store V → Store V
  happen (Event.update_call call m) s = perform runtime call m s
  happen (Event.admin_call caller call) s = record s {
    bucket = (administer platform_controls caller call s.bucket).1;
  }
  happen (Event.canister_upgrade args) s = upgraded_store args s

  unfoldable pub live : List (Event V) → Store V → Store V
  live [] s = s
  live (event ∷ events) s = live events (happen event s)

-- A depth limit that is given is a `u8`.
abbrev pub IsU8 : Option ℕ → Type 0
IsU8 none = Unit
IsU8 (some n) = n < 256

abbrev pub IsTypedAdmin : AdminCall → Type 0
IsTypedAdmin (AdminCall.update_bucket input) = IsU8 input.max_folder_depth
IsTypedAdmin call = Unit

abbrev pub IsTypedUpgrade : Option CanisterArgs → Type 0
IsTypedUpgrade (some (CanisterArgs.to_upgrade args)) = IsU8 args.max_folder_depth
IsTypedUpgrade args = Unit

-- The numbers that an installation gives are in their types.
abbrev pub IsTypedInstall : Option CanisterArgs → Type 0
IsTypedInstall (some (CanisterArgs.to_install args)) =
    (args.max_folder_depth < 256) × (args.file_id ≤ u32_max)
IsTypedInstall args = Unit

-- The depth limits in the arguments are `u8`.
abbrev pub IsTyped : {V : Type 0} → Event V → Type 0
IsTyped (Event.update_call call m) = Unit
IsTyped (Event.admin_call caller call) = IsTypedAdmin call
IsTyped (Event.canister_upgrade args) = IsTypedUpgrade args

IsStore-bucket :
    {V : Type 0} (b : Bucket) (s : Store V)
    → IsStore s
    → b.file_id ≡ s.bucket.file_id
    → b.folder_id ≡ s.bucket.folder_id
    → b.max_folder_depth < 256
    → IsStore (record s { bucket = b })
IsStore-bucket b s inv file_id folder_id depth = record {
  tree = inv.tree;
  linked = inv.linked;
  file_bound = λ id f e. omega (arith, inv.file_bound id f e, file_id);
  folder_bound = λ id f e. omega (arith, inv.folder_bound id f e, folder_id);
  file_id_u32 = omega (arith, inv.file_id_u32, file_id);
  folder_id_u32 = omega (arith, inv.folder_id_u32, folder_id);
  depth_u8 = depth;
}

-- What no change of the configuration touches, and what stays a `u8`.
record IsConfigured (b b' : Bucket) : Type 0 where
  file_id : b'.file_id ≡ b.file_id
  folder_id : b'.folder_id ≡ b.folder_id
  depth : b.max_folder_depth < 256 → b'.max_folder_depth < 256

get_or-IsU8 : (n : Option ℕ) (d : ℕ) → IsU8 n → d < 256 → get_or n d < 256
get_or-IsU8 none d h k = k
get_or-IsU8 (some n) d h k = h

same-IsConfigured : (b : Bucket) → IsConfigured b b
same-IsConfigured b = record { file_id = refl; folder_id = refl; depth = λ h. h }

apply_admin-IsConfigured :
    (call : AdminCall) (b : Bucket) → IsTypedAdmin call → IsConfigured b (apply_admin call b)
unfolding apply_admin updated_bucket
apply_admin-IsConfigured (AdminCall.update_bucket input) b typed = record {
  file_id = refl;
  folder_id = refl;
  depth = λ h. get_or-IsU8 input.max_folder_depth b.max_folder_depth typed h;
}
apply_admin-IsConfigured (AdminCall.set_managers args) b typed = record {
  file_id = refl;
  folder_id = refl;
  depth = λ h. h;
}
apply_admin-IsConfigured (AdminCall.add_managers args) b typed = record {
  file_id = refl;
  folder_id = refl;
  depth = λ h. h;
}
apply_admin-IsConfigured (AdminCall.remove_managers args) b typed = record {
  file_id = refl;
  folder_id = refl;
  depth = λ h. h;
}
apply_admin-IsConfigured (AdminCall.set_auditors args) b typed = record {
  file_id = refl;
  folder_id = refl;
  depth = λ h. h;
}
apply_admin-IsConfigured (AdminCall.add_auditors args) b typed = record {
  file_id = refl;
  folder_id = refl;
  depth = λ h. h;
}
apply_admin-IsConfigured (AdminCall.remove_auditors args) b typed = record {
  file_id = refl;
  folder_id = refl;
  depth = λ h. h;
}

administer-IsConfigured :
    (platform_controls : Principal → Bool) (caller : Principal) (call : AdminCall) (b : Bucket)
    → IsTypedAdmin call
    → IsConfigured b (administer platform_controls caller call b).1
unfolding administer
administer-IsConfigured platform_controls caller call b typed =
    elim (Bool-cases (platform_controls caller || is_controller b caller)) [
      | inr e ↦ rw (e) (same-IsConfigured b)
      | inl e ↦ elim (Result-cases (validate_admin call)) [
        | inr (x, e') ↦ rw (e, e') (same-IsConfigured b)
        | inl (_, e') ↦ rw (e, e') (apply_admin-IsConfigured call b typed)
      ]
    ]

upgraded_store-IsStore :
    {V : Type 0} (args : Option CanisterArgs) (s : Store V)
    → IsTypedUpgrade args
    → IsStore s
    → IsStore (upgraded_store args s)
unfolding upgraded_store Install.post_upgrade reconfigured
upgraded_store-IsStore none s typed inv = inv
upgraded_store-IsStore (some (CanisterArgs.to_install args)) s typed inv = inv
upgraded_store-IsStore (some (CanisterArgs.to_upgrade args)) s typed inv =
    elim (Result-cases (validate_upgrade args)) [
      | inr (x, e) ↦ rw (upgraded_store, Install.post_upgrade, e) inv
      | inl (_, e) ↦
          rw (upgraded_store, Install.post_upgrade, e)
            (IsStore-bucket (reconfigured args s.bucket) s inv refl refl
              (get_or-IsU8 args.max_folder_depth s.bucket.max_folder_depth typed inv.depth_u8))
    ]

module _ {V : Type 0} (runtime : Runtime V) (platform_controls : Principal → Bool) where
  happen-IsStore :
      (event : Event V) (s : Store V)
      → IsTyped event
      → IsStore s
      → IsStore (happen runtime platform_controls event s)
  unfolding happen
  happen-IsStore (Event.update_call call m) s typed inv =
      Reach_keeps (Reach-perform runtime call m s) inv
  happen-IsStore (Event.admin_call caller call) s typed inv =
      let configured = administer-IsConfigured platform_controls caller call s.bucket typed in
      IsStore-bucket _ s inv configured.file_id configured.folder_id (configured.depth inv.depth_u8)
  happen-IsStore (Event.canister_upgrade args) s typed inv = upgraded_store-IsStore args s typed inv

  live-keeps :
      (events : List (Event V)) (s : Store V)
      → All IsTyped events
      → IsStore s
      → IsStore (live runtime platform_controls events s)
  unfolding live
  live-keeps [] s typed inv = inv
  live-keeps (event ∷ events) s (t, typed) inv =
      live-keeps events (happen runtime platform_controls event s) typed
        (happen-IsStore event s t inv)

  -- From its installation on, with arguments or without, whatever calls of updates and of the
  -- administration are made, by whom and with which result, and however it is upgraded in between:
  -- the folders of a bucket form a tree, each folder lists just the files whose parent it is, and
  -- all ids lie below the counters. The depth limits that are given are `u8`, and the first file's
  -- id is a `u32`.
  pub live-IsStore :
      (args : Option CanisterArgs) (b : Bucket) (events : List (Event V))
      → Install.init args default_bucket ≡ some b
      → IsTypedInstall args
      → All IsTyped events
      → IsStore (live runtime platform_controls events (fresh b))
  unfolding Install.init
  live-IsStore none b events installed typed_args typed = live-keeps events (fresh b) typed (
      fresh-IsStore b (ground (arith, installed)) (ground (arith, installed))
        (ground (arith, installed)) (ground (arith, installed)))
  live-IsStore (some (CanisterArgs.to_upgrade args)) b events installed typed_args typed =
      absurd (ground (arith, installed))
  live-IsStore (some (CanisterArgs.to_install args)) b events installed (depth, file_id) typed =
      live-keeps events (fresh b) typed (
        fresh-IsStore b (ground (arith, installed)) (ground (arith, installed, file_id))
          (ground (arith, installed)) (ground (arith, installed, depth)))
