-- ===== src/Bucket/Access/Granted.antt =====
-- Bucket::read_permission and Bucket::write_permission of src/ic_oss_bucket/src/store.rs: what a
-- granted access rests on.
use ic_oss.Types.Ids.{Principal}
use ic_oss.Types.Permission.Policies.{all_policies, read_policies, parse_policies, Policies}
use ic_oss.Bucket.Access.{
  bucket_token_aad, with_token, read_permission, write_permission, Token, Context, as_i64, role_of,
}
use ic_oss.Bucket.Config.{Bucket}
use ic_oss.Base.{
  ℕ, ◌≡◌, ◌⊎◌, inl, inr, Bool, true, ◌&&◌, ◌||◌, Option, some, List, arith, ltb, Bool-cases,
  Option-cases, Text, int_lt, int_le, ℤ, pos, Result-cases, Result, ok, same_iff, nat_ord, list_ord,
}
use ic_oss.Base.Sets

module _ (from_sign1 : List ℕ → List (List ℕ) → List (List ℕ) → Text → ℤ → Result Text Token) where
  -- The context is that of a token: one that verifies under the bucket's keys, for this canister,
  -- and whose policies parse. The caller is the token's subject, whoever made the call.
  pub record IsByToken (bucket : Bucket) (canister : Principal) (sign1_token : Option (List ℕ))
      (now_sec : ℕ) (ctx : Context) : Type 0 where
    pub bytes : List ℕ
    pub given : sign1_token ≡ some bytes
    pub token : Token
    pub verified :
        from_sign1 bytes bucket.trusted_ecdsa_pub_keys bucket.trusted_eddsa_pub_keys
          bucket_token_aad
          (as_i64 now_sec)
        ≡ ok token
    pub for_canister : token.audience ≡ canister
    pub policies : parse_policies token.policies ≡ ok ctx.ps
    pub subject : ctx.caller ≡ token.subject

  -- A manager, with all permissions, or a token.
  abbrev pub IsWriter : Bucket → Principal → Principal → Option (List ℕ) → ℕ → Context → Type 0
  IsWriter bucket caller canister sign1_token now_sec ctx =
      ((Sets.contains caller bucket.managers ≡ true)
        × (ctx.caller ≡ caller)
        × (ctx.ps ≡ all_policies))
      ⊎ IsByToken bucket canister sign1_token now_sec ctx

  -- A manager or an auditor, or anyone in a public bucket that is not archived, with the
  -- permission to read; or a token for a bucket that is not archived.
  abbrev pub IsReader : Bucket → Principal → Principal → Option (List ℕ) → ℕ → Context → Type 0
  IsReader bucket caller canister sign1_token now_sec ctx =
      (((Sets.contains caller bucket.managers || Sets.contains caller bucket.auditors)
            || (ltb 0 bucket.visibility && int_le (pos 0) bucket.status)
          ≡ true)
        × (ctx.caller ≡ caller)
        × (ctx.ps ≡ read_policies))
      ⊎ ((int_le (pos 0) bucket.status ≡ true) × IsByToken bucket canister sign1_token now_sec ctx)

  module _ (bucket : Bucket) (caller canister : Principal) (sign1_token : Option (List ℕ))
      (now_sec : ℕ) (ctx : Context) where
    abbrev caller_with : Policies → Context
    caller_with ps = record { caller = caller; ps = ps; role = role_of bucket caller }

    with_token-IsByToken :
        (ctx' : Context)
        → with_token from_sign1 bucket ctx' canister sign1_token now_sec ≡ ok ctx
        → IsByToken bucket canister sign1_token now_sec ctx
    unfolding with_token
    with_token-IsByToken ctx' h = elim (Option-cases sign1_token) [
      | inl none_given ↦ absurd (ground arith)
      | inr (bytes, given) ↦
          let verdict : Result Text Token =
            from_sign1 bytes bucket.trusted_ecdsa_pub_keys bucket.trusted_eddsa_pub_keys
              bucket_token_aad (as_i64 now_sec) in
          elim (Result-cases verdict) [
            | inr (e, refused) ↦ absurd (ground arith)
            | inl (token, verified) ↦ elim (Result-cases (parse_policies token.policies)) [
              | inr (e, failed) ↦ absurd (ground arith)
              | inl (ps, parsed) ↦ record {
                bytes = bytes;
                given = given;
                token = token;
                verified = verified;
                for_canister = ground (arith, same_iff token.audience canister);
                policies = ground arith;
                subject = ground arith;
              }
            ]
          ]
    ]

    -- Write access is granted only in a bucket whose status is 0, and only to a manager, who has
    -- all permissions, or by a token that verifies under the bucket's keys, is meant for this
    -- canister, and carries the policies that are then in force.
    pub write_permission-IsWriter :
        write_permission from_sign1 bucket caller canister sign1_token now_sec ≡ ok ctx
        → (bucket.status ≡ pos 0) × IsWriter bucket caller canister sign1_token now_sec ctx
    unfolding write_permission role_of
    write_permission-IsWriter h = elim (Bool-cases (Sets.contains caller bucket.managers)) [
      | inl is_manager ↦ (ground arith, inl (ground arith))
      | inr other ↦
          (ground arith, inr (with_token-IsByToken (caller_with all_policies) (ground arith)))
    ]

    -- Read access is granted only to a manager or an auditor, to anyone where the bucket is public
    -- and not archived, or, where it is not archived, by a token as for write access. Without a
    -- token the permission is to read and to list.
    pub read_permission-IsReader :
        read_permission from_sign1 bucket caller canister sign1_token now_sec ≡ ok ctx
        → IsReader bucket caller canister sign1_token now_sec ctx
    unfolding read_permission role_of
    read_permission-IsReader h = elim (Bool-cases (int_lt bucket.status (pos 0))) [
      | inl below ↦ inl (ground arith)
      | inr live ↦
          let open_to_caller : Bool =
            ltb 0 bucket.visibility
            || (Sets.contains caller bucket.managers || Sets.contains caller bucket.auditors) in
          elim (Bool-cases open_to_caller) [
            | inl allowed ↦ inl (ground arith)
            | inr closed ↦
                inr (ground arith, with_token-IsByToken (caller_with read_policies) (ground arith))
          ]
    ]
