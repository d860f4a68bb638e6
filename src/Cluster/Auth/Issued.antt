-- ===== src/Cluster/Auth/Issued.antt =====
-- From the cluster to a bucket: what a token that the cluster issues grants on the bucket.
use ic_oss.Types.Permission.RoundTrip.{parse-print_collect}
use ic_oss.Types.Ids.{Principal}
use ic_oss.Bucket.Config.{Bucket}
use ic_oss.Base.{
  ℕ, ◌≡◌, inl, inr, false, some, List, arith, Option-cases, Text, ℤ, pos, Result, ok, same_iff,
  nat_ord, list_ord,
}
use ic_oss.Base.Maps
use ic_oss.Base.Sets
use ic_oss.Types.Permission.Policy.{policy_ord, collect, Policy}
use ic_oss.Bucket.Access.{
  with_token, bucket_token_aad, as_i64, role_of, write_permission, Token, Context,
}
use ic_oss.Cluster.{Cluster}
use ic_oss.Cluster.Auth.{get_token, get_all_policies}
use ic_oss.Cluster.Auth.Attached.{holds, stored_text, contains-collect, holds-print, IsAuth}

-- The token that the cluster issues says what it has stored.
get_token-stored_text :
    (subject audience : Principal) (c : Cluster) (token : Token)
    → get_token subject audience c ≡ ok token
    → (stored_text subject audience c ≡ some token.policies)
      × (token.subject ≡ subject)
      × (token.audience ≡ audience)
unfolding get_token get_all_policies
get_token-stored_text subject audience c token h = elim (Option-cases (Maps.get subject c.auth)) [
  | inl e ↦ absurd (ground (arith, e, h))
  | inr (table, e) ↦ elim (Option-cases (Maps.get audience table)) [
    | inl e' ↦ absurd (ground (arith, e, e', h))
    | inr (text, e') ↦ ground (arith, e, e', h)
  ]
]

module _ (from_sign1 : List ℕ → List (List ℕ) → List (List ℕ) → Text → ℤ → Result Text Token)
    (bucket : Bucket) (caller canister subject : Principal) (bytes : List ℕ) (now_sec : ℕ)
    (c : Cluster) (token : Token) where
  -- A bucket with the status 0, which is neither readonly nor archived, and of which the caller is
  -- no manager, accepts the bytes of a
  -- token that the cluster issued for a subject on this bucket, if they verify as that token; it
  -- takes the call as the subject's, and the policies of the call are those the subject holds on
  -- the bucket in the cluster. The cluster's texts are prints of policies that are read back as
  -- themselves.
  pub write_permission-get_token :
      IsAuth c
      → get_token subject canister c ≡ ok token
      → from_sign1 bytes bucket.trusted_ecdsa_pub_keys bucket.trusted_eddsa_pub_keys
          bucket_token_aad
          (as_i64 now_sec)
        ≡ ok token
      → bucket.status ≡ pos 0
      → Sets.contains caller bucket.managers ≡ false
      → (ctx : Context) × (write_permission from_sign1 bucket caller canister (some bytes) now_sec
          ≡ ok ctx)
        × (ctx.caller ≡ subject)
        × ((p : Policy) → Sets.contains p ctx.ps ≡ holds subject canister p c)
  unfolding write_permission with_token role_of
  write_permission-get_token inv issued verified writable no_manager =
      let (stored, is_subject, is_audience) =
        get_token-stored_text subject canister c token issued in
      let (ps, is_print, plain) = inv.printed subject canister token.policies stored in
      (
        record { caller = token.subject; ps = collect ps; role = role_of bucket caller },
        ground (
          arith,
          verified,
          writable,
          no_manager,
          is_print,
          parse-print_collect ps plain,
          is_audience,
          same_iff token.audience canister,
        ),
        is_subject,
        λ p. ground (
          arith,
          contains-collect p ps,
          holds-print subject canister ps p c (ground (arith, stored, is_print)) plain,
        ),
      )
