-- ===== src/Bucket/Access.antt =====
-- The access to a bucket: `Bucket::read_permission` and `Bucket::write_permission` of
-- src/ic_oss_bucket/src/store.rs, with the verification of an access token (`Token::from_sign1` of
-- src/ic_oss_types/src/cose.rs, over packages for COSE and signatures) as a parameter.
pub mod Granted
use ic_oss.Types.Ids.{Principal}
use ic_oss.Types.Permission.Name.{ParseError}
use ic_oss.Types.Permission.Policies.{Policies, all_policies, read_policies, parse_policies}
use ic_oss.Bucket.Config.{Bucket}
use ic_oss.Base.{
  ℕ, ◌-◌, not, ◌||◌, Option, none, some, List, ltb, leb, if◌then◌else◌, Text, int_lt, int_eq, ℤ,
  pos, negsuc, ◌>>=◌, ◌>>◌, fail_if, map_err, Result, ok, err, same, codes, nat_ord, list_ord,
}
use ic_oss.Base.Sets

-- `Token` of src/ic_oss_types/src/cose.rs
pub record Token : Type 0 where
  pub subject : Principal
  pub audience : Principal
  pub policies : Text

-- The errors, each with its HTTP status in `status_code`.
pub data AccessError : Type 0 where
  archived : AccessError
  bucket_not_writable : AccessError
  invalid_token : Text → AccessError
  invalid_policies : ParseError → AccessError
  unauthorized : AccessError

abbrev pub status_code : AccessError → ℕ
status_code archived = 403
status_code bucket_not_writable = 403
status_code (invalid_token e) = 401
status_code (invalid_policies e) = 403
status_code unauthorized = 401

pub data Role : Type 0 where
  user auditor manager : Role

-- The derived order of the roles.
abbrev pub rank : Role → ℕ
rank user = 0
rank auditor = 1
rank manager = 2

pub record Context : Type 0 where
  pub caller : Principal
  pub ps : Policies
  pub role : Role

abbrev pub bucket_token_aad : Text
bucket_token_aad = codes "ic_oss_bucket"

-- `now_sec as i64`
abbrev pub as_i64 : ℕ → ℤ
as_i64 n = if ltb n 9223372036854775808 then pos n else negsuc (18446744073709551615 - n)

unfoldable pub role_of : Bucket → Principal → Role
role_of bucket caller =
    if Sets.contains caller bucket.managers
    then manager
    else if Sets.contains caller bucket.auditors
    then auditor
    else user

module _ (from_sign1 : List ℕ → List (List ℕ) → List (List ℕ) → Text → ℤ → Result Text Token) where
  -- The policies of a token that is meant for this canister.
  unfoldable pub with_token :
      Bucket → Context → Principal → Option (List ℕ) → ℕ → Result AccessError Context
  with_token bucket ctx canister none now_sec = err unauthorized
  with_token bucket ctx canister (some sign1_token) now_sec = do
    token ← map_err invalid_token (
        from_sign1 sign1_token bucket.trusted_ecdsa_pub_keys bucket.trusted_eddsa_pub_keys
          bucket_token_aad (as_i64 now_sec))
    fail_if (not (same token.audience canister)) unauthorized
    ps ← map_err invalid_policies (parse_policies token.policies)
    ok (record ctx { ps = ps; caller = token.subject })

  unfoldable pub read_permission :
      Bucket → Principal → Principal → Option (List ℕ) → ℕ → Result AccessError Context
  read_permission bucket caller canister sign1_token now_sec =
      let ctx : Context = record {
        caller = caller;
        ps = read_policies;
        role = role_of bucket caller;
      } in
      if int_lt bucket.status (pos 0)
      then (if leb (rank auditor) (rank ctx.role) then ok ctx else err archived)
      else if ltb 0 bucket.visibility || leb (rank auditor) (rank ctx.role)
      then ok ctx
      else with_token bucket ctx canister sign1_token now_sec

  unfoldable pub write_permission :
      Bucket → Principal → Principal → Option (List ℕ) → ℕ → Result AccessError Context
  write_permission bucket caller canister sign1_token now_sec =
      let ctx : Context = record {
        caller = caller;
        ps = all_policies;
        role = role_of bucket caller;
      } in
      if not (int_eq bucket.status (pos 0))
      then err bucket_not_writable
      else if leb (rank manager) (rank ctx.role)
      then ok ctx
      else with_token bucket ctx canister sign1_token now_sec
