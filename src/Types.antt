-- ===== src/Types.antt =====
-- The types that the canisters share, src/ic_oss_types.
pub mod Ids
pub mod Inputs
pub mod FileName
pub mod Permission
pub mod Validation
pub mod Url
