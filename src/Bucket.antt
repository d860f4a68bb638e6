-- ===== src/Bucket.antt =====
-- The storage canister, src/ic_oss_bucket: its folder tree, its files and chunks, and who may
-- read and write them.
pub mod Error
pub mod Folders
pub mod Config
pub mod Access
pub mod Checks
pub mod Fs
pub mod Listing
pub mod Upload
pub mod Create
pub mod Calls
pub mod Admin
pub mod Install
pub mod Queries
pub mod Range
pub mod Http
pub mod Life
