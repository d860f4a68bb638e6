-- ===== src/Lib.antt =====
-- A verification library for ic-oss, a decentralised object storage of several canisters.
--
-- A cluster canister manages buckets and access; a bucket canister keeps files as chunks in stable
-- memory, arranged in a tree of folders. The clients of the calls hold access tokens, whose policies
-- say which operations they permit on which resources. Other canisters may hold a smaller store of files
-- of their own. The library models a bucket, the cluster, that store and
-- the permissions:
--   Types/Permission   src/ic_oss_types/src/permission.rs: Resource and Operation (Kind), Permission
--                      (Rule), Resources and Policy (Policy), Policies (Policies). `check`,
--                      `print_*` and `parse_*` are the methods check, fmt and try_from of the types;
--                      `grants` and `grants_any` are has_permission and has_permission_any of
--                      Policies.
--   Types/Inputs       the inputs of the update calls, src/ic_oss_types/src/file.rs and folder.rs
--   Types/Validation   `validate` of these inputs
--   Types/FileName     valid_file_name and valid_file_parent of file.rs
--   Types/Ids          principals and digests
--   Bucket/Config      Bucket of src/ic_oss_bucket/src/store.rs: configuration and counters
--   Bucket/Error       the error messages of that file
--   Bucket/Access      read_permission and write_permission of Bucket in that file; a token's
--                      verification, Token::from_sign1 of src/ic_oss_types/src/cose.rs, is a
--                      parameter
--   Bucket/Checks      src/ic_oss_bucket/src/permission.rs: what a request needs of the policies
--   Bucket/Folders     FoldersTree of that file, as a map from ids to folders
--   Bucket/Listing     list_folders and list_files of FoldersTree
--   Bucket/Upload      the loop of create_file over the content's chunks
--   Bucket/Create      the part of create_file, src/ic_oss_bucket/src/api_update.rs, that writes
--   Bucket/Calls       the handlers of src/ic_oss_bucket/src/api_update.rs; `replied` and `trapped`
--                      are the two ways in which a call ends
--   Bucket/Queries     src/ic_oss_bucket/src/api_query.rs
--   Bucket/Range       detect_range and the loop of range_response in src/ic_oss_bucket/src/api_http.rs
--   Bucket/Http        the rest of that file; Types/Url is UrlFileParam of src/ic_oss_types/src/file.rs
--   Bucket/Admin       src/ic_oss_bucket/src/api_admin.rs, with lib.rs and src/ic_oss_types/src/bucket.rs
--   Bucket/Install     src/ic_oss_bucket/src/api_init.rs
--   Bucket/Life        a bucket's installation, calls and upgrades in any order
--   Bucket/Fs          the module fs of store.rs: the record Store holds the five thread-local stores, and each
--                      operation is a function of it (Fs, Update, Chunk, Delete)
--   Can                src/ic_oss_can/src/store.rs and types.rs, what its macros write: the module fs, and
--                      the module api in Can/Calls
--   Cluster            State and the stores of src/ic_oss_cluster/src/store.rs, and the guards of lib.rs
--   Cluster/Auth       PoliciesTable and the module auth of store.rs, get_token of api_auth.rs, and
--                      admin_attach_policies and admin_detach_policies of api_admin.rs
--   Cluster/Versions   the module wasm of store.rs
--   Cluster/Deploy     admin_create_bucket, admin_deploy_bucket and its validation in api_admin.rs
--   Cluster/Upgrade    upgrade_bucket and upgrade_buckets in api_admin.rs
--   Cluster/Admin      the setters, admin_batch_call_buckets, and init.rs
--   Cluster/Queries    api_query.rs
-- A bucket's calls take the policies of a token, which the cluster issues from what it has stored for
-- its subject; Cluster/Auth/Issued puts the two together.
-- Base holds what these share: tests, lists, maps and sets, the order of Rust's Ord, results, machine
-- words, and strings as lists of code points. The other modules below a part's hold its proofs, and
-- Tests holds runs and the theorems at concrete inputs.
--
-- Conventions. A BTreeMap or a stable map is an association list in which a key that is put takes
-- the place of what it had; a BTreeSet is an ascending list. u8, u32, u64 and usize are natural
-- numbers, where a sum that can wrap around is written with its modulus, as the release build
-- computes it, and usize has the 32 bits of wasm. An operation of fs returns its result beside the
-- state it leaves: what it wrote before it failed stays there. A checker that a caller hands to an
-- operation is a parameter. A panic of the program is an error of its own, which ends a call with a
-- trap that restores the store. The values of the metadata maps, a type of another package, are the
-- parameter V. A handler of the cluster that waits for another canister takes the results of its calls
-- as arguments, and a function for what other calls did to the cluster meanwhile.
--
-- Loops. The walks of depth and depth_or_is_ancestor stop at 1024 steps in the source, which is their
-- recursion. The walk of ancestors has no limit in the source; in the model it has as many rounds as
-- the map has entries, and returns none if they do not suffice. They suffice in a tree, where no walk
-- visits a folder twice. A client of the streaming has as many calls as a file has chunks after the
-- first, which suffice. The loops over chunks run over a range of indices, and the loop of create_file over
-- the list of the chunks. The upgrade of all buckets, which a timer runs again after each bucket, takes a
-- list of turns, one for each run; more turns than there are versions before the buckets suffice.
--
-- Not modelled: the serialisation of the stores (a library's), the certificates of the
-- HTTP interface (a package's), the cluster's top-up of buckets and the keys and signatures of its tokens,
-- the client library and the command line tool.
pub mod Base
pub mod Types
pub mod Bucket
pub mod Can
pub mod Cluster
pub mod Tests
