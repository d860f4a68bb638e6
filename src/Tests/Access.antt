-- ===== src/Tests/Access.antt =====
-- Runs of the access to a bucket and of its checks, and their theorems at concrete inputs.
use ic_oss.Types.Ids.{Principal}
use ic_oss.Bucket.Checks.Ending.{checks_end}
use ic_oss.Bucket.Listing.{below_reversed, list_loop, find_folder, list_folders}
use ic_oss.Bucket.Listing.Page.{list_folders-IsPage, IsPage}
use ic_oss.Bucket.Folders
use ic_oss.Types.Permission.Rule
use ic_oss.Types.Permission.Rule.{
  check_constraint, parse_constraint, parse_parts, parse_permission, permission_ord,
}
use ic_oss.Types.Permission.Policy.{
  covers_all, check_path, validate_names, parse_resources, has_permission, has_permission_any,
  parse_optional, parse_policy_parts, parse_policy, collect, policy_ord,
}
use ic_oss.Types.Permission.Name.{is_name_char, validate_chars, validate_name}
use ic_oss.Types.Permission.Kind.{
  check_resource, check_operation, parse_resource, parse_operation, Resource, Operation,
  resource_ord, operation_ord,
}
use ic_oss.Types.Permission.Policies.{grants_any, parse_all, parse_policies, Policies, grants}
use ic_oss.Bucket.Access.{
  with_token, read_permission, write_permission, Token, Context, role_of, user,
}
use ic_oss.Bucket.Checks.{
  get_ancestors, granted_above, check_folder_list, check_folder_read, check_file_list,
  check_file_read, check_file_create, check_file_delete, check_file_update, check_folder_create,
  check_folder_delete, right,
}
use ic_oss.Bucket.Config.{default_bucket}
use ic_oss.Bucket.Folders.{
  FoldersTree, depth_loop, ancestors_loop, ancestors_map, FolderMetadata, new, depth,
}
use ic_oss.Bucket.Folders.Shape.{new-IsTree, IsTree}
use ic_oss.Bucket.Folders.Adding.{add_folder-IsTree}
use ic_oss.Bucket.Access.Granted.{
  IsWriter, IsReader, write_permission-IsWriter, read_permission-IsReader,
}
use ic_oss.Bucket.Checks.Inherited.{
  check_file_read_iff, check_file_update_iff, checks_inherit, IsAbove,
}
use ic_oss.Base.{
  ℕ, ◌≡◌, refl, ◌≢◌, ◌↔◌, ◌⊎◌, true, false, none, some, List, [], ◌∷◌, map, arith, Set,
  if◌then◌else◌, Text, ℤ, pos, Result, ok, err, same, nat_ord, list_cmp, list_ord, codes, split,
  decimal,
}
use ic_oss.Base.Maps
use ic_oss.Base.Sets

abbrev this_canister : Principal
this_canister = 9 ∷ []

abbrev alice : Principal
alice = 1 ∷ []

abbrev alice_token : Token
alice_token = record {
  subject = alice;
  audience = this_canister;
  policies = codes "Folder.Write.File:1";
}

-- A verification that accepts the byte 7 alone, as Alice's token.
abbrev only_seven : List ℕ → List (List ℕ) → List (List ℕ) → Text → ℤ → Result Text Token
only_seven bytes ecdsa eddsa aad now_sec =
    if same bytes (7 ∷ []) then ok alice_token else err (codes "invalid token")

abbrev on_folder : Policies
on_folder =
    record {
      permission = right Resource.folder Operation.write (some Resource.file);
      resources = codes "1" ∷ [];
    }
    ∷ []

abbrev by_alice : Context
by_alice = record { caller = alice; ps = on_folder; role = user }

grants_write :
    write_permission only_seven default_bucket (2 ∷ []) this_canister (some (7 ∷ [])) 5
    ≡ ok by_alice
unfolding write_permission with_token role_of Sets.contains parse_policies parse_all parse_policy
    parse_policy_parts parse_optional parse_resources validate_names collect parse_permission
    parse_parts parse_constraint parse_resource parse_operation split list_cmp validate_name
    validate_chars is_name_char Sets.insert
grants_write = refl

write_permission-IsWriter_example :
    (default_bucket.status ≡ pos 0)
    × IsWriter only_seven default_bucket (2 ∷ []) this_canister (some (7 ∷ [])) 5 by_alice
write_permission-IsWriter_example =
    write_permission-IsWriter only_seven default_bucket (2 ∷ []) this_canister (some (7 ∷ [])) 5
      by_alice grants_write

grants_read :
    read_permission only_seven default_bucket (2 ∷ []) this_canister (some (7 ∷ [])) 5 ≡ ok by_alice
unfolding read_permission with_token role_of Sets.contains parse_policies parse_all parse_policy
    parse_policy_parts parse_optional parse_resources validate_names collect parse_permission
    parse_parts parse_constraint parse_resource parse_operation split list_cmp validate_name
    validate_chars is_name_char Sets.insert
grants_read = refl

read_permission-IsReader_example :
    IsReader only_seven default_bucket (2 ∷ []) this_canister (some (7 ∷ [])) 5 by_alice
read_permission-IsReader_example =
    read_permission-IsReader only_seven default_bucket (2 ∷ []) this_canister (some (7 ∷ [])) 5
      by_alice grants_read

-- The text of a principal, for these runs its bytes.
abbrev bytes_of : Principal → Text
bytes_of p = p

abbrev folder_under : ℕ → Set ℕ → FolderMetadata
folder_under parent folders = record {
  parent = parent;
  name = codes "f";
  files = [];
  folders = folders;
  created_at = 0;
  updated_at = 0;
  status = pos 0;
}

-- Folder 2 in folder 1 in the root.
abbrev nested : FoldersTree
nested =
    (0, record (folder_under 0 (1 ∷ [])) { name = codes "root" })
    ∷ (1, folder_under 0 (2 ∷ []))
    ∷ (2, folder_under 1 [])
    ∷ []

abbrev nested_one : FoldersTree
nested_one =
    (0, record (folder_under 0 (1 ∷ [])) { name = codes "root" }) ∷ (1, folder_under 0 []) ∷ []

adds_first : Folders.add_folder new (folder_under 0 []) 1 10 100 ≡ ok nested_one
unfolding Folders.add_folder depth depth_loop Maps.get Maps.put Sets.insert
adds_first = refl

adds_second : Folders.add_folder nested_one (folder_under 1 []) 2 10 100 ≡ ok nested
unfolding Folders.add_folder depth depth_loop Maps.get Maps.put Sets.insert
adds_second = refl

nested-IsTree : IsTree nested
nested-IsTree =
    add_folder-IsTree nested_one (folder_under 1 []) 2 10 100
      (add_folder-IsTree new (folder_under 0 []) 1 10 100 new-IsTree refl adds_first) refl
      adds_second

found_first : Maps.get 1 nested ≡ some (folder_under 0 (2 ∷ []))
unfolding Maps.get
found_first = refl

found_second : Maps.get 2 nested ≡ some (folder_under 1 [])
unfolding Maps.get
found_second = refl

first-IsAbove : IsAbove nested 1 2
first-IsAbove =
    IsAbove.below (folder_under 1 []) (ground arith) found_second
      (IsAbove.self (folder_under 0 (2 ∷ [])) (ground arith) found_first)

may_create : check_file_create bytes_of on_folder this_canister nested 2 ≡ some true
unfolding check_file_create grants granted_above grants_any get_ancestors ancestors_map
    ancestors_loop Maps.get has_permission has_permission_any Rule.check check_resource
    check_operation check_constraint check_path covers_all decimal Sets.contains list_cmp
may_create = refl

may_not_create_above : check_file_create bytes_of on_folder this_canister nested 0 ≡ some false
unfolding check_file_create grants granted_above grants_any get_ancestors ancestors_map
    ancestors_loop Maps.get has_permission has_permission_any Rule.check check_resource
    check_operation check_constraint check_path covers_all decimal Sets.contains list_cmp
may_not_create_above = refl

checks_inherit_example :
    (grants on_folder (right Resource.folder Operation.list none) (decimal 1) ≡ true
      → check_folder_list bytes_of on_folder this_canister nested 2 ≡ some true)
    × (grants on_folder (right Resource.folder Operation.read (some Resource.folder)) (decimal 1)
          ≡ true
        → check_folder_read bytes_of on_folder this_canister nested 2 ≡ some true)
    × (grants on_folder (right Resource.folder Operation.list (some Resource.file)) (decimal 1)
          ≡ true
        → check_file_list bytes_of on_folder this_canister nested 2 ≡ some true)
    × (grants on_folder (right Resource.folder Operation.read (some Resource.file)) (decimal 1)
          ≡ true
        → (id : ℕ) → check_file_read bytes_of on_folder this_canister nested id 2 ≡ some true)
    × (grants on_folder (right Resource.folder Operation.write (some Resource.file)) (decimal 1)
          ≡ true
        → (check_file_create bytes_of on_folder this_canister nested 2 ≡ some true)
          × ((id : ℕ) → check_file_update bytes_of on_folder this_canister nested id 2 ≡ some true))
    × (grants on_folder (right Resource.folder Operation.delete (some Resource.file)) (decimal 1)
          ≡ true
        → check_file_delete bytes_of on_folder this_canister nested 2 ≡ some true)
    × (grants on_folder (right Resource.folder Operation.write (some Resource.folder)) (decimal 1)
          ≡ true
        → check_folder_create bytes_of on_folder this_canister nested 2 ≡ some true)
    × (grants on_folder (right Resource.folder Operation.delete (some Resource.folder)) (decimal 1)
          ≡ true
        → check_folder_delete bytes_of on_folder this_canister nested 2 ≡ some true)
checks_inherit_example =
    checks_inherit bytes_of on_folder this_canister nested nested-IsTree 1 2 first-IsAbove

check_file_read_iff_example :
    (check_file_read bytes_of on_folder this_canister nested 5 2 ≡ some true) ↔ (
      (grants on_folder (right Resource.file Operation.read none) (decimal 5) ≡ true)
      ⊎ (grants on_folder
            (right Resource.bucket Operation.read (some Resource.file))
            (bytes_of this_canister)
          ≡ true)
      ⊎ ((a : ℕ) × IsAbove nested a 2
          × (grants on_folder
                (right Resource.folder Operation.read (some Resource.file))
                (decimal a)
              ≡ true)))
check_file_read_iff_example =
    check_file_read_iff bytes_of on_folder this_canister nested nested-IsTree 5 2
      (folder_under 1 []) (ground arith) found_second

check_file_update_iff_example :
    (check_file_update bytes_of on_folder this_canister nested 5 2 ≡ some true) ↔ (
      (grants on_folder (right Resource.file Operation.write none) (decimal 5) ≡ true)
      ⊎ (grants on_folder
            (right Resource.bucket Operation.write (some Resource.file))
            (bytes_of this_canister)
          ≡ true)
      ⊎ ((a : ℕ) × IsAbove nested a 2
          × (grants on_folder
                (right Resource.folder Operation.write (some Resource.file))
                (decimal a)
              ≡ true)))
check_file_update_iff_example =
    check_file_update_iff bytes_of on_folder this_canister nested nested-IsTree 5 2
      (folder_under 1 []) (ground arith) found_second

lists_two : map (λ info. info.id) (list_folders nested by_alice 0 5 0) ≡ 1 ∷ []
unfolding list_folders list_loop find_folder below_reversed Maps.get
lists_two = refl

list_folders-IsPage_example :
    IsPage (2 ∷ []) 5 3 (map (λ info. info.id) (list_folders nested by_alice 1 5 3))
list_folders-IsPage_example =
    list_folders-IsPage nested by_alice 1 5 3 (folder_under 0 (2 ∷ [])) nested-IsTree found_first
      refl (tt, tt)

checks_end_example :
    (check_folder_list bytes_of on_folder this_canister new 5 ≢ none)
    × (check_folder_read bytes_of on_folder this_canister new 5 ≢ none)
    × (check_file_list bytes_of on_folder this_canister new 5 ≢ none)
    × (check_file_read bytes_of on_folder this_canister new 3 5 ≢ none)
    × (check_file_create bytes_of on_folder this_canister new 5 ≢ none)
    × (check_file_update bytes_of on_folder this_canister new 3 5 ≢ none)
    × (check_file_delete bytes_of on_folder this_canister new 5 ≢ none)
    × (check_folder_create bytes_of on_folder this_canister new 5 ≢ none)
    × (check_folder_delete bytes_of on_folder this_canister new 5 ≢ none)
checks_end_example = checks_end bytes_of on_folder this_canister new 3 5 new-IsTree
