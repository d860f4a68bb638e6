-- ===== src/Tests/Names.antt =====
-- Names and paths of files and folders, and the theorems about them at concrete inputs.
use ic_oss.Types.FileName.{
  is_whitespace, ends_in_whitespace, is_trimmed, byte_length, last_component, file_name,
  valid_file_name,
}
use ic_oss.Base.{◌≡◌, refl, ◌↔◌, true, false, list_cmp, codes, split}
use ic_oss.Types.FileName.Valid.{valid_file_name_iff, IsPlainName}

dots_are_valid : valid_file_name (codes "...") ≡ true
unfolding valid_file_name is_trimmed ends_in_whitespace is_whitespace byte_length file_name
    last_component split list_cmp
dots_are_valid = refl

trailing_slash_is_not : valid_file_name (codes "file.txt/") ≡ false
unfolding valid_file_name is_trimmed ends_in_whitespace is_whitespace byte_length file_name
    last_component split list_cmp
trailing_slash_is_not = refl

valid_file_name_iff_example : (valid_file_name (codes "a.txt") ≡ true) ↔ IsPlainName (codes "a.txt")
valid_file_name_iff_example = valid_file_name_iff (codes "a.txt")
