-- ===== src/Types/Validation.antt =====
-- The tests of the inputs of the update calls: `validate` of the inputs in file.rs and folder.rs of
-- src/ic_oss_types/src.
use ic_oss.Types.FileName.{valid_file_name}
use ic_oss.Base.{
  Bool, false, not, ◌||◌, Option, none, some, is_empty, int_lt, ℤ, pos, negsuc, ◌>>◌, fail_if,
  Result, ok,
}
use ic_oss.Types.Inputs.{CreateFileInput, UpdateFileInput, UpdateFolderInput, CreateFolderInput}

pub data InputError : Type 0 where
  invalid_file_name : InputError
  invalid_folder_name : InputError
  empty_content_type : InputError
  empty_content : InputError
  status_not_0_or_1 : InputError
  status_not_in_range : InputError

-- The tests of what an input may leave out.
abbrev pub is_some_and {ℓ} : {A : Type ℓ} → (A → Bool) → Option A → Bool
is_some_and test none = false
is_some_and test (some a) = test a

-- `!(low..=1i8).contains(&status)`
abbrev pub is_outside : ℤ → ℤ → Bool
is_outside low status = int_lt status low || int_lt (pos 1) status

module _ {V : Type 0} where
  unfoldable pub validate_create_file : CreateFileInput V → Result InputError (Unit {0})
  validate_create_file input = do
    fail_if (not (valid_file_name input.name)) invalid_file_name
    fail_if (is_empty input.content_type) empty_content_type
    fail_if (is_some_and is_empty input.content) empty_content
    fail_if (is_some_and (is_outside (pos 0)) input.status) status_not_0_or_1
    ok tt

  unfoldable pub validate_update_file : UpdateFileInput V → Result InputError (Unit {0})
  validate_update_file input = do
    fail_if (is_some_and (λ name. not (valid_file_name name)) input.name) invalid_file_name
    fail_if (is_some_and is_empty input.content_type) empty_content_type
    fail_if (is_some_and (is_outside (negsuc 0)) input.status) status_not_in_range
    ok tt

unfoldable pub validate_create_folder : CreateFolderInput → Result InputError (Unit {0})
validate_create_folder input = fail_if (not (valid_file_name input.name)) invalid_folder_name

unfoldable pub validate_update_folder : UpdateFolderInput → Result InputError (Unit {0})
validate_update_folder input = do
  fail_if (is_some_and (λ name. not (valid_file_name name)) input.name) invalid_folder_name
  fail_if (is_some_and (is_outside (negsuc 0)) input.status) status_not_in_range
  ok tt
