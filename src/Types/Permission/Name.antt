-- ===== src/Types/Permission/Name.antt =====
-- `validate_name`, and the errors of the parsers.
use ic_oss.Base.{ℕ, Bool, ◌&&◌, ◌||◌, [], ◌∷◌, leb, ◌==◌, if◌then◌else◌, Text, Result, ok, err}

pub data ParseError : Type 0 where
  empty_string : ParseError
  invalid_character : ℕ → ParseError
  invalid_resource : Text → ParseError → ParseError
  invalid_operation : Text → ParseError → ParseError
  invalid_constraint : ParseError → ParseError
  invalid_permission_format : Text → ParseError
  invalid_policy_format : Text → ParseError

-- `'A'..='Z' | 'a'..='z' | '0'..='9' | '_' | '-'`
unfoldable pub is_name_char : ℕ → Bool
is_name_char c =
    (leb b'A' c && leb c b'Z')
    || ((leb b'a' c && leb c b'z') || ((leb b'0' c && leb c b'9') || (c == b'_' || c == b'-')))

-- The loop over the characters: the first that is not allowed is reported.
unfoldable pub validate_chars : Text → Result ParseError (Unit {0})
validate_chars [] = ok tt
validate_chars (c ∷ s) =
    let rest = validate_chars s in if is_name_char c then rest else err (invalid_character c)

unfoldable pub validate_name : Text → Result ParseError (Unit {0})
validate_name [] = err empty_string
validate_name (c ∷ s) = validate_chars (c ∷ s)
