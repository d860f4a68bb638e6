-- ===== src/Types/FileName.antt =====
-- `valid_file_name` and `valid_file_parent` of src/ic_oss_types/src/file.rs, with what they use of
-- the standard library: `str::trim`, the bytes of a string in UTF-8, and `Path::file_name`.
pub mod Valid
use ic_oss.Base.{
  ℕ, ◌+◌, Bool, true, false, not, ◌&&◌, ◌||◌, Option, none, some, List, [], ◌∷◌, ltb, leb, ◌==◌,
  if◌then◌else◌, is_empty, Text, same, nat_ord, list_ord, option_ord, split,
}

-- The characters that Unicode calls White_Space.
unfoldable pub is_whitespace : ℕ → Bool
is_whitespace c =
    (leb 9 c && leb c 13)
    || c == 32
    || c == 133
    || c == 160
    || c == 5760
    || (leb 8192 c && leb c 8202)
    || c == 8232
    || c == 8233
    || c == 8239
    || c == 8287
    || c == 12288

unfoldable pub ends_in_whitespace : Text → Bool
ends_in_whitespace [] = false
ends_in_whitespace (c ∷ cs) = if is_empty cs then is_whitespace c else ends_in_whitespace cs

-- `name.trim() == name`: no whitespace at either end.
unfoldable pub is_trimmed : Text → Bool
is_trimmed [] = true
is_trimmed (c ∷ cs) = not (is_whitespace c) && not (ends_in_whitespace (c ∷ cs))

-- The bytes of a character in UTF-8.
abbrev pub utf8_length : ℕ → ℕ
utf8_length c = if ltb c 128 then 1 else if ltb c 2048 then 2 else if ltb c 65536 then 3 else 4

-- `name.len()`
unfoldable pub byte_length : Text → ℕ
byte_length [] = 0
byte_length (c ∷ cs) = utf8_length c + byte_length cs

abbrev pub slash : ℕ
slash = 47

abbrev pub dot : Text
dot = 46 ∷ []

abbrev pub dot_dot : Text
dot_dot = 46 ∷ 46 ∷ []

-- The last component of a path, from its pieces between slashes; empty pieces and single dots are
-- none.
unfoldable pub last_component : List Text → Option Text
last_component [] = none
last_component (piece ∷ pieces) = elim (last_component pieces) [
  | some name ↦ some name
  | none ↦ if is_empty piece || same piece dot then none else some piece
]

-- `Path::new(name).file_name()`
unfoldable pub file_name : Text → Option Text
file_name name = elim (last_component (split slash name)) [
  | none ↦ none
  | some component ↦ if same component dot_dot then none else some component
]

unfoldable pub valid_file_name : Text → Bool
valid_file_name name =
    if is_empty name || not (is_trimmed name) || ltb 96 (byte_length name)
    then false
    else same (file_name name) (some name)

unfoldable pub valid_names : List Text → Bool
valid_names [] = true
valid_names (name ∷ names) = valid_file_name name && valid_names names

unfoldable pub valid_file_parent : Text → Bool
valid_file_parent [] = true
valid_file_parent (c ∷ rest) =
    if same (c ∷ rest) (slash ∷ []) then true else c == slash && valid_names (split slash rest)
