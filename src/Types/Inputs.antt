-- ===== src/Types/Inputs.antt =====
-- The inputs of the update calls, in file.rs and folder.rs of src/ic_oss_types/src.
use ic_oss.Base.{ℕ, Option, List, Map, Text, ℤ}

pub record UpdateFileInput (V : Type 0) : Type 0 where
  pub id : ℕ
  pub name : Option Text
  pub content_type : Option Text
  pub status : Option ℤ
  pub size : Option ℕ
  pub hash : Option (List ℕ)
  pub custom : Option (Map Text V)

pub record UpdateFolderInput : Type 0 where
  pub id : ℕ
  pub name : Option Text
  pub status : Option ℤ

pub record CreateFileInput (V : Type 0) : Type 0 where
  pub parent : ℕ
  pub name : Text
  pub content_type : Text
  pub size : Option ℕ
  pub content : Option (List ℕ)
  pub status : Option ℤ
  pub hash : Option (List ℕ)
  pub dek : Option (List ℕ)
  pub custom : Option (Map Text V)

pub record UpdateFileChunkInput : Type 0 where
  pub id : ℕ
  pub chunk_index : ℕ
  pub content : List ℕ

pub record MoveInput : Type 0 where
  pub id : ℕ
  pub from : ℕ
  pub to : ℕ

pub record CreateFolderInput : Type 0 where
  pub parent : ℕ
  pub name : Text
