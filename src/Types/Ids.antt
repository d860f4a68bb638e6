-- ===== src/Types/Ids.antt =====
-- Principals and digests, which all canisters use.
use ic_oss.Base.{ℕ, List, [], ◌∷◌}

-- A principal, as its bytes.
abbrev pub Principal : Type 0
Principal = List ℕ

-- The 32 bytes of a SHA-2 or SHA-3 digest.
abbrev pub Hash : Type 0
Hash = List ℕ

-- `ByteArray::default()`
abbrev pub zero_hash : Hash
zero_hash =
    0 ∷ 0 ∷ 0 ∷ 0 ∷ 0 ∷ 0 ∷ 0 ∷ 0 ∷ 0 ∷ 0 ∷ 0 ∷ 0 ∷ 0 ∷ 0 ∷ 0 ∷ 0 ∷ 0 ∷ 0 ∷ 0 ∷ 0 ∷ 0 ∷ 0 ∷ 0 ∷ 0
    ∷ 0 ∷ 0 ∷ 0 ∷ 0 ∷ 0 ∷ 0 ∷ 0 ∷ 0 ∷ []
