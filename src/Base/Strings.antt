-- ===== src/Base/Strings.antt =====
-- String literals, `split` and the printing of numbers.
use Prim.Native.Nat.{ℕ, zero, suc, ◌+◌, ◌/◌, ◌%◌}
use Prim.Native.Char.{code}
use Prim.Native.String.{String}
use mathlib.Core.Logic.{inl, inr}
use mathlib.Core.Path.{◌≡◌, refl}
use mathlib.Core.Bool.{Bool, false}
use mathlib.Core.List.{List, [], ◌∷◌, ◌++◌}
use native.Mathlib.Omega.{arith}
use ic_oss.Base.Tests.{◌==◌, ltb, if◌then◌else◌, Bool-cases}
use ic_oss.Base.Lists.{Text, any, All}

-- The code points of a literal.
abbrev pub codes : String → Text
codes String.[] = []
codes (String.◌∷◌ c s) = code c ∷ codes s

prepend : ℕ → List Text → List Text
prepend x [] = (x ∷ []) ∷ []
prepend x (p ∷ ps) = (x ∷ p) ∷ ps

-- `text.split(c)`: the pieces between the separators, at least one.
unfoldable pub split : ℕ → Text → List Text
unfolding prepend
split c [] = [] ∷ []
split c (x ∷ xs) = let rest = split c xs in if x == c then [] ∷ rest else prepend x rest

-- `text.contains(c)`
abbrev pub has_code : ℕ → Text → Bool
has_code c xs = any (λ x. x == c) xs

pub split_single : (c : ℕ) (xs : Text) → has_code c xs ≡ false → split c xs ≡ xs ∷ []
unfolding split
split_single c [] h = refl
split_single c (x ∷ xs) h = ground (arith, split_single c xs)

pub split-append :
    (c : ℕ) (xs ys : Text) → has_code c xs ≡ false → split c (xs ++ c ∷ ys) ≡ xs ∷ split c ys
unfolding split
split-append c [] ys h = ground arith
split-append c (x ∷ xs) ys h = ground (arith, split-append c xs ys)

prepend_no_code :
    (c x : ℕ) (ps : List Text)
    → (x == c) ≡ false
    → All (λ p. has_code c p ≡ false) ps
    → All (λ p. has_code c p ≡ false) (prepend x ps)
unfolding prepend
prepend_no_code c x [] h all = (ground (arith, h), tt)
prepend_no_code c x (p ∷ ps) h (a, all) = (ground (arith, h, a), all)

-- No piece holds the separator.
pub split_no_code : (c : ℕ) (xs : Text) → All (λ p. has_code c p ≡ false) (split c xs)
unfolding split
split_no_code c [] = (refl, tt)
split_no_code c (x ∷ xs) = elim (Bool-cases (x == c)) [
  | inl e ↦ rw (e) (refl, split_no_code c xs)
  | inr e ↦ rw (e) (prepend_no_code c x (split c xs) e (split_no_code c xs))
]

-- `n.to_string()`, with the digits from the last on in front of what follows.
decimal_loop : ℕ → ℕ → Text → Text
decimal_loop zero n acc = acc
decimal_loop (suc fuel) n acc =
    let rest = decimal_loop fuel (n / 10) ((48 + n % 10) ∷ acc) in
    if ltb n 10 then (48 + n) ∷ acc else rest

-- A number has no more digits than it counts.
unfoldable pub decimal : ℕ → Text
unfolding decimal_loop
decimal n = decimal_loop (suc n) n []
