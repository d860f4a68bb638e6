-- ===== src/Base/Results.antt =====
-- Rust's `Result<A, E>`, its `?` operator as a bind, and early returns under a test.
use mathlib.Core.Path.{◌≡◌, refl}
use mathlib.Core.Logic.{◌⊎◌, inl, inr}
use mathlib.Core.Bool.{Bool, true, false}
use mathlib.Core.Option.{Option, none, some}

pub data Result {ℓ κ} (E : Type ℓ) (A : Type κ) : Type (ℓ ⊔ κ) where
  ok : A → Result E A
  err : E → Result E A

-- `r?`, and then the rest.
infixl 5 ◌>>=◌ ◌>>◌
abbrev pub ◌>>=◌ {ℓ κ μ} :
    {E : Type ℓ} {A : Type κ} {B : Type μ} → Result E A → (A → Result E B) → Result E B
r >>= rest = elim r [ ok a ↦ rest a | err e ↦ err e ]

-- `r?;`
abbrev pub ◌>>◌ {ℓ κ} : {E : Type ℓ} {B : Type κ} → Result E (Unit {0}) → Result E B → Result E B
r >> rest = r >>= λ _. rest

-- `if test { Err(e)?; }`
abbrev pub fail_if {ℓ} : {E : Type ℓ} → Bool → E → Result E (Unit {0})
fail_if true e = err e
fail_if false e = ok tt

-- `option.ok_or_else(|| e)?`
abbrev pub ok_or {ℓ κ} : {E : Type ℓ} {A : Type κ} → Option A → E → Result E A
ok_or (some a) e = ok a
ok_or none e = err e

-- `result.map_err(f)`
abbrev pub map_err {ℓ κ μ} :
    {E : Type ℓ} {F : Type κ} {A : Type μ} → (E → F) → Result E A → Result F A
map_err f (ok a) = ok a
map_err f (err e) = err (f e)

-- An operation that changes the state only if it does not fail.
abbrev pub commit {ℓ κ μ} :
    {E : Type ℓ} {A : Type κ} {S : Type μ} → S → Result E (A × S) → Result E A × S
commit s (ok (a, s')) = (ok a, s')
commit s (err e) = (err e, s)

pub Result-cases {ℓ κ} :
    {E : Type ℓ} {A : Type κ} (r : Result E A) → ((a : A) × (r ≡ ok a)) ⊎ ((e : E) × (r ≡ err e))
Result-cases (ok a) = inl (a, refl)
Result-cases (err e) = inr (e, refl)

-- `result.ok()`
abbrev pub ok_option {ℓ κ} : {E : Type ℓ} {A : Type κ} → Result E A → Option A
ok_option (ok a) = some a
ok_option (err e) = none
