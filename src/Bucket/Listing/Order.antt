-- ===== src/Bucket/Listing/Order.antt =====
-- The order of the ids in the listings of src/ic_oss_bucket/src/store.rs: what a range of a
-- `BTreeSet` in reverse holds, and what its first elements are.
use ic_oss.Base.Sets
use ic_oss.Base.{
  ℕ, zero, suc, ◌≤◌, ◌<◌, ◌≡◌, refl, ◌⊎◌, inl, inr, true, ◌&&◌, ◌||◌, List, [], ◌∷◌, ◌++◌, arith,
  ltb, Bool-cases, length, All, same, same_iff, nat_ord,
}
use ic_oss.Bucket.Listing.{below_reversed}

abbrev pub IsAscending : List ℕ → Type 0
IsAscending [] = Unit
IsAscending (x ∷ xs) = All (λ y. x < y) xs × IsAscending xs

abbrev pub IsDescending : List ℕ → Type 0
IsDescending [] = Unit
IsDescending (x ∷ xs) = All (λ y. y < x) xs × IsDescending xs

-- The first `n` of a list.
abbrev pub take {ℓ} : {A : Type ℓ} → ℕ → List A → List A
take zero xs = []
take (suc n) [] = []
take (suc n) (x ∷ xs) = x ∷ take n xs

All-append : (P : ℕ → Type 0) (xs : List ℕ) (y : ℕ) → All P xs → P y → All P (xs ++ y ∷ [])
All-append P [] y all h = (h, tt)
All-append P (x ∷ xs) y (a, all) h = (a, All-append P xs y all h)

All-take : (P : ℕ → Type 0) (n : ℕ) (xs : List ℕ) → All P xs → All P (take n xs)
All-take P zero xs all = tt
All-take P (suc n) [] all = tt
All-take P (suc n) (x ∷ xs) (a, all) = (a, All-take P n xs all)

All-contains : (P : ℕ → Type 0) (x : ℕ) (xs : List ℕ) → All P xs → Sets.contains x xs ≡ true → P x
unfolding Sets.contains
All-contains P x [] all h = absurd (ground arith)
All-contains P x (y ∷ xs) (a, all) h = elim (Bool-cases (same x y)) [
  | inl e ↦ rw (let z : x ≡ y = (same_iff x y).0 e in z) a
  | inr e ↦ All-contains P x xs all (ground (arith, e, h))
]

IsDescending-append :
    (xs : List ℕ) (y : ℕ) → IsDescending xs → All (λ x. y < x) xs → IsDescending (xs ++ y ∷ [])
IsDescending-append [] y d all = (tt, tt)
IsDescending-append (x ∷ xs) y (below, d) (a, all) =
    (All-append (λ z. z < x) xs y below a, IsDescending-append xs y d all)

All-below_reversed :
    (P : ℕ → Type 0) (end : ℕ) (s : List ℕ) → All P s → All P (below_reversed end s)
unfolding below_reversed
All-below_reversed P end [] all = tt
All-below_reversed P end (x ∷ s) (a, all) = elim (Bool-cases (ltb x end)) [
  | inl e ↦
      rw (below_reversed, e)
        (All-append P (below_reversed end s) x (All-below_reversed P end s all) a)
  | inr e ↦ rw (below_reversed, e) (All-below_reversed P end s all)
]

pub below_reversed-IsDescending :
    (end : ℕ) (s : List ℕ) → IsAscending s → IsDescending (below_reversed end s)
unfolding below_reversed
below_reversed-IsDescending end [] a = tt
below_reversed-IsDescending end (x ∷ s) (above, a) = elim (Bool-cases (ltb x end)) [
  | inl e ↦
      rw (below_reversed, e)
        (IsDescending-append (below_reversed end s) x (below_reversed-IsDescending end s a)
          (All-below_reversed (λ y. x < y) end s above))
  | inr e ↦ rw (below_reversed, e) (below_reversed-IsDescending end s a)
]

contains-append :
    (x : ℕ) (s t : List ℕ) → Sets.contains x (s ++ t) ≡ (Sets.contains x s || Sets.contains x t)
unfolding Sets.contains
contains-append x [] t = refl
contains-append x (y ∷ s) t = ground (arith, contains-append x s t)

pub contains-below_reversed :
    (x end : ℕ) (s : List ℕ)
    → Sets.contains x (below_reversed end s) ≡ (ltb x end && Sets.contains x s)
unfolding below_reversed Sets.contains
contains-below_reversed x end [] = ground arith
contains-below_reversed x end (y ∷ s) = ground (
  arith,
  contains-append x (below_reversed end s) (y ∷ []),
  contains-below_reversed x end s,
  same_iff x y,
)

pub take-IsDescending : (n : ℕ) (xs : List ℕ) → IsDescending xs → IsDescending (take n xs)
take-IsDescending zero xs d = tt
take-IsDescending (suc n) [] d = tt
take-IsDescending (suc n) (x ∷ xs) (below, d) =
    (All-take (λ y. y < x) n xs below, take-IsDescending n xs d)

pub length-take : (n : ℕ) (xs : List ℕ) → length (take n xs) ≤ n
length-take zero xs = omega arith
length-take (suc n) [] = omega arith
length-take (suc n) (x ∷ xs) = omega (arith, length-take n xs)

pub contains-take :
    (x n : ℕ) (xs : List ℕ) → Sets.contains x (take n xs) ≡ true → Sets.contains x xs ≡ true
unfolding Sets.contains
contains-take x zero xs h = absurd (ground arith)
contains-take x (suc n) [] h = h
contains-take x (suc n) (y ∷ xs) h = ground (arith, contains-take x n xs)

-- An element is among the first `n`, or these are `n` elements above it.
pub take_complete :
    (x n : ℕ) (xs : List ℕ)
    → IsDescending xs
    → Sets.contains x xs ≡ true
    → (Sets.contains x (take n xs) ≡ true)
      ⊎ ((length (take n xs) ≡ n) × All (λ y. x < y) (take n xs))
unfolding Sets.contains
take_complete x zero xs d h = inr (refl, tt)
take_complete x (suc n) [] d h = absurd (ground arith)
take_complete x (suc n) (y ∷ xs) (below, d) h = elim (Bool-cases (same x y)) [
  | inl e ↦ inl (ground (arith, e))
  | inr e ↦
      let there : Sets.contains x xs ≡ true = ground (arith, e, h) in
      elim (take_complete x n xs d there) [
        | inl i ↦ inl (ground (arith, e, i))
        | inr (full, above) ↦
            inr (omega (arith, full), (All-contains (λ z. z < y) x xs below there, above))
      ]
]
