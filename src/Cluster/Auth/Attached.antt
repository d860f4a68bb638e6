-- ===== src/Cluster/Auth/Attached.antt =====
-- The policies of principals in the cluster, as the sets that their texts stand for.
use ic_oss.Types.Permission.RoundTrip.{parse-print_collect}
use ic_oss.Cluster.Auth.{attach_policies, attach}
use ic_oss.Types.Ids.{Principal}
use ic_oss.Types.Permission.Policy.{Policy, collect, policy_ord}
use ic_oss.Types.Permission.Policies.{print_policies, parse_policies, Policies}
use ic_oss.Types.Permission.PolicyRoundTrip.{IsPlainPolicy}
use ic_oss.Base.{
  ◌≡◌, refl, inl, inr, Bool, false, ◌&&◌, ◌||◌, Option, none, some, List, [], ◌∷◌, arith, get_or,
  if◌then◌else◌, Bool-cases, Option-cases, All, Text, ok, err, same, same_iff, nat_ord,
  Ordering-cases, list_ord, Ord,
}
use ic_oss.Base.Maps
use ic_oss.Base.Sets
use ic_oss.Types.Permission.Policies
use ic_oss.Cluster.{Cluster}

abbrev pub stored_text : Principal → Principal → Cluster → Option Text
stored_text subject audience c = elim (Maps.get subject c.auth) [
  | none ↦ none
  | some table ↦ Maps.get audience table
]

-- Whether a subject holds a policy on an audience: the abstract view, a relation of the three.
unfoldable pub holds : Principal → Principal → Policy → Cluster → Bool
holds subject audience p c = elim (stored_text subject audience c) [
  | none ↦ false
  | some text ↦ elim (parse_policies text) [ err e ↦ false | ok ps ↦ Sets.contains p ps ]
]

-- Every stored text is the print of policies that are read back as themselves.
pub record IsAuth (c : Cluster) : Type 0 where
  pub printed :
      (subject audience : Principal) (text : Text)
      → stored_text subject audience c ≡ some text
      → (ps : Policies) × (text ≡ print_policies ps) × All IsPlainPolicy ps

module _ {ℓ} {A : Type ℓ} ⦃o : Ord A⦄ where
  pub contains-collect : (x : A) (xs : List A) → Sets.contains x (collect xs) ≡ Sets.contains x xs
  unfolding collect Sets.contains
  contains-collect x [] = refl
  contains-collect x (y ∷ xs) =
      ground (arith, contains-collect x xs, Sets.contains-insert x y (collect xs))

module _ {ℓ} {A : Type ℓ} ⦃o : Ord A⦄ (P : A → Type 0) where
  insert-All : (x : A) (xs : List A) → P x → All P xs → All P (Sets.insert x xs)
  unfolding Sets.insert
  insert-All x [] px all = (px, tt)
  insert-All x (y ∷ xs) px (py, all) = elim (Ordering-cases (o.cmp x y)) [
    | inl e ↦ rw (Sets.insert, e) (px, (py, all))
    | inr (inl e) ↦ rw (Sets.insert, e) (py, all)
    | inr (inr e) ↦ rw (Sets.insert, e) (py, insert-All x xs px all)
  ]

  pub collect-All : (xs : List A) → All P xs → All P (collect xs)
  unfolding collect
  collect-All [] all = tt
  collect-All (x ∷ xs) (px, all) = insert-All x (collect xs) px (collect-All xs all)

append-All :
    (ps qs : Policies)
    → All IsPlainPolicy ps
    → All IsPlainPolicy qs
    → All IsPlainPolicy (Policies.append ps qs).0
unfolding Policies.append
append-All ps [] a b = a
append-All ps (q ∷ qs) a (bq, b) =
    append-All (Sets.insert q ps) qs (insert-All IsPlainPolicy q ps bq a) b

pub remove-All :
    (ps qs : Policies) → All IsPlainPolicy ps → All IsPlainPolicy (Policies.remove ps qs)
unfolding Policies.remove
remove-All [] qs a = tt
remove-All (p ∷ ps) qs (plain, a) = elim (Bool-cases (Sets.contains p qs)) [
  | inl e ↦ rw (e) (remove-All ps qs a)
  | inr e ↦ rw (e) (plain, remove-All ps qs a)
]

contains-append :
    (p : Policy) (ps qs : Policies)
    → Sets.contains p (Policies.append ps qs).0 ≡ (Sets.contains p ps || Sets.contains p qs)
unfolding Policies.append Sets.contains
contains-append p ps [] = ground arith
contains-append p ps (q ∷ qs) =
    ground (arith, contains-append p (Sets.insert q ps) qs, Sets.contains-insert p q ps)

-- The cluster with another text for a subject and an audience.
abbrev pub with_text : Principal → Principal → Text → Cluster → Cluster
with_text subject audience text c = record c {
  auth = Maps.put subject (Maps.put audience text (get_or (Maps.get subject c.auth) [])) c.auth;
}

pub stored_text-with_text :
    (subject audience : Principal) (text : Text) (c : Cluster) (s a : Principal)
    → stored_text s a (with_text subject audience text c)
      ≡ (if same s subject && same a audience then some text else stored_text s a c)
stored_text-with_text subject audience text c s a =
    let table = get_or (Maps.get subject c.auth) [] in
    ground (
      arith,
      Maps.get-put s subject (Maps.put audience text table) c.auth,
      Maps.get-put a audience text table,
      Maps.get-nil {V = Text} a,
      same_iff s subject,
    )

module _ (subject audience : Principal) (qs : Policies) (plain : All IsPlainPolicy qs)
    (c : Cluster) where
  pub with_text-IsAuth : IsAuth c → IsAuth (with_text subject audience (print_policies qs) c)
  with_text-IsAuth inv = record {
    printed = λ s a text e. elim (Bool-cases (same s subject && same a audience)) [
      | inl b ↦ (
        qs,
        ground (arith, e, b, stored_text-with_text subject audience (print_policies qs) c s a),
        plain,
      )
      | inr b ↦
          inv.printed s a text
            (ground (arith, e, b, stored_text-with_text subject audience (print_policies qs) c s a))
    ];
  }

  pub holds-with_text :
      (s a : Principal) (p : Policy)
      → holds s a p (with_text subject audience (print_policies qs) c)
        ≡ (if same s subject && same a audience then Sets.contains p qs else holds s a p c)
  unfolding holds
  holds-with_text s a p = ground (
    arith,
    stored_text-with_text subject audience (print_policies qs) c s a,
    parse-print_collect qs plain,
    contains-collect p qs,
  )

-- What a stored text holds.
pub holds-print :
    (subject audience : Principal) (ps : Policies) (p : Policy) (c : Cluster)
    → stored_text subject audience c ≡ some (print_policies ps)
    → All IsPlainPolicy ps
    → holds subject audience p c ≡ Sets.contains p ps
unfolding holds
holds-print subject audience ps p c e plain =
    ground (arith, e, parse-print_collect ps plain, contains-collect p ps)

module _ (subject audience : Principal) (policies : Policies) (c : Cluster) (inv : IsAuth c) where
  -- `attach_policies` writes the text of some policies.
  attach_policies-with_text :
      All IsPlainPolicy policies
      → (qs : Policies) × All IsPlainPolicy qs
        × (attach_policies subject audience policies c
            ≡ some (with_text subject audience (print_policies qs) c))
        × ((p : Policy)
            → Sets.contains p qs ≡ (holds subject audience p c || Sets.contains p policies))
  unfolding attach_policies attach holds
  attach_policies-with_text plain = elim (Option-cases (stored_text subject audience c)) [
    | inl e ↦ (
      policies,
      plain,
      ground (arith, e, Maps.get-nil {V = Text} audience),
      λ p. ground (arith, e),
    )
    | inr (text, e) ↦
        let (ps, is_print, plains) = inv.printed subject audience text e in
        (
          (Policies.append (collect ps) policies).0,
          append-All (collect ps) policies (collect-All IsPlainPolicy ps plains) plain,
          ground (arith, e, is_print, parse-print_collect ps plains),
          λ p. ground (
            arith,
            contains-append p (collect ps) policies,
            contains-collect p ps,
            holds-print subject audience ps p c (ground (arith, e, is_print)) plains,
          ),
        )
  ]

  -- Attaching policies whose names are read back as themselves, and whose permissions do not have
  -- the constraint `*`: `attach_policies` does not trap where every stored text is the print of such
  -- policies, and it keeps that; the subject then holds on the audience what it held and the
  -- policies attached, and no other holding changes.
  pub attach_policies-holds :
      All IsPlainPolicy policies
      → (c' : Cluster) × (attach_policies subject audience policies c ≡ some c')
        × IsAuth c'
        × ((s a : Principal) (p : Policy)
            → holds s a p c' ≡ (
                if same s subject && same a audience
                then holds s a p c || Sets.contains p policies
                else holds s a p c))
  attach_policies-holds plain =
      let (qs, plains, e, union) = attach_policies-with_text plain in
      (
        with_text subject audience (print_policies qs) c,
        e,
        with_text-IsAuth subject audience qs plains c inv,
        λ s a p. ground (
          arith,
          holds-with_text subject audience qs plains c s a p,
          union p,
          same_iff s subject,
          same_iff a audience,
        ),
      )
