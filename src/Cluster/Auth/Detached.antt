-- ===== src/Cluster/Auth/Detached.antt =====
-- The removal of policies of principals in the cluster.
use ic_oss.Types.Permission.RoundTrip.{parse-print_collect}
use ic_oss.Types.Ids.{Principal}
use ic_oss.Types.Permission.Policies.{print_policies, Policies}
use ic_oss.Types.Permission.PolicyRoundTrip.{IsPlainPolicy}
use ic_oss.Base.{
  ◌≡◌, refl, sym, ap, ◌∙◌, inl, inr, false, not, ◌&&◌, none, some, [], ◌∷◌, arith, is_some,
  if◌then◌else◌, Option-cases, is_empty, All, Text, same, same_iff, nat_ord, list_ord, Option,
}
use ic_oss.Base.Maps
use ic_oss.Base.Sets
use ic_oss.Types.Permission.Policies
use ic_oss.Types.Permission.Policy.{policy_ord, collect, Policy}
use ic_oss.Types.Permission.Granting.{contains-remove_policies}
use ic_oss.Cluster.{Cluster, PoliciesTable}
use ic_oss.Cluster.Auth.{detach, store_table, detach_policies}
use ic_oss.Cluster.Auth.Attached.{
  holds, stored_text, contains-collect, collect-All, remove-All, with_text, stored_text-with_text,
  with_text-IsAuth, holds-with_text, holds-print, IsAuth,
}

-- The cluster after a call has stored a subject's table again.
store_table-stored_text :
    (subject : Principal) (table : PoliciesTable) (c : Cluster) (s a : Principal)
    → stored_text s a (store_table subject table c)
      ≡ (if same s subject then Maps.get a table else stored_text s a c)
store_table-stored_text subject [] c s a =
    ground (arith, Maps.get-erase s subject c.auth, Maps.get-nil {V = Text} a)
store_table-stored_text subject (entry ∷ table) c s a =
    ground (arith, Maps.get-put s subject (entry ∷ table) c.auth)

IsAuth-stored_text :
    (c c' : Cluster)
    → ((s a : Principal) → stored_text s a c' ≡ stored_text s a c)
    → IsAuth c
    → IsAuth c'
IsAuth-stored_text c c' eq inv = record {
  printed = λ s a text e. inv.printed s a text (sym (eq s a) ∙ e);
}

holds-stored_text :
    (c c' : Cluster) (s a : Principal) (p : Policy)
    → stored_text s a c' ≡ stored_text s a c
    → holds s a p c' ≡ holds s a p c
unfolding holds
holds-stored_text c c' s a p e = ground (arith, e)

holds_nothing :
    (s a : Principal) (p : Policy) (c : Cluster) → stored_text s a c ≡ none → holds s a p c ≡ false
unfolding holds
holds_nothing s a p c e = ground (arith, e)

is_empty-put :
    (a : Principal) (text : Text) (table : PoliciesTable) → is_empty (Maps.put a text table) ≡ false
unfolding Maps.put
is_empty-put a text [] = refl
is_empty-put a text ((b, t) ∷ table) = ground arith

module _ (subject audience : Principal) (policies : Policies) (c : Cluster) (inv : IsAuth c) where
  -- Nothing is stored for the two: the texts stay.
  detach_policies-nothing :
      stored_text subject audience c ≡ none
      → (c' : Cluster) × (detach_policies subject audience policies c ≡ some c')
        × ((s a : Principal) → stored_text s a c' ≡ stored_text s a c)
  unfolding detach_policies detach
  detach_policies-nothing e = elim (Option-cases (Maps.get subject c.auth)) [
    | inl e' ↦ (c, ground (arith, e'), λ s a. refl)
    | inr (table, e') ↦ (
      store_table subject table c,
      ground (arith, e, e'),
      λ s a. ground (arith, e', store_table-stored_text subject table c s a, same_iff s subject),
    )
  ]

  -- Some text is stored: it is replaced.
  detach_policies-text :
      (ps : Policies)
      → stored_text subject audience c ≡ some (print_policies ps)
      → All IsPlainPolicy ps
      → detach_policies subject audience policies c
        ≡ some
            (with_text subject audience (print_policies (Policies.remove (collect ps) policies)) c)
  unfolding detach_policies detach
  detach_policies-text ps e plain = elim (Option-cases (Maps.get subject c.auth)) [
    | inl e' ↦ absurd (ground (arith, e, e'))
    | inr (table, e') ↦ ground (
      arith,
      e,
      e',
      parse-print_collect ps plain,
      is_empty-put audience (print_policies (Policies.remove (collect ps) policies)) table,
    )
  ]

  -- `detach_policies` does not trap where every stored text is the print of policies that are read
  -- back as themselves, and it keeps that; the subject then holds on the audience what it held but
  -- for the policies detached, and no other holding changes. A text is stored for just those who
  -- had one before, also where no policy is left.
  pub detach_policies-holds :
      (c' : Cluster) × (detach_policies subject audience policies c ≡ some c')
      × IsAuth c'
      × ((s a : Principal) (p : Policy)
          → holds s a p c' ≡ (
              if same s subject && same a audience
              then holds s a p c && not (Sets.contains p policies)
              else holds s a p c))
      × ((s a : Principal) → is_some (stored_text s a c') ≡ is_some (stored_text s a c))
  detach_policies-holds = elim (Option-cases (stored_text subject audience c)) [
    | inl e ↦
        let (c', done, eq) = detach_policies-nothing e in
        (
          c',
          done,
          IsAuth-stored_text c c' eq inv,
          λ s a p. ground (
            arith,
            holds-stored_text c c' s a p (eq s a),
            holds_nothing subject audience p c e,
            same_iff s subject,
            same_iff a audience,
          ),
          λ s a. ground (arith, eq s a),
        )
    | inr (text, e) ↦
        let (ps, is_print, plains) = inv.printed subject audience text e in
        let left = Policies.remove (collect ps) policies in
        let plain = remove-All (collect ps) policies (collect-All IsPlainPolicy ps plains) in
        (
          with_text subject audience (print_policies left) c,
          detach_policies-text ps (e ∙ ap Option.some is_print) plains,
          with_text-IsAuth subject audience left plain c inv,
          λ s a p. ground (
            arith,
            holds-with_text subject audience left plain c s a p,
            contains-remove_policies p (collect ps) policies,
            contains-collect p ps,
            holds-print subject audience ps p c (ground (arith, e, is_print)) plains,
            same_iff s subject,
            same_iff a audience,
          ),
          λ s a. ground (
            arith,
            e,
            stored_text-with_text subject audience (print_policies left) c s a,
            same_iff s subject,
            same_iff a audience,
          ),
        )
  ]
