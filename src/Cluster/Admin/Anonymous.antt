-- ===== src/Cluster/Admin/Anonymous.antt =====
-- The anonymous principal and the roles of the cluster.
use ic_oss.Base.{
  ◌≡◌, inl, inr, Bool, false, List, [], ◌∷◌, arith, Set, Bool-cases, is_empty, Result-cases,
  nat_ord, list_ord,
}
use ic_oss.Base.Sets
use ic_oss.Types.Ids.{Principal}
use ic_oss.Cluster.{Cluster, anonymous, guard_controller}
use ic_oss.Cluster.Admin.{
  validate_principals, change_by_controller, admin_set_managers, admin_add_managers,
  admin_remove_managers, admin_add_committers, admin_remove_committers,
}

-- Nobody can take a role without a name.
pub record IsNamed (c : Cluster) : Type 0 where
  pub managers : Sets.contains anonymous c.state.managers ≡ false
  pub committers : Sets.contains anonymous c.state.committers ≡ false

-- One setter, with its caller and its principals.
pub data RoleChange : Type 0 where
  set_managers add_managers remove_managers add_committers remove_committers :
      Principal → Set Principal → RoleChange

module _ (platform_controls : Principal → Bool) where
  unfoldable pub apply_change : RoleChange → Cluster → Cluster
  apply_change (RoleChange.set_managers caller args) c =
      (admin_set_managers platform_controls caller args c).1
  apply_change (RoleChange.add_managers caller args) c =
      (admin_add_managers platform_controls caller args c).1
  apply_change (RoleChange.remove_managers caller args) c =
      (admin_remove_managers platform_controls caller args c).1
  apply_change (RoleChange.add_committers caller args) c =
      (admin_add_committers platform_controls caller args c).1
  apply_change (RoleChange.remove_committers caller args) c =
      (admin_remove_committers platform_controls caller args c).1

  unfoldable pub apply_changes : List RoleChange → Cluster → Cluster
  apply_changes [] c = c
  apply_changes (change ∷ changes) c = apply_changes changes (apply_change change c)

  -- A change by a controller keeps what it keeps for valid principals.
  change-IsNamed :
      (change : Set Principal → Cluster → Cluster) (caller : Principal) (args : Set Principal)
      (c : Cluster)
      → (Sets.contains anonymous args ≡ false → IsNamed (change args c))
      → IsNamed c
      → IsNamed (change_by_controller platform_controls change caller args c).1
  unfolding change_by_controller validate_principals
  change-IsNamed change caller args c keeps inv =
      elim (Result-cases (guard_controller platform_controls c caller)) [
        | inr (x, e) ↦ rw (e) inv
        | inl (_, e) ↦ elim (Bool-cases (is_empty args)) [
          | inl b ↦ rw (e, b) inv
          | inr b ↦ elim (Bool-cases (Sets.contains anonymous args)) [
            | inl a ↦ rw (e, b, a) inv
            | inr a ↦ rw (e, b, a) (keeps a)
          ]
        ]
      ]

  apply_change-IsNamed :
      (change : RoleChange) (c : Cluster) → IsNamed c → IsNamed (apply_change change c)
  unfolding apply_change admin_set_managers admin_add_managers admin_remove_managers
      admin_add_committers admin_remove_committers
  apply_change-IsNamed (RoleChange.set_managers caller args) c inv =
      change-IsNamed _ caller args c (λ e. record { managers = e; committers = inv.committers }) inv
  apply_change-IsNamed (RoleChange.add_managers caller args) c inv =
      change-IsNamed _ caller args c
        (λ e. record {
          managers =
              ground
                (arith, e, inv.managers, Sets.contains-insert_all anonymous args c.state.managers);
          committers = inv.committers;
        })
        inv
  apply_change-IsNamed (RoleChange.remove_managers caller args) c inv =
      change-IsNamed _ caller args c
        (λ e. record {
          managers =
              ground
                (arith, inv.managers, Sets.contains-remove_all anonymous args c.state.managers);
          committers = inv.committers;
        })
        inv
  apply_change-IsNamed (RoleChange.add_committers caller args) c inv =
      change-IsNamed _ caller args c
        (λ e. record {
          managers = inv.managers;
          committers = ground (
            arith,
            e,
            inv.committers,
            Sets.contains-insert_all anonymous args c.state.committers,
          );
        })
        inv
  apply_change-IsNamed (RoleChange.remove_committers caller args) c inv =
      change-IsNamed _ caller args c
        (λ e. record {
          managers = inv.managers;
          committers =
              ground
                (arith, inv.committers, Sets.contains-remove_all anonymous args c.state.committers);
        })
        inv

  -- After any changes of the managers and committers, by any callers and whether they succeed or
  -- not, the anonymous principal is neither a manager nor a committer, if it was not before.
  pub apply_changes-IsNamed :
      (changes : List RoleChange) (c : Cluster) → IsNamed c → IsNamed (apply_changes changes c)
  unfolding apply_changes
  apply_changes-IsNamed [] c inv = inv
  apply_changes-IsNamed (change ∷ changes) c inv =
      apply_changes-IsNamed changes (apply_change change c) (apply_change-IsNamed change c inv)
