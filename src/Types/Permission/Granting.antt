-- ===== src/Types/Permission/Granting.antt =====
-- What permissions, policies and sets of policies of src/ic_oss_types/src/permission.rs
-- grant.
use ic_oss.Types.Permission.Policy
use ic_oss.Base.Sets
use ic_oss.Base.{
  ◌≡◌, refl, sym, ◌∙◌, ◌↔◌, ◌⊎◌, inl, Bool, true, false, not, ◌&&◌, ◌||◌, List, [], ◌∷◌, arith, any,
  Text, same, same_iff, Ord,
}
use ic_oss.Types.Permission.Kind.{
  Resource, Operation, check_resource, check_operation, resource_ord, operation_ord,
}
use ic_oss.Types.Permission.Rule
use ic_oss.Types.Permission.Rule.{Permission, check_constraint, permission_ord}
use ic_oss.Types.Permission.Policy.{policy_ord, covers_all, check_path, Policy}
use ic_oss.Types.Permission.Policies
use ic_oss.Types.Permission.Policies.{
  Policies, grants, grants_any, append, all_policies, read_policies,
}

pub check_resource_iff :
    (a b : Resource) → (check_resource a b ≡ true) ↔ ((a ≡ Resource.all) ⊎ (b ≡ a))
unfolding check_resource
check_resource_iff Resource.all b = (λ _. inl refl, λ _. refl)
check_resource_iff a b = ground (arith, same_iff b a)

pub check_operation_iff :
    (a b : Operation) → (check_operation a b ≡ true) ↔ ((a ≡ Operation.all) ⊎ (b ≡ a))
unfolding check_operation
check_operation_iff Operation.all b = (λ _. inl refl, λ _. refl)
check_operation_iff a b = ground (arith, same_iff b a)

any-insert {ℓ} :
    {K : Type ℓ} ⦃o : Ord K⦄ (f : K → Bool) (x : K) (s : List K)
    → any f (Sets.insert x s) ≡ (f x || any f s)
unfolding Sets.insert
any-insert ⦃o⦄ f x [] = refl
any-insert ⦃o⦄ f x (y ∷ s) = ground (arith, o.cmp_eq x y, any-insert f x s)

module _ (permission : Permission) (path : Text) where
  -- The union of two sets of policies grants what one of them grants, and the other set is empty
  -- afterwards.
  pub grants-append :
      (a b : Policies)
      → (grants (append a b).0 permission path
          ≡ (grants a permission path || grants b permission path))
        × ((append a b).1 ≡ [])
  unfolding grants append
  grants-append a [] = ground arith
  grants-append a (p ∷ b) = ground (
    arith,
    grants-append (Sets.insert p a) b,
    any-insert (λ q. Policy.has_permission q permission path) p a,
  )

  -- `Policies::all()` grants every permission on every path.
  pub grants-all_policies : grants all_policies permission path ≡ true
  unfolding grants all_policies Policy.has_permission Rule.check check_resource check_operation
      check_constraint check_path covers_all
  grants-all_policies = refl

  -- `Policies::read()` grants the operations `Read` and `List`, on every resource and path and
  -- with every constraint, and nothing else.
  pub grants-read_policies :
      grants read_policies permission path
      ≡ (same permission.operation Operation.read || same permission.operation Operation.list)
  unfolding grants read_policies Policy.has_permission Rule.check check_resource check_operation
      check_constraint check_path covers_all
  grants-read_policies = ground arith

-- After `remove` a policy is in the set if it was there and was not to be removed; nothing is
-- granted that was not granted before.
pub contains-remove_policies :
    (p : Policy) (ps policies : Policies)
    → Sets.contains p (Policies.remove ps policies)
      ≡ (Sets.contains p ps && not (Sets.contains p policies))
unfolding Policies.remove Sets.contains
contains-remove_policies p [] policies = refl
contains-remove_policies p (q ∷ ps) policies =
    ground (arith, contains-remove_policies p ps policies, same_iff p q)

grants-remove_le :
    (ps policies : Policies) (permission : Permission) (path : Text)
    → grants (Policies.remove ps policies) permission path ≡ true
    → grants ps permission path ≡ true
unfolding Policies.remove grants
grants-remove_le [] policies permission path h = h
grants-remove_le (q ∷ ps) policies permission path h =
    ground (arith, grants-remove_le ps policies permission path)

any-or {ℓ} :
    {A : Type ℓ} (f g : A → Bool) (xs : List A) → any (λ x. f x || g x) xs ≡ (any f xs || any g xs)
any-or f g [] = refl
any-or f g (x ∷ xs) = ground (arith, any-or f g xs)

any-false {ℓ} : {A : Type ℓ} (xs : List A) → any (λ x. false) xs ≡ false
any-false [] = refl
any-false (x ∷ xs) = any-false xs

any-and {ℓ} :
    {A : Type ℓ} (b : Bool) (f : A → Bool) (xs : List A) → any (λ x. b && f x) xs ≡ (b && any f xs)
any-and true f xs = refl
any-and false f xs = any-false xs

any-check_path :
    (rs : Policy.Resources) (r : Text) (paths : List Text)
    → any (Policy.check_path rs) (r ∷ paths)
      ≡ (Policy.covers_all rs || any (Policy.check_path rs) (r ∷ paths))
unfolding Policy.check_path
any-check_path rs r paths = ground arith

has_permission_any-eq :
    (p : Policy) (permission : Permission) (r : Text) (rs : List Text)
    → Policy.has_permission_any p permission (r ∷ rs)
      ≡ any (Policy.has_permission p permission) (r ∷ rs)
unfolding Policy.has_permission Policy.has_permission_any
has_permission_any-eq p permission r rs = ground (
  arith,
  any-and (Rule.check p.permission permission) (Policy.check_path p.resources) (r ∷ rs),
  any-check_path p.resources r rs,
)

-- A set of policies grants a permission on any of some paths just when it grants it on one of
-- them, if there is a path at all.
pub grants_any-eq :
    (ps : Policies) (permission : Permission) (r : Text) (rs : List Text)
    → grants_any ps permission (r ∷ rs) ≡ any (grants ps permission) (r ∷ rs)
unfolding grants_any grants
grants_any-eq [] permission r rs = sym (any-false rs)
grants_any-eq (p ∷ ps) permission r rs = ground (
  arith,
  has_permission_any-eq p permission r rs,
  grants_any-eq ps permission r rs,
  any-or (Policy.has_permission p permission) (grants ps permission) (r ∷ rs),
)

pub grants-le-any :
    (ps : Policies) (permission : Permission) (paths : List Text)
    → any (grants ps permission) paths ≡ true
    → grants_any ps permission paths ≡ true
grants-le-any ps permission [] h = absurd (ground arith)
grants-le-any ps permission (r ∷ rs) h = grants_any-eq ps permission r rs ∙ h
