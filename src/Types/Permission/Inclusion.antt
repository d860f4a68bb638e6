-- ===== src/Types/Permission/Inclusion.antt =====
-- What a permission of src/ic_oss_types/src/permission.rs allows, and `check` as the inclusion of
-- what two permissions allow.
use ic_oss.Types.Permission.Rule.{Permission, check_constraint, permission_ord}
use ic_oss.Types.Permission.Kind.{Resource, Operation, resource_ord, operation_ord}
use ic_oss.Types.Permission.Rule
use ic_oss.Types.Permission.Granting.{check_resource_iff, check_operation_iff}
use ic_oss.Base.{
  ◌≡◌, refl, sym, ◌∙◌, ◌≢◌, ◌↔◌, ◌⊎◌, inl, inr, true, Option, none, some, arith, Bool-cases, same,
  same_iff,
}

-- A single action: an operation on a kind of resource, narrowed to a kind below it. None of them is
-- the wildcard `*`.
pub record Action : Type 0 where
  pub resource : Resource
  pub operation : Operation
  pub target : Resource
  pub some_resource : resource ≢ Resource.all
  pub some_operation : operation ≢ Operation.all
  pub some_target : target ≢ Resource.all

-- A wildcard matches everything, and anything else itself.
abbrev pub IsMatch : {A : Type 0} → A → A → A → Type 0
IsMatch wildcard a b = (a ≡ wildcard) ⊎ (a ≡ b)

-- The constraint of a permission; one without a constraint is not narrowed.
abbrev pub constraint_of : Option Resource → Resource
constraint_of none = Resource.all
constraint_of (some c) = c

pub record Allows (p : Permission) (action : Action) : Type 0 where
  pub resource_match : IsMatch Resource.all p.resource action.resource
  pub operation_match : IsMatch Operation.all p.operation action.operation
  pub target_match : IsMatch Resource.all (constraint_of p.constraint) action.target

other_resource : (a : Resource) → (b : Resource) × (b ≢ Resource.all) × (a ≢ b)
other_resource Resource.file =
    (Resource.folder, (λ e. absurd (ground (arith, e))), λ e. absurd (ground (arith, e)))
other_resource a =
    (Resource.file, (λ e. absurd (ground (arith, e))), λ e. absurd (ground (arith, e)))

other_operation : (a : Operation) → (b : Operation) × (b ≢ Operation.all) × (a ≢ b)
other_operation Operation.read =
    (Operation.write, (λ e. absurd (ground (arith, e))), λ e. absurd (ground (arith, e)))
other_operation a =
    (Operation.read, (λ e. absurd (ground (arith, e))), λ e. absurd (ground (arith, e)))

-- A match of `b` that `a` matches only if it includes `b`.
record IsPick {A : Type 0} (wildcard a b r : A) : Type 0 where
  some_match : r ≢ wildcard
  of_b : IsMatch wildcard b r
  of_a : IsMatch wildcard a r → (a ≡ wildcard) ⊎ (b ≡ a)

chosen_resource : (a b : Resource) → (r : Resource) × IsPick Resource.all a b r
chosen_resource a b = elim (Bool-cases (same b Resource.all)) [
  | inl e ↦
      let (r, some_r, differs) = other_resource a in
      (
        r,
        record {
          some_match = some_r;
          of_b = inl ((same_iff b Resource.all).0 e);
          of_a = λ m. elim m [ inl star ↦ inl star | inr eq ↦ absurd (differs eq) ];
        },
      )
  | inr e ↦ (
    b,
    record {
      some_match = λ star. absurd (ground (arith, e, same_iff b Resource.all, star));
      of_b = inr refl;
      of_a = λ m. elim m [ inl star ↦ inl star | inr eq ↦ inr (sym eq) ];
    },
  )
]

chosen_operation : (a b : Operation) → (r : Operation) × IsPick Operation.all a b r
chosen_operation a b = elim (Bool-cases (same b Operation.all)) [
  | inl e ↦
      let (r, some_r, differs) = other_operation a in
      (
        r,
        record {
          some_match = some_r;
          of_b = inl ((same_iff b Operation.all).0 e);
          of_a = λ m. elim m [ inl star ↦ inl star | inr eq ↦ absurd (differs eq) ];
        },
      )
  | inr e ↦ (
    b,
    record {
      some_match = λ star. absurd (ground (arith, e, same_iff b Operation.all, star));
      of_b = inr refl;
      of_a = λ m. elim m [ inl star ↦ inl star | inr eq ↦ inr (sym eq) ];
    },
  )
]

included-IsMatch :
    {A : Type 0} (wildcard a b r : A)
    → (a ≡ wildcard) ⊎ (b ≡ a)
    → IsMatch wildcard b r
    → IsMatch wildcard a r
included-IsMatch wildcard a b r (inl star) m = inl star
included-IsMatch wildcard a b r (inr eq) (inl star) = inl (sym eq ∙ star)
included-IsMatch wildcard a b r (inr eq) (inr found) = inr (sym eq ∙ found)

constraint_iff :
    (c v : Option Resource)
    → (check_constraint c v ≡ true)
      ↔ ((constraint_of c ≡ Resource.all) ⊎ (constraint_of v ≡ constraint_of c))
unfolding check_constraint
constraint_iff none v = (λ _. inl refl, λ _. refl)
constraint_iff (some Resource.all) v = (λ _. inl refl, λ _. refl)
constraint_iff (some c) none = ground arith
constraint_iff (some c) (some v) = ground (arith, same_iff c v)

-- A permission matches another just when it allows every action that the other allows.
pub check_iff :
    (p q : Permission)
    → (Rule.check p q ≡ true) ↔ ((action : Action) → Allows q action → Allows p action)
unfolding Rule.check
check_iff p q = (
  λ h action allowed. record {
    resource_match =
        included-IsMatch Resource.all p.resource q.resource action.resource
          ((check_resource_iff p.resource q.resource).0 (ground (arith, h))) allowed.resource_match;
    operation_match =
        included-IsMatch Operation.all p.operation q.operation action.operation
          ((check_operation_iff p.operation q.operation).0 (ground (arith, h)))
          allowed.operation_match;
    target_match =
        included-IsMatch Resource.all (constraint_of p.constraint) (constraint_of q.constraint)
          action.target ((constraint_iff p.constraint q.constraint).0 (ground (arith, h)))
          allowed.target_match;
  },
  λ includes.
      let (r, pick_r) = chosen_resource p.resource q.resource in
      let (o, pick_o) = chosen_operation p.operation q.operation in
      let (c, pick_c) = chosen_resource (constraint_of p.constraint) (constraint_of q.constraint) in
      let action : Action = record {
        resource = r;
        operation = o;
        target = c;
        some_resource = pick_r.some_match;
        some_operation = pick_o.some_match;
        some_target = pick_c.some_match;
      } in
      let allowed : Allows p action = includes action (record {
        resource_match = pick_r.of_b;
        operation_match = pick_o.of_b;
        target_match = pick_c.of_b;
      }) in
      ground (
        arith,
        (check_resource_iff p.resource q.resource).1 (pick_r.of_a allowed.resource_match),
        (check_operation_iff p.operation q.operation).1 (pick_o.of_a allowed.operation_match),
        (constraint_iff p.constraint q.constraint).1 (pick_c.of_a allowed.target_match),
      ),
)
