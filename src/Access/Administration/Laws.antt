-- ===== src/Access/Administration/Laws.antt =====
-- What the changes of setMembershipPermission and revokeMembershipPermission do to the tables.
use balanz.Prelude.{
  ℕ, String, ◌≡◌, refl, sym, subst, ◌⊎◌, inl, inr, ◌&&◌, Option, none, some, List, arith, find,
  ◌==◌, Option-cases,
}
use balanz.Http.{Result, ok, err, Failure, Result-cases}
use balanz.Store.{
  Db, Membership, MembershipPermission, Permission, PermissionEffect, permission_active,
}
use balanz.Access.Administration.Admission.{Admitted, admit-outcome, admit-own}
use balanz.Access.Administration.{
  set_in_transaction, set_membership_permission, revoke_in_transaction,
  revoke_membership_permission,
}
use balanz.Access.Administration.Overrides.{require_target}
use balanz.Access.Administration.Overrides.Invariant.{
  UniqueOpen, effect_of, set_override-lem, revoke_override-lem,
}
use balanz.Access.Administration.View.{
  membership_view, require_organization, get_membership_permissions,
}
use balanz.Access.Audit.{record_event}
use balanz.Access.Context.{SessionContext}
use balanz.Access.Fiscal.{RequestContext}

-- The active permission of a key, and the permission of a key whatever its status.
abbrev pub ActivePermission : Db → String → Permission → Type 0
ActivePermission db key permission =
    find (λ p. p.key == key && permission_active p.status) db.permissions ≡ some permission

abbrev pub KnownPermission : Db → String → Permission → Type 0
KnownPermission db key permission = find (λ p. p.key == key) db.permissions ≡ some permission

-- What a change that ends in `r` with the tables `db'` has done: it threw and left every override
-- as it was, or an admitted member made it, and the permission's override in force is as asked.
-- Either way no permission of a membership has two overrides in force.
abbrev pub Done :
    {A : Type 0}
    → Db
    → ℕ
    → String
    → String
    → SessionContext
    → (Permission → Type 0)
    → Option PermissionEffect
    → Result A × Db
    → Type 0
Done {A} db now organization_id membership_id tenant Found effect (r, db') =
    UniqueOpen db'.membership_permissions
    × (((failure : Failure) × (r ≡ err failure)
          × (db'.membership_permissions ≡ db.membership_permissions))
        ⊎ ((value : A) × (permission : Permission) × (r ≡ ok value)
            × Admitted db now organization_id membership_id tenant
            × Found permission
            × (effect_of organization_id membership_id permission.id db'.membership_permissions
                ≡ effect)))

module _ (current : Option String) (db : Db) (now : ℕ) (organization_id membership_id : String)
    (tenant : SessionContext) (request : RequestContext) where
  abbrev Written : Permission → Option PermissionEffect → Db → Type 0
  Written permission effect db' =
      (db'.memberships ≡ db.memberships)
      × UniqueOpen db'.membership_permissions
      × (effect_of organization_id membership_id permission.id db'.membership_permissions ≡ effect)

  written :
      (db' : Db) (permission : Permission) (effect : Option PermissionEffect)
      (os : List MembershipPermission)
      → db'.memberships ≡ db.memberships
      → os ≡ db'.membership_permissions
      → UniqueOpen os
      → effect_of organization_id membership_id permission.id os ≡ effect
      → Written permission effect db'
  written db' permission effect os members rows unique same = (
    members,
    subst UniqueOpen rows unique,
    subst (λ x. effect_of organization_id membership_id permission.id x ≡ effect) rows same,
  )

  set_in_transaction-Written :
      (later : ℕ) (actor id key : String) (effect : PermissionEffect) (db' : Db)
      → UniqueOpen db.membership_permissions
      → set_in_transaction current db later actor id organization_id membership_id key effect tenant
          request
        ≡ ok db'
      → (target : Membership) × (permission : Permission) × (require_target db organization_id
            membership_id
          ≡ ok target)
        × (find (λ p. p.key == key && permission_active p.status) db.permissions ≡ some permission)
        × Written permission (some effect) db'
  unfolding set_in_transaction record_event
  set_in_transaction-Written later actor id key effect db' unique h =
      elim (Result-cases (require_target db organization_id membership_id)) [
        | inl (e, missing) ↦ absurd (ground arith)
        | inr (target, targeted) ↦
            elim (Option-cases
              (find (λ p. p.key == key && permission_active p.status) db.permissions)) [
                | inl missing ↦ absurd (ground arith)
                | inr (p, found) ↦
                    elim (set_override-lem later actor id organization_id membership_id p effect
                      db.membership_permissions unique) [
                        | inl (kept, same) ↦ (
                          target,
                          p,
                          targeted,
                          found,
                          written db' p (some effect) db.membership_permissions (ground arith)
                              (ground arith) unique same,
                        )
                        | inr (os, set, unique', same) ↦ (
                          target,
                          p,
                          targeted,
                          found,
                          written db' p (some effect) os (ground arith) (ground arith) unique' same,
                        )
                      ]
              ]
      ]

  revoke_in_transaction-Written :
      (later : ℕ) (actor key : String) (db' : Db)
      → UniqueOpen db.membership_permissions
      → revoke_in_transaction current db later actor organization_id membership_id key tenant
          request
        ≡ ok db'
      → (permission : Permission) × (find (λ p. p.key == key) db.permissions ≡ some permission)
        × Written permission none db'
  unfolding revoke_in_transaction record_event
  revoke_in_transaction-Written later actor key db' unique h =
      elim (Result-cases (require_target db organization_id membership_id)) [
        | inl (e, missing) ↦ absurd (ground arith)
        | inr (target, targeted) ↦ elim (Option-cases (find (λ p. p.key == key) db.permissions)) [
          | inl missing ↦ absurd (ground arith)
          | inr (p, found) ↦
              elim (revoke_override-lem later actor organization_id membership_id p
                db.membership_permissions unique) [
                  | inl (nothing, failed) ↦ absurd (ground arith)
                  | inr (os, set, unique', same) ↦
                      (p, found, written db' p none os (ground arith) (ground arith) unique' same)
                ]
        ]
      ]

  -- The view is there for every membership that is a target.
  shown :
      (db' : Db) (target : Membership)
      → require_organization organization_id tenant ≡ ok tt
      → require_target db organization_id membership_id ≡ ok target
      → db'.memberships ≡ db.memberships
      → get_membership_permissions db' organization_id membership_id tenant
        ≡ ok (membership_view db' organization_id membership_id target)
  unfolding get_membership_permissions require_target
  shown db' target own targeted same = ground arith

  module _ (later : ℕ) (unique : UniqueOpen db.membership_permissions) where
    threw :
        {A : Type 0} (Found : Permission → Type 0) (effect : Option PermissionEffect)
        (failure : Failure) (db' : Db)
        → db'.membership_permissions ≡ db.membership_permissions
        → Done {A = A} db now organization_id membership_id tenant Found effect (err failure, db')
    threw Found effect failure db' same =
        (subst UniqueOpen (sym same) unique, inl (failure, refl, same))

    made :
        {A : Type 0} (Found : Permission → Type 0) (effect : Option PermissionEffect) (value : A)
        (permission : Permission) (db' : Db)
        → Admitted db now organization_id membership_id tenant
        → Found permission
        → UniqueOpen db'.membership_permissions
        → effect_of organization_id membership_id permission.id db'.membership_permissions ≡ effect
        → Done {A = A} db now organization_id membership_id tenant Found effect (ok value, db')
    made Found effect value permission db' good found unique' same =
        (unique', inr (value, permission, refl, good, found, same))

    moved :
        {A : Type 0} (Found : Permission → Type 0) (effect : Option PermissionEffect)
        (r r' : Result A × Db)
        → r' ≡ r
        → Done {A = A} db now organization_id membership_id tenant Found effect r
        → Done {A = A} db now organization_id membership_id tenant Found effect r'
    moved Found effect r r' e done =
        subst (Done db now organization_id membership_id tenant Found effect) {x = r} {y = r'}
          (sym e) done

    -- Setting an override does what `Done` says, with the effect asked for, in force for the active
    -- permission of the key.
    pub set_membership_permission-Done :
        (id key : String) (effect : PermissionEffect)
        → Done db now organization_id membership_id tenant (ActivePermission db key) (some effect) (
            set_membership_permission current db now later id organization_id membership_id key
              effect tenant request)
    unfolding set_membership_permission
    set_membership_permission-Done id key effect =
        elim (admit-outcome current db now organization_id membership_id tenant request
          "permissions.manage") [
            | inr (failure, db', refused, same) ↦
                moved (ActivePermission db key) (some effect) (err failure, db')
                  (set_membership_permission current db now later id organization_id membership_id
                    key effect tenant request)
                  (ground arith) (threw (ActivePermission db key) (some effect) failure db' same)
            | inl (actor, admitted, member, good) ↦
                elim (Result-cases (
                  set_in_transaction current db later actor id organization_id membership_id key
                    effect tenant request)) [
                      | inl (failure, failed) ↦
                          moved (ActivePermission db key) (some effect) (err failure, db)
                            (set_membership_permission current db now later id organization_id
                              membership_id key effect tenant request)
                            (ground arith)
                            (threw (ActivePermission db key) (some effect) failure db refl)
                      | inr (db', done) ↦
                          let (target, permission, targeted, found, (members, unique', same)) =
                            set_in_transaction-Written later actor id key effect db' unique done in
                          let own =
                            admit-own current db now organization_id membership_id tenant request
                              "permissions.manage" actor admitted in
                          moved (ActivePermission db key) (some effect)
                            (ok (membership_view db' organization_id membership_id target), db')
                            (set_membership_permission current db now later id organization_id
                              membership_id key effect tenant request)
                            (ground (arith, shown db' target own targeted members))
                            (made (ActivePermission db key) (some effect)
                              (membership_view db' organization_id membership_id target) permission
                              db' good found unique' same)
                    ]
          ]

    -- Revoking an override does what `Done` says: none is in force for the permission of the key.
    pub revoke_membership_permission-Done :
        (key : String)
        → Done db now organization_id membership_id tenant (KnownPermission db key) none (
            revoke_membership_permission current db now later organization_id membership_id key
              tenant request)
    unfolding revoke_membership_permission
    revoke_membership_permission-Done key =
        elim (admit-outcome current db now organization_id membership_id tenant request
          "permissions.manage") [
            | inr (failure, db', refused, same) ↦
                moved (KnownPermission db key) none (err failure, db')
                  (revoke_membership_permission current db now later organization_id membership_id
                    key tenant request)
                  (ground arith) (threw (KnownPermission db key) none failure db' same)
            | inl (actor, admitted, member, good) ↦
                elim (Result-cases (
                  revoke_in_transaction current db later actor organization_id membership_id key
                    tenant request)) [
                      | inl (failure, failed) ↦
                          moved (KnownPermission db key) none (err failure, db)
                            (revoke_membership_permission current db now later organization_id
                              membership_id key tenant request)
                            (ground arith) (threw (KnownPermission db key) none failure db refl)
                      | inr (db', done) ↦
                          let (permission, found, (members, unique', same)) =
                            revoke_in_transaction-Written later actor key db' unique done in
                          moved (KnownPermission db key) none (ok tt, db')
                            (revoke_membership_permission current db now later organization_id
                              membership_id key tenant request)
                            (ground arith)
                            (made (KnownPermission db key) none tt permission db' good found unique'
                              same)
                    ]
          ]
