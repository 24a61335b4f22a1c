-- ===== src/Access/Administration/Admission.antt =====
-- Whom the guards of the permission administration admit.
use balanz.Prelude.{
  ℕ, String, ◌≡◌, refl, ap, ◌≢◌, ◌⊎◌, inl, inr, true, ◌&&◌, Option, none, some, arith, find, truthy,
  is_some_of, ◌==◌, eq_iff, Option-cases, Bool-cases,
}
use balanz.Http.{ok, err, Failure, forbidden, Result-cases}
use balanz.Store.{Db, Membership, Organization}
use balanz.Access.Administration.Guards.{
  denial, recorded, silent, prevent_owner_mutation, require_administrative_mutation, admit,
}
use balanz.Access.Administration.View.{require_organization}
use balanz.Access.Audit.{record_event}
use balanz.Access.Context.{SessionContext}
use balanz.Access.Fiscal.{RequestContext}
use balanz.Access.Fiscal.Authorized.{Recent, has_recent_reauthentication_iff}

-- Who may change the overrides of a membership: someone of the organization who authenticated
-- again a short while ago, not on the own membership, and not on the owner's.
pub record Admitted (db : Db) (now : ℕ) (organization_id membership_id : String)
    (tenant : SessionContext) : Type 0 where
  pub same_organization : tenant.organization_id ≡ some organization_id
  pub recent : Recent tenant.reauthenticated_at now
  pub not_self : tenant.membership_id ≢ some membership_id
  pub organization : Organization
  pub membership : Membership
  pub organization_found : find (λ o. o.id == organization_id) db.organizations ≡ some organization
  pub membership_found :
      find (λ m. m.id == membership_id && m.organization_id == organization_id) db.memberships
      ≡ some membership
  pub not_owner : organization.owner_user_id ≢ membership.user_id

is_some_of-eq : (o : Option String) (s : String) → is_some_of o s ≡ true → o ≡ some s
is_some_of-eq none s h = cc
is_some_of-eq (some t) s h = ap some ((eq_iff t s).0 h)

eq-is_some_of : (o : Option String) (s : String) → o ≡ some s → is_some_of o s ≡ true
eq-is_some_of none s h = cc
eq-is_some_of (some t) s h = ground (arith, eq_iff t s)

module _ (current : Option String) (db : Db) (now : ℕ) (organization_id membership_id : String)
    (tenant : SessionContext) (request : RequestContext) where
  mutation-Admitted :
      require_organization organization_id tenant ≡ ok tt
      → require_administrative_mutation db now organization_id membership_id tenant ≡ none
      → Admitted db now organization_id membership_id tenant
  unfolding require_organization require_administrative_mutation prevent_owner_mutation
  mutation-Admitted own free =
      elim (Option-cases (find (λ o. o.id == organization_id) db.organizations)) [
        | inl missing ↦ absurd (ground arith)
        | inr (o, org) ↦
            elim (Option-cases (
              find (λ m. m.id == membership_id && m.organization_id == organization_id)
                db.memberships)) [
                  | inl missing ↦ absurd (ground arith)
                  | inr (m, mem) ↦ record {
                    same_organization =
                        is_some_of-eq tenant.organization_id organization_id (ground arith);
                    recent =
                        (has_recent_reauthentication_iff tenant.reauthenticated_at now).0
                          (ground arith);
                    not_self =
                        λ e. ground (arith, eq-is_some_of tenant.membership_id membership_id e);
                    organization = o;
                    membership = m;
                    organization_found = org;
                    membership_found = mem;
                    not_owner = λ e. ground (arith, eq_iff o.owner_user_id m.user_id);
                  }
                ]
      ]

  -- The guards either let an admitted member act and change nothing, or throw, and leave the
  -- overrides, the memberships and the permissions as they were.
  pub admit-outcome :
      (key : String)
      → ((actor : String) × (admit current db now organization_id membership_id key tenant request
            ≡ (ok actor, db))
          × (tenant.membership_id ≡ some actor)
          × Admitted db now organization_id membership_id tenant)
        ⊎ ((failure : Failure) × (db' : Db) × (admit current db now organization_id membership_id
                key tenant request
              ≡ (err failure, db'))
            × (db'.membership_permissions ≡ db.membership_permissions))
  unfolding admit record_event
  admit-outcome key = elim (Result-cases (require_organization organization_id tenant)) [
    | inl (e, foreign) ↦ inr (e, db, ground arith, refl)
    | inr (_, own) ↦
        elim (Option-cases
          (require_administrative_mutation db now organization_id membership_id tenant)) [
            | inr (recorded decision reason failure, refused) ↦ inr (
              failure,
              record_event current
                  (denial tenant request organization_id membership_id key decision reason) db,
              ground arith,
              refl,
            )
            | inr (silent failure, refused) ↦ inr (failure, db, ground arith, refl)
            | inl free ↦ elim (Option-cases tenant.membership_id) [
              | inl nobody ↦ inr (forbidden "Active membership required", db, ground arith, refl)
              | inr (actor, member) ↦ elim (Bool-cases (truthy tenant.membership_id)) [
                | inl named ↦ inl (actor, ground arith, member, mutation-Admitted own free)
                | inr blank ↦ inr (forbidden "Active membership required", db, ground arith, refl)
              ]
            ]
          ]
  ]

  pub admit-own :
      (key actor : String)
      → admit current db now organization_id membership_id key tenant request ≡ (ok actor, db)
      → require_organization organization_id tenant ≡ ok tt
  unfolding admit
  admit-own key actor h = elim (Result-cases (require_organization organization_id tenant)) [
    | inl (e, foreign) ↦ absurd (ground arith)
    | inr (_, own) ↦ own
  ]
