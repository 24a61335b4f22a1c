-- ===== src/Access/Administration/Guards.antt =====
-- Who may administer permissions (modules/permissions/permission-administration.service.ts):
-- requireAdministrativeMutation, preventOwnerMutation, and the record of a denial.
use balanz.Prelude.{
  ℕ, String, not, ◌&&◌, Option, none, some, find, truthy, is_some_of, if◌then◌else◌, ◌==◌,
}
use balanz.Http.{Result, ok, err, Failure, unauthorized, forbidden, not_found, or_throw}
use balanz.Store.{Db, AuditEvent, AuditDecision}
use balanz.Access.Audit.{record_event}
use balanz.Access.Context.{SessionContext}
use balanz.Access.Contract.{has_recent_reauthentication}
use balanz.Access.Fiscal.{RequestContext}
use balanz.Access.Administration.View.{require_organization}

-- the event of auditDenial
abbrev pub denial :
    SessionContext → RequestContext → String → String → String → AuditDecision → String → AuditEvent
denial tenant request organization_id membership_id permission_key decision reason = record {
  organization_id = some organization_id;
  actor_user_id = some tenant.user_id;
  actor_membership_id = tenant.membership_id;
  client_account_id = none;
  action = "permission_administration.denied";
  permission_key = some permission_key;
  decision = decision;
  object_type = "membership";
  object_id = some membership_id;
  reason = reason;
  correlation_id = request.correlation_id;
  ip_address = request.ip_address;
}

-- Why an administrative change is refused: the exception, and what is recorded of it, if anything.
pub data Refusal : Type 0 where
  recorded : AuditDecision → String → Failure → Refusal
  silent : Failure → Refusal

-- preventOwnerMutation
unfoldable pub prevent_owner_mutation : Db → String → String → Option Refusal
prevent_owner_mutation db organization_id membership_id =
    elim (find (λ o. o.id == organization_id) db.organizations) [
      | none ↦ some (silent (not_found "Membership not found"))
      | some organization ↦
          elim (find (λ m. m.id == membership_id && m.organization_id == organization_id)
            db.memberships) [
              | none ↦ some (silent (not_found "Membership not found"))
              | some membership ↦
                  if organization.owner_user_id == membership.user_id
                  then some (
                      recorded AuditDecision.deny "OWNER_MEMBERSHIP_PROTECTED"
                        (forbidden "Organization owner permissions are protected"))
                  else none
            ]
    ]

-- requireAdministrativeMutation
unfoldable pub require_administrative_mutation :
    Db → ℕ → String → String → SessionContext → Option Refusal
require_administrative_mutation db now organization_id membership_id tenant =
    if not (has_recent_reauthentication tenant.reauthenticated_at now)
    then some (
        recorded AuditDecision.reauthentication_required "REAUTHENTICATION_REQUIRED"
          (unauthorized "REAUTHENTICATION_REQUIRED"))
    else if is_some_of tenant.membership_id membership_id
    then some (
        recorded AuditDecision.deny "SELF_MUTATION_FORBIDDEN"
          (forbidden "Self elevation is not allowed"))
    else prevent_owner_mutation db organization_id membership_id

-- The guards that set and revoke share: the acting membership, or the exception with the tables
-- that it leaves.
unfoldable pub admit :
    Option String
    → Db
    → ℕ
    → String
    → String
    → String
    → SessionContext
    → RequestContext
    → Result String × Db
admit current db now organization_id membership_id permission_key tenant request =
    elim (require_organization organization_id tenant) [
      | err failure ↦ (err failure, db)
      | ok _ ↦ elim (require_administrative_mutation db now organization_id membership_id tenant) [
        | some (recorded decision reason failure) ↦ (
          err failure,
          record_event current
              (denial tenant request organization_id membership_id permission_key decision reason)
              db,
        )
        | some (silent failure) ↦ (err failure, db)
        | none ↦
            if truthy tenant.membership_id
            then (or_throw tenant.membership_id (forbidden "Active membership required"), db)
            else (err (forbidden "Active membership required"), db)
      ]
    ]
