-- ===== src/Invitations/Table.antt =====
-- The rows of invitations (modules/invitations/entities), their states (invitation-state.ts), and
-- the events and guards that the operations of invitations.service.ts share.
use balanz.Prelude.{
  ℕ, String, Bool, true, false, not, ◌&&◌, List, Option, none, some, ltb, is_some_of, update_where,
  if◌then◌else◌, ◌==◌,
}
use balanz.Http.{Result, ok, err, unauthorized, forbidden, not_found, throw_if}
use balanz.Store.{Db, Role, AuditEvent, AuditDecision}
use balanz.Access.Audit.{record_event}
use balanz.Access.Context.{SessionContext}
use balanz.Access.Contract.{has_recent_reauthentication}
use balanz.Access.Fiscal.{RequestContext}

pub data InvitationStatus : Type 0 where
  pending accepted expired revoked : InvitationStatus

pub data DeliveryStatus : Type 0 where
  pending sent failed : DeliveryStatus

pub record Invitation : Type 0 where
  pub id : String
  pub organization_id : String
  pub email : String
  pub email_normalized : String
  pub user_id : Option String
  pub role : Role
  pub proposed_permissions : List String
  pub token_hash : String
  pub status : InvitationStatus
  pub invited_by_membership_id : String
  pub accepted_membership_id : Option String
  pub expires_at : ℕ
  pub last_sent_at : ℕ
  pub send_count : ℕ
  pub delivery_status : DeliveryStatus
  pub accepted_at : Option ℕ
  pub revoked_at : Option ℕ
  pub created_at : ℕ

pub record VerificationToken : Type 0 where
  pub user_id : String
  pub membership_id : Option String
  pub token_hash : String
  pub expires_at : ℕ
  pub used_at : Option ℕ

-- `roles` holds the roles with the scope of an organization.
pub record Tables : Type 0 where
  pub db : Db
  pub roles : List Role
  pub invitations : List Invitation
  pub verification_tokens : List VerificationToken

abbrev pub is_pending : InvitationStatus → Bool
is_pending InvitationStatus.pending = true
is_pending _ = false

abbrev pub is_revoked : InvitationStatus → Bool
is_revoked InvitationStatus.revoked = true
is_revoked _ = false

-- canTransitionInvitation
unfoldable pub can_transition_invitation : InvitationStatus → InvitationStatus → Bool
can_transition_invitation InvitationStatus.pending InvitationStatus.accepted = true
can_transition_invitation InvitationStatus.pending InvitationStatus.expired = true
can_transition_invitation InvitationStatus.pending InvitationStatus.revoked = true
can_transition_invitation _ _ = false

-- canAcceptInvitation
abbrev pub can_accept_invitation : InvitationStatus → ℕ → ℕ → Bool
can_accept_invitation status expires_at now = is_pending status && ltb now expires_at

-- `save(invitation)`, by the primary key
unfoldable pub save_invitation : Invitation → List Invitation → List Invitation
save_invitation i invitations = update_where (λ x. x.id == i.id) (λ _. i) invitations

abbrev pub with_invitations : List Invitation → Tables → Tables
with_invitations invitations t = record t { invitations = invitations }

abbrev pub with_db : Db → Tables → Tables
with_db db t = record t { db = db }

abbrev pub expire : Invitation → Invitation
expire i = record i { status = InvitationStatus.expired }

-- the event of `record`; an absent reason is the empty text
abbrev pub member_event :
    SessionContext → RequestContext → String → String → String → String → AuditEvent
member_event tenant request organization_id action object_type object_id = record {
  organization_id = some organization_id;
  actor_user_id = some tenant.user_id;
  actor_membership_id = tenant.membership_id;
  client_account_id = none;
  action = action;
  permission_key = some "members.manage";
  decision = AuditDecision.allow;
  object_type = object_type;
  object_id = some object_id;
  reason = "";
  correlation_id = request.correlation_id;
  ip_address = request.ip_address;
}

-- the event of recordPublicAcceptance
abbrev pub public_event : Invitation → RequestContext → String → Option String → AuditEvent
public_event i request action actor_user_id = record {
  organization_id = some i.organization_id;
  actor_user_id = actor_user_id;
  actor_membership_id = none;
  client_account_id = none;
  action = action;
  permission_key = none;
  decision = AuditDecision.allow;
  object_type = "invitation";
  object_id = some i.id;
  reason = "";
  correlation_id = request.correlation_id;
  ip_address = request.ip_address;
}

abbrev pub log : Option String → AuditEvent → Tables → Tables
log current event t = with_db (record_event current event t.db) t

-- The invitation that is out of time is saved as expired, with its event.
abbrev pub expire_saved : Option String → RequestContext → Invitation → Tables → Tables
expire_saved current request i t =
    log current (public_event i request "invitation.expire" none)
      (with_invitations (save_invitation (expire i) t.invitations) t)

-- requireTenant
abbrev pub require_tenant : String → SessionContext → Result (Unit {0})
require_tenant organization_id tenant =
    throw_if (not (is_some_of tenant.organization_id organization_id))
      (not_found "Organization not found")

-- activeOrganizationId
abbrev pub active_organization_id : SessionContext → Result String
active_organization_id tenant = elim tenant.organization_id [
  | none ↦ err (not_found "Resource not found")
  | some id ↦ if id == "" then err (not_found "Resource not found") else ok id
]

-- requireReauthentication
abbrev pub require_reauthentication : SessionContext → ℕ → Result (Unit {0})
require_reauthentication tenant now =
    throw_if (not (has_recent_reauthentication tenant.reauthenticated_at now))
      (unauthorized "REAUTHENTICATION_REQUIRED")

-- actorMembershipId
abbrev pub actor_membership_id : SessionContext → Result String
actor_membership_id tenant = elim tenant.membership_id [
  | none ↦ err (forbidden "Active membership required")
  | some id ↦ if id == "" then err (forbidden "Active membership required") else ok id
]
