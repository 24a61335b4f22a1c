-- ===== src/Access/Fiscal.antt =====
-- modules/client-accounts/fiscal-authorization.service.ts: FiscalAuthorizationService, which asks
-- in turn for an active tenant, a second factor, the permission, the account's scope and, where
-- the caller wants it, a recent re-authentication; each refusal is recorded.
pub mod Authorized
pub mod Laws
use balanz.Prelude.{
  ℕ, String, Bool, true, false, not, ◌&&◌, ◌||◌, Option, none, some, includes, is_some, truthy,
  if◌then◌else◌,
}
use balanz.Http.{Result, ok, err, Failure, unauthorized, forbidden}
use balanz.Store.{Db, AuditEvent, AuditDecision, AuthSession, ClientAccount}
use balanz.Access.Audit.{record_event}
use balanz.Access.Context.{SessionContext, MfaStatus}
use balanz.Access.Contract.{has_recent_reauthentication}
use balanz.Access.Resolve.{revalidate_session}
use balanz.Access.Scope.{require_accessible_account}

-- FiscalAuthorizationInput
pub record Input : Type 0 where
  pub permission : String
  pub client_account_id : String
  pub object_type : String
  pub object_id : Option String
  pub require_reauthentication : Bool

-- RequestContext
pub record RequestContext : Type 0 where
  pub correlation_id : String
  pub ip_address : Option String

abbrev pub is_out_of_scope : AuditDecision → Bool
is_out_of_scope AuditDecision.out_of_scope = true
is_out_of_scope _ = false

-- the event of `denied`
abbrev pub denied_event :
    SessionContext → RequestContext → Input → AuditDecision → String → AuditEvent
denied_event context request input decision reason = record {
  organization_id = context.organization_id;
  actor_user_id = some context.user_id;
  actor_membership_id = context.membership_id;
  client_account_id = if is_out_of_scope decision then none else some input.client_account_id;
  action = "AUTHORIZATION_EVALUATED";
  permission_key = some input.permission;
  decision = decision;
  object_type = input.object_type;
  object_id = if is_out_of_scope decision then none else input.object_id;
  reason = reason;
  correlation_id = request.correlation_id;
  ip_address = request.ip_address;
}

abbrev pub mfa_active : MfaStatus → Bool
mfa_active MfaStatus.active = true
mfa_active _ = false

-- `!requireReauthentication || hasRecentReauthentication(session.reauthenticatedAt)`
abbrev pub reauthenticated : Bool → Option ℕ → ℕ → Bool
reauthenticated required at now = not required || has_recent_reauthentication at now

-- The first check of `authorize` that fails: its decision, the recorded reason, and the exception.
unfoldable pub refusal :
    Db → ℕ → AuthSession → SessionContext → Input → Option (AuditDecision × String × Failure)
refusal db now session context input =
    if not (context.tenant_active && truthy context.organization_id && truthy context.membership_id)
    then some (AuditDecision.deny, "INACTIVE_TENANT", forbidden "Active tenant required")
    else if not (is_some context.mfa_verified_at && mfa_active context.mfa_status)
    then some (AuditDecision.mfa_required, "MFA_REQUIRED", unauthorized "MFA_REQUIRED")
    else if not (includes context.permissions input.permission)
    then some (AuditDecision.deny, "INSUFFICIENT_PERMISSION", forbidden "Insufficient permissions")
    else elim (require_accessible_account db input.client_account_id context false) [
      | err error ↦ some (AuditDecision.out_of_scope, "OUT_OF_SCOPE", error)
      | ok account ↦
          if reauthenticated input.require_reauthentication session.reauthenticated_at now
          then none
          else some (
            AuditDecision.reauthentication_required,
            "REAUTHENTICATION_REQUIRED",
            unauthorized "REAUTHENTICATION_REQUIRED",
          )
    ]

-- authorize
unfoldable pub authorize :
    Option String
    → Db
    → ℕ
    → AuthSession
    → SessionContext
    → RequestContext
    → Input
    → Result (Unit {0}) × Db
authorize current db now session context request input =
    elim (refusal db now session context input) [
      | none ↦ (ok tt, db)
      | some (decision, reason, failure) ↦ (
        err failure,
        record_event current (denied_event context request input decision reason) db,
      )
    ]

abbrev pub worker_request : String → RequestContext
worker_request correlation_id = record { correlation_id = correlation_id; ip_address = none }

-- authorizeWorker; the clock is read four times.
unfoldable pub authorize_worker :
    Option String
    → Db
    → ℕ
    → ℕ
    → ℕ
    → ℕ
    → String
    → String
    → Input
    → Result (AuthSession × SessionContext) × Db
authorize_worker current db at now later last session_id correlation_id input =
    elim (revalidate_session db at now later session_id) [
      | err failure ↦ (err failure, db)
      | ok (session, context) ↦
          let (r, db') =
            authorize current db last session context (worker_request correlation_id) input in
          elim r [ ok _ ↦ (ok (session, context), db') | err failure ↦ (err failure, db') ]
    ]
