-- ===== src/Access/Guard.antt =====
-- common/guards/permissions.guard.ts: PermissionsGuard. A handler's `@Permissions` list, read by
-- the reflector, is the argument `required`.
pub mod Laws
pub mod Trail
use balanz.Prelude.{
  String, Bool, true, false, not, ◌&&◌, ◌||◌, List, [], ◌∷◌, Option, none, some, any, find, head?,
  includes, is_some, truthy, if◌then◌else◌,
}
use balanz.Http.{Result, ok, err, unauthorized, forbidden}
use balanz.Store.{Db, AuditEvent, AuditDecision, AuthSession}
use balanz.Catalog.{mfa_sensitive_permission_keys}
use balanz.Access.Audit.{record_event}
use balanz.Access.Context.{SessionContext}
use balanz.Access.Contract.{has_all_permissions}

-- What the guard reads of the request; `user_permissions` is `request.user.permissions`, absent
-- if there is no user or no such array.
pub record Request : Type 0 where
  pub tenant_context : Option SessionContext
  pub auth_session : Option AuthSession
  pub user_permissions : Option (List String)
  pub correlation_id : Option String
  pub ip : Option String

abbrev pub is_sensitive : String → Bool
is_sensitive = includes mfa_sensitive_permission_keys

-- `required.find(sensitive) ?? required[0]`
abbrev pub denied_key : List String → Option String
denied_key required = elim (find is_sensitive required) [
  | none ↦ head? required
  | some key ↦ some key
]

abbrev pub or_null : Option String → Option String
or_null o = if truthy o then o else none

-- The event of auditDenial.
abbrev pub denial :
    SessionContext → String → Request → List String → AuditDecision → String → AuditEvent
denial tenant correlation_id request required decision reason = record {
  organization_id = tenant.organization_id;
  actor_user_id = some tenant.user_id;
  actor_membership_id = tenant.membership_id;
  client_account_id = none;
  action = "authorization.denied";
  permission_key = denied_key required;
  decision = decision;
  object_type = "http_endpoint";
  object_id = none;
  reason = reason;
  correlation_id = correlation_id;
  ip_address = or_null request.ip;
}

-- auditDenial: nothing without an organization or a correlation.
unfoldable pub audit_denial :
    Option String
    → Request
    → Option SessionContext
    → Option String
    → List String
    → AuditDecision
    → String
    → Db
    → Db
audit_denial current request (some tenant) (some id) required decision reason db =
    if truthy tenant.organization_id && truthy (some id)
    then record_event current (denial tenant id request required decision reason) db
    else db
audit_denial current request _ _ required decision reason db = db

-- The first `if` of authorizeRequest: a decision and its reason, if the second factor forbids the
-- request.
unfoldable pub mfa_gate : Option AuthSession → List String → Option (AuditDecision × String)
mfa_gate none required = none
mfa_gate (some session) required =
    if any is_sensitive required
    then (if session.requires_mfa && not (is_some session.mfa_verified_at)
        then some (AuditDecision.mfa_required, "MFA_REQUIRED")
        else if not session.requires_mfa
        then some (AuditDecision.deny, "MFA_SETUP_REQUIRED")
        else none)
    else none

abbrev pub gate_failure : AuditDecision → String → Result Bool
gate_failure AuditDecision.mfa_required reason = err (unauthorized reason)
gate_failure _ reason = err (forbidden reason)

-- The rest of authorizeRequest, after the second factor.
unfoldable pub check_permissions : Option String → Request → List String → Db → Result Bool × Db
check_permissions current request required db = elim request.tenant_context [
  | some tenant ↦ if has_all_permissions tenant.permissions required then (ok true, db) else (
    err (forbidden "Insufficient permissions"),
    audit_denial current request (some tenant) request.correlation_id required AuditDecision.deny
        "INSUFFICIENT_PERMISSION" db,
  )
  | none ↦ elim request.user_permissions [
    | none ↦ (err (forbidden "Missing permissions"), db)
    | some permissions ↦
        if has_all_permissions permissions required
        then (ok true, db)
        else (err (forbidden "Insufficient permissions"), db)
  ]
]

-- authorizeRequest; an absent list and an empty one demand nothing.
unfoldable pub authorize_request :
    Option String → Request → Option (List String) → Db → Result Bool × Db
authorize_request current request none db = (ok true, db)
authorize_request current request (some []) db = (ok true, db)
authorize_request current request (some (key ∷ keys)) db =
    elim (mfa_gate request.auth_session (key ∷ keys)) [
      | some (decision, reason) ↦ (
        gate_failure decision reason,
        audit_denial current request request.tenant_context request.correlation_id (key ∷ keys)
            decision reason db,
      )
      | none ↦ check_permissions current request (key ∷ keys) db
    ]
