-- ===== src/Access/Administration.antt =====
-- modules/permissions/permission-administration.service.ts: PermissionAdministrationService, the
-- reads and changes of a membership's permission overrides. The table of permissions is listed by
-- key, as the queries order it.
pub mod Overrides
pub mod Guards
pub mod View
pub mod Admission
pub mod Laws
mod Tests
use balanz.Prelude.{
  ℕ, String, Bool, true, false, not, ◌&&◌, List, Option, none, some, find, truthy, is_some_of,
  if◌then◌else◌, ◌==◌,
}
use balanz.Http.{
  Result, ok, err, Failure, unauthorized, forbidden, not_found, ◌>>=◌, ◌>>◌, or_throw, throw_if,
}
use balanz.Store.{
  Db, MembershipPermission, PermissionEffect, AuditEvent, AuditDecision, membership_active,
  permission_active, same_effect,
}
use balanz.Access.Audit.{record_event}
use balanz.Access.Context.{SessionContext}
use balanz.Access.Contract.{has_recent_reauthentication}
use balanz.Access.Fiscal.{RequestContext}
use balanz.Access.Administration.Overrides.{require_target, set_override, revoke_override}
use balanz.Access.Administration.View.{
  MembershipView, require_organization, get_membership_permissions,
}
use balanz.Access.Administration.Guards.{admit}

-- the event of a change that was made
abbrev pub change_event :
    SessionContext
    → RequestContext
    → String
    → String
    → String
    → String
    → String
    → String
    → AuditEvent
change_event tenant request actor organization_id membership_id permission_key action reason =
    record {
      organization_id = some organization_id;
      actor_user_id = some tenant.user_id;
      actor_membership_id = some actor;
      client_account_id = none;
      action = action;
      permission_key = some permission_key;
      decision = AuditDecision.allow;
      object_type = "membership";
      object_id = some membership_id;
      reason = reason;
      correlation_id = request.correlation_id;
      ip_address = request.ip_address;
    }

abbrev pub effect_name : PermissionEffect → String
effect_name PermissionEffect.grant = "grant"
effect_name PermissionEffect.deny = "deny"

abbrev pub with_overrides : List MembershipPermission → Db → Db
with_overrides overrides db = record db { membership_permissions = overrides }

-- The transaction of setMembershipPermission; `id` is the key of the new row.
pub set_in_transaction :
    Option String
    → Db
    → ℕ
    → String
    → String
    → String
    → String
    → String
    → PermissionEffect
    → SessionContext
    → RequestContext
    → Result Db
set_in_transaction current db now actor id organization_id membership_id key effect tenant request =
    do
      target ← require_target db organization_id membership_id
      permission ←
          or_throw (find (λ p. p.key == key && permission_active p.status) db.permissions)
            (not_found "Permission not found")
      ok
          (elim (set_override now actor id organization_id membership_id permission effect
            db.membership_permissions) [
              | none ↦ db
              | some overrides ↦
                  record_event current
                    (change_event tenant request actor organization_id membership_id key
                      "membership_permission.set" (effect_name effect))
                    (with_overrides overrides db)
            ])

-- setMembershipPermission
pub set_membership_permission :
    Option String
    → Db
    → ℕ
    → ℕ
    → String
    → String
    → String
    → String
    → PermissionEffect
    → SessionContext
    → RequestContext
    → Result MembershipView × Db
set_membership_permission current db now later id organization_id membership_id key effect tenant
      request =
    let (admitted, db') =
      admit current db now organization_id membership_id "permissions.manage" tenant request in
    elim admitted [
      | err failure ↦ (err failure, db')
      | ok actor ↦
          elim (set_in_transaction current db' later actor id organization_id membership_id key
            effect tenant request) [
              | err failure ↦ (err failure, db')
              | ok db'' ↦
                  (get_membership_permissions db'' organization_id membership_id tenant, db'')
            ]
    ]

-- The transaction of revokeMembershipPermission.
pub revoke_in_transaction :
    Option String
    → Db
    → ℕ
    → String
    → String
    → String
    → String
    → SessionContext
    → RequestContext
    → Result Db
revoke_in_transaction current db now actor organization_id membership_id key tenant request = do
  target ← require_target db organization_id membership_id
  permission ← or_throw (find (λ p. p.key == key) db.permissions) (not_found "Permission not found")
  overrides ←
      revoke_override now actor organization_id membership_id permission db.membership_permissions
  ok (
      record_event current
        (change_event tenant request actor organization_id membership_id key
          "membership_permission.revoke" "return_to_role_default")
        (with_overrides overrides db))

-- revokeMembershipPermission
pub revoke_membership_permission :
    Option String
    → Db
    → ℕ
    → ℕ
    → String
    → String
    → String
    → SessionContext
    → RequestContext
    → Result (Unit {0}) × Db
revoke_membership_permission current db now later organization_id membership_id key tenant request =
    let (admitted, db') =
      admit current db now organization_id membership_id "permissions.manage" tenant request in
    elim admitted [
      | err failure ↦ (err failure, db')
      | ok actor ↦
          elim (revoke_in_transaction current db' later actor organization_id membership_id key
            tenant request) [ err failure ↦ (err failure, db') | ok db'' ↦ (ok tt, db'') ]
    ]
