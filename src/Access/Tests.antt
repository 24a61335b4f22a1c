-- ===== src/Access/Tests.antt =====
-- Runs of the authorization services on the sample tables, and the theorems at them.
use balanz.Prelude.{
  String, ◌<◌, ◌≡◌, refl, ◌≢◌, ◌↔◌, ◌⊎◌, true, false, [], ◌∷◌, none, some, find, includes, ◌==◌,
}
use balanz.Http.{ok, err, Failure, not_found}
use balanz.Store.{AuditEvent, ClientAccount}
use balanz.Access.Context.{AccountAccessMode}
use balanz.Access.Sample.{tables, ana_session, denied, ana}
use balanz.Catalog.{
  permission_catalog, permission_metadata, hu_p0_003_permission_keys, legacy_mfa_permission_keys,
  needs_reauthentication, is_permission_key, permission_definition, requires_mfa_key,
  matches_key_pattern, mfa_sensitive_permission_keys,
}
use balanz.Access.Effective.{effective_permissions}
use balanz.Access.Resolve.{
  newest_factor, user_mfa_status, find_membership, find_organization, tenancy_of, resolve_tenancy,
  resolve, require_tenant, find_active_session, revalidate_session,
}
use balanz.Access.Resolve.Laws.{ActiveTenant, is_effective, resolve-active}
use balanz.Access.Audit.{record_event}
use balanz.Access.Change.{Changed, change_organization}
use balanz.Access.Change.Laws.{Allowed, change_organization-outcome}
use balanz.Access.Contract.{
  has_recent_reauthentication, resolve_effective_permission, has_all_permissions,
}
use balanz.Access.Effective.Laws.{role_default, active_override, effective_permissions-resolves}
use balanz.Access.Fiscal.{Input, RequestContext, refusal, authorize, authorize_worker}
use balanz.Access.Fiscal.Authorized.{Reaches, Authorized}
use balanz.Access.Fiscal.Laws.{Refused, authorize-outcome, authorize_worker-ok}
use balanz.Access.Guard
use balanz.Access.Guard.{authorize_request, mfa_gate, check_permissions, audit_denial}
use balanz.Access.Guard.Laws.{SecondFactor, Covers, authorize_request_iff}
use balanz.Access.Guard.Trail.{with_event, Reports, authorize_request-denied}
use balanz.Access.Scope.{require_accessible_account, find_account, is_assigned}
use balanz.Access.Scope.Laws.{InScope, require_accessible_account_iff}

abbrev close : Input
close = record {
  permission = "periods.close";
  client_account_id = "acct";
  object_type = "period";
  object_id = some "per";
  require_reauthentication = true;
}

-- What the runs below compute with.
runs : Unit {0}
unfolding resolve resolve_tenancy tenancy_of find_organization find_membership user_mfa_status
    newest_factor effective_permissions needs_reauthentication is_permission_key
    permission_definition permission_catalog permission_metadata hu_p0_003_permission_keys
    legacy_mfa_permission_keys requires_mfa_key matches_key_pattern require_tenant
    find_active_session revalidate_session require_accessible_account find_account is_assigned
    has_recent_reauthentication refusal authorize authorize_worker record_event
    mfa_sensitive_permission_keys has_all_permissions authorize_request mfa_gate check_permissions
    audit_denial
runs = tt

-- The denied override removes a default; the rest of the defaults stays.
resolve-ana : resolve tables 300 300 ana_session ≡ ok ana
unfolding runs
resolve-ana = refl

resolve-active_example :
    (rows : ActiveTenant tables 300 ana_session) × ((key : String)
      → includes ana.permissions key
        ≡ is_effective tables 300 rows.user rows.organization rows.membership key)
resolve-active_example = resolve-active tables 300 300 ana_session ana resolve-ana refl

authorize_ana :
    authorize_worker none tables 300 300 300 300 "s-ana" "c1" close
    ≡ (ok (ana_session, ana), tables)
unfolding runs
authorize_ana = refl

authorize_worker-ok_example :
    (find_active_session tables "s-ana" ≡ some ana_session)
    × (300 < ana_session.expires_at)
    × (tables ≡ tables)
    × Authorized tables 300 ana_session ana close
    × ((rows : ActiveTenant tables 300 ana_session) × (is_effective tables 300 rows.user
            rows.organization rows.membership "periods.close"
          ≡ true)
        × Reaches tables close 300 ana_session rows)
authorize_worker-ok_example =
    authorize_worker-ok none tables tables 300 300 300 300 "s-ana" "c1" close ana_session ana
      authorize_ana

-- An account that is not assigned is refused, and the event does not name it.
authorize_foreign :
    (authorize_worker none tables 300 300 300 300 "s-ana" "c1"
      (record close { client_account_id = "other" })).0
    ≡ err (not_found "CLIENT_ACCOUNT_NOT_FOUND")
unfolding runs
authorize_foreign = refl

abbrev request : RequestContext
request = record { correlation_id = "c1"; ip_address = none }

authorize-outcome_example :
    ((authorize none tables 300 ana_session ana request close ≡ (ok tt, tables))
      × Authorized tables 300 ana_session ana close)
    ⊎ ((failure : Failure) × (event : AuditEvent) × (authorize none tables 300 ana_session ana
            request close
          ≡ (err failure, with_event event tables))
        × Refused none tables 300 ana_session ana request close event
        × ¬ Authorized tables 300 ana_session ana close)
authorize-outcome_example = authorize-outcome none tables 300 ana_session ana request close

effective_permissions-resolves_example :
    includes
      (effective_permissions 300 AccountAccessMode.assigned tables.role_permissions (denied ∷ []))
      "cfdi.view"
    ≡ resolve_effective_permission
        (role_default 300 AccountAccessMode.assigned tables.role_permissions "cfdi.view")
        (active_override (denied ∷ []) "cfdi.view")
effective_permissions-resolves_example =
    effective_permissions-resolves 300 AccountAccessMode.assigned tables.role_permissions
      (denied ∷ []) "cfdi.view"

require_accessible_account_iff_example :
    ((account : ClientAccount)
      → (require_accessible_account tables "acct" ana false ≡ ok account)
        ↔ InScope tables "acct" ana false account)
    × ((e : Failure)
        → require_accessible_account tables "acct" ana false ≡ err e
        → e ≡ not_found "CLIENT_ACCOUNT_NOT_FOUND")
require_accessible_account_iff_example = require_accessible_account_iff tables "acct" ana false

abbrev web_request : Guard.Request
web_request = record {
  tenant_context = some ana;
  auth_session = some ana_session;
  user_permissions = none;
  correlation_id = some "c1";
  ip = some "10.0.0.1";
}

authorize_request_iff_example :
    ((Guard.authorize_request none web_request (some ("periods.close" ∷ [])) tables).0 ≡ ok true)
    ↔ (SecondFactor (some ana_session) ("periods.close" ∷ [])
        × Covers ana.permissions ("periods.close" ∷ []))
authorize_request_iff_example =
    authorize_request_iff none web_request (some ("periods.close" ∷ [])) tables

refused_request :
    (Guard.authorize_request none web_request (some ("cfdi.view" ∷ [])) tables).0 ≢ ok true
unfolding runs
refused_request h = cc

authorize_request-denied_example :
    (event : AuditEvent) × Reports ana ("cfdi.view" ∷ []) event
    × ((Guard.authorize_request none web_request (some ("cfdi.view" ∷ [])) tables).1
        ≡ with_event event tables)
authorize_request-denied_example =
    authorize_request-denied none web_request "cfdi.view" [] tables ana "c1" refl refl refl refl
      refused_request

change_organization-outcome_example :
    ((e : Failure) × (change_organization tables 300 301 "s-ana" "ana" "org" ≡ (err e, tables)))
    ⊎ ((c : Changed) × ((change_organization tables 300 301 "s-ana" "ana" "org").0 ≡ ok c)
        × Allowed tables 300 301 "s-ana" "ana" "org" c
        × (find
              (λ s. s.id == "s-ana")
              (change_organization tables 300 301 "s-ana" "ana" "org").1.sessions
            ≡ some c.session)
        × ((other : String)
            → other ≢ "s-ana"
            → find
                (λ s. s.id == other)
                (change_organization tables 300 301 "s-ana" "ana" "org").1.sessions
              ≡ find (λ s. s.id == other) tables.sessions))
change_organization-outcome_example = change_organization-outcome tables 300 301 "s-ana" "ana" "org"
