-- ===== src/Access/Resolve.antt =====
-- modules/sessions/authorization.service.ts: AuthorizationService. The optional repositories of
-- the constructor are present, as in the running application. Each reading of the clock is an
-- argument of its own, in the order of the readings.
pub mod Laws
pub mod Session
use balanz.Prelude.{
  ℕ, String, Bool, true, false, not, ◌&&◌, ◌||◌, List, [], ◌∷◌, Option, none, some, map, leb, ltb,
  find, filter, includes, truthy, is_some, if◌then◌else◌, ◌==◌,
}
use balanz.Http.{Result, ok, err, unauthorized, forbidden, ◌>>=◌, ◌>>◌, throw_if, or_throw}
use balanz.Store.{
  Db, User, Organization, Membership, AuthSession, AuthFactor, FactorStatus, RolePermission,
  MembershipPermission, AccountAssignment, user_active, organization_active, membership_active,
  session_active, assignment_active,
}
use balanz.Catalog.{mfa_sensitive_permission_keys, needs_reauthentication}
use balanz.Access.Context.{SessionContext, AccountAccessMode, tenant, assigned, MfaStatus, disabled}
use balanz.Access.Effective.{effective_permissions, sort}

-- the newest of the rows that fit, by `order: { createdAt: 'DESC' }`
unfoldable pub newest_factor : (AuthFactor → Bool) → List AuthFactor → Option AuthFactor
newest_factor fits [] = none
newest_factor fits (f ∷ fs) = elim (newest_factor fits fs) [
  | none ↦ if fits f then some f else none
  | some g ↦ if fits f && leb g.created_at f.created_at then some f else some g
]

abbrev is_open_factor : FactorStatus → Bool
is_open_factor FactorStatus.revoked = false
is_open_factor _ = true

-- `mfaStatus` of a factor that is active, pending or absent
abbrev mfa_status_of : Option AuthFactor → MfaStatus
mfa_status_of none = disabled
mfa_status_of (some f) = elim f.status [
  | FactorStatus.active ↦ MfaStatus.active
  | FactorStatus.pending ↦ MfaStatus.pending
  | FactorStatus.revoked ↦ disabled
]

unfoldable pub user_mfa_status : Db → String → MfaStatus
unfolding newest_factor
user_mfa_status db user_id =
    mfa_status_of (newest_factor (λ f. f.user_id == user_id && is_open_factor f.status) db.factors)

-- the membership row of a session's tenant
unfoldable pub find_membership : Db → String → String → String → Option Membership
find_membership db membership_id organization_id user_id =
    find
      (λ m. m.id == membership_id && m.organization_id == organization_id && m.user_id == user_id)
      db.memberships

unfoldable pub find_organization : Db → String → Option Organization
find_organization db organization_id = find (λ o. o.id == organization_id) db.organizations

-- `rolePermissions.find({ roleId, enabled: true })`
abbrev pub enabled_defaults : Db → Membership → List RolePermission
enabled_defaults db m = filter (λ r. r.role_id == m.role.id && r.enabled) db.role_permissions

-- `membershipPermissions.find({ organizationId, membershipId, revokedAt: IsNull() })`
abbrev pub open_overrides : Db → String → String → List MembershipPermission
open_overrides db organization_id membership_id =
    filter
      (λ o.
        o.organization_id == organization_id
        && o.membership_id == membership_id
        && not (is_some o.revoked_at))
      db.membership_permissions

abbrev assigned_accounts : Db → Membership → List String
assigned_accounts db m =
    map (λ a. a.client_account_id)
      (filter
        (λ a.
          a.organization_id == m.organization_id
          && a.membership_id == m.id
          && assignment_active a.status)
        db.account_assignments)

-- `organization.ownerUserId === user.id ? 'tenant' : 'assigned'`
abbrev pub access_mode : Organization → User → AccountAccessMode
access_mode o u = if o.owner_user_id == u.id then tenant else assigned

-- What the tenant's branch of `resolve` computes.
pub record Tenancy : Type 0 where
  pub role : Option String
  pub permissions : List String
  pub assigned_account_ids : List String
  pub account_access_mode : AccountAccessMode
  pub tenant_active : Bool

abbrev no_tenancy : Tenancy
no_tenancy = record {
  role = none;
  permissions = [];
  assigned_account_ids = [];
  account_access_mode = assigned;
  tenant_active = false;
}

unfoldable pub tenancy_of : Db → ℕ → ℕ → AuthSession → User → Organization → Membership → Tenancy
tenancy_of db now later session user o m = record {
  role = some m.role.key;
  permissions =
      effective_permissions now (access_mode o user) (enabled_defaults db m)
        (open_overrides db m.organization_id m.id);
  assigned_account_ids = assigned_accounts db m;
  account_access_mode = access_mode o user;
  tenant_active =
      organization_active o.status
      && membership_active m.status
      && session_active session.status
      && ltb later session.expires_at
      && (not session.requires_mfa || is_some session.mfa_verified_at);
}

-- `if (session.organizationId && session.membershipId) { … }`
unfoldable pub resolve_tenancy :
    Db → ℕ → ℕ → AuthSession → User → Option String → Option String → Result Tenancy
resolve_tenancy db now later session user (some organization_id) (some membership_id) =
    if truthy (some organization_id) && truthy (some membership_id)
    then (do
      o ← or_throw (find_organization db organization_id) (forbidden "Invalid tenant context")
      m ←
          or_throw (find_membership db membership_id organization_id session.user_id)
            (forbidden "Invalid tenant context")
      ok (tenancy_of db now later session user o m))
    else ok no_tenancy
resolve_tenancy db now later session user _ _ = ok no_tenancy

abbrev context_of : Db → AuthSession → User → Tenancy → SessionContext
context_of db session user t = record {
  user_id = user.id;
  session_id = session.id;
  organization_id = session.organization_id;
  membership_id = session.membership_id;
  role = t.role;
  permissions = t.permissions;
  assigned_account_ids = sort t.assigned_account_ids;
  account_access_mode = t.account_access_mode;
  mfa_verified_at = session.mfa_verified_at;
  reauthenticated_at = session.reauthenticated_at;
  requires_mfa = session.requires_mfa;
  mfa_status = user_mfa_status db session.user_id;
  expires_at = session.expires_at;
  tenant_active = t.tenant_active;
  reauthentication_required_actions = filter needs_reauthentication t.permissions;
}

unfoldable pub resolve : Db → ℕ → ℕ → AuthSession → Result SessionContext
resolve db now later session = do
  user ← or_throw (find (λ u. u.id == session.user_id) db.users) (unauthorized "Inactive user")
  throw_if (not (user_active user.status)) (unauthorized "Inactive user")
  t ← resolve_tenancy db now later session user session.organization_id session.membership_id
  ok (context_of db session user t)

unfoldable pub require_tenant : Db → ℕ → ℕ → AuthSession → Result SessionContext
require_tenant db now later session = do
  context ← resolve db now later session
  throw_if (not context.tenant_active) (forbidden "Active tenant required")
  ok context

unfoldable pub find_active_session : Db → String → Option AuthSession
find_active_session db session_id =
    find (λ s. s.id == session_id && session_active s.status) db.sessions

-- revalidateSession; the first reading of the clock is `at`.
unfoldable pub revalidate_session : Db → ℕ → ℕ → ℕ → String → Result (AuthSession × SessionContext)
revalidate_session db at now later session_id = do
  session ← or_throw (find_active_session db session_id) (unauthorized "Invalid session")
  throw_if (leb session.expires_at at) (unauthorized "Invalid session")
  context ← require_tenant db now later session
  ok (session, context)

pub require_mfa : AuthSession → String → Result (Unit {0})
require_mfa session permission =
    if not (includes mfa_sensitive_permission_keys permission)
    then ok tt
    else if session.requires_mfa && not (is_some session.mfa_verified_at)
    then err (unauthorized "MFA_REQUIRED")
    else if not session.requires_mfa
    then err (forbidden "MFA_SETUP_REQUIRED")
    else ok tt
