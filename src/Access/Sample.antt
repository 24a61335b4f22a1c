-- ===== src/Access/Sample.antt =====
-- A small set of tables for the tests: Olga owns the organization, Ana is an accountant with an
-- assigned account, and Bruno is an administrator. Times are milliseconds.
use balanz.Prelude.{String, true, [], ◌∷◌, Option, none, some}
use balanz.Store.{
  Db, User, Membership, Permission, RolePermission, MembershipPermission, AuthSession, AuthFactor,
  UserStatus, OrganizationStatus, MembershipStatus, PermissionStatus, PermissionEffect,
  SessionStatus, FactorStatus, AssignmentStatus, AccountStatus,
}
use balanz.Access.Context.{SessionContext, AccountAccessMode, MfaStatus}

abbrev permission : String → String → Permission
permission id key = record {
  id = id;
  key = key;
  name = key;
  sensitive = true;
  status = PermissionStatus.active;
}

abbrev pub close_periods : Permission
close_periods = permission "p1" "periods.close"

abbrev pub view_cfdi : Permission
view_cfdi = permission "p2" "cfdi.view"

abbrev pub categories : Permission
categories = permission "p3" "cfdi.categories.manage"

abbrev by_default : String → Permission → RolePermission
by_default role p = record {
  role_id = role;
  permission = p;
  enabled = true;
  valid_from = none;
  valid_until = none;
}

abbrev pub member : String → String → String → Membership
member id user role = record {
  id = id;
  organization_id = "org";
  user_id = user;
  role = record { id = role; key = role };
  status = MembershipStatus.active;
  created_at = 1;
  invited_at = none;
  joined_at = some 1;
  suspended_at = none;
  revoked_at = none;
}

abbrev pub denied : MembershipPermission
denied = record {
  id = "o1";
  organization_id = "org";
  membership_id = "m-ana";
  permission = view_cfdi;
  effect = PermissionEffect.deny;
  granted_at = 5;
  granted_by_membership_id = "m-bruno";
  revoked_at = none;
  revoked_by_membership_id = none;
}

abbrev pub session_of : String → String → Option String → AuthSession
session_of id user membership = record {
  id = id;
  session_token_hash = "hash";
  user_id = user;
  organization_id = some "org";
  membership_id = membership;
  status = SessionStatus.active;
  mfa_verified_at = some 100;
  reauthenticated_at = some 200;
  requires_mfa = true;
  expires_at = 9000;
  last_activity_at = 100;
  revoked_reason = none;
  revoked_at = none;
}

abbrev pub ana_session : AuthSession
ana_session = session_of "s-ana" "ana" (some "m-ana")

abbrev pub user : String → User
user id = record { id = id; email = id; status = UserStatus.active; email_verified_at = some 1 }

abbrev factor : String → AuthFactor
factor id = record { user_id = id; status = FactorStatus.active; created_at = 1 }

abbrev pub tables : Db
tables = record {
  users = user "olga" ∷ user "ana" ∷ user "bruno" ∷ [];
  organizations =
      record {
        id = "org";
        name = "Org";
        slug = "org";
        owner_user_id = "olga";
        status = OrganizationStatus.active;
      }
      ∷ [];
  memberships =
      member "m-olga" "olga" "admin"
      ∷ member "m-ana" "ana" "accountant"
      ∷ member "m-bruno" "bruno" "admin"
      ∷ [];
  permissions = categories ∷ view_cfdi ∷ close_periods ∷ [];
  role_permissions =
      by_default "accountant" close_periods
      ∷ by_default "accountant" view_cfdi
      ∷ by_default "admin" categories
      ∷ [];
  membership_permissions = denied ∷ [];
  sessions = ana_session ∷ session_of "s-bruno" "bruno" (some "m-bruno") ∷ [];
  factors = factor "ana" ∷ factor "bruno" ∷ [];
  account_assignments =
      record {
        organization_id = "org";
        client_account_id = "acct";
        membership_id = "m-ana";
        status = AssignmentStatus.active;
        revoked_at = none;
        revoked_by_membership_id = none;
      }
      ∷ [];
  client_accounts =
      record { id = "acct"; organization_id = "org"; status = AccountStatus.active }
      ∷ record { id = "other"; organization_id = "org"; status = AccountStatus.active }
      ∷ [];
  audit_events = [];
}

-- the context of Ana
abbrev pub ana : SessionContext
ana = record {
  user_id = "ana";
  session_id = "s-ana";
  organization_id = some "org";
  membership_id = some "m-ana";
  role = some "accountant";
  permissions = "periods.close" ∷ [];
  assigned_account_ids = "acct" ∷ [];
  account_access_mode = AccountAccessMode.assigned;
  mfa_verified_at = some 100;
  reauthenticated_at = some 200;
  requires_mfa = true;
  mfa_status = MfaStatus.active;
  expires_at = 9000;
  tenant_active = true;
  reauthentication_required_actions = "periods.close" ∷ [];
}
