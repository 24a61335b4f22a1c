-- ===== src/Store.antt =====
-- The tables that authorization reads and writes, by their entities under modules/: users,
-- organizations, memberships, permissions, sessions, auth, client-accounts and audit. A date is
-- its number of milliseconds. An eager relation is a field that holds the related row. Columns
-- that no modelled operation reads or writes (names, timestamps of the row itself) are left out.
use balanz.Prelude.{ℕ, String, Bool, true, false, Option, List}

pub data UserStatus : Type 0 where
  active suspended : UserStatus

pub data OrganizationStatus : Type 0 where
  active suspended cancelled : OrganizationStatus

pub data MembershipStatus : Type 0 where
  pending active suspended revoked : MembershipStatus

pub data SessionStatus : Type 0 where
  active expired revoked : SessionStatus

pub data FactorStatus : Type 0 where
  pending active revoked : FactorStatus

pub data PermissionStatus : Type 0 where
  active deprecated disabled : PermissionStatus

pub data PermissionEffect : Type 0 where
  grant deny : PermissionEffect

pub data AssignmentStatus : Type 0 where
  active revoked : AssignmentStatus

pub data AccountStatus : Type 0 where
  active suspended archived : AccountStatus

pub record User : Type 0 where
  pub id : String
  pub email : String
  pub status : UserStatus
  pub email_verified_at : Option ℕ

pub record Organization : Type 0 where
  pub id : String
  pub name : String
  pub slug : String
  pub owner_user_id : String
  pub status : OrganizationStatus

pub record Role : Type 0 where
  pub id : String
  pub key : String

pub record Membership : Type 0 where
  pub id : String
  pub organization_id : String
  pub user_id : String
  pub role : Role
  pub status : MembershipStatus
  pub created_at : ℕ
  pub invited_at : Option ℕ
  pub joined_at : Option ℕ
  pub suspended_at : Option ℕ
  pub revoked_at : Option ℕ

pub record Permission : Type 0 where
  pub id : String
  pub key : String
  pub name : String
  pub sensitive : Bool
  pub status : PermissionStatus

pub record RolePermission : Type 0 where
  pub role_id : String
  pub permission : Permission
  pub enabled : Bool
  pub valid_from : Option ℕ
  pub valid_until : Option ℕ

pub record MembershipPermission : Type 0 where
  pub id : String
  pub organization_id : String
  pub membership_id : String
  pub permission : Permission
  pub effect : PermissionEffect
  pub granted_at : ℕ
  pub granted_by_membership_id : String
  pub revoked_at : Option ℕ
  pub revoked_by_membership_id : Option String

pub record AuthSession : Type 0 where
  pub id : String
  pub session_token_hash : String
  pub user_id : String
  pub organization_id : Option String
  pub membership_id : Option String
  pub status : SessionStatus
  pub mfa_verified_at : Option ℕ
  pub reauthenticated_at : Option ℕ
  pub requires_mfa : Bool
  pub expires_at : ℕ
  pub last_activity_at : ℕ
  pub revoked_reason : Option String
  pub revoked_at : Option ℕ

pub record AuthFactor : Type 0 where
  pub user_id : String
  pub status : FactorStatus
  pub created_at : ℕ

pub record AccountAssignment : Type 0 where
  pub organization_id : String
  pub client_account_id : String
  pub membership_id : String
  pub status : AssignmentStatus
  pub revoked_at : Option ℕ
  pub revoked_by_membership_id : Option String

pub record ClientAccount : Type 0 where
  pub id : String
  pub organization_id : String
  pub status : AccountStatus

pub data AuditDecision : Type 0 where
  allow deny mfa_required reauthentication_required out_of_scope : AuditDecision

-- The columns of an audit event that the modelled services fill in; the metadata are left out.
pub record AuditEvent : Type 0 where
  pub organization_id : Option String
  pub actor_user_id : Option String
  pub actor_membership_id : Option String
  pub client_account_id : Option String
  pub action : String
  pub permission_key : Option String
  pub decision : AuditDecision
  pub object_type : String
  pub object_id : Option String
  pub reason : String
  pub correlation_id : String
  pub ip_address : Option String

pub record Db : Type 0 where
  pub users : List User
  pub organizations : List Organization
  pub memberships : List Membership
  pub permissions : List Permission
  pub role_permissions : List RolePermission
  pub membership_permissions : List MembershipPermission
  pub sessions : List AuthSession
  pub factors : List AuthFactor
  pub account_assignments : List AccountAssignment
  pub client_accounts : List ClientAccount
  pub audit_events : List AuditEvent

-- The tests `status === …` of the services.
abbrev pub user_active : UserStatus → Bool
user_active active = true
user_active suspended = false

abbrev pub organization_active : OrganizationStatus → Bool
organization_active active = true
organization_active _ = false

abbrev pub membership_active : MembershipStatus → Bool
membership_active active = true
membership_active _ = false

abbrev pub session_active : SessionStatus → Bool
session_active active = true
session_active _ = false

abbrev pub permission_active : PermissionStatus → Bool
permission_active active = true
permission_active _ = false

abbrev pub assignment_active : AssignmentStatus → Bool
assignment_active active = true
assignment_active revoked = false

abbrev pub is_archived : AccountStatus → Bool
is_archived archived = true
is_archived _ = false

abbrev pub same_effect : PermissionEffect → PermissionEffect → Bool
same_effect grant grant = true
same_effect deny deny = true
same_effect _ _ = false
