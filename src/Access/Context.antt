-- ===== src/Access/Context.antt =====
-- modules/sessions/session.types.ts: what a session may do, as the guards and services see it.
use balanz.Prelude.{ℕ, String, Bool, Option, List}

pub data AccountAccessMode : Type 0 where
  tenant assigned : AccountAccessMode

pub data MfaStatus : Type 0 where
  disabled pending active : MfaStatus

-- SessionAuthorizationContext
pub record SessionContext : Type 0 where
  pub user_id : String
  pub session_id : String
  pub organization_id : Option String
  pub membership_id : Option String
  pub role : Option String
  pub permissions : List String
  pub assigned_account_ids : List String
  pub account_access_mode : AccountAccessMode
  pub mfa_verified_at : Option ℕ
  pub reauthenticated_at : Option ℕ
  pub requires_mfa : Bool
  pub mfa_status : MfaStatus
  pub expires_at : ℕ
  pub tenant_active : Bool
  pub reauthentication_required_actions : List String
