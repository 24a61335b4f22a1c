-- ===== src/Access/Fiscal/Authorized.antt =====
-- What the authorization of a fiscal operation demands, of its context and of the rows behind it.
use balanz.Prelude.{
  ℕ, ◌+◌, ◌≤◌, ◌≡◌, refl, sym, ◌∙◌, ◌↔◌, ◌⊎◌, inl, inr, Bool, true, false, Option, none, some,
  arith, includes, is_some, Bool-cases, eq_iff, ◌==◌,
}
use balanz.Http.{ok}
use balanz.Store.{Db, AuthSession, ClientAccount, is_archived}
use balanz.Access.Context.{SessionContext, MfaStatus}
use balanz.Access.Contract.{has_recent_reauthentication, reauthentication_window_ms}
use balanz.Access.Resolve.{user_mfa_status, resolve}
use balanz.Access.Resolve.Session.{resolve-OfSession, resolve-access_mode}
use balanz.Access.Resolve.Laws.{ActiveTenant}
use balanz.Access.Scope.{find_account, is_assigned}
use balanz.Access.Scope.Laws.{InScope}
use balanz.Access.Fiscal.{Input, reauthenticated}

-- The session was re-authenticated no later than now, and within the window before it.
abbrev pub Recent : Option ℕ → ℕ → Type 0
Recent at now = (t : ℕ) × (at ≡ some t) × (t ≤ now) × (now ≤ t + reauthentication_window_ms)

-- What `authorize` demands of a context.
pub record Authorized (db : Db) (now : ℕ) (session : AuthSession) (context : SessionContext)
    (input : Input) : Type 0 where
  pub tenant : context.tenant_active ≡ true
  pub mfa_verified : is_some context.mfa_verified_at ≡ true
  pub mfa_enrolled : context.mfa_status ≡ MfaStatus.active
  pub permitted : includes context.permissions input.permission ≡ true
  pub account : ClientAccount
  pub scope : InScope db input.client_account_id context false account
  pub recent : input.require_reauthentication ≡ true → Recent session.reauthenticated_at now

pub has_recent_reauthentication_iff :
    (at : Option ℕ) (now : ℕ) → (has_recent_reauthentication at now ≡ true) ↔ Recent at now
unfolding has_recent_reauthentication
has_recent_reauthentication_iff none now = (λ h. absurd (ground arith), λ (t, e, _, _). cc)
has_recent_reauthentication_iff (some t) now =
    (λ h. (t, refl, ground arith, ground arith), λ (u, e, old, near). ground arith)

pub reauthenticated_iff :
    (required : Bool) (at : Option ℕ) (now : ℕ)
    → (reauthenticated required at now ≡ true) ↔ (required ≡ true → Recent at now)
reauthenticated_iff true at now = (
  λ h _. (has_recent_reauthentication_iff at now).0 h,
  λ h. (has_recent_reauthentication_iff at now).1 (h refl),
)
reauthenticated_iff false at now = (λ h k. absurd (ground arith), λ h. refl)

-- The session and the rows of its tenant reach the account: the user's second factor is active and
-- was verified in this session, and the account is of the tenant's organization, is not archived,
-- and is assigned to the membership unless the user owns the organization.
pub record Reaches (db : Db) (input : Input) (later : ℕ) (session : AuthSession)
    (rows : ActiveTenant db later session) : Type 0 where
  pub verified : is_some session.mfa_verified_at ≡ true
  pub second_factor : user_mfa_status db session.user_id ≡ MfaStatus.active
  pub account : ClientAccount
  pub found : find_account db input.client_account_id rows.organization_id ≡ some account
  pub kept : is_archived account.status ≡ false
  pub scope :
      (rows.organization.owner_user_id ≡ rows.user.id)
      ⊎ (is_assigned db rows.organization_id input.client_account_id rows.membership_id ≡ true)

pub Authorized-Reaches :
    (db : Db) (now later last : ℕ) (session : AuthSession) (context : SessionContext)
    (input : Input) (rows : ActiveTenant db later session)
    → resolve db now later session ≡ ok context
    → Authorized db last session context input
    → Reaches db input later session rows
Authorized-Reaches db now later last session context input rows resolved good =
    let s = good.scope in
    let own = resolve-OfSession db now later session context resolved in
    let mode = resolve-access_mode db now later session context rows resolved good.tenant in
    let oid : s.organization_id ≡ rows.organization_id =
      ground (arith, s.own_organization, own.organization_id, rows.in_organization) in
    let mid : s.membership_id ≡ rows.membership_id =
      ground (arith, s.own_membership, own.membership_id, rows.in_membership) in
    record {
      verified = rw (sym own.mfa_verified_at) good.mfa_verified;
      second_factor = sym own.mfa_status ∙ good.mfa_enrolled;
      account = good.account;
      found = rw (sym oid) s.found;
      kept = elim (Bool-cases (is_archived good.account.status)) [
        | inl archived ↦ absurd (ground (arith, s.status archived))
        | inr current ↦ current
      ];
      scope = elim (Bool-cases (rows.organization.owner_user_id == rows.user.id)) [
        | inl owner ↦ inl ((eq_iff rows.organization.owner_user_id rows.user.id).0 owner)
        | inr other ↦ inr (rw (sym oid, sym mid) (s.scope (ground (arith, mode, other))))
      ];
    }
