-- ===== src/Access/Change.antt =====
-- AuthorizationService.changeOrganization (modules/sessions/authorization.service.ts), a
-- transaction: what it throws leaves the tables as they were.
pub mod Laws
use balanz.Prelude.{
  ℕ, String, Bool, not, ◌&&◌, Option, none, some, leb, find, is_some, update_where, ◌==◌, List,
}
use balanz.Http.{Result, ok, err, unauthorized, not_found, ◌>>=◌, ◌>>◌, throw_if, or_throw}
use balanz.Store.{
  Db, Organization, Membership, AuthSession, organization_active, membership_active, session_active,
}

pub record Changed : Type 0 where
  pub session : AuthSession
  pub previous_organization_id : Option String
  pub previous_membership_id : Option String

pub find_own_session : Db → String → String → Option AuthSession
find_own_session db session_id user_id =
    find (λ s. s.id == session_id && s.user_id == user_id) db.sessions

pub find_active_organization : Db → String → Option Organization
find_active_organization db organization_id =
    find (λ o. o.id == organization_id && organization_active o.status) db.organizations

pub find_active_membership : Db → String → String → Option Membership
find_active_membership db organization_id user_id =
    find
      (λ m.
        m.organization_id == organization_id && m.user_id == user_id && membership_active m.status)
      db.memberships

-- The reads and checks of the transaction. `now` is the reading of the expiry test, `later` that
-- of `new Date()`.
pub plan_change : Db → ℕ → ℕ → String → String → String → Result Changed
plan_change db now later session_id user_id organization_id = do
  session ← or_throw (find_own_session db session_id user_id) (unauthorized "Invalid session")
  throw_if (not (session_active session.status)) (unauthorized "Invalid session")
  throw_if (leb session.expires_at now) (unauthorized "Verified session required")
  throw_if (session.requires_mfa && not (is_some session.mfa_verified_at))
      (unauthorized "Verified session required")
  organization ←
      or_throw (find_active_organization db organization_id) (not_found "Organization not found")
  membership ←
      or_throw (find_active_membership db organization_id user_id)
        (not_found "Organization not found")
  ok (record {
    session = record session {
      organization_id = some organization.id;
      membership_id = some membership.id;
      reauthenticated_at = none;
      last_activity_at = later;
    };
    previous_organization_id = session.organization_id;
    previous_membership_id = session.membership_id;
  })

-- `sessions.save(session)`: the row is found by its primary key.
pub save_session : AuthSession → Db → Db
save_session session db = record db {
  sessions = update_where (λ s. s.id == session.id) (λ s. session) db.sessions;
}

pub change_organization : Db → ℕ → ℕ → String → String → String → Result Changed × Db
change_organization db now later session_id user_id organization_id =
    let r = plan_change db now later session_id user_id organization_id in
    elim r [ ok c ↦ (ok c, save_session c.session db) | err e ↦ (err e, db) ]
