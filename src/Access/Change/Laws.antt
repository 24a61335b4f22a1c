-- ===== src/Access/Change/Laws.antt =====
-- What a change of organization does to the sessions.
use balanz.Prelude.{
  ℕ, String, ◌<◌, ◌≡◌, sym, ap, subst, ◌∙◌, eq_refl, ◌⊎◌, inl, inr, true, none, some, arith, find,
  is_some, ◌==◌, Option-cases, find_holds, find_weaken, ◌≢◌, find-update_self, find-update_ne,
  and-split, eq_iff,
}
use balanz.Http.{Result, ok, err, Failure, Result-cases}
use balanz.Store.{Db, Organization, Membership, AuthSession, session_active}
use balanz.Access.Change.{
  Changed, find_own_session, find_active_organization, find_active_membership, plan_change,
  save_session, change_organization,
}

-- What a planned change has checked, and the session that it writes.
pub record Allowed (db : Db) (now later : ℕ) (session_id user_id organization_id : String)
    (c : Changed) : Type 0 where
  pub before : AuthSession
  pub organization : Organization
  pub membership : Membership
  pub own : find_own_session db session_id user_id ≡ some before
  pub active : session_active before.status ≡ true
  pub not_expired : now < before.expires_at
  pub mfa_done : before.requires_mfa ≡ true → is_some before.mfa_verified_at ≡ true
  pub organization_found : find_active_organization db organization_id ≡ some organization
  pub membership_found : find_active_membership db organization_id user_id ≡ some membership
  pub after : c.session ≡ record before {
    organization_id = some organization.id;
    membership_id = some membership.id;
    reauthenticated_at = none;
    last_activity_at = later;
  }
  pub previous_organization : c.previous_organization_id ≡ before.organization_id
  pub previous_membership : c.previous_membership_id ≡ before.membership_id

find-save_session :
    (session : AuthSession) (db : Db) (z : AuthSession)
    → find (λ s. s.id == session.id) db.sessions ≡ some z
    → find (λ s. s.id == session.id) (save_session session db).sessions ≡ some session
unfolding save_session
find-save_session session db z found =
    find-update_self (λ s. s.id == session.id) (λ s. session) db.sessions found (eq_refl session.id)

find-save_session_ne :
    (session : AuthSession) (db : Db) (other : String)
    → other ≢ session.id
    → find (λ s. s.id == other) (save_session session db).sessions
      ≡ find (λ s. s.id == other) db.sessions
unfolding save_session
find-save_session_ne session db other ne =
    find-update_ne (λ s. s.id == session.id) (λ s. s.id == other) (λ s. session) db.sessions
      (λ x h. ground (arith, eq_iff x.id other, eq_iff x.id session.id))
      (λ x h. ground (arith, eq_iff session.id other))

module _ (db : Db) (now later : ℕ) (session_id user_id organization_id : String) where
  pub plan_change-Allowed :
      (c : Changed)
      → plan_change db now later session_id user_id organization_id ≡ ok c
      → Allowed db now later session_id user_id organization_id c
  unfolding plan_change
  plan_change-Allowed c h = elim (Option-cases (find_own_session db session_id user_id)) [
    | inl missing ↦ absurd (ground arith)
    | inr (s, own) ↦ elim (Option-cases (find_active_organization db organization_id)) [
      | inl missing ↦ absurd (ground arith)
      | inr (o, org) ↦ elim (Option-cases (find_active_membership db organization_id user_id)) [
        | inl missing ↦ absurd (ground arith)
        | inr (m, mem) ↦ record {
          before = s;
          organization = o;
          membership = m;
          own = own;
          active = ground arith;
          not_expired = ground arith;
          mfa_done = ground arith;
          organization_found = org;
          membership_found = mem;
          after = ground arith;
          previous_organization = ground arith;
          previous_membership = ground arith;
        }
      ]
    ]
  ]

  abbrev outcome : Result Changed × Db
  outcome = change_organization db now later session_id user_id organization_id

  outcome-cases :
      ((e : Failure) × (outcome ≡ (err e, db)))
      ⊎ ((c : Changed) × (outcome ≡ (ok c, save_session c.session db))
          × Allowed db now later session_id user_id organization_id c)
  unfolding change_organization
  outcome-cases =
      elim (Result-cases (plan_change db now later session_id user_id organization_id)) [
        | inl (e, failed) ↦ inl (e, ground arith)
        | inr (c, planned) ↦ inr (c, ground arith, plan_change-Allowed c planned)
      ]

  -- The session that was found is the one asked for.
  own-id :
      (c : Changed)
      → Allowed db now later session_id user_id organization_id c
      → c.session.id ≡ session_id
  unfolding find_own_session
  own-id c allowed =
      let (same, _) = and-split _ _ (find_holds _ db.sessions allowed.own) in
      ap (λ s. s.id) allowed.after ∙ (eq_iff _ _).0 same

  saved_self :
      (c : Changed)
      → Allowed db now later session_id user_id organization_id c
      → find (λ s. s.id == session_id) (save_session c.session db).sessions ≡ some c.session
  unfolding find_own_session
  saved_self c allowed =
      let self = own-id c allowed in
      let (z, found) =
        find_weaken (λ s. s.id == session_id) (λ s. s.user_id == user_id) db.sessions allowed.own in
      subst (λ i. find (λ s. s.id == i) (save_session c.session db).sessions ≡ some c.session) self
        (find-save_session c.session db z
          (subst (λ i. find (λ s. s.id == i) db.sessions ≡ some z) (sym self) found))

  saved-ne :
      (c : Changed) (other : String)
      → Allowed db now later session_id user_id organization_id c
      → other ≢ session_id
      → find (λ s. s.id == other) (save_session c.session db).sessions
        ≡ find (λ s. s.id == other) db.sessions
  saved-ne c other allowed ne =
      find-save_session_ne c.session db other (λ e. ne (e ∙ own-id c allowed))

  -- A change of organization either throws and leaves every table as it was, or it was allowed: the
  -- session was the user's own, active, unexpired and past its second factor, and organization and
  -- membership are active. Then the session's row is the one returned, with the new tenant and no
  -- re-authentication, and every other session is as before.
  pub change_organization-outcome :
      ((e : Failure) × (outcome ≡ (err e, db)))
      ⊎ ((c : Changed) × (outcome.0 ≡ ok c)
          × Allowed db now later session_id user_id organization_id c
          × (find (λ s. s.id == session_id) outcome.1.sessions ≡ some c.session)
          × ((other : String)
              → other ≢ session_id
              → find (λ s. s.id == other) outcome.1.sessions
                ≡ find (λ s. s.id == other) db.sessions))
  change_organization-outcome = elim outcome-cases [
    | inl refused ↦ inl refused
    | inr (c, done, allowed) ↦ inr (
      c,
      ap (λ r. r.0) done,
      allowed,
      ap (λ r. find (λ s. s.id == session_id) r.1.sessions) done ∙ saved_self c allowed,
      λ other ne.
          ap (λ r. find (λ s. s.id == other) r.1.sessions) done ∙ saved-ne c other allowed ne,
    )
  ]
