-- ===== src/Invitations/Accept.antt =====
-- accept (modules/invitations/invitations.service.ts). What the transaction throws leaves the
-- tables as they were; a refusal that it returns keeps what was saved. A conflict that only a unique
-- index of the database would report is not modelled: the reads of the transaction are its own.
pub mod Saved
pub mod Laws
pub mod Completes
use balanz.Prelude.{
  ℕ, String, ◌+◌, ◌*◌, Bool, true, false, not, ◌&&◌, ◌||◌, List, [], ◌∷◌, ◌++◌, Option, none, some,
  find, any, is_some, is_some_of, truthy, update_where, if◌then◌else◌, ◌==◌,
}
use balanz.Http.{
  Result, ok, err, unauthorized, conflict, unprocessable, ◌>>=◌, ◌>>◌, throw_if, or_throw,
}
use balanz.Store.{
  Db, User, UserStatus, Membership, MembershipStatus, FactorStatus, Organization, AccountAssignment,
  AssignmentStatus, MembershipPermission, user_active, organization_active, membership_active,
  assignment_active,
}
use balanz.Access.Fiscal.{RequestContext}
use balanz.Invitations.Table.{
  Invitation, InvitationStatus, VerificationToken, Tables, is_pending, can_accept_invitation,
  save_invitation, with_invitations, with_db, expire_saved, log, public_event,
}

-- AcceptInvitationDto
pub record AcceptInput : Type 0 where
  pub token_hash : String
  pub email_normalized : String
  pub first_name : Option String
  pub last_name : Option String
  pub password : Option String

-- The keys of the rows that may be created, and the digest of the verification token.
pub record NewKeys : Type 0 where
  pub user_id : String
  pub membership_id : String
  pub verification_hash : String
  pub verification_ttl_minutes : ℕ

-- the result, without the columns of the invitation
pub record Accepted : Type 0 where
  pub invitation_id : String
  pub user_id : String
  pub membership_id : String
  pub membership_status : MembershipStatus
  pub role : String

abbrev pub is_revoked_membership : MembershipStatus → Bool
is_revoked_membership MembershipStatus.revoked = true
is_revoked_membership _ = false

abbrev pub is_pending_membership : MembershipStatus → Bool
is_pending_membership MembershipStatus.pending = true
is_pending_membership _ = false

-- `existing && existing.status !== REVOKED`
abbrev pub is_taken : Option Membership → Bool
is_taken none = false
is_taken (some m) = not (is_revoked_membership m.status)

abbrev pub new_user : String → String → User
new_user id email = record {
  id = id;
  email = email;
  status = UserStatus.active;
  email_verified_at = none;
}

-- The user of the address, created if there is none: the user, and the users after.
unfoldable pub find_or_create_user : AcceptInput → NewKeys → List User → Result (User × List User)
find_or_create_user input keys users = elim (find (λ u. u.email == input.email_normalized) users) [
  | none ↦
      if truthy input.first_name && truthy input.last_name && truthy input.password
      then (let user = new_user keys.user_id input.email_normalized in
          ok (user, users ++ user ∷ []))
      else err (unprocessable "Profile and password are required for a new user")
  | some user ↦
      if user_active user.status then ok (user, users) else err (unauthorized "Invalid invitation")
]

abbrev is_active_factor : FactorStatus → Bool
is_active_factor FactorStatus.active = true
is_active_factor _ = false

-- The status of the membership: active for a verified user with an active second factor.
unfoldable pub membership_status_of : Db → User → MembershipStatus
membership_status_of db user =
    if is_some user.email_verified_at
      && any (λ f. f.user_id == user.id && is_active_factor f.status) db.factors
    then MembershipStatus.active
    else MembershipStatus.pending

unfoldable pub find_member : String → String → List Membership → Option Membership
find_member organization_id user_id memberships =
    find (λ m. m.organization_id == organization_id && m.user_id == user_id) memberships

-- the columns of the membership that `accept` sets, on the existing row or a new one
abbrev pub joined : Invitation → String → String → ℕ → MembershipStatus → ℕ → Membership
joined i id user_id created_at status now = record {
  id = id;
  organization_id = i.organization_id;
  user_id = user_id;
  role = i.role;
  status = status;
  created_at = created_at;
  invited_at = some i.created_at;
  joined_at = if membership_active status then some now else none;
  suspended_at = none;
  revoked_at = none;
}

abbrev pub is_open_override : Membership → MembershipPermission → Bool
is_open_override m o =
    o.organization_id == m.organization_id && o.membership_id == m.id && not (is_some o.revoked_at)

abbrev pub is_open_assignment : Membership → AccountAssignment → Bool
is_open_assignment m a =
    a.organization_id == m.organization_id && a.membership_id == m.id && assignment_active a.status

-- The open overrides and the active assignments of a membership that comes back are revoked.
unfoldable pub revoke_grants : Invitation → Membership → ℕ → Db → Db
revoke_grants i m now db = record db {
  membership_permissions =
      update_where (is_open_override m)
        (λ o. record o {
          revoked_at = some now;
          revoked_by_membership_id = some i.invited_by_membership_id;
        })
        db.membership_permissions;
  account_assignments =
      update_where (is_open_assignment m)
        (λ a. record a {
          status = AssignmentStatus.revoked;
          revoked_at = some now;
          revoked_by_membership_id = some i.invited_by_membership_id;
        })
        db.account_assignments;
}

-- The membership and the tables after it is saved.
unfoldable pub save_membership :
    Invitation → User → String → MembershipStatus → ℕ → Option Membership → Db → Membership × Db
save_membership i user new_id status now none db =
    let m = joined i new_id user.id now status now in
    (m, record db { memberships = db.memberships ++ m ∷ [] })
save_membership i user new_id status now (some existing) db =
    let m = joined i existing.id user.id existing.created_at status now in
    (
      m,
      revoke_grants i m now (record db {
        memberships = update_where (λ x. x.id == existing.id) (λ _. m) db.memberships;
      }),
    )

-- The unused tokens of a pending membership are used up, and a new one is saved.
unfoldable pub renew_verification :
    NewKeys → Membership → ℕ → List VerificationToken → List VerificationToken
renew_verification keys m now tokens =
    if is_pending_membership m.status
    then update_where
        (λ t. t.user_id == m.user_id && is_some_of t.membership_id m.id && not (is_some t.used_at))
        (λ t. record t { used_at = some now }) tokens
      ++ record {
        user_id = m.user_id;
        membership_id = some m.id;
        token_hash = keys.verification_hash;
        expires_at = now + keys.verification_ttl_minutes * 60000;
        used_at = none;
      }
        ∷ []
    else tokens

abbrev pub accept_row : Invitation → Membership → ℕ → Invitation
accept_row i m now = record i {
  user_id = some m.user_id;
  accepted_membership_id = some m.id;
  accepted_at = some now;
  status = InvitationStatus.accepted;
}

-- What the transaction writes once nothing stands against it, and what it returns.
unfoldable pub finish_acceptance :
    Option String
    → NewKeys
    → Tables
    → ℕ
    → RequestContext
    → Invitation
    → User
    → List User
    → Accepted × Tables
finish_acceptance current keys t now request i user users =
    let (m, db) =
      save_membership i user keys.membership_id (membership_status_of t.db user) now
        (find_member i.organization_id user.id t.db.memberships) (record t.db { users = users }) in
    let i' = accept_row i m now in
    (
      record {
        invitation_id = i.id;
        user_id = user.id;
        membership_id = m.id;
        membership_status = m.status;
        role = i.role.key;
      },
      log current (public_event i' request "invitation.accept" (some user.id)) (record t {
        db = db;
        invitations = save_invitation i' t.invitations;
        verification_tokens = renew_verification keys m now t.verification_tokens;
      }),
    )

-- The transaction from the check of the organization on.
unfoldable pub accept_pending :
    Option String
    → NewKeys
    → Tables
    → ℕ
    → AcceptInput
    → RequestContext
    → Invitation
    → Result (Accepted × Tables)
accept_pending current keys t now input request i = do
  organization ←
      or_throw
        (find (λ o. o.id == i.organization_id && organization_active o.status) t.db.organizations)
        (unauthorized "Invalid invitation")
  (user, users) ← find_or_create_user input keys t.db.users
  throw_if (is_taken (find_member i.organization_id user.id t.db.memberships))
      (conflict "Membership already exists")
  ok (finish_acceptance current keys t now request i user users)

unfoldable pub find_invitation : String → List Invitation → Option Invitation
find_invitation id invitations = find (λ i. i.id == id) invitations

abbrev pub matches : AcceptInput → Invitation → Bool
matches input i = i.token_hash == input.token_hash && i.email_normalized == input.email_normalized

-- The verification of a pending membership is sent after the transaction; what the e-mail service
-- throws is thrown.
abbrev pub answered : Result (Unit {0}) → Accepted → Result Accepted
answered delivery r =
    if is_pending_membership r.membership_status
    then elim delivery [ ok _ ↦ ok r | err failure ↦ err failure ]
    else ok r

-- accept; `delivery` is what the e-mail service returns or throws.
unfoldable pub accept :
    Option String
    → Result (Unit {0})
    → NewKeys
    → Tables
    → ℕ
    → String
    → AcceptInput
    → RequestContext
    → Result Accepted × Tables
accept current delivery keys t now invitation_id input request =
    elim (find_invitation invitation_id t.invitations) [
      | none ↦ (err (unauthorized "Invalid invitation"), t)
      | some i ↦
          if not (matches input i)
          then (err (unauthorized "Invalid invitation"), t)
          else if not (is_pending i.status)
          then (err (conflict "Invitation is no longer available"), t)
          else if not (can_accept_invitation i.status i.expires_at now)
          then (err (unauthorized "Invalid invitation"), expire_saved current request i t)
          else elim (accept_pending current keys t now input request i) [
            | err failure ↦ (err failure, t)
            | ok (accepted, t') ↦ (answered delivery accepted, t')
          ]
    ]
