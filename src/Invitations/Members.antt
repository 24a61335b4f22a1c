-- ===== src/Invitations/Members.antt =====
-- changeMembershipStatus (modules/invitations/invitations.service.ts), with the revocation of the
-- membership's sessions.
pub mod Laws
pub mod Ended
use balanz.Prelude.{
  ℕ, String, Bool, true, false, not, ◌&&◌, List, Option, none, some, find, is_some_of, update_where,
  if◌then◌else◌, ◌==◌,
}
use balanz.Http.{
  Result, ok, err, not_found, forbidden, unprocessable, ◌>>=◌, ◌>>◌, throw_if, or_throw,
}
use balanz.Store.{Db, Membership, MembershipStatus, AuthSession, membership_active}
use balanz.Access.Audit.{record_event}
use balanz.Access.Context.{SessionContext}
use balanz.Access.Fiscal.{RequestContext}
use balanz.Sessions.Activity.{State}
use balanz.Sessions.Revocation.{revoke_membership_sessions}
use balanz.Invitations.Table.{member_event, active_organization_id, require_reauthentication}

pub data MembershipAction : Type 0 where
  suspend reactivate revoke : MembershipAction

-- validMembershipAction
unfoldable pub valid_membership_action : MembershipStatus → MembershipAction → Bool
valid_membership_action MembershipStatus.active MembershipAction.suspend = true
valid_membership_action _ MembershipAction.suspend = false
valid_membership_action MembershipStatus.suspended MembershipAction.reactivate = true
valid_membership_action _ MembershipAction.reactivate = false
valid_membership_action MembershipStatus.revoked MembershipAction.revoke = false
valid_membership_action _ MembershipAction.revoke = true

-- nextMembershipStatus
abbrev pub next_membership_status : MembershipAction → MembershipStatus
next_membership_status MembershipAction.suspend = MembershipStatus.suspended
next_membership_status MembershipAction.reactivate = MembershipStatus.active
next_membership_status MembershipAction.revoke = MembershipStatus.revoked

-- `previousStatus === nextStatus && action === 'revoke'`
abbrev pub is_revoked_again : MembershipStatus → MembershipAction → Bool
is_revoked_again MembershipStatus.revoked MembershipAction.revoke = true
is_revoked_again _ _ = false

abbrev pub action_name : MembershipAction → String
action_name MembershipAction.suspend = "membership.suspend"
action_name MembershipAction.reactivate = "membership.reactivate"
action_name MembershipAction.revoke = "membership.revoke"

abbrev pub changed : MembershipAction → ℕ → Membership → Membership
changed action now m = record m {
  status = next_membership_status action;
  suspended_at = elim action [ MembershipAction.suspend ↦ some now | _ ↦ none ];
  revoked_at = elim action [ MembershipAction.revoke ↦ some now | _ ↦ none ];
}

unfoldable pub find_membership : String → String → List Membership → Option Membership
find_membership id organization_id memberships =
    find (λ m. m.id == id && m.organization_id == organization_id) memberships

unfoldable pub save_membership : Membership → List Membership → List Membership
save_membership m memberships = update_where (λ x. x.id == m.id) (λ _. m) memberships

-- The transaction: none if the membership was revoked before.
unfoldable pub change_in_transaction :
    Option String
    → Db
    → ℕ
    → String
    → String
    → MembershipAction
    → SessionContext
    → RequestContext
    → Result (Option Membership × Db)
change_in_transaction current db now membership_id organization_id action tenant request = do
  m ←
      or_throw (find_membership membership_id organization_id db.memberships)
        (not_found "Membership not found")
  organization ←
      or_throw (find (λ o. o.id == organization_id) db.organizations)
        (not_found "Membership not found")
  throw_if (organization.owner_user_id == m.user_id) (forbidden "Organization owner is protected")
  if is_revoked_again m.status action
      then ok (none, db)
      else if not (valid_membership_action m.status action)
      then err (unprocessable "Membership status is incompatible with the operation")
      else (let m' = changed action now m in
          ok (
            some m',
            record_event current
                (member_event tenant request organization_id (action_name action) "membership" m.id)
                (record db { memberships = save_membership m' db.memberships }),
          ))

abbrev pub revocation_reason : MembershipStatus → String
revocation_reason MembershipStatus.pending = "membership_pending"
revocation_reason MembershipStatus.active = "membership_active"
revocation_reason MembershipStatus.suspended = "membership_suspended"
revocation_reason MembershipStatus.revoked = "membership_revoked"

-- The checks before the transaction, and the transaction: the organization, the changed
-- membership, and the tables.
unfoldable pub admit_change :
    Option String
    → Db
    → ℕ
    → ℕ
    → String
    → MembershipAction
    → SessionContext
    → RequestContext
    → Result (String × Option Membership × Db)
admit_change current db at now membership_id action tenant request = do
  organization_id ← active_organization_id tenant
  require_reauthentication tenant at
  throw_if (is_some_of tenant.membership_id membership_id)
      (forbidden "Self mutation is not allowed")
  (target, db') ←
      change_in_transaction current db now membership_id organization_id action tenant request
  ok (organization_id, target, db')

-- changeMembershipStatus; `up` says for each session whether Redis answers its deletion.
unfoldable pub change_membership_status :
    Option String
    → (AuthSession → Bool)
    → State
    → ℕ
    → ℕ
    → ℕ
    → String
    → MembershipAction
    → SessionContext
    → RequestContext
    → Result (Unit {0}) × State
change_membership_status current up st at now revoked_at membership_id action tenant request =
    elim (admit_change current st.db at now membership_id action tenant request) [
      | err failure ↦ (err failure, st)
      | ok (organization_id, none, db) ↦ (ok tt, record st { db = db })
      | ok (organization_id, some m, db) ↦ (
        ok tt,
        if membership_active m.status
            then record st { db = db }
            else revoke_membership_sessions organization_id membership_id up revoked_at
                (revocation_reason m.status) (record st { db = db }),
      )
    ]
