-- ===== src/Invitations/Members/Laws.antt =====
-- What a successful `changeMembershipStatus` does to the membership and to its sessions.
use balanz.Prelude.{
  ℕ, String, ◌≡◌, refl, subst, inl, inr, arith, Bool, true, false, ◌&&◌, ◌||◌, List, Option, some,
  find, is_some_of, Option-cases, Bool-cases, eq_iff, ◌==◌, find_holds, find-update_saved,
}
use balanz.Http.{ok, Result-cases}
use balanz.Store.{Db, Membership, MembershipStatus, Organization, AuthSession}
use balanz.Access.Audit.{record_event}
use balanz.Access.Context.{SessionContext}
use balanz.Access.Fiscal.{RequestContext}
use balanz.Sessions.Activity.{State}
use balanz.Sessions.Revocation.{revoke_membership_sessions, revoke_selected}
use balanz.Invitations.Table.{active_organization_id, require_reauthentication}
use balanz.Invitations.Members.{
  MembershipAction, valid_membership_action, next_membership_status, is_revoked_again, changed,
  find_membership, save_membership, change_in_transaction, admit_change, change_membership_status,
}

revoked_again_lem :
    (status : MembershipStatus) (action : MembershipAction)
    → is_revoked_again status action ≡ true
    → status ≡ next_membership_status action
revoked_again_lem status action h = ground arith

find-save_membership :
    (membership_id organization_id : String) (m saved : Membership) (memberships : List Membership)
    → find_membership membership_id organization_id memberships ≡ some m
    → saved.id ≡ m.id
    → saved.organization_id ≡ m.organization_id
    → find_membership membership_id organization_id (save_membership saved memberships) ≡ some saved
unfolding find_membership save_membership
find-save_membership membership_id organization_id m saved memberships found same own =
    let mine = λ (x : Membership). x.id == membership_id && x.organization_id == organization_id in
    let holds = find_holds mine memberships found in
    find-update_saved mine (λ x. x.id == saved.id) saved memberships found
      (ground (arith, eq_iff m.id saved.id, same)) (ground (arith, holds, same, own))

-- What a successful change says of the tables before and after.
pub record Changed (organization_id membership_id : String) (action : MembershipAction)
    (db db' : Db) : Type 0 where
  pub m : Membership
  pub m' : Membership
  pub o : Organization
  pub found : find_membership membership_id organization_id db.memberships ≡ some m
  pub organization : find (λ o. o.id == organization_id) db.organizations ≡ some o
  pub not_owner : (o.owner_user_id == m.user_id) ≡ false
  pub allowed : (is_revoked_again m.status action || valid_membership_action m.status action) ≡ true
  pub found' : find_membership membership_id organization_id db'.memberships ≡ some m'
  pub status : m'.status ≡ next_membership_status action
  pub user : m'.user_id ≡ m.user_id

change_in_transaction-Changed :
    (current : Option String) (db db' : Db) (now : ℕ) (membership_id organization_id : String)
    (action : MembershipAction) (tenant : SessionContext) (request : RequestContext)
    (target : Option Membership)
    → change_in_transaction current db now membership_id organization_id action tenant request
      ≡ ok (target, db')
    → Changed organization_id membership_id action db db'
unfolding change_in_transaction record_event
change_in_transaction-Changed current db db' now membership_id organization_id action tenant request
      target h =
    elim (Option-cases (find_membership membership_id organization_id db.memberships)) [
      | inl missing ↦ absurd (ground arith)
      | inr (m, found) ↦
          elim (Option-cases (find (λ o. o.id == organization_id) db.organizations)) [
            | inl missing ↦ absurd (ground arith)
            | inr (o, organization) ↦ elim (Bool-cases (o.owner_user_id == m.user_id)) [
              | inl owner ↦ absurd (ground arith)
              | inr other ↦ elim (Bool-cases (is_revoked_again m.status action)) [
                | inl again ↦
                    let same = revoked_again_lem m.status action again in
                    let kept : db ≡ db' = ground arith in
                    record {
                      m = m;
                      m' = m;
                      o = o;
                      found = found;
                      organization = organization;
                      not_owner = other;
                      allowed = ground arith;
                      found' =
                          subst
                            (λ (d : Db).
                              find_membership membership_id organization_id d.memberships ≡ some m)
                            kept found;
                      status = same;
                      user = refl;
                    }
                | inr first ↦ elim (Bool-cases (valid_membership_action m.status action)) [
                  | inr bad ↦ absurd (ground arith)
                  | inl valid ↦
                      let saved =
                        find-save_membership membership_id organization_id m (changed action now m)
                          db.memberships found refl refl in
                      let made : save_membership (changed action now m) db.memberships
                          ≡ db'.memberships =
                        ground arith in
                      record {
                        m = m;
                        m' = changed action now m;
                        o = o;
                        found = found;
                        organization = organization;
                        not_owner = other;
                        allowed = ground arith;
                        found' =
                            subst
                              (λ ms.
                                find_membership membership_id organization_id ms
                                ≡ some (changed action now m))
                              made saved;
                        status = refl;
                        user = refl;
                      }
                ]
              ]
            ]
          ]
    ]

pub admit_change_lem :
    (current : Option String) (db db' : Db) (at now : ℕ) (membership_id organization_id : String)
    (action : MembershipAction) (tenant : SessionContext) (request : RequestContext)
    (organization' : String) (target : Option Membership)
    → active_organization_id tenant ≡ ok organization_id
    → admit_change current db at now membership_id action tenant request
      ≡ ok (organization', target, db')
    → (organization' ≡ organization_id)
      × (require_reauthentication tenant at ≡ ok tt)
      × (is_some_of tenant.membership_id membership_id ≡ false)
      × (change_in_transaction current db now membership_id organization_id action tenant request
          ≡ ok (target, db'))
unfolding admit_change
admit_change_lem current db db' at now membership_id organization_id action tenant request
      organization' target own h =
    elim (Result-cases
      (change_in_transaction current db now membership_id organization_id action tenant request)) [
        | inl (e, failed) ↦ absurd (ground (arith, own))
        | inr ((m, after), changed) ↦
            (ground (arith, own), ground (arith, own), ground (arith, own), ground (arith, own))
      ]

-- If `changeMembershipStatus` succeeds, the caller re-authenticated within the period and the
-- membership, of the caller's organization, is neither the caller's own nor its owner's; the action
-- fits the membership's status or repeats a revocation; and the membership is found afterwards
-- with the status of the action and the same user.
pub change_membership_status-Changed :
    (current : Option String) (up : AuthSession → Bool) (st st' : State) (at now revoked_at : ℕ)
    (membership_id organization_id : String) (action : MembershipAction) (tenant : SessionContext)
    (request : RequestContext)
    → active_organization_id tenant ≡ ok organization_id
    → change_membership_status current up st at now revoked_at membership_id action tenant request
      ≡ (ok tt, st')
    → (require_reauthentication tenant at ≡ ok tt)
      × (is_some_of tenant.membership_id membership_id ≡ false)
      × Changed organization_id membership_id action st.db st'.db
unfolding change_membership_status admit_change revoke_membership_sessions revoke_selected
change_membership_status-Changed current up st st' at now revoked_at membership_id organization_id
      action tenant request own h =
    elim (Result-cases (admit_change current st.db at now membership_id action tenant request)) [
      | inl (e, failed) ↦ absurd (ground arith)
      | inr ((organization', target, db'), admitted) ↦
          let (same, recent, other, changed) =
            admit_change_lem current st.db db' at now membership_id organization_id action tenant
              request organization' target own admitted in
          let saved : db'.memberships ≡ st'.db.memberships = ground arith in
          let c =
            change_in_transaction-Changed current st.db db' now membership_id organization_id action
              tenant request target changed in
          (
            recent,
            other,
            record {
              m = c.m;
              m' = c.m';
              o = c.o;
              found = c.found;
              organization = c.organization;
              not_owner = c.not_owner;
              allowed = c.allowed;
              found' =
                  subst (λ ms. find_membership membership_id organization_id ms ≡ some c.m') saved
                    c.found';
              status = c.status;
              user = c.user;
            },
          )
    ]
