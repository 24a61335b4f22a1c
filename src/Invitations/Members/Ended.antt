-- ===== src/Invitations/Members/Ended.antt =====
-- The sessions of a membership that is suspended or revoked.
use balanz.Prelude.{
  ℕ, String, ◌≡◌, sym, subst, inl, inr, arith, Bool, true, false, not, ◌&&◌, ◌||◌, Option, some,
  all, find, update_where, Option-cases, Bool-cases, ◌==◌, all-update_where,
}
use balanz.Http.{ok, err, Failure, Result-cases}
use balanz.Store.{Db, Membership, AuthSession, session_active, membership_active}
use balanz.Access.Audit.{record_event}
use balanz.Access.Context.{SessionContext}
use balanz.Access.Fiscal.{RequestContext}
use balanz.Sessions.Activity.{State}
use balanz.Sessions.Cache.{Settings}
use balanz.Sessions.Service.{Run, resolve}
use balanz.Sessions.Revocation.{
  revoke_membership_sessions, revoke_selected, revoke_where, is_of_membership, revoked,
}
use balanz.Sessions.Ended.{dead_token, is_live_row}
use balanz.Invitations.Table.{active_organization_id}
use balanz.Invitations.Members.{
  MembershipAction, valid_membership_action, next_membership_status, is_revoked_again, changed,
  find_membership, change_in_transaction, admit_change, change_membership_status, revocation_reason,
}
use balanz.Invitations.Members.Laws.{admit_change_lem}

first_change_lem :
    (current : Option String) (db db' : Db) (now : ℕ) (membership_id organization_id : String)
    (action : MembershipAction) (tenant : SessionContext) (request : RequestContext)
    (target : Option Membership) (m : Membership)
    → change_in_transaction current db now membership_id organization_id action tenant request
      ≡ ok (target, db')
    → find_membership membership_id organization_id db.memberships ≡ some m
    → is_revoked_again m.status action ≡ false
    → (target ≡ some (changed action now m)) × (db'.sessions ≡ db.sessions)
unfolding change_in_transaction record_event
first_change_lem current db db' now membership_id organization_id action tenant request target m h
      found first =
    elim (Option-cases (find (λ o. o.id == organization_id) db.organizations)) [
      | inl missing ↦ absurd (ground arith)
      | inr (o, organization) ↦
          elim (Bool-cases
            (o.owner_user_id == m.user_id || not (valid_membership_action m.status action))) [
              | inl refused ↦ absurd (ground arith)
              | inr admitted ↦ (ground arith, ground arith)
            ]
    ]

-- Once a membership is suspended or revoked, no token of its sessions resolves, whatever the cache
-- still holds and whether or not Redis answered the deletions.
pub change_membership_status-resolve :
    (hash_token : String → String) (settings : Settings) (run : Run) (raw_token : String)
    (current : Option String) (up : AuthSession → Bool) (st st' : State) (at now revoked_at : ℕ)
    (membership_id organization_id : String) (action : MembershipAction) (tenant : SessionContext)
    (request : RequestContext) (m : Membership)
    → active_organization_id tenant ≡ ok organization_id
    → change_membership_status current up st at now revoked_at membership_id action tenant request
      ≡ (ok tt, st')
    → find_membership membership_id organization_id st.db.memberships ≡ some m
    → is_revoked_again m.status action ≡ false
    → membership_active (next_membership_status action) ≡ false
    → all
        (λ s.
          not (s.session_token_hash == hash_token raw_token)
          || is_of_membership organization_id membership_id s)
        st.db.sessions
      ≡ true
    → (e : Failure) × ((resolve hash_token settings run (some raw_token) st').0 ≡ err e)
unfolding change_membership_status revoke_membership_sessions revoke_selected revoke_where
    change_in_transaction record_event
change_membership_status-resolve hash_token settings run raw_token current up st st' at now
      revoked_at membership_id organization_id action tenant request m own h found first ends
      owned =
    elim (Result-cases (admit_change current st.db at now membership_id action tenant request)) [
      | inl (e, failed) ↦ absurd (ground arith)
      | inr ((organization', target, db'), admitted) ↦
          let (same, recent, other, changed) =
            admit_change_lem current st.db db' at now membership_id organization_id action tenant
              request organization' target own admitted in
          let (made, kept) =
            first_change_lem current st.db db' now membership_id organization_id action tenant
              request target m changed found first in
          let reason = revocation_reason (next_membership_status action) in
          let ended : st'.db.sessions
              ≡ update_where
                  (λ s. is_of_membership organization_id membership_id s && session_active s.status)
                  (revoked revoked_at reason) st.db.sessions =
            ground arith in
          let dead =
            all-update_where
              (λ s.
                not (s.session_token_hash == hash_token raw_token)
                || is_of_membership organization_id membership_id s)
              (λ s. not (is_live_row (hash_token raw_token) s))
              (λ s. is_of_membership organization_id membership_id s && session_active s.status)
              (revoked revoked_at reason) st.db.sessions (λ s h k. ground arith)
              (λ s h k. ground arith) owned in
          dead_token hash_token settings run raw_token st' (
            subst (λ rows. all (λ s. not (is_live_row (hash_token raw_token) s)) rows ≡ true)
              (sym ended) dead)
    ]
