-- ===== src/Invitations/Accept/Completes.antt =====
-- When `accept` succeeds.
use balanz.Prelude.{
  ℕ, String, ◌≡◌, refl, ◌∙◌, arith, true, false, ◌&&◌, Option, some, find, ◌==◌, find_holds, eq_iff,
}
use balanz.Http.{ok}
use balanz.Store.{Organization, User, organization_active, user_active}
use balanz.Access.Fiscal.{RequestContext}
use balanz.Invitations.Table.{Invitation, Tables, can_accept_invitation}
use balanz.Invitations.Accept.{
  AcceptInput, NewKeys, Accepted, is_taken, find_member, membership_status_of, find_or_create_user,
  accept_pending, finish_acceptance, find_invitation, matches, accept,
}
use balanz.Invitations.Accept.Saved.{save_membership-Saved}
use balanz.Invitations.Accept.Laws.{Joined, accept-Joined}

-- What the last part of the transaction returns.
finish_acceptance-result :
    (current : Option String) (keys : NewKeys) (t : Tables) (now : ℕ) (request : RequestContext)
    (i : Invitation) (user : User)
    → let r = (finish_acceptance current keys t now request i user t.db.users).0 in
      (r.invitation_id ≡ i.id)
      × (r.user_id ≡ user.id)
      × (r.membership_status ≡ membership_status_of t.db user)
      × (r.role ≡ i.role.key)
unfolding finish_acceptance
finish_acceptance-result current keys t now request i user =
    let status = membership_status_of t.db user in
    (refl, refl, (save_membership-Saved i user keys.membership_id status now t.db).in_status, refl)

-- A pending invitation in time is accepted by an active user with its token and address, if the
-- organization is active and the user is not its member, or a revoked one: if the e-mail service
-- delivers, `accept` succeeds; the organization then has this user as a member with the
-- invitation's role, active if the user's address is verified and the user has an active second
-- factor, and pending otherwise; every row with the identifier is accepted; and the result names
-- the invitation, the user, the status and the role.
pub accept_completes :
    (current : Option String) (keys : NewKeys) (t : Tables) (now : ℕ) (id : String)
    (input : AcceptInput) (request : RequestContext) (i : Invitation) (o : Organization)
    (user : User)
    → find_invitation id t.invitations ≡ some i
    → matches input i ≡ true
    → can_accept_invitation i.status i.expires_at now ≡ true
    → find (λ o. o.id == i.organization_id && organization_active o.status) t.db.organizations
      ≡ some o
    → find (λ u. u.email == input.email_normalized) t.db.users ≡ some user
    → user_active user.status ≡ true
    → is_taken (find_member i.organization_id user.id t.db.memberships) ≡ false
    → (r : Accepted) × (t' : Tables) × (accept current (ok tt) keys t now id input request
        ≡ (ok r, t'))
      × Joined t now id input r t'
      × (r.invitation_id ≡ id)
      × (r.user_id ≡ user.id)
      × (r.membership_status ≡ membership_status_of t.db user)
      × (r.role ≡ i.role.key)
unfolding accept accept_pending find_or_create_user find_invitation
accept_completes current keys t now id input request i o user found matching in_time organization
      known active vacant =
    let done = finish_acceptance current keys t now request i user t.db.users in
    let (named, same_user, status, role) =
      finish_acceptance-result current keys t now request i user in
    let accepts : accept current (ok tt) keys t now id input request ≡ (ok done.0, done.1) =
      ground arith in
    let key : i.id ≡ id =
      (eq_iff i.id id).0 (find_holds (λ (i : Invitation). i.id == id) t.invitations found) in
    (
      done.0,
      done.1,
      accepts,
      accept-Joined current (ok tt) keys t done.1 now id input request done.0 accepts,
      named ∙ key,
      same_user,
      status,
      role,
    )
