-- ===== src/Invitations/Accept/Laws.antt =====
-- What `accept` does to the rows of its invitation and of the membership.
use balanz.Prelude.{
  ℕ, String, ◌<◌, ◌≡◌, refl, sym, subst, inl, inr, arith, Bool, true, false, not, ◌&&◌, ◌||◌, List,
  [], ◌∷◌, Option, some, all, find, Option-cases, Bool-cases, eq_iff, ◌==◌, find_holds,
  all-update_where,
}
use balanz.Http.{Result, ok, err, Failure, Result-cases, unauthorized, conflict}
use balanz.Store.{User, Membership, organization_active}
use balanz.Access.Audit.{record_event}
use balanz.Access.Fiscal.{RequestContext}
use balanz.Invitations.Table.{
  Invitation, InvitationStatus, Tables, is_pending, can_accept_invitation, save_invitation,
}
use balanz.Invitations.Accept.Saved.{Saved, save_membership-Saved}
use balanz.Invitations.Accept.{
  answered, AcceptInput, NewKeys, Accepted, is_taken, find_member, save_membership, accept_row,
  membership_status_of, find_or_create_user, accept_pending, finish_acceptance, find_invitation,
  matches, accept,
}

abbrev pub is_accepted : InvitationStatus → Bool
is_accepted InvitationStatus.accepted = true
is_accepted _ = false

-- What a successful `accept` says of its invitation and of the tables.
pub record Joined (t : Tables) (now : ℕ) (id : String) (input : AcceptInput) (r : Accepted)
    (t' : Tables) : Type 0 where
  pub i : Invitation
  pub m : Membership
  pub found : find_invitation id t.invitations ≡ some i
  pub matching : matches input i ≡ true
  pub is_open : is_pending i.status ≡ true
  pub in_time : now < i.expires_at
  pub vacant : is_taken (find_member i.organization_id r.user_id t.db.memberships) ≡ false
  pub same_id : m.id ≡ r.membership_id
  pub member : Saved i r.user_id r.membership_status m t'.db.memberships
  pub closed : all (λ x. not (x.id == id) || is_accepted x.status) t'.invitations ≡ true

all-true : {A : Type 0} (xs : List A) → all (λ _. true) xs ≡ true
all-true [] = refl
all-true (x ∷ xs) = all-true xs

-- Every row of the accepted invitation is accepted.
save_accepted :
    (i : Invitation) (m : Membership) (now : ℕ) (invitations : List Invitation)
    → all
        (λ x. not (x.id == i.id) || is_accepted x.status)
        (save_invitation (accept_row i m now) invitations)
      ≡ true
unfolding save_invitation
save_accepted i m now invitations =
    all-update_where (λ _. true) (λ x. not (x.id == i.id) || is_accepted x.status)
      (λ x. x.id == i.id) (λ _. accept_row i m now) invitations (λ x h k. ground arith)
      (λ x h k. ground arith) (all-true invitations)

abbrev Settled : Invitation → Tables → Accepted → Tables → Type 0
Settled i t r t' =
    (m : Membership) × (m.id ≡ r.membership_id)
    × (is_taken (find_member i.organization_id r.user_id t.db.memberships) ≡ false)
    × Saved i r.user_id r.membership_status m t'.db.memberships
    × (all (λ x. not (x.id == i.id) || is_accepted x.status) t'.invitations ≡ true)

finish_acceptance-Settled :
    (current : Option String) (keys : NewKeys) (t : Tables) (now : ℕ) (request : RequestContext)
    (i : Invitation) (user : User) (users : List User)
    → is_taken (find_member i.organization_id user.id t.db.memberships) ≡ false
    → let (r, t') = finish_acceptance current keys t now request i user users in Settled i t r t'
unfolding finish_acceptance record_event
finish_acceptance-Settled current keys t now request i user users vacant =
    let status = membership_status_of t.db user in
    let old = find_member i.organization_id user.id t.db.memberships in
    let db = record t.db { users = users } in
    let (m, db') = save_membership i user keys.membership_id status now old db in
    let saved = save_membership-Saved i user keys.membership_id status now db in
    (
      m,
      refl,
      vacant,
      subst (λ kept. Saved i user.id kept m db'.memberships) (sym saved.in_status) saved,
      save_accepted i m now t.invitations,
    )

-- Success of the part of `accept` after its checks: it has a user, who is no member, and finishes.
pub accept_pending_lem :
    (current : Option String) (keys : NewKeys) (t t' : Tables) (now : ℕ) (input : AcceptInput)
    (request : RequestContext) (i : Invitation) (r : Accepted)
    → accept_pending current keys t now input request i ≡ ok (r, t')
    → (user : User) × (users : List User) × (is_taken
          (find_member i.organization_id user.id t.db.memberships)
        ≡ false)
      × (finish_acceptance current keys t now request i user users ≡ (r, t'))
unfolding accept_pending
accept_pending_lem current keys t t' now input request i r h =
    elim (Option-cases
      (find (λ o. o.id == i.organization_id && organization_active o.status) t.db.organizations)) [
        | inl missing ↦ absurd (ground arith)
        | inr (o, active) ↦ elim (Result-cases (find_or_create_user input keys t.db.users)) [
          | inl (e, refused) ↦ absurd (ground arith)
          | inr ((user, users), created) ↦
              elim (Bool-cases
                (is_taken (find_member i.organization_id user.id t.db.memberships))) [
                  | inl taken ↦ absurd (ground arith)
                  | inr vacant ↦ (user, users, vacant, ground arith)
                ]
        ]
      ]

accept_pending-Settled :
    (current : Option String) (keys : NewKeys) (t t' : Tables) (now : ℕ) (input : AcceptInput)
    (request : RequestContext) (i : Invitation) (r : Accepted)
    → accept_pending current keys t now input request i ≡ ok (r, t')
    → Settled i t r t'
accept_pending-Settled current keys t t' now input request i r h =
    let (user, users, vacant, made) =
      accept_pending_lem current keys t t' now input request i r h in
    subst (λ (p : Accepted × Tables). Settled i t p.0 p.1) made
      (finish_acceptance-Settled current keys t now request i user users vacant)

answered-ok :
    (delivery : Result (Unit {0})) (r r' : Accepted) → answered delivery r ≡ ok r' → r ≡ r'
answered-ok delivery r r' h = ground arith

-- If `accept` succeeds, the identifier finds an invitation with the presented token and address that
-- was pending and in time, and the organization had no member for the user but a revoked one; then
-- the organization has the returned member, with the invitation's role and the returned status, and
-- every row with the identifier is accepted.
pub accept-Joined :
    (current : Option String) (delivery : Result (Unit {0})) (keys : NewKeys) (t t' : Tables)
    (now : ℕ) (id : String) (input : AcceptInput) (request : RequestContext) (r : Accepted)
    → accept current delivery keys t now id input request ≡ (ok r, t')
    → Joined t now id input r t'
unfolding accept find_invitation
accept-Joined current delivery keys t t' now id input request r h =
    elim (Option-cases (find (λ (i : Invitation). i.id == id) t.invitations)) [
      | inl missing ↦ absurd (ground arith)
      | inr (i, found) ↦
          elim (Bool-cases (matches input i && can_accept_invitation i.status i.expires_at now)) [
            | inr refused ↦ absurd (ground arith)
            | inl admitted ↦
                elim (Result-cases (accept_pending current keys t now input request i)) [
                  | inl (e, failed) ↦ absurd (ground arith)
                  | inr ((r', u), settled) ↦
                      let whole = answered-ok delivery r' r (ground arith) in
                      let (m, same_id, vacant, saved, closed) =
                        accept_pending-Settled current keys t t' now input request i r
                          (ground arith) in
                      let same : i.id ≡ id = ground (
                        arith,
                        find_holds (λ (i : Invitation). i.id == id) t.invitations found,
                        eq_iff i.id id,
                      ) in
                      record {
                        i = i;
                        m = m;
                        found = found;
                        matching = ground arith;
                        is_open = ground arith;
                        in_time = ground arith;
                        vacant = vacant;
                        same_id = same_id;
                        member = saved;
                        closed =
                            subst
                              (λ key.
                                all (λ x. not (x.id == key) || is_accepted x.status) t'.invitations
                                ≡ true)
                              same closed;
                      }
                ]
          ]
    ]

find_closed :
    (id : String) (invitations : List Invitation) (i : Invitation)
    → find (λ x. x.id == id) invitations ≡ some i
    → all (λ x. not (x.id == id) || is_accepted x.status) invitations ≡ true
    → is_accepted i.status ≡ true
find_closed id [] i found closed = ground arith
find_closed id (x ∷ xs) i found closed = ground (arith, find_closed id xs i)

-- Once an invitation is accepted, every further `accept` of it fails and changes nothing.
pub accept-accept :
    (current : Option String) (delivery : Result (Unit {0})) (keys : NewKeys) (t t' : Tables)
    (now : ℕ) (id : String) (input : AcceptInput) (request : RequestContext) (r : Accepted)
    (later_current : Option String) (later_delivery : Result (Unit {0})) (later_keys : NewKeys)
    (later : ℕ) (again : AcceptInput) (later_request : RequestContext)
    → accept current delivery keys t now id input request ≡ (ok r, t')
    → (e : Failure) × (accept later_current later_delivery later_keys t' later id again
          later_request
        ≡ (err e, t'))
unfolding accept find_invitation
accept-accept current delivery keys t t' now id input request r later_current later_delivery
      later_keys later again later_request h =
    let joined = accept-Joined current delivery keys t t' now id input request r h in
    elim (Option-cases (find (λ (i : Invitation). i.id == id) t'.invitations)) [
      | inl missing ↦ (unauthorized "Invalid invitation", ground arith)
      | inr (i, found) ↦
          let used = find_closed id t'.invitations i found joined.closed in
          elim (Bool-cases (matches again i)) [
            | inl same ↦ (conflict "Invitation is no longer available", ground arith)
            | inr different ↦ (unauthorized "Invalid invitation", ground arith)
          ]
    ]
