-- ===== src/Invitations/Calls/Writes.antt =====
-- What acceptance, resending, revocation and delivery write to the table of invitations.
use balanz.Prelude.{
  leb, ℕ, String, ◌≡◌, refl, sym, ap, subst, inl, inr, arith, Bool, true, false, ◌&&◌, List, Option,
  some, find, ◌==◌, Bool-cases, Option-cases,
}
use balanz.Http.{Result, ok, succeeds, Result-cases}
use balanz.Store.{Membership}
use balanz.Access.Context.{SessionContext}
use balanz.Access.Fiscal.{RequestContext}
use balanz.Invitations.Table.{
  active_organization_id, require_reauthentication, log, member_event, with_invitations, Invitation,
  Tables, can_transition_invitation, save_invitation, expire, is_pending, can_accept_invitation,
}
use balanz.Invitations.Accept.Laws.{accept_pending_lem}
use balanz.Invitations.Accept.{
  save_membership, find_member, membership_status_of, AcceptInput, NewKeys, Accepted, accept,
  accept_pending, accept_row, finish_acceptance, find_invitation, matches,
}
use balanz.Invitations.Create.{deliver_invitation}
use balanz.Invitations.Pending.{
  resend_invitation, revoke_invitation, resend_in_transaction, revoke_in_transaction, find_own,
  resent, revoke_row,
}
use balanz.Invitations.Edits.{Edit, Edits, Edits-trans, moves}

pub deliver-Edits :
    (delivered : Bool) (sent_at : ℕ) (id : String) (t : Tables)
    → Edits t.invitations (deliver_invitation delivered sent_at id t).invitations
unfolding deliver_invitation
deliver-Edits true sent_at id t =
    Edits.then Edits.nothing (Edit.marks _ _ t.invitations (λ i. refl) (λ i. refl))
deliver-Edits false sent_at id t =
    Edits.then Edits.nothing (Edit.marks _ _ t.invitations (λ i. refl) (λ i. refl))

accept_pending-Edits :
    (current : Option String) (keys : NewKeys) (t t' : Tables) (now : ℕ) (input : AcceptInput)
    (request : RequestContext) (i : Invitation) (r : Accepted)
    → accept_pending current keys t now input request i ≡ ok (r, t')
    → (m : Membership) × (t'.invitations ≡ save_invitation (accept_row i m now) t.invitations)
unfolding finish_acceptance
accept_pending-Edits current keys t t' now input request i r h =
    let (user, users, vacant, made) =
      accept_pending_lem current keys t t' now input request i r h in
    let old = find_member i.organization_id user.id t.db.memberships in
    let saved =
      save_membership i user keys.membership_id (membership_status_of t.db user) now old
        (record t.db { users = users }) in
    (saved.0, sym (ap (λ (p : Accepted × Tables). p.1.invitations) made))

-- One saved row, found by a test, that moves its status.
pub save-Edits :
    (p : Invitation → Bool) (xs ys : List Invitation) (i j : Invitation)
    → find p xs ≡ some i
    → j.id ≡ i.id
    → moves i.status j.status ≡ true
    → ys ≡ save_invitation j xs
    → Edits xs ys
save-Edits p xs ys i j found same moved made =
    subst (λ zs. Edits xs zs) (sym made)
      (Edits.then Edits.nothing (Edit.saves p xs i j found same moved))

pub no-Edits : (xs ys : List Invitation) → ys ≡ xs → Edits xs ys
no-Edits xs ys same = subst (λ zs. Edits xs zs) (sym same) Edits.nothing

pub accept-Edits :
    (current : Option String) (delivery : Result (Unit {0})) (keys : NewKeys) (t : Tables) (now : ℕ)
    (id : String) (input : AcceptInput) (request : RequestContext)
    → Edits t.invitations (accept current delivery keys t now id input request).1.invitations
unfolding accept find_invitation can_transition_invitation moves
accept-Edits current delivery keys t now id input request =
    let after = (accept current delivery keys t now id input request).1.invitations in
    elim (Option-cases (find (λ (i : Invitation). i.id == id) t.invitations)) [
      | inl missing ↦ no-Edits t.invitations after (ground arith)
      | inr (i, found) ↦ elim (Bool-cases (matches input i && is_pending i.status)) [
        | inr refused ↦ no-Edits t.invitations after (ground arith)
        | inl waiting ↦ elim (Bool-cases (can_accept_invitation i.status i.expires_at now)) [
          | inr late ↦
              save-Edits _ t.invitations after i (expire i) found refl (ground arith) (ground arith)
          | inl early ↦ elim (Result-cases (accept_pending current keys t now input request i)) [
            | inl (e, failed) ↦ no-Edits t.invitations after (ground arith)
            | inr ((r, t'), settled) ↦
                let (m, made) =
                  accept_pending-Edits current keys t t' now input request i r settled in
                save-Edits _ t.invitations after i (accept_row i m now) found refl (ground arith)
                  (ground (arith, made))
          ]
        ]
      ]
    ]

pub revoke-Edits :
    (current : Option String) (t : Tables) (at now : ℕ) (id : String) (tenant : SessionContext)
    (request : RequestContext)
    → Edits t.invitations (revoke_invitation current t at now id tenant request).1.invitations
unfolding revoke_invitation revoke_in_transaction find_own can_transition_invitation moves
revoke-Edits current t at now id tenant request =
    let after = (revoke_invitation current t at now id tenant request).1.invitations in
    elim (Result-cases (active_organization_id tenant)) [
      | inl (e, nobody) ↦ no-Edits t.invitations after (ground arith)
      | inr (organization_id, own) ↦
          elim (Option-cases (
            find (λ (i : Invitation). i.id == id && i.organization_id == organization_id)
              t.invitations)) [
                | inl missing ↦ no-Edits t.invitations after (ground arith)
                | inr (i, found) ↦
                    elim (Bool-cases
                      (succeeds (require_reauthentication tenant at) && is_pending i.status)) [
                        | inr refused ↦ no-Edits t.invitations after (ground arith)
                        | inl waiting ↦
                            save-Edits _ t.invitations after i (revoke_row now i) found refl
                              (ground arith) (ground arith)
                      ]
              ]
    ]

pub resend-Edits :
    (current : Option String) (delivery : Result (Unit {0})) (sent_at : ℕ) (t : Tables) (at now : ℕ)
    (hash id : String) (tenant : SessionContext) (request : RequestContext)
    → Edits t.invitations
        (resend_invitation current delivery sent_at t at now hash id tenant request).1.invitations
unfolding resend_invitation resend_in_transaction find_own can_transition_invitation moves
resend-Edits current delivery sent_at t at now hash id tenant request =
    let after =
      (resend_invitation current delivery sent_at t at now hash id tenant request).1.invitations in
    elim (Result-cases (active_organization_id tenant)) [
      | inl (e, nobody) ↦ no-Edits t.invitations after (ground arith)
      | inr (organization_id, own) ↦
          elim (Option-cases (
            find (λ (i : Invitation). i.id == id && i.organization_id == organization_id)
              t.invitations)) [
                | inl missing ↦ no-Edits t.invitations after (ground arith)
                | inr (i, found) ↦
                    elim (Bool-cases
                      (succeeds (require_reauthentication tenant at) && is_pending i.status)) [
                        | inr refused ↦ no-Edits t.invitations after (ground arith)
                        | inl waiting ↦ elim (Bool-cases (leb i.expires_at now)) [
                          | inl late ↦
                              save-Edits _ t.invitations after i (expire i) found refl
                                (ground arith) (ground arith)
                          | inr early ↦
                              let u =
                                log current
                                  (member_event tenant request organization_id "invitation.resend"
                                    "invitation" i.id)
                                  (with_invitations
                                    (save_invitation (resent hash now i) t.invitations) t) in
                              let made : after
                                  ≡ (deliver_invitation (succeeds delivery) sent_at i.id
                                      u).invitations =
                                ground arith in
                              subst (λ ys. Edits t.invitations ys) (sym made)
                                (Edits-trans
                                  (save-Edits _ t.invitations u.invitations i (resent hash now i)
                                    found refl (ground arith) refl)
                                  (deliver-Edits (succeeds delivery) sent_at i.id u))
                        ]
                      ]
              ]
    ]
