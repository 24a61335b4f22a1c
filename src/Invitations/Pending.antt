-- ===== src/Invitations/Pending.antt =====
-- resendInvitation and revokeInvitation (modules/invitations/invitations.service.ts).
use balanz.Prelude.{
  ℕ, String, ◌+◌, not, ◌&&◌, List, Option, none, some, leb, find, if◌then◌else◌, ◌==◌,
}
use balanz.Http.{Result, ok, err, not_found, conflict, succeeds, ◌>>=◌, ◌>>◌, throw_if, or_throw}
use balanz.Access.Context.{SessionContext}
use balanz.Access.Fiscal.{RequestContext}
use balanz.Invitations.Table.{
  Invitation, InvitationStatus, DeliveryStatus, Tables, is_pending, is_revoked, save_invitation,
  with_invitations, expire_saved, log, member_event, active_organization_id,
  require_reauthentication,
}
use balanz.Invitations.Create.{deliver_invitation}

unfoldable pub find_own : String → String → List Invitation → Option Invitation
find_own id organization_id invitations =
    find (λ i. i.id == id && i.organization_id == organization_id) invitations

abbrev pub resent : String → ℕ → Invitation → Invitation
resent token_hash now i = record i {
  token_hash = token_hash;
  last_sent_at = now;
  send_count = i.send_count + 1;
  delivery_status = DeliveryStatus.pending;
}

-- The transaction of resendInvitation: none if the invitation was out of time and expires.
unfoldable pub resend_in_transaction :
    Option String
    → Tables
    → ℕ
    → String
    → String
    → String
    → SessionContext
    → RequestContext
    → Result (Option Invitation × Tables)
resend_in_transaction current t now token_hash invitation_id organization_id tenant request = do
  i ←
      or_throw (find_own invitation_id organization_id t.invitations)
        (not_found "Invitation not found")
  throw_if (not (is_pending i.status)) (conflict "Only pending invitations can be resent")
  ok (
      if leb i.expires_at now then (none, expire_saved current request i t) else (
        some (resent token_hash now i),
        log current
            (member_event tenant request organization_id "invitation.resend" "invitation" i.id)
            (with_invitations (save_invitation (resent token_hash now i) t.invitations) t),
      ))

-- resendInvitation
unfoldable pub resend_invitation :
    Option String
    → Result (Unit {0})
    → ℕ
    → Tables
    → ℕ
    → ℕ
    → String
    → String
    → SessionContext
    → RequestContext
    → Result Invitation × Tables
resend_invitation current delivery sent_at t at now token_hash invitation_id tenant request =
    elim (do
      organization_id ← active_organization_id tenant
      require_reauthentication tenant at
      resend_in_transaction current t now token_hash invitation_id organization_id tenant request) [
        | err failure ↦ (err failure, t)
        | ok (none, t') ↦ (err (conflict "Invitation has expired"), t')
        | ok (some i, t') ↦ (
          elim delivery [
            | ok _ ↦ ok (record i { delivery_status = DeliveryStatus.sent })
            | err failure ↦ err failure
          ],
          deliver_invitation (succeeds delivery) sent_at i.id t',
        )
      ]

abbrev pub revoke_row : ℕ → Invitation → Invitation
revoke_row now i = record i { status = InvitationStatus.revoked; revoked_at = some now }

-- the transaction of revokeInvitation
unfoldable pub revoke_in_transaction :
    Option String → Tables → ℕ → String → String → SessionContext → RequestContext → Result Tables
revoke_in_transaction current t now invitation_id organization_id tenant request = do
  i ←
      or_throw (find_own invitation_id organization_id t.invitations)
        (not_found "Invitation not found")
  if is_revoked i.status
      then ok t
      else if not (is_pending i.status)
      then err (conflict "Invitation cannot be revoked")
      else ok (
          log current
            (member_event tenant request organization_id "invitation.revoke" "invitation" i.id)
            (with_invitations (save_invitation (revoke_row now i) t.invitations) t))

-- revokeInvitation
unfoldable pub revoke_invitation :
    Option String
    → Tables
    → ℕ
    → ℕ
    → String
    → SessionContext
    → RequestContext
    → Result (Unit {0}) × Tables
revoke_invitation current t at now invitation_id tenant request =
    elim (do
      organization_id ← active_organization_id tenant
      require_reauthentication tenant at
      revoke_in_transaction current t now invitation_id organization_id tenant request) [
        | err failure ↦ (err failure, t)
        | ok t' ↦ (ok tt, t')
      ]
