-- ===== src/Invitations/Create.antt =====
-- create and its checks (modules/invitations/invitations.service.ts). A conflict that the unique
-- indexes of the database would report is not modelled: the reads of the transaction are its own.
pub mod Grants
pub mod Transaction
pub mod Laws
use balanz.Prelude.{
  ℕ, String, ◌+◌, Bool, true, false, not, ◌&&◌, ◌||◌, List, [], ◌∷◌, ◌++◌, Option, none, some, leb,
  ltb, eqb, any, count, length, filter, find, includes, is_empty, update_where, if◌then◌else◌, ◌==◌,
}
use balanz.Http.{
  Result, ok, err, bad_request, forbidden, not_found, conflict, succeeds, ◌>>=◌, ◌>>◌, throw_if,
  or_throw,
}
use balanz.Store.{
  Db, Role, Membership, Permission, RolePermission, organization_active, permission_active,
}
use balanz.Access.Context.{SessionContext}
use balanz.Access.Fiscal.{RequestContext}
use balanz.Invitations.Table.{
  Invitation, InvitationStatus, DeliveryStatus, Tables, is_pending, save_invitation,
  with_invitations, expire_saved, log, member_event, require_tenant, require_reauthentication,
  actor_membership_id,
}
use balanz.Invitations.Accept.{is_taken}

-- CreateInvitationDto, with the address normalized and the date read
pub record CreateInput : Type 0 where
  pub email_normalized : String
  pub role : String
  pub expires_at : ℕ
  pub proposed_permissions : List String

-- validateGrantablePermissions
unfoldable pub validate_grantable_permissions :
    Role → List String → SessionContext → Db → Result (Unit {0})
validate_grantable_permissions role proposed tenant db = do
  let defaults = filter (λ r. r.role_id == role.id && r.enabled) db.role_permissions
  throw_if (any (λ r. not (includes tenant.permissions r.permission.key)) defaults)
      (forbidden "Cannot assign a role above actor access")
  throw_if (any (λ key. not (includes tenant.permissions key)) proposed)
      (forbidden "Cannot propose permissions above actor access")
  let active = count (λ p. includes proposed p.key && permission_active p.status) db.permissions
  throw_if (not (is_empty proposed) && not (eqb active (length proposed)))
      (bad_request "Unknown or unavailable permission")

-- a member of the organization whose user has the address, by the join
abbrev pub has_address : String → Db → Membership → Bool
has_address email db m = any (λ u. u.id == m.user_id && u.email == email) db.users

abbrev pub is_pending_recipient : String → String → Invitation → Bool
is_pending_recipient organization_id email i =
    i.organization_id == organization_id && i.email_normalized == email && is_pending i.status

abbrev pub new_invitation :
    String → String → String → CreateInput → Role → String → ℕ → ℕ → Invitation
new_invitation id organization_id token_hash input role actor now created_at = record {
  id = id;
  organization_id = organization_id;
  email = input.email_normalized;
  email_normalized = input.email_normalized;
  user_id = none;
  role = role;
  proposed_permissions = input.proposed_permissions;
  token_hash = token_hash;
  status = InvitationStatus.pending;
  invited_by_membership_id = actor;
  accepted_membership_id = none;
  expires_at = input.expires_at;
  last_sent_at = now;
  send_count = 1;
  delivery_status = DeliveryStatus.pending;
  accepted_at = none;
  revoked_at = none;
  created_at = created_at;
}

-- A pending invitation of the recipient stops the creation, unless it is out of time: then it
-- expires.
unfoldable pub expire_previous :
    Option String → RequestContext → ℕ → Option Invitation → Tables → Result Tables
expire_previous current request now none t = ok t
expire_previous current request now (some i) t =
    if ltb now i.expires_at
    then err (conflict "A pending invitation already exists")
    else ok (expire_saved current request i t)

-- the transaction of create
unfoldable pub create_in_transaction :
    Option String
    → Tables
    → ℕ
    → ℕ
    → String
    → String
    → String
    → CreateInput
    → SessionContext
    → RequestContext
    → Result (Invitation × Tables)
create_in_transaction current t now created_at id token_hash organization_id input tenant request =
    do
      organization ←
          or_throw
            (find (λ o. o.id == organization_id && organization_active o.status) t.db.organizations)
            (not_found "Organization not found")
      role ←
          or_throw (find (λ r. r.key == input.role) t.roles)
            (bad_request "Invalid organization role")
      validate_grantable_permissions role input.proposed_permissions tenant t.db
      throw_if
          (is_taken (
            find
              (λ m.
                m.organization_id == organization_id && has_address input.email_normalized t.db m)
              t.db.memberships))
          (conflict "Recipient already belongs to organization")
      t' ←
          expire_previous current request now
            (find (is_pending_recipient organization_id input.email_normalized) t.invitations) t
      actor ← actor_membership_id tenant
      let saved = new_invitation id organization_id token_hash input role actor now created_at
      ok (
        saved,
        log current
            (member_event tenant request organization_id "invitation.create" "invitation" id)
            (with_invitations (t'.invitations ++ saved ∷ []) t'),
      )

-- deliverInvitation: the e-mail service delivers or throws.
unfoldable pub deliver_invitation : Bool → ℕ → String → Tables → Tables
deliver_invitation true sent_at id t =
    with_invitations
      (update_where (λ i. i.id == id)
        (λ i. record i { delivery_status = DeliveryStatus.sent; last_sent_at = sent_at })
        t.invitations)
      t
deliver_invitation false sent_at id t =
    with_invitations
      (update_where (λ i. i.id == id) (λ i. record i { delivery_status = DeliveryStatus.failed })
        t.invitations)
      t

-- create; the clock is read for the re-authentication, the expiration and the rows. `delivery` is
-- what the e-mail service returns or throws.
unfoldable pub create :
    Option String
    → Result (Unit {0})
    → ℕ
    → Tables
    → ℕ
    → ℕ
    → ℕ
    → ℕ
    → String
    → String
    → String
    → CreateInput
    → SessionContext
    → RequestContext
    → Result Invitation × Tables
create current delivery sent_at t at checked now created_at id token_hash organization_id input
      tenant request =
    elim (do
      require_tenant organization_id tenant
      require_reauthentication tenant at
      throw_if (leb input.expires_at checked) (bad_request "Expiration must be in the future")
      create_in_transaction current t now created_at id token_hash organization_id input tenant
          request) [
            | err failure ↦ (err failure, t)
            | ok (saved, t') ↦ (
              elim delivery [
                | ok _ ↦ ok (record saved { delivery_status = DeliveryStatus.sent })
                | err failure ↦ err failure
              ],
              deliver_invitation (succeeds delivery) sent_at id t',
            )
          ]
