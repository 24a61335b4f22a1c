-- ===== src/Invitations/Create/Transaction.antt =====
-- What the transaction of `create` finds and writes.
use balanz.Prelude.{
  refl, ◌++◌, [], ◌∷◌, Bool, ℕ, String, ◌≡◌, inl, inr, arith, true, false, not, ◌&&◌, Option, none,
  some, find, Option-cases, Bool-cases, ◌==◌, ltb,
}
use balanz.Http.{succeeds, ok, Result-cases}
use balanz.Store.{Membership, Db, Role, organization_active}
use balanz.Access.Context.{SessionContext}
use balanz.Access.Fiscal.{RequestContext}
use balanz.Invitations.Table.{Invitation, Tables, actor_membership_id}
use balanz.Invitations.Accept.{is_taken}
use balanz.Invitations.Create.{
  CreateInput, validate_grantable_permissions, has_address, is_pending_recipient, expire_previous,
  new_invitation, create_in_transaction,
}

-- The invitation, if there is one, is out of time.
abbrev pub is_over : ℕ → Option Invitation → Bool
is_over now none = true
is_over now (some i) = not (ltb now i.expires_at)

pub expire_previous_lem :
    (current : Option String) (request : RequestContext) (now : ℕ) (previous : Option Invitation)
    (t t' : Tables)
    → expire_previous current request now previous t ≡ ok t'
    → is_over now previous ≡ true
unfolding expire_previous
expire_previous_lem current request now none t t' h = refl
expire_previous_lem current request now (some i) t t' h = ground arith

-- the pending invitation that the transaction reads
abbrev pub previous_of : String → CreateInput → Tables → Option Invitation
previous_of organization_id input t =
    find (is_pending_recipient organization_id input.email_normalized) t.invitations

-- the member of the address that it reads
abbrev pub member_of : String → String → Db → Option Membership
member_of organization_id email db =
    find (λ m. m.organization_id == organization_id && has_address email db m) db.memberships

-- What a finished transaction of `create` found, and the row that it wrote.
pub create_in_transaction_lem :
    (current : Option String) (t w : Tables) (now created_at : ℕ)
    (id token_hash organization_id : String) (input : CreateInput) (tenant : SessionContext)
    (request : RequestContext) (saved : Invitation)
    → create_in_transaction current t now created_at id token_hash organization_id input tenant
        request
      ≡ ok (saved, w)
    → (role : Role) × (actor : String) × (u : Tables) × (find (λ r. r.key == input.role) t.roles
        ≡ some role)
      × (validate_grantable_permissions role input.proposed_permissions tenant t.db ≡ ok tt)
      × (is_taken (member_of organization_id input.email_normalized t.db) ≡ false)
      × (expire_previous current request now (previous_of organization_id input t) t ≡ ok u)
      × (tenant.membership_id ≡ some actor)
      × (saved ≡ new_invitation id organization_id token_hash input role actor now created_at)
      × (w.invitations ≡ u.invitations ++ saved ∷ [])
unfolding create_in_transaction
create_in_transaction_lem current t w now created_at id token_hash organization_id input tenant
      request saved h =
    elim (Option-cases
      (find (λ o. o.id == organization_id && organization_active o.status) t.db.organizations)) [
        | inl missing ↦ absurd (ground arith)
        | inr (o, active) ↦ elim (Option-cases (find (λ r. r.key == input.role) t.roles)) [
          | inl missing ↦ absurd (ground arith)
          | inr (role, known) ↦
              elim (Bool-cases (
                succeeds
                  (validate_grantable_permissions role input.proposed_permissions tenant t.db)
                && not (is_taken (member_of organization_id input.email_normalized t.db)))) [
                  | inr refused ↦ absurd (ground arith)
                  | inl admitted ↦
                      elim (Result-cases (
                        expire_previous current request now (previous_of organization_id input t)
                          t)) [
                            | inl (e, waiting) ↦ absurd (ground arith)
                            | inr (u, previous) ↦ elim (Result-cases (actor_membership_id tenant)) [
                              | inl (e, nobody) ↦ absurd (ground arith)
                              | inr (actor, member) ↦ (
                                role,
                                actor,
                                u,
                                known,
                                ground arith,
                                ground arith,
                                previous,
                                ground arith,
                                ground arith,
                                ground arith,
                              )
                            ]
                          ]
                ]
        ]
      ]
