-- ===== src/Invitations/Create/Laws.antt =====
-- What a successful `create` says of the inviting member and of the new invitation.
use balanz.Prelude.{
  refl, ap, ◌∙◌, eq_refl, any-append, any-update_where, ◌++◌, [], ◌∷◌, Bool, ℕ, String, ◌<◌, ◌≡◌,
  sym, subst, inl, inr, arith, true, false, ◌&&◌, Option, some, any, find, is_some_of, Bool-cases,
  ◌==◌, ltb, is_some_of-eq,
}
use balanz.Http.{succeeds, Result, ok, Result-cases}
use balanz.Access.Context.{SessionContext}
use balanz.Access.Fiscal.{RequestContext}
use balanz.Invitations.Table.{
  Invitation, DeliveryStatus, Tables, is_pending, require_reauthentication,
}
use balanz.Invitations.Accept.{is_taken}
use balanz.Invitations.Create.Transaction.{
  is_over, expire_previous_lem, previous_of, create_in_transaction_lem,
}
use balanz.Invitations.Create.Grants.{Grantable, validate-Grantable}
use balanz.Invitations.Create.{
  CreateInput, has_address, is_pending_recipient, deliver_invitation, new_invitation,
  create_in_transaction, create,
}

-- The row is a pending one with the identifier, organization, digest and address of the invitation.
abbrev pub is_row_of : Invitation → Invitation → Bool
is_row_of i x =
    x.id == i.id
    && x.organization_id == i.organization_id
    && x.token_hash == i.token_hash
    && x.email_normalized == i.email_normalized
    && is_pending x.status

-- What the success of `create` says of the caller, of the tables before, of the invitation and of
-- the rows after.
pub record Created (t : Tables) (checked now : ℕ) (id token_hash organization_id : String)
    (input : CreateInput) (tenant : SessionContext) (saved : Invitation) (t' : Tables)
    : Type 0 where
  pub key : saved.id ≡ id
  pub digest : saved.token_hash ≡ token_hash
  pub organization : saved.organization_id ≡ organization_id
  pub address : saved.email_normalized ≡ input.email_normalized
  pub proposed : saved.proposed_permissions ≡ input.proposed_permissions
  pub end : saved.expires_at ≡ input.expires_at
  pub is_open : is_pending saved.status ≡ true
  pub stored : any (is_row_of saved) t'.invitations ≡ true
  pub own : tenant.organization_id ≡ some organization_id
  pub actor : tenant.membership_id ≡ some saved.invited_by_membership_id
  pub role : find (λ r. r.key == input.role) t.roles ≡ some saved.role
  pub grantable : Grantable saved.role saved.proposed_permissions tenant t.db
  pub future : checked < saved.expires_at
  pub vacant :
      is_taken (
        find
          (λ m. m.organization_id == organization_id && has_address saved.email_normalized t.db m)
          t.db.memberships)
      ≡ false
  pub alone :
      is_over now (find (is_pending_recipient organization_id saved.email_normalized) t.invitations)
      ≡ true

is_row_of_refl : (i : Invitation) → is_pending i.status ≡ true → is_row_of i i ≡ true
is_row_of_refl i h = ground (
  arith,
  eq_refl i.id,
  eq_refl i.organization_id,
  eq_refl i.token_hash,
  eq_refl i.email_normalized,
)

-- The delivery keeps the row of an invitation.
any-deliver_invitation :
    (delivered : Bool) (sent_at : ℕ) (id : String) (i : Invitation) (t : Tables)
    → any (is_row_of i) t.invitations ≡ true
    → any (is_row_of i) (deliver_invitation delivered sent_at id t).invitations ≡ true
unfolding deliver_invitation
any-deliver_invitation true sent_at id i t h =
    any-update_where (is_row_of i) (λ x. x.id == id) _ t.invitations (λ x k. k) h
any-deliver_invitation false sent_at id i t h =
    any-update_where (is_row_of i) (λ x. x.id == id) _ t.invitations (λ x k. k) h

create_in_transaction-Created :
    (current : Option String) (t w : Tables) (checked now created_at : ℕ)
    (id token_hash organization_id : String) (input : CreateInput) (tenant : SessionContext)
    (request : RequestContext) (saved : Invitation)
    → create_in_transaction current t now created_at id token_hash organization_id input tenant
        request
      ≡ ok (saved, w)
    → tenant.organization_id ≡ some organization_id
    → checked < input.expires_at
    → Created t checked now id token_hash organization_id input tenant saved w
create_in_transaction-Created current t w checked now created_at id token_hash organization_id input
      tenant request saved h own future =
    let (role, actor, u, known, valid, vacant, previous, member, made, rows) =
      create_in_transaction_lem current t w now created_at id token_hash organization_id input
        tenant request saved h in
    let i = new_invitation id organization_id token_hash input role actor now created_at in
    let last : w.invitations ≡ u.invitations ++ i ∷ [] =
      rows ∙ ap (λ x. u.invitations ++ x ∷ []) made in
    subst (λ x. Created t checked now id token_hash organization_id input tenant x w) (sym made)
      (record {
        key = refl;
        digest = refl;
        organization = refl;
        address = refl;
        proposed = refl;
        end = refl;
        is_open = refl;
        stored =
            subst (λ xs. any (is_row_of i) xs ≡ true) (sym last)
              (any-append (is_row_of i) u.invitations i (is_row_of_refl i refl));
        own = own;
        actor = member;
        role = known;
        grantable = validate-Grantable role input.proposed_permissions tenant t.db valid;
        future = future;
        vacant = vacant;
        alone =
            expire_previous_lem current request now (previous_of organization_id input t) t u
              previous;
      })

-- If `create` succeeds, the invitation is pending and of the caller's organization and in the
-- caller's name, with the identifier, the digest, the address, the proposed permissions and the end
-- that `create` was given, and the tables hold a pending row with that identifier, organization,
-- digest and address; its role exists and every default of that role and every proposed permission is among the caller's
-- permissions, and as many permissions of the table are active and proposed as were proposed; it
-- ends later than the time it was checked at; the address belongs to no member but
-- a revoked one; the first pending invitation found for the address, if any, was out of time; and
-- the caller re-authenticated within the period.
pub create-Created :
    (current : Option String) (delivery : Result (Unit {0})) (sent_at : ℕ) (t t' : Tables)
    (at checked now created_at : ℕ) (id token_hash organization_id : String) (input : CreateInput)
    (tenant : SessionContext) (request : RequestContext) (r : Invitation)
    → create current delivery sent_at t at checked now created_at id token_hash organization_id
        input tenant request
      ≡ (ok r, t')
    → Created t checked now id token_hash organization_id input tenant r t'
      × (require_reauthentication tenant at ≡ ok tt)
unfolding create
create-Created current delivery sent_at t t' at checked now created_at id token_hash organization_id
      input tenant request r h =
    elim (Result-cases (
      create_in_transaction current t now created_at id token_hash organization_id input tenant
        request)) [
          | inl (e, failed) ↦ absurd (ground arith)
          | inr ((saved, u), written) ↦
              elim (Bool-cases (
                is_some_of tenant.organization_id organization_id
                && ltb checked input.expires_at)) [
                  | inr refused ↦ absurd (ground arith)
                  | inl admitted ↦
                      let own : tenant.organization_id ≡ some organization_id =
                        ground (arith, is_some_of-eq tenant.organization_id organization_id) in
                      let c =
                        create_in_transaction-Created current t u checked now created_at id
                          token_hash organization_id input tenant request saved written own
                          (ground arith) in
                      let made : r ≡ record saved { delivery_status = DeliveryStatus.sent } =
                        ground arith in
                      let after : t' ≡ deliver_invitation (succeeds delivery) sent_at id u =
                        ground arith in
                      (
                        subst
                            (λ i.
                              Created t checked now id token_hash organization_id input tenant i t')
                            (sym made)
                            (record {
                              key = c.key;
                              digest = c.digest;
                              organization = c.organization;
                              address = c.address;
                              proposed = c.proposed;
                              end = c.end;
                              is_open = c.is_open;
                              stored =
                                  subst (λ w. any (is_row_of saved) w.invitations ≡ true)
                                    (sym after)
                                    (any-deliver_invitation (succeeds delivery) sent_at id saved u
                                      c.stored);
                              own = own;
                              actor = c.actor;
                              role = c.role;
                              grantable = c.grantable;
                              future = c.future;
                              vacant = c.vacant;
                              alone = c.alone;
                            }),
                        ground arith,
                      )
                ]
        ]
