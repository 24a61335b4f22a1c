-- ===== src/Invitations/Calls/Created.antt =====
-- What `create` writes to the table of invitations.
use balanz.Prelude.{
  leb, ℕ, String, ◌≡◌, refl, sym, ap, subst, inl, inr, arith, Bool, true, false, not, ◌&&◌, ◌∙◌,
  Option, find, includes, find_holds, Bool-cases, Option-cases,
}
use balanz.Http.{Result, ok, succeeds, Result-cases}
use balanz.Access.Context.{SessionContext}
use balanz.Access.Fiscal.{RequestContext}
use balanz.Invitations.Table.{
  require_tenant, require_reauthentication, Invitation, Tables, can_transition_invitation,
  save_invitation, expire, is_pending,
}
use balanz.Invitations.Create.Transaction.{create_in_transaction_lem}
use balanz.Invitations.Create.{
  CreateInput, create, create_in_transaction, deliver_invitation, expire_previous,
  is_pending_recipient,
}
use balanz.Invitations.Edits.{Edit, Edits, Edits-trans, ids, ids-save, moves}
use balanz.Invitations.Calls.Writes.{deliver-Edits, save-Edits, no-Edits}

expire_previous-Edits :
    (current : Option String) (request : RequestContext) (now : ℕ) (p : Invitation → Bool)
    (t u : Tables)
    → ((i : Invitation) → p i ≡ true → is_pending i.status ≡ true)
    → expire_previous current request now (find p t.invitations) t ≡ ok u
    → Edits t.invitations u.invitations × (ids u.invitations ≡ ids t.invitations)
unfolding expire_previous can_transition_invitation moves
expire_previous-Edits current request now p t u waiting h =
    elim (Option-cases (find p t.invitations)) [
      | inl missing ↦
          let same : u.invitations ≡ t.invitations = ground arith in
          (no-Edits t.invitations u.invitations same, ap ids same)
      | inr (i, found) ↦
          let made : u.invitations ≡ save_invitation (expire i) t.invitations = ground arith in
          let held = waiting i (find_holds p t.invitations found) in
          (
            save-Edits p t.invitations u.invitations i (expire i) found refl (ground arith) made,
            ap ids made ∙ ids-save (expire i) t.invitations,
          )
    ]

pub create-Edits :
    (current : Option String) (delivery : Result (Unit {0})) (sent_at : ℕ) (t : Tables)
    (at checked now created_at : ℕ) (id hash organization_id : String) (input : CreateInput)
    (tenant : SessionContext) (request : RequestContext)
    → includes (ids t.invitations) id ≡ false
    → Edits t.invitations
        (create current delivery sent_at t at checked now created_at id hash organization_id input
          tenant request).1.invitations
unfolding create
create-Edits current delivery sent_at t at checked now created_at id hash organization_id input
      tenant request fresh =
    let after =
      (create current delivery sent_at t at checked now created_at id hash organization_id input
        tenant request).1.invitations in
    elim (Result-cases (
      create_in_transaction current t now created_at id hash organization_id input tenant
        request)) [
          | inl (e, failed) ↦ no-Edits t.invitations after (ground arith)
          | inr ((saved, w), written) ↦
              elim (Bool-cases (
                succeeds (require_tenant organization_id tenant)
                && succeeds (require_reauthentication tenant at)
                && not (leb input.expires_at checked))) [
                  | inr refused ↦ no-Edits t.invitations after (ground arith)
                  | inl admitted ↦
                      let (role, actor, u, known, valid, vacant, previous, member, row, rows) =
                        create_in_transaction_lem current t w now created_at id hash organization_id
                          input tenant request saved written in
                      let (expired, same) =
                        expire_previous-Edits current request now
                          (is_pending_recipient organization_id input.email_normalized) t u
                          (λ i h. ground arith) previous in
                      let added =
                        Edits.then expired
                          (Edit.adds u.invitations saved (ground (arith, same, row, fresh))) in
                      let made : after
                          ≡ (deliver_invitation (succeeds delivery) sent_at id w).invitations =
                        ground arith in
                      subst (λ ys. Edits t.invitations ys) (sym made)
                        (Edits-trans (subst (λ ys. Edits t.invitations ys) (sym rows) added)
                          (deliver-Edits (succeeds delivery) sent_at id w))
                ]
        ]
