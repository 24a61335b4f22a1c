-- ===== src/Access/Resolve/Session.antt =====
-- How an authorization context follows from its session's row and from the rows of its tenant.
use balanz.Prelude.{ℕ, ◌≡◌, sym, ap, ◌∙◌, inl, inr, true, arith, find, Option-cases, ◌==◌}
use balanz.Http.{ok, Result-cases}
use balanz.Store.{Db, AuthSession}
use balanz.Access.Context.{SessionContext}
use balanz.Access.Resolve.{access_mode, user_mfa_status, resolve, resolve_tenancy, tenancy_of}
use balanz.Access.Resolve.Laws.{ActiveTenant, resolve-parts, resolve_tenancy-rows}

-- The columns of the session that its context repeats, and the second factor of its user.
pub record OfSession (db : Db) (session : AuthSession) (c : SessionContext) : Type 0 where
  pub organization_id : c.organization_id ≡ session.organization_id
  pub membership_id : c.membership_id ≡ session.membership_id
  pub mfa_verified_at : c.mfa_verified_at ≡ session.mfa_verified_at
  pub mfa_status : c.mfa_status ≡ user_mfa_status db session.user_id

module _ (db : Db) (now later : ℕ) (session : AuthSession) (c : SessionContext) where
  pub resolve-OfSession : resolve db now later session ≡ ok c → OfSession db session c
  unfolding resolve
  resolve-OfSession h = elim (Option-cases (find (λ u. u.id == session.user_id) db.users)) [
    | inl missing ↦ absurd (ground arith)
    | inr (user, found) ↦
        elim (Result-cases (
          resolve_tenancy db now later session user session.organization_id
            session.membership_id)) [
              | inl (e, failed) ↦ absurd (ground arith)
              | inr (t, resolved) ↦ record {
                organization_id = ground arith;
                membership_id = ground arith;
                mfa_verified_at = ground arith;
                mfa_status = ground arith;
              }
            ]
  ]

  -- The scope of the accounts is the one of the tenant's own rows: all of them for the owner.
  pub resolve-access_mode :
      (rows : ActiveTenant db later session)
      → resolve db now later session ≡ ok c
      → c.tenant_active ≡ true
      → c.account_access_mode ≡ access_mode rows.organization rows.user
  unfolding tenancy_of
  resolve-access_mode rows h a =
      let (user, t, found, usable, resolved, _, same_active, same_mode) =
        resolve-parts db now later session c h in
      let (o, m, i, j, oid, mid, ofound, mfound, built) =
        resolve_tenancy-rows db now later session user session.organization_id session.membership_id
          resolved (sym same_active ∙ a) in
      let organization : o ≡ rows.organization =
        ground (arith, rows.in_organization, rows.organization_found) in
      let user' : user ≡ rows.user = ground (arith, rows.user_found) in
      rw (sym organization, sym user') (same_mode ∙ ap (λ x. x.account_access_mode) built)
