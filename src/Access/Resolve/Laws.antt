-- ===== src/Access/Resolve/Laws.antt =====
-- What an authorization context guarantees about the rows that it was read from.
use balanz.Prelude.{
  ℕ, String, ◌<◌, ◌≡◌, refl, sym, ap, ◌∙◌, inl, inr, Bool, true, Option, none, some, arith,
  includes, find, is_some, ◌==◌, Option-cases,
}
use balanz.Http.{ok, Result-cases}
use balanz.Store.{
  Db, User, Organization, Membership, AuthSession, user_active, organization_active,
  membership_active, session_active,
}
use balanz.Access.Context.{SessionContext}
use balanz.Access.Contract.{resolve_effective_permission}
use balanz.Access.Effective.Laws.{role_default, active_override, effective_permissions-resolves}
use balanz.Access.Resolve.{
  find_membership, find_organization, enabled_defaults, open_overrides, access_mode, tenancy_of,
  resolve_tenancy, Tenancy, resolve, require_tenant, find_active_session, revalidate_session,
}

-- The rows of an active tenant, and the state that makes it active.
pub record ActiveTenant (db : Db) (later : ℕ) (session : AuthSession) : Type 0 where
  pub user : User
  pub organization : Organization
  pub membership : Membership
  pub organization_id : String
  pub membership_id : String
  pub user_found : find (λ u. u.id == session.user_id) db.users ≡ some user
  pub in_organization : session.organization_id ≡ some organization_id
  pub in_membership : session.membership_id ≡ some membership_id
  pub organization_found : find_organization db organization_id ≡ some organization
  pub membership_found :
      find_membership db membership_id organization_id session.user_id ≡ some membership
  pub user_is_active : user_active user.status ≡ true
  pub organization_is_active : organization_active organization.status ≡ true
  pub membership_is_active : membership_active membership.status ≡ true
  pub session_is_active : session_active session.status ≡ true
  pub not_expired : later < session.expires_at
  pub mfa_done : session.requires_mfa ≡ true → is_some session.mfa_verified_at ≡ true

-- What the contract's precedence says of a key, for the rows of a tenant.
abbrev pub is_effective : Db → ℕ → User → Organization → Membership → String → Bool
is_effective db now user o m key =
    resolve_effective_permission (role_default now (access_mode o user) (enabled_defaults db m) key)
      (active_override (open_overrides db m.organization_id m.id) key)

module _ (db : Db) (now later : ℕ) (session : AuthSession) where
  abbrev Behind : User → Tenancy → Organization → Membership → String → String → Type 0
  Behind user t o m i j =
      (session.organization_id ≡ some i)
      × (session.membership_id ≡ some j)
      × (find_organization db i ≡ some o)
      × (find_membership db j i session.user_id ≡ some m)
      × (t ≡ tenancy_of db now later session user o m)

  -- A tenancy that is active comes from rows that were found.
  pub resolve_tenancy-rows :
      (user : User) (oid mid : Option String) {t : Tenancy}
      → resolve_tenancy db now later session user oid mid ≡ ok t
      → t.tenant_active ≡ true
      → (o : Organization) × (m : Membership) × (i : String) × (j : String) × (oid ≡ some i)
        × (mid ≡ some j)
        × (find_organization db i ≡ some o)
        × (find_membership db j i session.user_id ≡ some m)
        × (t ≡ tenancy_of db now later session user o m)
  unfolding resolve_tenancy
  resolve_tenancy-rows user (some i) (some j) {t} h a =
      elim (Option-cases (find_organization db i)) [
        | inl missing ↦ absurd (ground arith)
        | inr (o, found) ↦ elim (Option-cases (find_membership db j i session.user_id)) [
          | inl missing ↦ absurd (ground arith)
          | inr (m, member) ↦ (o, m, i, j, refl, refl, found, member, ground arith)
        ]
      ]
  resolve_tenancy-rows user none mid {t} h a = absurd (ground arith)
  resolve_tenancy-rows user (some i) none {t} h a = absurd (ground arith)

  pub resolve-parts :
      (c : SessionContext)
      → resolve db now later session ≡ ok c
      → (user : User) × (t : Tenancy) × (find (λ u. u.id == session.user_id) db.users ≡ some user)
        × (user_active user.status ≡ true)
        × (resolve_tenancy db now later session user session.organization_id session.membership_id
            ≡ ok t)
        × (c.permissions ≡ t.permissions)
        × (c.tenant_active ≡ t.tenant_active)
        × (c.account_access_mode ≡ t.account_access_mode)
  unfolding resolve
  resolve-parts c h = elim (Option-cases (find (λ u. u.id == session.user_id) db.users)) [
    | inl missing ↦ absurd (ground arith)
    | inr (user, found) ↦
        elim (Result-cases (
          resolve_tenancy db now later session user session.organization_id
            session.membership_id)) [
              | inl (e, failed) ↦ absurd (ground arith)
              | inr (t, resolved) ↦
                  (user, t, found, ground arith, resolved, ground arith, ground arith, ground arith)
            ]
  ]

  tenancy_of-active :
      (user : User) (o : Organization) (m : Membership)
      → (tenancy_of db now later session user o m).tenant_active ≡ true
      → (organization_active o.status ≡ true)
        × (membership_active m.status ≡ true)
        × (session_active session.status ≡ true)
        × (later < session.expires_at)
        × (session.requires_mfa ≡ true → is_some session.mfa_verified_at ≡ true)
  unfolding tenancy_of
  tenancy_of-active user o m a = ground arith

  includes-tenancy_of :
      (user : User) (o : Organization) (m : Membership) (key : String)
      → includes (tenancy_of db now later session user o m).permissions key
        ≡ is_effective db now user o m key
  unfolding tenancy_of
  includes-tenancy_of user o m key =
      effective_permissions-resolves now (access_mode o user) (enabled_defaults db m)
        (open_overrides db m.organization_id m.id) key

  -- A context with an active tenant comes from rows that are active now, of an unexpired session
  -- that has passed its second factor if it needs one; and its permissions are those that the
  -- contract's precedence resolves to true.
  pub resolve-active :
      (c : SessionContext)
      → resolve db now later session ≡ ok c
      → c.tenant_active ≡ true
      → (rows : ActiveTenant db later session) × ((key : String)
          → includes c.permissions key
            ≡ is_effective db now rows.user rows.organization rows.membership key)
  resolve-active c h a =
      let (user, t, found, usable, resolved, same_permissions, same_active, _) =
        resolve-parts c h in
      let (o, m, i, j, oid, mid, ofound, mfound, built) =
        resolve_tenancy-rows user session.organization_id session.membership_id resolved
          (sym same_active ∙ a) in
      let (org, mem, sess, fresh, mfa) =
        tenancy_of-active user o m (ap (λ x. x.tenant_active) (sym built) ∙ sym same_active ∙ a) in
      (
        record {
          user = user;
          organization = o;
          membership = m;
          organization_id = i;
          membership_id = j;
          user_found = found;
          in_organization = oid;
          in_membership = mid;
          organization_found = ofound;
          membership_found = mfound;
          user_is_active = usable;
          organization_is_active = org;
          membership_is_active = mem;
          session_is_active = sess;
          not_expired = fresh;
          mfa_done = mfa;
        },
        λ key.
            ap (λ ks. includes ks key) (same_permissions ∙ ap (λ x. x.permissions) built)
            ∙ includes-tenancy_of user o m key,
      )

-- The same of a session that a worker revalidates, which moreover was active and unexpired at the
-- first reading of the clock.
pub revalidate_session-active :
    (db : Db) (at now later : ℕ) (session_id : String) (session : AuthSession) (c : SessionContext)
    → revalidate_session db at now later session_id ≡ ok (session, c)
    → (find_active_session db session_id ≡ some session)
      × (at < session.expires_at)
      × (resolve db now later session ≡ ok c)
      × (c.tenant_active ≡ true)
unfolding revalidate_session require_tenant
revalidate_session-active db at now later session_id session c h =
    elim (Option-cases (find_active_session db session_id)) [
      | inl missing ↦ absurd (ground arith)
      | inr (s, found) ↦ elim (Result-cases (resolve db now later s)) [
        | inl (e, failed) ↦ absurd (ground arith)
        | inr (d, resolved) ↦ ground arith
      ]
    ]
