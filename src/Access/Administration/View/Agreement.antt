-- ===== src/Access/Administration/View/Agreement.antt =====
-- What the administration shows as effective, against what a session of the membership is given.
use balanz.Prelude.{
  ℕ, ◌≡◌, refl, sym, ◌∙◌, ◌≢◌, ◌⊎◌, inl, inr, true, false, ◌&&◌, List, [], ◌∷◌, none, arith, All,
  map, includes, if◌then◌else◌, ◌==◌, eq_iff, Bool-cases,
}
use balanz.Store.{Permission, RolePermission, MembershipPermission, permission_active}
use balanz.Access.Administration.View.{override_by_key, view_permission}
use balanz.Access.Context.{AccountAccessMode, tenant, assigned}
use balanz.Access.Contract.{resolve_effective_permission}
use balanz.Access.Effective.{from_holds, until_holds, effective_permissions}
use balanz.Access.Effective.Laws.{
  is_default, role_default, active_override, effective_permissions-resolves,
}

module _ (now : ℕ) (p : Permission) where
  -- Rows of one key are rows of one permission, and the default is in its validity.
  abbrev pub DefaultFits : RolePermission → Type 0
  DefaultFits d =
      d.permission.key ≡ p.key
      → (d.permission.status ≡ p.status)
        × (from_holds d.valid_from now ≡ true)
        × (until_holds d.valid_until now ≡ true)

  abbrev pub OverrideFits : MembershipPermission → Type 0
  OverrideFits o = o.permission.key ≡ p.key → o.permission.status ≡ p.status

  default-agrees :
      (ds : List RolePermission)
      → All DefaultFits ds
      → is_default now ds p.key
        ≡ (permission_active p.status && includes (map (λ d. d.permission.key) ds) p.key)
  default-agrees [] fits = ground arith
  default-agrees (d ∷ ds) (fit, fits) = elim (Bool-cases (d.permission.key == p.key)) [
    | inl same ↦
        let (status, from, until) = fit ((eq_iff _ _).0 same) in
        ground (arith, default-agrees ds fits)
    | inr other ↦ ground (arith, default-agrees ds fits)
  ]

  override-agrees :
      (os : List MembershipPermission)
      → All OverrideFits os
      → active_override os p.key
        ≡ (if permission_active p.status then override_by_key os p.key else none)
  unfolding active_override override_by_key
  override-agrees [] fits = ground arith
  override-agrees (o ∷ os) (fit, fits) = elim (Bool-cases (o.permission.key == p.key)) [
    | inl same ↦ let status = fit ((eq_iff _ _).0 same) in ground (arith, override-agrees os fits)
    | inr other ↦ ground (arith, override-agrees os fits)
  ]

  role_default-kept :
      (mode : AccountAccessMode) (ds : List RolePermission)
      → (mode ≡ tenant) ⊎ (p.key ≢ "cfdi.categories.manage")
      → role_default now mode ds p.key ≡ is_default now ds p.key
  role_default-kept tenant ds kept = refl
  role_default-kept assigned ds (inl owner) = cc
  role_default-kept assigned ds (inr other) = ground (arith, eq_iff p.key "cfdi.categories.manage")

  -- For a permission other than the categories key, or a membership of the owner, the
  -- administration shows as effective exactly what a session is given, if rows of one key belong to
  -- one permission and the role's default for it is in its validity.
  pub view_permission-agrees :
      (mode : AccountAccessMode) (ds : List RolePermission) (os : List MembershipPermission)
      → (mode ≡ tenant) ⊎ (p.key ≢ "cfdi.categories.manage")
      → All DefaultFits ds
      → All OverrideFits os
      → (view_permission ds os p).effective ≡ includes (effective_permissions now mode ds os) p.key
  unfolding view_permission resolve_effective_permission
  view_permission-agrees mode ds os kept ds_fit os_fit =
      ground
        (arith, role_default-kept mode ds kept, default-agrees ds ds_fit, override-agrees os os_fit)
      ∙ sym (effective_permissions-resolves now mode ds os p.key)

  -- For the categories key the two differ: a member who is not the owner, whose role has the key by
  -- default and whom no override concerns, is shown it as effective, and no session is given it.
  pub view_permission-differs :
      (ds : List RolePermission) (os : List MembershipPermission)
      → p.key ≡ "cfdi.categories.manage"
      → permission_active p.status ≡ true
      → includes (map (λ d. d.permission.key) ds) p.key ≡ true
      → override_by_key os p.key ≡ none
      → All OverrideFits os
      → ((view_permission ds os p).effective ≡ true)
        × (includes (effective_permissions now assigned ds os) p.key ≡ false)
  unfolding view_permission resolve_effective_permission
  view_permission-differs ds os key active default none_set os_fit = (
    ground arith,
    effective_permissions-resolves now assigned ds os p.key
        ∙ ground (arith, override-agrees os os_fit, eq_iff p.key "cfdi.categories.manage"),
  )
