-- ===== src/Access/Administration/Tests.antt =====
-- Runs of the permission administration on the sample tables, and the theorems at them.
use balanz.Prelude.{
  ◌≡◌, refl, inl, inr, true, false, [], ◌∷◌, none, some, arith, includes, eq_iff, All, Bool-cases,
}
use balanz.Store.{PermissionEffect}
use balanz.Access.Administration.{set_membership_permission, revoke_membership_permission}
use balanz.Access.Administration.Laws.{
  Done, ActivePermission, KnownPermission, set_membership_permission-Done,
  revoke_membership_permission-Done,
}
use balanz.Access.Administration.Overrides.{is_open_for}
use balanz.Access.Administration.Overrides.Invariant.{UniqueOpen}
use balanz.Access.Administration.View.{override_by_key, view_permission}
use balanz.Access.Administration.View.Agreement.{
  DefaultFits, view_permission-agrees, view_permission-differs,
}
use balanz.Access.Context.{SessionContext, AccountAccessMode, MfaStatus}
use balanz.Access.Effective.{effective_permissions}
use balanz.Access.Fiscal.{RequestContext}
use balanz.Access.Sample.{tables, denied, view_cfdi, categories}

abbrev bruno : SessionContext
bruno = record {
  user_id = "bruno";
  session_id = "s-bruno";
  organization_id = some "org";
  membership_id = some "m-bruno";
  role = some "admin";
  permissions = "permissions.manage" ∷ [];
  assigned_account_ids = [];
  account_access_mode = AccountAccessMode.assigned;
  mfa_verified_at = some 100;
  reauthenticated_at = some 200;
  requires_mfa = true;
  mfa_status = MfaStatus.active;
  expires_at = 9000;
  tenant_active = true;
  reauthentication_required_actions = [];
}

abbrev request : RequestContext
request = record { correlation_id = "c1"; ip_address = none }

one_open : UniqueOpen tables.membership_permissions
one_open oid mid pid = elim (Bool-cases (is_open_for oid mid pid denied)) [
  | inl fits ↦ ground arith
  | inr other ↦ ground arith
]

set_membership_permission-Done_example :
    Done tables 300 "org" "m-ana" bruno
      (ActivePermission tables "cfdi.view")
      (some PermissionEffect.grant)
      (set_membership_permission none tables 300 301 "o2" "org" "m-ana" "cfdi.view"
        PermissionEffect.grant bruno request)
set_membership_permission-Done_example =
    set_membership_permission-Done none tables 300 "org" "m-ana" bruno request 301 one_open "o2"
      "cfdi.view" PermissionEffect.grant

revoke_membership_permission-Done_example :
    Done tables 300 "org" "m-ana" bruno
      (KnownPermission tables "cfdi.view")
      none
      (revoke_membership_permission none tables 300 301 "org" "m-ana" "cfdi.view" bruno request)
revoke_membership_permission-Done_example =
    revoke_membership_permission-Done none tables 300 "org" "m-ana" bruno request 301 one_open
      "cfdi.view"

defaults_fit : All (DefaultFits 300 view_cfdi) tables.role_permissions
defaults_fit = (λ e. (refl, refl, refl), (λ e. (refl, refl, refl), (λ e. (refl, refl, refl), tt)))

view_permission-agrees_example :
    (view_permission tables.role_permissions (denied ∷ []) view_cfdi).effective
    ≡ includes
        (effective_permissions 300 AccountAccessMode.assigned tables.role_permissions (denied ∷ []))
        "cfdi.view"
view_permission-agrees_example =
    view_permission-agrees 300 view_cfdi AccountAccessMode.assigned tables.role_permissions
      (denied ∷ []) (inr (λ e. ground (arith, eq_iff "cfdi.view" "cfdi.categories.manage")))
      defaults_fit (λ e. refl, tt)

no_override : override_by_key (denied ∷ []) "cfdi.categories.manage" ≡ none
unfolding override_by_key
no_override = refl

view_permission-differs_example :
    ((view_permission tables.role_permissions (denied ∷ []) categories).effective ≡ true)
    × (includes
          (effective_permissions 300 AccountAccessMode.assigned tables.role_permissions
            (denied ∷ []))
          "cfdi.categories.manage"
        ≡ false)
view_permission-differs_example =
    view_permission-differs 300 categories tables.role_permissions (denied ∷ []) refl refl refl
      no_override (λ e. refl, tt)
