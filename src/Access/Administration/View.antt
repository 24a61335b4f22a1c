-- ===== src/Access/Administration/View.antt =====
-- getMembershipPermissions of permission-administration.service.ts: what the administration shows
-- of a membership.
pub mod Agreement
use balanz.Prelude.{
  String, Bool, true, false, ◌&&◌, ◌||◌, List, [], ◌∷◌, Option, none, some, map, includes,
  is_some_of, not, truthy, if◌then◌else◌, ◌==◌,
}
use balanz.Http.{Result, ok, err, not_found, ◌>>=◌, ◌>>◌, throw_if}
use balanz.Store.{
  Db, Membership, Permission, RolePermission, MembershipPermission, PermissionEffect,
  PermissionStatus, permission_active,
}
use balanz.Access.Administration.Overrides.{require_target}
use balanz.Access.Context.{SessionContext}
use balanz.Access.Resolve.{enabled_defaults, open_overrides}

pub record PermissionView : Type 0 where
  pub key : String
  pub name : String
  pub status : PermissionStatus
  pub sensitive : Bool
  pub role_default : Bool
  pub override : Option PermissionEffect
  pub effective : Bool

pub record MembershipView : Type 0 where
  pub organization_id : String
  pub membership_id : String
  pub role : String
  pub permissions : List PermissionView

-- `overrideByKey.get(key) ?? null`; of two entries the map keeps the last
unfoldable pub override_by_key : List MembershipPermission → String → Option PermissionEffect
override_by_key [] key = none
override_by_key (o ∷ os) key = elim (override_by_key os key) [
  | some effect ↦ some effect
  | none ↦ if o.permission.key == key then some o.effect else none
]

-- `override === DENY ? false : override === GRANT || roleDefault`
abbrev pub allows : Bool → Option PermissionEffect → Bool
allows role_default (some PermissionEffect.deny) = false
allows role_default (some PermissionEffect.grant) = true
allows role_default none = role_default

-- the callback of `catalog.map`
pub view_permission : List RolePermission → List MembershipPermission → Permission → PermissionView
view_permission defaults overrides permission =
    let role_default = includes (map (λ d. d.permission.key) defaults) permission.key in
    let override = override_by_key overrides permission.key in
    record {
      key = permission.key;
      name = permission.name;
      status = permission.status;
      sensitive = permission.sensitive;
      role_default = role_default;
      override = override;
      effective = permission_active permission.status && allows role_default override;
    }

-- requireOrganization
unfoldable pub require_organization : String → SessionContext → Result (Unit {0})
require_organization organization_id tenant =
    throw_if
      (not (truthy tenant.organization_id && is_some_of tenant.organization_id organization_id))
      (not_found "Organization not found")

-- the object that getMembershipPermissions returns for a target
abbrev pub membership_view : Db → String → String → Membership → MembershipView
membership_view db organization_id membership_id membership = record {
  organization_id = organization_id;
  membership_id = membership_id;
  role = membership.role.key;
  permissions =
      map
        (view_permission (enabled_defaults db membership)
          (open_overrides db organization_id membership_id))
        db.permissions;
}

unfoldable pub get_membership_permissions :
    Db → String → String → SessionContext → Result MembershipView
get_membership_permissions db organization_id membership_id tenant = do
  require_organization organization_id tenant
  membership ← require_target db organization_id membership_id
  ok (membership_view db organization_id membership_id membership)
