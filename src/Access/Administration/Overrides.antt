-- ===== src/Access/Administration/Overrides.antt =====
-- The transactions of permission-administration.service.ts on the table of overrides:
-- setMembershipPermission and revokeMembershipPermission, after their guards.
pub mod Invariant
use balanz.Prelude.{
  ℕ, String, Bool, false, not, ◌&&◌, List, [], ◌∷◌, ◌++◌, Option, none, some, find, is_some,
  update_where, if◌then◌else◌, ◌==◌,
}
use balanz.Http.{Result, ok, err, not_found, ◌>>=◌, or_throw}
use balanz.Store.{
  Db, Membership, Permission, MembershipPermission, PermissionEffect, membership_active,
  permission_active, same_effect,
}

-- requireTarget: the active membership of the organization
unfoldable pub require_target : Db → String → String → Result Membership
require_target db organization_id membership_id =
    or_throw
      (find
        (λ m.
          m.id == membership_id
          && m.organization_id == organization_id
          && membership_active m.status)
        db.memberships)
      (not_found "Membership not found")

-- an override of the triple that is not revoked
abbrev pub is_open_for : String → String → String → MembershipPermission → Bool
is_open_for organization_id membership_id permission_id o =
    o.organization_id == organization_id
    && o.membership_id == membership_id
    && o.permission.id == permission_id
    && not (is_some o.revoked_at)

-- findActiveOverrideForUpdate
pub find_active_override :
    String → String → String → List MembershipPermission → Option MembershipPermission
find_active_override organization_id membership_id permission_id overrides =
    find (is_open_for organization_id membership_id permission_id) overrides

abbrev pub revoked : ℕ → String → MembershipPermission → MembershipPermission
revoked now actor o = record o { revoked_at = some now; revoked_by_membership_id = some actor }

-- `current.revokedAt = now; …; repository.save(current)`, by the primary key
pub revoke :
    ℕ → String → MembershipPermission → List MembershipPermission → List MembershipPermission
revoke now actor current overrides =
    update_where (λ o. o.id == current.id) (λ o. revoked now actor current) overrides

-- `if (current) { … save(current) }`
pub revoke_current :
    ℕ → String → Option MembershipPermission → List MembershipPermission → List MembershipPermission
revoke_current now actor none overrides = overrides
revoke_current now actor (some current) overrides = revoke now actor current overrides

abbrev pub new_override :
    String → String → String → Permission → PermissionEffect → ℕ → String → MembershipPermission
new_override id organization_id membership_id permission effect now actor = record {
  id = id;
  organization_id = organization_id;
  membership_id = membership_id;
  permission = permission;
  effect = effect;
  granted_at = now;
  granted_by_membership_id = actor;
  revoked_at = none;
  revoked_by_membership_id = none;
}

abbrev pub has_effect : PermissionEffect → Option MembershipPermission → Bool
has_effect effect none = false
has_effect effect (some o) = same_effect o.effect effect

-- The rows after setMembershipPermission, `none` if the override is already in place.
pub set_override :
    ℕ
    → String
    → String
    → String
    → String
    → Permission
    → PermissionEffect
    → List MembershipPermission
    → Option (List MembershipPermission)
set_override now actor id organization_id membership_id permission effect overrides =
    let current = find_active_override organization_id membership_id permission.id overrides in
    if has_effect effect current
    then none
    else some (
        revoke_current now actor current overrides
        ++ new_override id organization_id membership_id permission effect now actor ∷ [])

-- The rows after revokeMembershipPermission.
pub revoke_override :
    ℕ
    → String
    → String
    → String
    → Permission
    → List MembershipPermission
    → Result (List MembershipPermission)
revoke_override now actor organization_id membership_id permission overrides = do
  current ←
      or_throw (find_active_override organization_id membership_id permission.id overrides)
        (not_found "Active override not found")
  ok (revoke now actor current overrides)
