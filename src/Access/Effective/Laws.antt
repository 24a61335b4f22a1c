-- ===== src/Access/Effective/Laws.antt =====
-- A key is effective exactly as the contract's `resolveEffectivePermission` says.
use balanz.Prelude.{
  ℕ, String, ◌≡◌, refl, ap, ◌∙◌, Bool, not, ◌&&◌, ◌||◌, List, [], ◌∷◌, Option, none, some, arith,
  any, includes, includes-filter, if◌then◌else◌, ◌==◌, eq_iff, Bool-cases, inl, inr,
}
use balanz.Store.{RolePermission, MembershipPermission, PermissionEffect, permission_active}
use balanz.Access.Context.{AccountAccessMode, tenant, assigned}
use balanz.Access.Contract.{resolve_effective_permission}
use balanz.Access.Effective.{
  add, delete, default_keys, default_applies, drop_categories, apply_overrides, sort, insert_sorted,
  effective_permissions,
}

pub includes-add :
    (key s : String) (set : List String) → includes (add key set) s ≡ (key == s || includes set s)
unfolding add
includes-add key s set = ground (arith, eq_iff key s)

pub includes-delete :
    (key s : String) (set : List String)
    → includes (delete key set) s ≡ (includes set s && not (s == key))
unfolding delete
includes-delete key s set = includes-filter (λ k. not (k == key)) set s

includes-insert_sorted :
    (t s : String) (ts : List String) → includes (insert_sorted t ts) s ≡ (t == s || includes ts s)
unfolding insert_sorted
includes-insert_sorted t s [] = refl
includes-insert_sorted t s (u ∷ ts) = ground (arith, includes-insert_sorted t s ts)

includes-sort : (s : String) (ts : List String) → includes (sort ts) s ≡ includes ts s
unfolding sort
includes-sort s [] = refl
includes-sort s (t ∷ ts) = ground (arith, includes-insert_sorted t s (sort ts), includes-sort s ts)

-- A default of the role holds the key now.
abbrev pub is_default : ℕ → List RolePermission → String → Bool
is_default now defaults key =
    any (λ item. default_applies now item && item.permission.key == key) defaults

includes-default_keys :
    (now : ℕ) (defaults : List RolePermission) (key : String)
    → includes (default_keys now defaults) key ≡ is_default now defaults key
unfolding default_keys
includes-default_keys now [] key = refl
includes-default_keys now (d ∷ ds) key = elim (Bool-cases (default_applies now d)) [
  | inl applies ↦ rw (applies, includes-add, includes-default_keys now ds key)
  | inr skipped ↦ rw (skipped, includes-default_keys now ds key)
]

-- The default that overrides meet: the categories key is a default of the owner alone.
abbrev pub role_default : ℕ → AccountAccessMode → List RolePermission → String → Bool
role_default now tenant defaults key = is_default now defaults key
role_default now assigned defaults key =
    is_default now defaults key && not (key == "cfdi.categories.manage")

includes-drop_categories :
    (now : ℕ) (mode : AccountAccessMode) (defaults : List RolePermission) (key : String)
    → includes (drop_categories mode (default_keys now defaults)) key
      ≡ role_default now mode defaults key
unfolding drop_categories
includes-drop_categories now tenant defaults key = includes-default_keys now defaults key
includes-drop_categories now assigned defaults key = rw includes-delete (rw includes-default_keys)

-- The effect of the last override of the key whose permission is active.
unfoldable pub active_override : List MembershipPermission → String → Option PermissionEffect
active_override [] key = none
active_override (o ∷ os) key = elim (active_override os key) [
  | some effect ↦ some effect
  | none ↦
      if permission_active o.permission.status && o.permission.key == key
      then some o.effect
      else none
]

includes-apply_overrides :
    (os : List MembershipPermission) (set : List String) (key : String)
    → includes (apply_overrides os set) key
      ≡ resolve_effective_permission (includes set key) (active_override os key)
unfolding apply_overrides active_override resolve_effective_permission
includes-apply_overrides [] set key = refl
includes-apply_overrides (o ∷ os) set key = ground (
  arith,
  eq_iff o.permission.key key,
  eq_iff key o.permission.key,
  includes-add o.permission.key key set,
  includes-delete o.permission.key key set,
  includes-apply_overrides os set key,
  includes-apply_overrides os (add o.permission.key set) key,
  includes-apply_overrides os (delete o.permission.key set) key,
)

-- A key is among the effective permissions exactly if the precedence of the contract resolves its
-- role default, with the categories key no default of a member who is not the owner, and its last
-- active override to true.
pub effective_permissions-resolves :
    (now : ℕ) (mode : AccountAccessMode) (defaults : List RolePermission)
    (overrides : List MembershipPermission) (key : String)
    → includes (effective_permissions now mode defaults overrides) key
      ≡ resolve_effective_permission
          (role_default now mode defaults key)
          (active_override overrides key)
unfolding effective_permissions
effective_permissions-resolves now mode defaults overrides key =
    includes-sort key _
    ∙ includes-apply_overrides overrides (drop_categories mode (default_keys now defaults)) key
    ∙ ap (λ d. resolve_effective_permission d (active_override overrides key))
        (includes-drop_categories now mode defaults key)
