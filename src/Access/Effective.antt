-- ===== src/Access/Effective.antt =====
-- The set of effective permissions that `AuthorizationService.resolve` builds
-- (modules/sessions/authorization.service.ts): role defaults, then overrides in their order, then
-- a sort. A `Set` of texts is a list that `add` and `delete` keep free of repetitions.
pub mod Laws
use balanz.Prelude.{
  ℕ, String, Bool, true, false, not, ◌&&◌, ◌||◌, List, [], ◌∷◌, Option, none, some, map, leb, ltb,
  eqb, codes, filter, includes, if◌then◌else◌, ◌==◌,
}
use balanz.Store.{
  RolePermission, MembershipPermission, Permission, PermissionEffect, permission_active,
}
use balanz.Access.Context.{AccountAccessMode, tenant, assigned}

-- `set.add(key)`
pub add : String → List String → List String
add key set = if includes set key then set else key ∷ set

-- `set.delete(key)`
pub delete : String → List String → List String
delete key set = filter (λ k. not (k == key)) set

-- `new Set(keys)`
pub to_set : List String → List String
unfolding add
to_set [] = []
to_set (k ∷ ks) = add k (to_set ks)

abbrev pub from_holds : Option ℕ → ℕ → Bool
from_holds none now = true
from_holds (some t) now = leb t now

abbrev pub until_holds : Option ℕ → ℕ → Bool
until_holds none now = true
until_holds (some t) now = ltb now t

-- the callback of `defaults.filter`
abbrev pub default_applies : ℕ → RolePermission → Bool
default_applies now item =
    from_holds item.valid_from now
    && until_holds item.valid_until now
    && permission_active item.permission.status

-- `new Set(defaults.filter(…).map(…))`
pub default_keys : ℕ → List RolePermission → List String
unfolding to_set
default_keys now defaults =
    to_set (map (λ item. item.permission.key) (filter (default_applies now) defaults))

-- `if (accountAccessMode !== 'tenant') effective.delete('cfdi.categories.manage')`
pub drop_categories : AccountAccessMode → List String → List String
unfolding delete
drop_categories tenant set = set
drop_categories assigned set = delete "cfdi.categories.manage" set

abbrev apply_effect : PermissionEffect → String → List String → List String
apply_effect PermissionEffect.deny key set = delete key set
apply_effect PermissionEffect.grant key set = add key set

-- the `for (const override of overrides)` loop
pub apply_overrides : List MembershipPermission → List String → List String
unfolding add delete
apply_overrides [] set = set
apply_overrides (o ∷ os) set = apply_overrides os (
    if not (permission_active o.permission.status)
    then set
    else apply_effect o.effect o.permission.key set)

-- The order of JavaScript's default sort on the texts of the catalog, which are ASCII.
code_le : List ℕ → List ℕ → Bool
code_le [] ds = true
code_le (c ∷ cs) [] = false
code_le (c ∷ cs) (d ∷ ds) = ltb c d || (eqb c d && code_le cs ds)

insert_sorted : String → List String → List String
unfolding code_le
insert_sorted s [] = s ∷ []
insert_sorted s (t ∷ ts) =
    if code_le (codes s) (codes t) then s ∷ t ∷ ts else t ∷ insert_sorted s ts

-- `[...set].sort()`
pub sort : List String → List String
unfolding insert_sorted
sort [] = []
sort (s ∷ ss) = insert_sorted s (sort ss)

-- the keys of `permissions` in `resolve`
unfoldable pub effective_permissions :
    ℕ → AccountAccessMode → List RolePermission → List MembershipPermission → List String
unfolding default_keys drop_categories apply_overrides sort
effective_permissions now mode defaults overrides =
    sort (apply_overrides overrides (drop_categories mode (default_keys now defaults)))
