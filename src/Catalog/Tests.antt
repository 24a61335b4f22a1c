-- ===== src/Catalog/Tests.antt =====
-- The catalog at single keys, and its theorems there.
use balanz.Prelude.{◌≡◌, refl, true, false, includes, some}
use balanz.Catalog.{
  permission_catalog, admin, accountant, collaborator, role_permission_keys, is_permission_key,
  matches_key_pattern, PermissionDefinition, permission_definition, mfa_sensitive_permission_keys,
}
use balanz.Catalog.Laws.{role_permission_keys_nested, permission_definition_lem}

three_segments : is_permission_key "cfdi.categories.manage" ≡ true
unfolding is_permission_key matches_key_pattern permission_catalog
three_segments = refl

not_a_pattern : matches_key_pattern "cfdi..view" ≡ false
unfolding matches_key_pattern
not_a_pattern = refl

role_permission_keys_nested_example :
    (includes (role_permission_keys collaborator) "cfdi.view" ≡ true
      → includes (role_permission_keys accountant) "cfdi.view" ≡ true)
    × (includes (role_permission_keys accountant) "cfdi.view" ≡ true
        → includes (role_permission_keys admin) "cfdi.view" ≡ true)
    × (includes (role_permission_keys admin) "cfdi.view" ≡ is_permission_key "cfdi.view")
role_permission_keys_nested_example = role_permission_keys_nested "cfdi.view"

permission_definition_lem_example :
    (d : PermissionDefinition) × (permission_definition "cfdi.categories.manage" ≡ some d)
    × (d.requires_mfa ≡ includes mfa_sensitive_permission_keys "cfdi.categories.manage")
    × (d.sensitive ≡ d.requires_mfa)
    × (d.requires_reauthentication ≡ true → d.requires_mfa ≡ true)
permission_definition_lem_example =
    permission_definition_lem "cfdi.categories.manage" three_segments
