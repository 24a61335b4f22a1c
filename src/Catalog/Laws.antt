-- ===== src/Catalog/Laws.antt =====
-- What the catalog guarantees: the roles are nested, every catalog key is well formed and has its
-- metadata, and a key that asks for a fresh login asks for a second factor too.
use balanz.Prelude.{
  String, ◌≡◌, refl, sym, ◌∙◌, Bool, true, false, Option, none, some, arith, all, ◌++◌, includes,
  all-includes, and-split, includes-filter, includes-append,
}
use balanz.Catalog.{
  permission_catalog, hu_p0_003_permission_keys, legacy_mfa_permission_keys, admin, accountant,
  collaborator, role_permission_keys, permission_metadata, matches_key_pattern, is_permission_key,
  PermissionDefinition, permission_definition, mfa_sensitive_permission_keys, requires_mfa_key,
  requires_mfa_of,
}

accountant_in_catalog :
    all (includes (role_permission_keys admin)) (role_permission_keys accountant) ≡ true
unfolding role_permission_keys permission_catalog
accountant_in_catalog = refl

collaborator_in_accountant :
    all (includes (role_permission_keys accountant)) (role_permission_keys collaborator) ≡ true
unfolding role_permission_keys
collaborator_in_accountant = refl

catalog_matches : all matches_key_pattern permission_catalog ≡ true
unfolding matches_key_pattern permission_catalog
catalog_matches = refl

sensitive_in_catalog :
    all (includes permission_catalog) (hu_p0_003_permission_keys ++ legacy_mfa_permission_keys)
    ≡ true
unfolding permission_catalog hu_p0_003_permission_keys legacy_mfa_permission_keys
sensitive_in_catalog = refl

abbrev is_defined : Option PermissionDefinition → Bool
is_defined none = false
is_defined (some d) = true

defined-some :
    (o : Option PermissionDefinition)
    → is_defined o ≡ true
    → (d : PermissionDefinition) × (o ≡ some d)
defined-some none h = cc
defined-some (some d) h = (d, refl)

define-parts :
    (key : String) (d : PermissionDefinition)
    → permission_definition key ≡ some d
    → (d.requires_mfa ≡ requires_mfa_key key)
      × (d.sensitive ≡ d.requires_mfa)
      × (d.requires_reauthentication ≡ includes hu_p0_003_permission_keys key)
unfolding permission_definition
define-parts key d h = ground arith

catalog_defined : all (λ key. is_defined (permission_definition key)) permission_catalog ≡ true
unfolding permission_definition permission_catalog permission_metadata
catalog_defined = refl

admin-eq : (key : String) → includes (role_permission_keys admin) key ≡ is_permission_key key
unfolding role_permission_keys is_permission_key
admin-eq key =
    ground (arith, all-includes matches_key_pattern permission_catalog key catalog_matches)

-- A sensitive key is in one of the two sets of the catalog.
sensitive-includes :
    (key : String) → requires_mfa_key key ≡ true → includes permission_catalog key ≡ true
unfolding requires_mfa_key
sensitive-includes key h =
    all-includes (includes permission_catalog) _ key sensitive_in_catalog
      (rw (includes-append hu_p0_003_permission_keys legacy_mfa_permission_keys key) h)

definition-requires_mfa :
    (key : String)
    → includes permission_catalog key ≡ true
    → requires_mfa_of (permission_definition key) ≡ requires_mfa_key key
unfolding permission_definition
definition-requires_mfa key h = ground (arith, all-includes _ _ key catalog_defined h)

-- MFA_SENSITIVE_PERMISSION_KEYS holds exactly the keys of the two sets.
pub mfa_sensitive-eq :
    (key : String) → includes mfa_sensitive_permission_keys key ≡ requires_mfa_key key
unfolding mfa_sensitive_permission_keys
mfa_sensitive-eq key = ground (
  arith,
  includes-filter (λ k. requires_mfa_of (permission_definition k)) permission_catalog key,
  sensitive-includes key,
  definition-requires_mfa key,
)

-- A collaborator's default is an accountant's default, an accountant's is an administrator's, and
-- an administrator's default keys are exactly those that `isPermissionKey` accepts.
pub role_permission_keys_nested :
    (key : String)
    → (includes (role_permission_keys collaborator) key ≡ true
        → includes (role_permission_keys accountant) key ≡ true)
      × (includes (role_permission_keys accountant) key ≡ true
          → includes (role_permission_keys admin) key ≡ true)
      × (includes (role_permission_keys admin) key ≡ is_permission_key key)
role_permission_keys_nested key = (
  all-includes _ _ key collaborator_in_accountant,
  all-includes _ _ key accountant_in_catalog,
  admin-eq key,
)

known-key : (key : String) → is_permission_key key ≡ true → includes permission_catalog key ≡ true
unfolding is_permission_key
known-key key h = (and-split _ _ h).1

hu-mfa :
    (key : String) → includes hu_p0_003_permission_keys key ≡ true → requires_mfa_key key ≡ true
unfolding requires_mfa_key
hu-mfa key h = rw h

-- Every key that `isPermissionKey` accepts has a definition; the definition marks the key as
-- sensitive, and as needing MFA, exactly when the key is in MFA_SENSITIVE_PERMISSION_KEYS, and a
-- key that needs a new authentication needs MFA.
pub permission_definition_lem :
    (key : String)
    → is_permission_key key ≡ true
    → (d : PermissionDefinition) × (permission_definition key ≡ some d)
      × (d.requires_mfa ≡ includes mfa_sensitive_permission_keys key)
      × (d.sensitive ≡ d.requires_mfa)
      × (d.requires_reauthentication ≡ true → d.requires_mfa ≡ true)
permission_definition_lem key h =
    let (d, found) = defined-some _ (all-includes _ _ key catalog_defined (known-key key h)) in
    let (mfa, same, again) = define-parts key d found in
    (d, found, mfa ∙ sym (mfa_sensitive-eq key), same, λ r. mfa ∙ hu-mfa key (sym again ∙ r))
