-- ===== src/Catalog.antt =====
-- common/auth/permission-catalog.ts: the permission keys, what each requires, and the keys that
-- each role has by default. A key is a text, as in the source; its pattern is matched by hand.
mod Keys
mod Metadata
pub mod Laws
mod Tests
unfoldable pub use Keys.{
  permission_catalog, hu_p0_003_permission_keys, legacy_mfa_permission_keys, role_permission_keys,
}
pub use Keys.{RoleKey, admin, accountant, collaborator}
unfoldable pub use Metadata.{permission_metadata}
use mathlib.Core.Option
use balanz.Prelude.{
  ℕ, String, Bool, true, false, ◌&&◌, ◌||◌, List, [], ◌∷◌, Option, none, some, leb, eqb, codes,
  filter, find, includes, if◌then◌else◌, ◌==◌,
}

is_lower : ℕ → Bool
is_lower c = leb b'a' c && leb c b'z'

-- `[a-z0-9_]`
is_word : ℕ → Bool
unfolding is_lower
is_word c = is_lower c || (leb b'0' c && leb c b'9') || eqb c b'_'

-- `[a-z0-9_]*$`
words : List ℕ → Bool
unfolding is_word
words [] = true
words (c ∷ cs) = is_word c && words cs

-- `[a-z][a-z0-9_]*$`
last_segment : List ℕ → Bool
unfolding is_lower words
last_segment [] = false
last_segment (c ∷ cs) = is_lower c && words cs

-- `[a-z0-9_]*\.[a-z][a-z0-9_]*$`
after_first : List ℕ → Bool
unfolding is_word last_segment
after_first [] = false
after_first (c ∷ cs) = if eqb c b'.' then last_segment cs else is_word c && after_first cs

-- `[a-z][a-z0-9_]*\.[a-z][a-z0-9_]*$`
two_segments : List ℕ → Bool
unfolding is_lower after_first
two_segments [] = false
two_segments (c ∷ cs) = is_lower c && after_first cs

-- PERMISSION_KEY_PATTERN
unfoldable pub matches_key_pattern : String → Bool
unfolding two_segments
matches_key_pattern s = two_segments (codes s) || s == "cfdi.categories.manage"

-- isPermissionKey
unfoldable pub is_permission_key : String → Bool
is_permission_key value = matches_key_pattern value && includes permission_catalog value

pub record PermissionDefinition : Type 0 where
  pub name : String
  pub description : String
  pub sensitive : Bool
  pub requires_mfa : Bool
  pub requires_reauthentication : Bool

-- The texts of a key in PERMISSION_METADATA.
metadata_of : String → Option (String × String × String)
metadata_of key = find (λ entry. entry.0 == key) permission_metadata

-- `huPermission || LEGACY_MFA_PERMISSION_KEYS.has(key)`
unfoldable pub requires_mfa_key : String → Bool
requires_mfa_key key =
    includes hu_p0_003_permission_keys key || includes legacy_mfa_permission_keys key

-- The object that permissionDefinition returns, from the key's metadata.
abbrev define : String → String × String × String → PermissionDefinition
define key (_, name, description) = record {
  name = name;
  description = description;
  sensitive = requires_mfa_key key;
  requires_mfa = requires_mfa_key key;
  requires_reauthentication = includes hu_p0_003_permission_keys key;
}

-- permissionDefinition: `none` stands for a key outside the type `PermissionKey`, which the
-- compiler excludes.
unfoldable pub permission_definition : String → Option PermissionDefinition
unfolding metadata_of
permission_definition key = Option.map (define key) (metadata_of key)

abbrev requires_mfa_of : Option PermissionDefinition → Bool
requires_mfa_of none = false
requires_mfa_of (some d) = d.requires_mfa

abbrev requires_reauthentication_of : Option PermissionDefinition → Bool
requires_reauthentication_of none = false
requires_reauthentication_of (some d) = d.requires_reauthentication

-- `isPermissionKey(p) && permissionDefinition(p).requiresReauthentication`
unfoldable pub needs_reauthentication : String → Bool
needs_reauthentication key =
    is_permission_key key && requires_reauthentication_of (permission_definition key)

-- MFA_SENSITIVE_PERMISSION_KEYS
unfoldable pub mfa_sensitive_permission_keys : List String
mfa_sensitive_permission_keys =
    filter (λ key. requires_mfa_of (permission_definition key)) permission_catalog
