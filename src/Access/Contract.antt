-- ===== src/Access/Contract.antt =====
-- common/auth/authorization-contract.ts: the window of a re-authentication and the precedence of
-- an override over the role's default; common/utils/permissions.util.ts: required permissions.
use balanz.Prelude.{
  ℕ, String, ◌+◌, ◌*◌, Bool, true, false, ◌&&◌, List, Option, none, some, leb, all, any, ◌==◌,
}
use balanz.Store.{PermissionEffect}

-- REAUTHENTICATION_WINDOW_MS
abbrev pub reauthentication_window_ms : ℕ
reauthentication_window_ms = 15 * 60 * 1000

-- hasRecentReauthentication. The window is added to `verifiedAt`, which is the same test.
unfoldable pub has_recent_reauthentication : Option ℕ → ℕ → Bool
has_recent_reauthentication none now = false
has_recent_reauthentication (some verified_at) now =
    leb now (verified_at + reauthentication_window_ms) && leb verified_at now

-- resolveEffectivePermission
unfoldable pub resolve_effective_permission : Bool → Option PermissionEffect → Bool
resolve_effective_permission role_default (some PermissionEffect.deny) = false
resolve_effective_permission role_default (some PermissionEffect.grant) = true
resolve_effective_permission role_default none = role_default

-- permissionMatches
abbrev permission_matches : String → String → Bool
permission_matches granted required = granted == required

-- hasPermission
unfoldable pub has_permission : List String → String → Bool
has_permission user_permissions required =
    any (λ granted. permission_matches granted required) user_permissions

-- hasAllPermissions
unfoldable pub has_all_permissions : List String → List String → Bool
unfolding has_permission
has_all_permissions user_permissions required =
    all (λ perm. has_permission user_permissions perm) required
