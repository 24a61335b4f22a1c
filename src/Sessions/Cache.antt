-- ===== src/Sessions/Cache.antt =====
-- modules/redis/session-cache.service.ts: SessionCacheService. Redis is a list of rows that end at a
-- time; each call says in `up` whether Redis answers it, that is whether `canUse()` holds and no
-- exception is thrown. A stored value is what `isEntry` accepts of it.
use balanz.Prelude.{
  ℕ, String, ◌+◌, ◌-◌, ◌*◌, ◌/◌, Bool, true, false, not, ◌&&◌, List, ◌∷◌, Option, none, some, ltb,
  leb, find, filter, if◌then◌else◌, ◌==◌,
}
use balanz.Store.{SessionStatus}
use balanz.Access.Context.{MfaStatus, AccountAccessMode}

-- CachedSessionEntry
pub record Entry : Type 0 where
  pub session_id : String
  pub user_id : String
  pub organization_id : Option String
  pub membership_id : Option String
  pub status : SessionStatus
  pub mfa_verified_at : Option ℕ
  pub reauthenticated_at : Option ℕ
  pub requires_mfa : Bool
  pub mfa_status : MfaStatus
  pub expires_at : ℕ
  pub last_activity_at : ℕ
  pub persisted_last_activity_at : ℕ
  pub tenant_active : Bool
  pub role : Option String
  pub permissions : List String
  pub account_access_mode : AccountAccessMode

pub record CacheRow : Type 0 where
  pub token_hash : String
  pub value : Option Entry
  pub until : ℕ

abbrev pub is_live : String → ℕ → CacheRow → Bool
is_live token_hash now row = row.token_hash == token_hash && ltb now row.until

-- CacheLookup
pub record Lookup : Type 0 where
  pub available : Bool
  pub value : Option Entry

abbrev pub value_of : Option CacheRow → Option Entry
value_of none = none
value_of (some row) = row.value

-- get
unfoldable pub get : List CacheRow → Bool → ℕ → String → Lookup
get cache up now token_hash =
    if up
    then record { available = true; value = value_of (find (is_live token_hash now) cache) }
    else record { available = false; value = none }

-- the keys that are not the given one
abbrev pub without : String → List CacheRow → List CacheRow
without token_hash cache = filter (λ row. not (row.token_hash == token_hash)) cache

-- The configured seconds.
pub record Settings : Type 0 where
  pub session_ttl_seconds : ℕ
  pub idle_ttl_seconds : ℕ
  pub persist_interval_seconds : ℕ
  pub authorization_cache_ttl_seconds : ℕ

abbrev pub min : ℕ → ℕ → ℕ
min a b = if leb a b then a else b

abbrev pub max : ℕ → ℕ → ℕ
max a b = if leb a b then b else a

-- cacheTtlSeconds: a time that is over counts as zero, which `Math.max(1, …)` hides; the least is
-- rounded up to whole seconds.
unfoldable pub cache_ttl_seconds : Settings → ℕ → Entry → ℕ
cache_ttl_seconds settings now entry =
    let absolute = entry.expires_at - now in
    let idle = entry.last_activity_at + settings.idle_ttl_seconds * 1000 - now in
    let least = min (min absolute idle) (settings.authorization_cache_ttl_seconds * 1000) in
    max 1 ((least + 999) / 1000)

abbrev pub row_of : Settings → ℕ → String → Entry → CacheRow
row_of settings now token_hash entry = record {
  token_hash = token_hash;
  value = some entry;
  until = now + cache_ttl_seconds settings now entry * 1000;
}

-- set
unfoldable pub set : Settings → List CacheRow → Bool → ℕ → String → Entry → Bool × List CacheRow
set settings cache up now token_hash entry =
    if up
    then (true, row_of settings now token_hash entry ∷ without token_hash cache)
    else (false, cache)

-- touch, which sets a key that is there
unfoldable pub touch : Settings → List CacheRow → Bool → ℕ → String → Entry → Bool × List CacheRow
touch settings cache up now token_hash entry =
    if up
    then elim (find (is_live token_hash now) cache) [
      | none ↦ (false, cache)
      | some row ↦ (true, row_of settings now token_hash entry ∷ without token_hash cache)
    ]
    else (false, cache)

abbrev is_alias : String → CacheRow → Bool
is_alias session_id row = elim row.value [
  | none ↦ false
  | some entry ↦ entry.session_id == session_id
]

-- deleteSession: without a digest the deletion of no key at all is refused, which is caught before
-- the aliases are looked for.
unfoldable pub delete_session : List CacheRow → Bool → String → Option String → Bool → List CacheRow
delete_session cache up session_id none cleanup_aliases = cache
delete_session cache up session_id (some token_hash) cleanup_aliases =
    if up && not (token_hash == "")
    then (let rest = without token_hash cache in
        if cleanup_aliases then filter (λ row. not (is_alias session_id row)) rest else rest)
    else cache
