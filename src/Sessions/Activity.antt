-- ===== src/Sessions/Activity.antt =====
-- The activity of a session, and the conversions between its row and its cached entry
-- (modules/sessions/sessions.service.ts).
use balanz.Prelude.{
  ℕ, String, ◌+◌, ◌*◌, Bool, not, ◌&&◌, ◌||◌, List, none, leb, find, is_some, update_where,
  if◌then◌else◌, ◌==◌,
}
use balanz.Store.{Db, AuthSession, session_active}
use balanz.Access.Context.{SessionContext}
use balanz.Sessions.Cache.{Entry, CacheRow, Settings}

pub record State : Type 0 where
  pub db : Db
  pub cache : List CacheRow

abbrev pub with_sessions : List AuthSession → State → State
with_sessions sessions st = record st { db = record st.db { sessions = sessions } }

abbrev pub with_cache : List CacheRow → State → State
with_cache cache st = record st { cache = cache }

-- isExpired: the absolute end, or the idle one with its grace, is not after now.
unfoldable pub is_expired : Settings → ℕ → ℕ → ℕ → ℕ → Bool
is_expired settings now expires_at last_activity_at grace =
    leb expires_at now || leb (last_activity_at + settings.idle_ttl_seconds * 1000 + grace) now

-- activityPersistIntervalMs
abbrev pub persist_interval_ms : Settings → ℕ
persist_interval_ms settings = settings.persist_interval_seconds * 1000

-- `at <= now - interval`, where the difference may be negative
abbrev pub is_due : Settings → ℕ → ℕ → Bool
is_due settings now at = leb (at + persist_interval_ms settings) now

-- the rows of `update({ id, status: ACTIVE, lastActivityAt: LessThanOrEqual(threshold) }, …)`
abbrev pub is_due_row : Settings → ℕ → String → AuthSession → Bool
is_due_row settings now id s =
    s.id == id && session_active s.status && is_due settings now s.last_activity_at

abbrev pub touched : ℕ → AuthSession → AuthSession
touched now s = record s { last_activity_at = now }

abbrev pub touch_rows : Settings → ℕ → String → List AuthSession → List AuthSession
touch_rows settings now id sessions =
    update_where (is_due_row settings now id) (touched now) sessions

-- persistActivityIfDue
unfoldable pub persist_activity_if_due : Settings → ℕ → Entry → State → Entry × State
persist_activity_if_due settings now entry st =
    if not (is_due settings now entry.persisted_last_activity_at) then (entry, st) else (
      if is_some (find (is_due_row settings now entry.session_id) st.db.sessions)
          then record entry { persisted_last_activity_at = now }
          else entry,
      with_sessions (touch_rows settings now entry.session_id st.db.sessions) st,
    )

-- persistDatabaseActivityIfDue: the time that the table holds, the session and the tables.
unfoldable pub persist_database_activity_if_due :
    Settings → ℕ → AuthSession → State → ℕ × AuthSession × State
persist_database_activity_if_due settings now session st =
    if is_due settings now session.last_activity_at
    then (
      if is_some (find (is_due_row settings now session.id) st.db.sessions)
          then now
          else session.last_activity_at,
      touched now session,
      with_sessions (touch_rows settings now session.id st.db.sessions) st,
    )
    else (session.last_activity_at, touched now session, st)

-- toCacheEntry
abbrev pub to_cache_entry : AuthSession → SessionContext → ℕ → Entry
to_cache_entry session context persisted = record {
  session_id = session.id;
  user_id = session.user_id;
  organization_id = session.organization_id;
  membership_id = session.membership_id;
  status = session.status;
  mfa_verified_at = session.mfa_verified_at;
  reauthenticated_at = session.reauthenticated_at;
  requires_mfa = session.requires_mfa;
  mfa_status = context.mfa_status;
  expires_at = session.expires_at;
  last_activity_at = session.last_activity_at;
  persisted_last_activity_at = persisted;
  tenant_active = context.tenant_active;
  role = context.role;
  permissions = context.permissions;
  account_access_mode = context.account_access_mode;
}

-- fromCache; the columns that the entry does not hold are absent.
abbrev pub from_cache : Entry → String → AuthSession
from_cache entry token_hash = record {
  id = entry.session_id;
  session_token_hash = token_hash;
  user_id = entry.user_id;
  organization_id = entry.organization_id;
  membership_id = entry.membership_id;
  status = entry.status;
  mfa_verified_at = entry.mfa_verified_at;
  reauthenticated_at = entry.reauthenticated_at;
  requires_mfa = entry.requires_mfa;
  expires_at = entry.expires_at;
  last_activity_at = entry.last_activity_at;
  revoked_reason = none;
  revoked_at = none;
}

-- the fields of the entry that `resolve` takes from the fresh context
abbrev pub refreshed : SessionContext → Entry → Entry
refreshed context entry = record entry {
  tenant_active = context.tenant_active;
  role = context.role;
  permissions = context.permissions;
  account_access_mode = context.account_access_mode;
  mfa_status = context.mfa_status;
}
