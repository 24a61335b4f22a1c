-- ===== src/Sessions/Service.antt =====
-- modules/sessions/sessions.service.ts: SessionsService. The digest of a token (SHA-256) and the
-- random token are arguments. Cookies are left to the framework: `resolve` starts from the token
-- that the cookie holds.
use balanz.Prelude.{
  ℕ, String, ◌+◌, ◌*◌, Bool, true, false, not, ◌&&◌, ◌||◌, List, [], ◌∷◌, ◌++◌, Option, none, some,
  find, is_some, update_where, if◌then◌else◌, ◌==◌,
}
use balanz.Http.{Result, ok, err, unauthorized}
use balanz.Store.{AuthSession, SessionStatus, session_active}
use balanz.Access.Context.{SessionContext}
use balanz.Access.Resolve as Access
use balanz.Sessions.Cache.{Entry, Settings, get, set, touch, delete_session}
use balanz.Sessions.Activity.{
  State, with_sessions, with_cache, is_expired, persist_interval_ms, persist_activity_if_due,
  persist_database_activity_if_due, to_cache_entry, from_cache, refreshed, touched,
}

-- SessionCreationInput
pub record CreationInput : Type 0 where
  pub user_id : String
  pub organization_id : Option String
  pub membership_id : Option String
  pub mfa_verified_at : Option ℕ
  pub reauthenticated_at : Option ℕ
  pub requires_mfa : Bool

-- the row that createForManager saves; `id` is its new key
abbrev pub new_session : Settings → ℕ → String → String → CreationInput → AuthSession
new_session settings now id token_hash input = record {
  id = id;
  session_token_hash = token_hash;
  user_id = input.user_id;
  organization_id = input.organization_id;
  membership_id = input.membership_id;
  status = SessionStatus.active;
  mfa_verified_at = input.mfa_verified_at;
  reauthenticated_at = input.reauthenticated_at;
  requires_mfa = input.requires_mfa;
  expires_at = now + settings.session_ttl_seconds * 1000;
  last_activity_at = now;
  revoked_reason = none;
  revoked_at = none;
}

-- createForManager
unfoldable pub create_for_manager :
    Settings → ℕ → String → String → CreationInput → State → AuthSession × State
create_for_manager settings now id token_hash input st =
    let session = new_session settings now id token_hash input in
    (session, with_sessions (st.db.sessions ++ session ∷ []) st)

-- The readings of the clock by `resolve`, in their order, and the answers of Redis.
pub record Run : Type 0 where
  pub reading : ℕ
  pub cache_check : ℕ
  pub cache_persist : ℕ
  pub activity : ℕ
  pub cache_authorize : ℕ
  pub cache_authorized : ℕ
  pub touching : ℕ
  pub check : ℕ
  pub persist : ℕ
  pub authorize : ℕ
  pub authorized : ℕ
  pub setting : ℕ
  pub get_up : Bool
  pub delete_up : Bool
  pub touch_up : Bool
  pub set_up : Bool

-- ResolvedSession
pub record Resolved : Type 0 where
  pub session : AuthSession
  pub context : SessionContext
  pub token_hash : String
  pub cache_hit : Bool

abbrev pub expired : AuthSession → AuthSession
expired s = record s { status = SessionStatus.expired }

-- `update({ id, status: ACTIVE }, { status: EXPIRED })`
abbrev pub expire_rows : String → List AuthSession → List AuthSession
expire_rows id sessions = update_where (λ s. s.id == id && session_active s.status) expired sessions

-- expireCachedSession
unfoldable pub expire_cached_session : Bool → String → String → State → State
expire_cached_session up session_id token_hash st =
    with_cache (delete_session st.cache up session_id (some token_hash) false)
      (with_sessions (expire_rows session_id st.db.sessions) st)

-- `existsBy({ id, sessionTokenHash, status: ACTIVE })`
unfoldable pub still_active : String → String → List AuthSession → Bool
still_active id token_hash sessions = is_some (
    find (λ s. s.id == id && s.session_token_hash == token_hash && session_active s.status)
      sessions)

unfoldable pub find_by_token : String → List AuthSession → Option AuthSession
find_by_token token_hash sessions = find (λ s. s.session_token_hash == token_hash) sessions

-- The part of `resolve` on the table of sessions.
unfoldable pub resolve_in_database : Settings → Run → String → State → Result Resolved × State
resolve_in_database settings run token_hash st = elim (find_by_token token_hash st.db.sessions) [
  | none ↦ (err (unauthorized "Invalid session"), st)
  | some session ↦
      if not (session_active session.status)
        || is_expired settings run.check session.expires_at session.last_activity_at
            (persist_interval_ms settings)
      then (
        err (unauthorized "Expired session"),
        if session_active session.status
            then with_sessions (update_where (λ s. s.id == session.id) expired st.db.sessions) st
            else st,
      )
      else (let (persisted, session', st') =
            persist_database_activity_if_due settings run.persist session st in
          elim (Access.resolve st'.db run.authorize run.authorized session') [
            | err failure ↦ (err failure, st')
            | ok context ↦ (
              ok (record {
                session = session';
                context = context;
                token_hash = token_hash;
                cache_hit = false;
              }),
              with_cache
                  (set settings st'.cache run.set_up run.setting session'.session_token_hash
                    (to_cache_entry session' context persisted)).1
                  st',
            )
          ])
]

-- The part of `resolve` on a cached entry.
unfoldable pub resolve_in_cache : Settings → Run → String → Entry → State → Result Resolved × State
resolve_in_cache settings run token_hash entry st =
    if not (session_active entry.status)
      || is_expired settings run.cache_check entry.expires_at entry.last_activity_at 0
    then (
      err (unauthorized "Expired session"),
      expire_cached_session run.delete_up entry.session_id token_hash st,
    )
    else if not (still_active entry.session_id token_hash st.db.sessions)
    then (
      err (unauthorized "Invalid session"),
      with_cache (delete_session st.cache run.delete_up entry.session_id (some token_hash) false)
          st,
    )
    else (let (entry', st') = persist_activity_if_due settings run.cache_persist entry st in
        let session = touched run.activity (from_cache entry token_hash) in
        elim (Access.resolve st'.db run.cache_authorize run.cache_authorized session) [
          | err failure ↦ (err failure, st')
          | ok context ↦
              let entry'' = refreshed context (record entry' { last_activity_at = run.activity }) in
              let (kept, cache) =
                touch settings st'.cache run.touch_up run.touching token_hash entry'' in
              if kept
              then (
                ok (record {
                  session = session;
                  context = context;
                  token_hash = token_hash;
                  cache_hit = true;
                }),
                with_cache cache st',
              )
              else resolve_in_database settings run token_hash (with_cache cache st')
        ])

-- resolve; `raw_token` is the cookie's value, if it is a text that is not empty.
unfoldable pub resolve :
    (String → String) → Settings → Run → Option String → State → Result Resolved × State
resolve hash_token settings run none st = (err (unauthorized "Session required"), st)
resolve hash_token settings run (some raw_token) st =
    elim (get st.cache run.get_up run.reading (hash_token raw_token)).value [
      | none ↦ resolve_in_database settings run (hash_token raw_token) st
      | some entry ↦ resolve_in_cache settings run (hash_token raw_token) entry st
    ]
