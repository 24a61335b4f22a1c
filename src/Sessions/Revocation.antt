-- ===== src/Sessions/Revocation.antt =====
-- Rotation and revocation (modules/sessions/sessions.service.ts). Redis answers each deletion of a
-- session's key or not, as `up` says.
use balanz.Prelude.{
  ℕ, zero, suc, String, Bool, true, false, not, ◌&&◌, List, [], ◌∷◌, Option, none, some, find,
  filter, is_some_of, update_where, if◌then◌else◌, ◌==◌,
}
use balanz.Http.{Result, ok, err, unauthorized}
use balanz.Store.{AuthSession, SessionStatus, session_active}
use balanz.Access.Context.{SessionContext}
use balanz.Sessions.Cache.{CacheRow, Settings, set, delete_session}
use balanz.Sessions.Activity.{State, with_sessions, with_cache, to_cache_entry}

-- SessionRotationResult
pub record Rotation : Type 0 where
  pub raw_token : String
  pub previous_token_hash : String

abbrev pub rotated : String → AuthSession → AuthSession
rotated token_hash s = record s { session_token_hash = token_hash }

-- rotateForManager; `raw_token` is the random token.
unfoldable pub rotate_for_manager :
    (String → String) → String → String → State → Result Rotation × State
rotate_for_manager hash_token raw_token session_id st =
    elim (find (λ s. s.id == session_id) st.db.sessions) [
      | none ↦ (err (unauthorized "Invalid session"), st)
      | some session ↦
          if not (session_active session.status)
          then (err (unauthorized "Invalid session"), st)
          else (
            ok (record { raw_token = raw_token; previous_token_hash = session.session_token_hash }),
            with_sessions
                (update_where (λ s. s.id == session_id)
                  (λ _. rotated (hash_token raw_token) session) st.db.sessions)
                st,
          )
    ]

-- cacheSession
unfoldable pub cache_session : Settings → Bool → ℕ → AuthSession → SessionContext → State → State
cache_session settings up now session context st =
    with_cache
      (set settings st.cache up now session.session_token_hash
        (to_cache_entry session context session.last_activity_at)).1
      st

-- cacheRotated
unfoldable pub cache_rotated :
    Settings → Bool → Bool → ℕ → AuthSession → String → SessionContext → State → State
cache_rotated settings delete_up set_up now session previous_token_hash context st =
    cache_session settings set_up now session context (
      with_cache (delete_session st.cache delete_up session.id (some previous_token_hash) false) st)

-- `reason.slice(0, 100)` of a reason in ASCII, as the callers' are
abbrev cut : ℕ → String → String
cut zero s = ""
cut (suc n) String.[] = ""
cut (suc n) (String.◌∷◌ c s) = String.◌∷◌ c (cut n s)

abbrev pub revoked : ℕ → String → AuthSession → AuthSession
revoked now reason s = record s {
  status = SessionStatus.revoked;
  revoked_reason = some (cut 100 reason);
  revoked_at = some now;
}

-- the update of the active sessions that a condition selects
unfoldable pub revoke_where :
    (AuthSession → Bool) → ℕ → String → List AuthSession → List AuthSession
revoke_where selected now reason sessions =
    update_where (λ s. selected s && session_active s.status) (revoked now reason) sessions

-- revoke
unfoldable pub revoke : Bool → ℕ → String → String → State → State
revoke up now session_id reason st =
    let found = find (λ s. s.id == session_id) st.db.sessions in
    let token_hash : Option String = elim found [
      | none ↦ none
      | some s ↦ some s.session_token_hash
    ] in
    with_cache (delete_session st.cache up session_id token_hash true)
      (with_sessions (revoke_where (λ s. s.id == session_id) now reason st.db.sessions) st)

-- `Promise.all(sessions.map((session) => this.cache.deleteSession(…)))`
unfoldable pub delete_sessions :
    (AuthSession → Bool) → List AuthSession → List CacheRow → List CacheRow
delete_sessions up [] cache = cache
delete_sessions up (s ∷ ss) cache =
    delete_sessions up ss (delete_session cache (up s) s.id (some s.session_token_hash) false)

-- The active sessions that a condition selects are revoked and their keys deleted.
unfoldable pub revoke_selected :
    (AuthSession → Bool) → (AuthSession → Bool) → ℕ → String → State → State
revoke_selected selected up now reason st =
    let sessions = filter (λ s. selected s && session_active s.status) st.db.sessions in
    with_cache (delete_sessions up sessions st.cache)
      (with_sessions (revoke_where selected now reason st.db.sessions) st)

abbrev pub is_other : Option String → AuthSession → Bool
is_other none s = true
is_other (some id) s = if id == "" then true else not (s.id == id)

-- revokeSessionsByUser, and so revokeUserSessions and revokeOtherSessions
unfoldable pub revoke_sessions_by_user :
    String → Option String → (AuthSession → Bool) → ℕ → String → State → State
revoke_sessions_by_user user_id except_session_id =
    revoke_selected (λ s. s.user_id == user_id && is_other except_session_id s)

-- revokeUserSessionsForManager
unfoldable pub revoke_user_sessions_for_manager : String → ℕ → String → State → State
revoke_user_sessions_for_manager user_id now reason st =
    with_sessions (revoke_where (λ s. s.user_id == user_id) now reason st.db.sessions) st

abbrev pub is_of_membership : String → String → AuthSession → Bool
is_of_membership organization_id membership_id s =
    is_some_of s.organization_id organization_id && is_some_of s.membership_id membership_id

-- revokeMembershipSessions
unfoldable pub revoke_membership_sessions :
    String → String → (AuthSession → Bool) → ℕ → String → State → State
revoke_membership_sessions organization_id membership_id =
    revoke_selected (is_of_membership organization_id membership_id)

-- invalidateMembershipAuthorization
unfoldable pub invalidate_membership_authorization :
    String → String → (AuthSession → Bool) → State → State
invalidate_membership_authorization organization_id membership_id up st =
    with_cache
      (delete_sessions up
        (filter (λ s. is_of_membership organization_id membership_id s && session_active s.status)
          st.db.sessions)
        st.cache)
      st
