-- ===== src/Sessions/Ended.antt =====
-- Tokens that no longer resolve, and tokens that do.
use balanz.Prelude.{
  ℕ, String, ◌+◌, ◌*◌, ◌<◌, ◌≡◌, ◌≢◌, inl, inr, refl, ap, arith, Bool, true, false, not, ◌&&◌, ◌||◌,
  List, [], ◌∷◌, ◌++◌, Option, none, some, all, find, Option-cases, Bool-cases, eq_iff, ◌==◌,
  all-update_where, find-all_not,
}
use balanz.Http.{ok, err, Failure, Result-cases}
use balanz.Store.{Db, AuthSession, session_active}
use balanz.Access.Context.{SessionContext}
use balanz.Access.Resolve as Access
use balanz.Sessions.Cache.{Settings, get}
use balanz.Sessions.Activity.{
  State, is_expired, persist_database_activity_if_due, persist_interval_ms, touched, with_sessions,
  is_due, touch_rows,
}
use balanz.Sessions.Service.{
  Run, CreationInput, new_session, create_for_manager, resolve, resolve_in_database, still_active,
  find_by_token,
}
use balanz.Sessions.Revocation.{
  Rotation, rotated, rotate_for_manager, is_other, revoked, revoke_where, revoke_selected,
  revoke_sessions_by_user,
}
use balanz.Sessions.Laws.{resolve-Live}

abbrev pub is_live_row : String → AuthSession → Bool
is_live_row token_hash s = s.session_token_hash == token_hash && session_active s.status

-- A token without an active row does not resolve.
pub dead_token :
    (hash_token : String → String) (settings : Settings) (run : Run) (raw_token : String)
    (st : State)
    → all (λ s. not (is_live_row (hash_token raw_token) s)) st.db.sessions ≡ true
    → (e : Failure) × ((resolve hash_token settings run (some raw_token) st).0 ≡ err e)
unfolding still_active
dead_token hash_token settings run raw_token st dead =
    let result = resolve hash_token settings run (some raw_token) st in
    elim (Result-cases result.0) [
      | inl refused ↦ refused
      | inr (r, resolved) ↦
          let live =
            resolve-Live hash_token settings run raw_token st result.1 r
              (ap (λ x. (x, result.1)) resolved) in
          let nothing =
            find-all_not
              (λ s.
                s.id == r.session.id
                && s.session_token_hash == hash_token raw_token
                && session_active s.status)
              (λ s. not (is_live_row (hash_token raw_token) s)) st.db.sessions (λ s h. ground arith)
              dead in
          absurd (ground (arith, live.row))
    ]

-- Once the sessions of a user are revoked, except perhaps one, no token of the others resolves,
-- whatever the cache still holds and whether or not Redis answered the deletions.
pub revoke_sessions_by_user-resolve :
    (hash_token : String → String) (settings : Settings) (run : Run) (raw_token : String)
    (user_id : String) (except_session_id : Option String) (up : AuthSession → Bool) (now : ℕ)
    (reason : String) (st : State)
    → all
        (λ s.
          not (s.session_token_hash == hash_token raw_token)
          || s.user_id == user_id && is_other except_session_id s)
        st.db.sessions
      ≡ true
    → (e : Failure) × ((resolve hash_token settings run
          (some raw_token)
          (revoke_sessions_by_user user_id except_session_id up now reason st)).0
        ≡ err e)
unfolding revoke_sessions_by_user revoke_selected revoke_where
revoke_sessions_by_user-resolve hash_token settings run raw_token user_id except_session_id up now
      reason st owned =
    dead_token hash_token settings run raw_token _ (
      all-update_where
        (λ s.
          not (s.session_token_hash == hash_token raw_token)
          || s.user_id == user_id && is_other except_session_id s)
        (λ s. not (is_live_row (hash_token raw_token) s))
        (λ s. (s.user_id == user_id && is_other except_session_id s) && session_active s.status)
        (revoked now reason) st.db.sessions (λ s h k. ground arith) (λ s h k. ground arith) owned)

-- A rotated session's earlier token does not resolve any more, even if the cache still holds it.
pub rotate_for_manager-resolve :
    (hash_token : String → String) (settings : Settings) (run : Run)
    (raw_token new_token session_id : String) (st st' : State) (rotation : Rotation)
    → rotate_for_manager hash_token new_token session_id st ≡ (ok rotation, st')
    → hash_token raw_token ≡ rotation.previous_token_hash
    → hash_token new_token ≢ hash_token raw_token
    → all
        (λ s. not (s.session_token_hash == hash_token raw_token) || s.id == session_id)
        st.db.sessions
      ≡ true
    → (e : Failure) × ((resolve hash_token settings run (some raw_token) st').0 ≡ err e)
unfolding rotate_for_manager
rotate_for_manager-resolve hash_token settings run raw_token new_token session_id st st' rotation h
      previous fresh owned =
    elim (Option-cases (find (λ s. s.id == session_id) st.db.sessions)) [
      | inl missing ↦ absurd (ground arith)
      | inr (session, found) ↦ elim (Bool-cases (session_active session.status)) [
        | inr ended ↦ absurd (ground arith)
        | inl active ↦
            let dead =
              all-update_where
                (λ s. not (s.session_token_hash == hash_token raw_token) || s.id == session_id)
                (λ s. not (is_live_row (hash_token raw_token) s)) (λ s. s.id == session_id)
                (λ _. rotated (hash_token new_token) session) st.db.sessions
                (λ s k l.
                  ground (arith, eq_iff (hash_token new_token) (hash_token raw_token), fresh))
                (λ s k l. ground arith) owned in
            dead_token hash_token settings run raw_token st' (ground (arith, dead))
      ]
    ]

find_by_token-append :
    (token_hash : String) (sessions : List AuthSession) (s : AuthSession)
    → find_by_token token_hash sessions ≡ none
    → s.session_token_hash ≡ token_hash
    → find_by_token token_hash (sessions ++ s ∷ []) ≡ some s
unfolding find_by_token
find_by_token-append token_hash [] s missing token =
    ground (arith, eq_iff s.session_token_hash token_hash)
find_by_token-append token_hash (x ∷ xs) s missing token =
    ground (arith, find_by_token-append token_hash xs s)

-- An authorization does not depend on the rows of the sessions.
resolve-sessions :
    (db : Db) (sessions : List AuthSession) (now later : ℕ) (session : AuthSession)
    → Access.resolve (record db { sessions = sessions }) now later session
      ≡ Access.resolve db now later session
unfolding Access.resolve Access.resolve_tenancy Access.tenancy_of Access.find_organization
    Access.find_membership Access.user_mfa_status
resolve-sessions db sessions now later session = refl

-- Without Redis, the token of a new session, whose digest no row held before, resolves to it with
-- its activity renewed, as long as neither its end nor the idle time with its grace has passed and
-- its user's authorization can be resolved; it does not matter whether the activity is written.
pub create_for_manager-resolve :
    (hash_token : String → String) (settings : Settings) (run : Run) (raw_token id : String)
    (now : ℕ) (input : CreationInput) (st : State) (context : SessionContext)
    → let (session, st') = create_for_manager settings now id (hash_token raw_token) input st in
      find_by_token (hash_token raw_token) st.db.sessions ≡ none
      → run.get_up ≡ false
      → run.check < now + settings.session_ttl_seconds * 1000
      → run.check < now + settings.idle_ttl_seconds * 1000 + persist_interval_ms settings
      → Access.resolve st'.db run.authorize run.authorized (touched run.persist session)
        ≡ ok context
      → (st'' : State) × (resolve hash_token settings run (some raw_token) st' ≡ (
        ok (record {
          session = touched run.persist session;
          context = context;
          token_hash = hash_token raw_token;
          cache_hit = false;
        }),
        st'',
      ))
unfolding create_for_manager resolve get resolve_in_database persist_database_activity_if_due
    is_expired
create_for_manager-resolve hash_token settings run raw_token id now input st context unused down
      absolute idle resolved =
    let hash = hash_token raw_token in
    let session = new_session settings now id hash input in
    let st' = with_sessions (st.db.sessions ++ session ∷ []) st in
    let rows = touch_rows settings run.persist id st'.db.sessions in
    let same = resolve-sessions st'.db rows run.authorize run.authorized in
    let touched_session = touched run.persist session in
    let found = find_by_token-append hash st.db.sessions session unused refl in
    elim (Bool-cases (is_due settings run.persist now)) [
      | inl due ↦ (
        (resolve hash_token settings run (some raw_token) st').1,
        ground (arith, found, resolved, same touched_session),
      )
      | inr early ↦ (
        (resolve hash_token settings run (some raw_token) st').1,
        ground (arith, found, resolved),
      )
    ]
