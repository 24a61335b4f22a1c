-- ===== src/Sessions/Laws.antt =====
-- Which tokens resolve.
use balanz.Prelude.{
  ℕ, String, ◌<◌, ◌≡◌, ◌⊎◌, inl, inr, refl, sym, ap, ◌∙◌, arith, true, false, List, [], ◌∷◌, some,
  Option-cases, Bool-cases, eq_refl, eq_iff, ◌==◌, find_holds,
}
use balanz.Http.{ok, Result-cases}
use balanz.Store.{AuthSession, session_active}
use balanz.Access.Resolve as Access
use balanz.Sessions.Cache.{Settings, Entry, get, touch}
use balanz.Sessions.Activity.{
  State, is_expired, persist_database_activity_if_due, touched, is_due, persist_interval_ms,
  touch_rows, persist_activity_if_due, from_cache, refreshed, with_cache,
}
use balanz.Sessions.Service.{
  Run, Resolved, resolve, resolve_in_cache, resolve_in_database, still_active, find_by_token,
}

-- A found row is still active under its own key.
find_by_token-still_active :
    (token_hash : String) (sessions : List AuthSession) (s : AuthSession)
    → find_by_token token_hash sessions ≡ some s
    → session_active s.status ≡ true
    → still_active s.id token_hash sessions ≡ true
unfolding find_by_token still_active
find_by_token-still_active token_hash [] s found active = ground arith
find_by_token-still_active token_hash (x ∷ xs) s found active =
    ground (arith, eq_refl x.id, find_by_token-still_active token_hash xs s)

-- A found row holds the digest.
find_by_token-token :
    (token_hash : String) (sessions : List AuthSession) (s : AuthSession)
    → find_by_token token_hash sessions ≡ some s
    → s.session_token_hash ≡ token_hash
unfolding find_by_token
find_by_token-token token_hash sessions s found =
    (eq_iff s.session_token_hash token_hash).0
      (find_holds (λ x. x.session_token_hash == token_hash) sessions found)

-- What the success of `resolve` says of the table and the clock.
pub record Live (settings : Settings) (run : Run) (token_hash : String) (st : State) (r : Resolved)
    : Type 0 where
  pub row : still_active r.session.id token_hash st.db.sessions ≡ true
  pub in_time : (run.cache_check < r.session.expires_at) ⊎ (run.check < r.session.expires_at)
  pub token : r.token_hash ≡ token_hash
  pub session_token : r.session.session_token_hash ≡ token_hash
  pub status : session_active r.session.status ≡ true

in_time :
    (settings : Settings) (now expires_at last grace : ℕ)
    → is_expired settings now expires_at last grace ≡ false
    → now < expires_at
unfolding is_expired
in_time settings now expires_at last grace h = ground arith

persist-touched :
    (settings : Settings) (now : ℕ) (session : AuthSession) (st : State)
    → (persist_database_activity_if_due settings now session st).1 ≡ touched now session
unfolding persist_database_activity_if_due
persist-touched settings now session st =
    elim (Bool-cases (is_due settings now session.last_activity_at)) [
      | inl due ↦ ground arith
      | inr early ↦ ground arith
    ]

-- The sessions of two states hold the same active rows of a token.
abbrev SameLive : String → State → State → Type 0
SameLive token_hash st before =
    (id : String)
    → still_active id token_hash st.db.sessions ≡ still_active id token_hash before.db.sessions

resolve_in_database-Live :
    (settings : Settings) (run : Run) (token_hash : String) (st before st' : State) (r : Resolved)
    → SameLive token_hash st before
    → resolve_in_database settings run token_hash st ≡ (ok r, st')
    → Live settings run token_hash before r
unfolding resolve_in_database
resolve_in_database-Live settings run token_hash st before st' r same h =
    elim (Option-cases (find_by_token token_hash st.db.sessions)) [
      | inl missing ↦ absurd (ground arith)
      | inr (s, found) ↦
          let p = persist_database_activity_if_due settings run.persist s st in
          let kept = persist-touched settings run.persist s st in
          let grace = persist_interval_ms settings in
          elim (Bool-cases (session_active s.status)) [
            | inr ended ↦ absurd (ground arith)
            | inl active ↦
                let here = find_by_token-still_active token_hash st.db.sessions s found active in
                let own = find_by_token-token token_hash st.db.sessions s found in
                elim (Bool-cases
                  (is_expired settings run.check s.expires_at s.last_activity_at grace)) [
                    | inl over ↦ absurd (ground arith)
                    | inr running ↦
                        let bound = in_time settings run.check _ _ _ running in
                        elim (Result-cases
                          (Access.resolve p.2.db run.authorize run.authorized p.1)) [
                            | inl (e, failed) ↦ absurd (ground arith)
                            | inr (context, resolved) ↦
                                let session : r.session ≡ p.1 = ground arith in
                                let id = ap (λ x. x.id) (session ∙ kept) in
                                record {
                                  row = rw id (sym (same s.id) ∙ here);
                                  in_time = inr (rw (session, kept) bound);
                                  token = ground arith;
                                  session_token = rw (session, kept) own;
                                  status = rw (session, kept) active;
                                }
                          ]
                  ]
          ]
    ]

-- Recording activity keeps the live rows.
still_active-touch_rows :
    (settings : Settings) (now : ℕ) (other id token_hash : String) (sessions : List AuthSession)
    → still_active id token_hash (touch_rows settings now other sessions)
      ≡ still_active id token_hash sessions
unfolding still_active
still_active-touch_rows settings now other id token_hash [] = refl
still_active-touch_rows settings now other id token_hash (s ∷ ss) =
    ground (arith, still_active-touch_rows settings now other id token_hash ss)

persist_activity-SameLive :
    (settings : Settings) (now : ℕ) (entry : Entry) (st : State) (token_hash : String)
    → SameLive token_hash (persist_activity_if_due settings now entry st).1 st
unfolding persist_activity_if_due
persist_activity-SameLive settings now entry st token_hash id =
    elim (Bool-cases (is_due settings now entry.persisted_last_activity_at)) [
      | inl due ↦
          let kept =
            still_active-touch_rows settings now entry.session_id id token_hash st.db.sessions in
          ground arith
      | inr early ↦ ground arith
    ]

resolve_in_cache-Live :
    (settings : Settings) (run : Run) (token_hash : String) (entry : Entry) (st st' : State)
    (r : Resolved)
    → resolve_in_cache settings run token_hash entry st ≡ (ok r, st')
    → Live settings run token_hash st r
unfolding resolve_in_cache
resolve_in_cache-Live settings run token_hash entry st st' r h =
    let p = persist_activity_if_due settings run.cache_persist entry st in
    let same = persist_activity-SameLive settings run.cache_persist entry st token_hash in
    let session = touched run.activity (from_cache entry token_hash) in
    elim (Bool-cases (session_active entry.status)) [
      | inr ended ↦ absurd (ground arith)
      | inl active ↦
          elim (Bool-cases
            (is_expired settings run.cache_check entry.expires_at entry.last_activity_at 0)) [
              | inl over ↦ absurd (ground arith)
              | inr running ↦
                  let bound = in_time settings run.cache_check _ _ _ running in
                  elim (Bool-cases (still_active entry.session_id token_hash st.db.sessions)) [
                    | inr gone ↦ absurd (ground arith)
                    | inl here ↦
                        elim (Result-cases (
                          Access.resolve p.1.db run.cache_authorize run.cache_authorized session)) [
                            | inl (e, failed) ↦ absurd (ground arith)
                            | inr (context, resolved) ↦
                                let entry' =
                                  refreshed context
                                    (record p.0 { last_activity_at = run.activity }) in
                                let t =
                                  touch settings p.1.cache run.touch_up run.touching token_hash
                                    entry' in
                                elim (Bool-cases t.0) [
                                  | inl kept ↦
                                      let found : r.session ≡ session = ground arith in
                                      record {
                                        row = rw found here;
                                        in_time = inl (rw found bound);
                                        token = ground arith;
                                        session_token = rw found refl;
                                        status = rw found active;
                                      }
                                  | inr missed ↦
                                      resolve_in_database-Live settings run token_hash
                                        (with_cache t.1 p.1) st st' r same (ground arith)
                                ]
                          ]
                  ]
            ]
    ]

-- Whatever the cache holds and whether or not Redis answers, a token resolves only if its digest
-- is that of an active row of the table with the session's key, before the session's end; the
-- session that is returned is active and carries that digest, as the result itself does.
pub resolve-Live :
    (hash_token : String → String) (settings : Settings) (run : Run) (raw_token : String)
    (st st' : State) (r : Resolved)
    → resolve hash_token settings run (some raw_token) st ≡ (ok r, st')
    → Live settings run (hash_token raw_token) st r
unfolding resolve
resolve-Live hash_token settings run raw_token st st' r h =
    elim (Option-cases (get st.cache run.get_up run.reading (hash_token raw_token)).value) [
      | inl missing ↦
          resolve_in_database-Live settings run (hash_token raw_token) st st st' r (λ id. refl)
            (ground arith)
      | inr (entry, cached) ↦
          resolve_in_cache-Live settings run (hash_token raw_token) entry st st' r (ground arith)
    ]
