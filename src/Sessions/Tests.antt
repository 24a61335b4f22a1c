-- ===== src/Sessions/Tests.antt =====
-- Runs of the sessions on a small state, and the theorems at them.
use balanz.Prelude.{
  ltb, if◌then◌else◌, ◌⊎◌, ◌<◌, ◌+◌, ◌*◌, List, [], String, ◌≡◌, refl, ◌≢◌, true, false, none, some,
  arith,
}
use balanz.Http.{ok, err, Failure}
use balanz.Store.{AuthSession}
use balanz.Access.Context.{SessionContext}
use balanz.Access.Sample.{ana_session, ana}
use balanz.Access.Resolve as Access
use balanz.Access.Resolve.{
  resolve_tenancy, tenancy_of, find_organization, find_membership, user_mfa_status, newest_factor,
}
use balanz.Access.Effective.{effective_permissions}
use balanz.Catalog.{
  permission_catalog, permission_metadata, hu_p0_003_permission_keys, legacy_mfa_permission_keys,
  needs_reauthentication, is_permission_key, permission_definition, requires_mfa_key,
  matches_key_pattern,
}
use balanz.Sessions.Kept.{set-get}
use balanz.Sessions.Cache.{Entry, CacheRow, set, cache_ttl_seconds, get}
use balanz.Sessions.Activity.{
  to_cache_entry, State, is_expired, persist_database_activity_if_due, touched,
}
use balanz.Sessions.Service.{
  Run, Resolved, CreationInput, new_session, resolve, resolve_in_database, find_by_token,
  create_for_manager,
}
use balanz.Sessions.Revocation.{Rotation, rotate_for_manager, revoke_sessions_by_user}
use balanz.Sessions.Sample.{settings, st, hash_token, run}
use balanz.Sessions.Laws.{Live, resolve-Live}
use balanz.Sessions.Ended.{
  revoke_sessions_by_user-resolve, rotate_for_manager-resolve, create_for_manager-resolve,
}

abbrev resolved : Resolved
resolved = record {
  session = touched 300 ana_session;
  context = ana;
  token_hash = "hash";
  cache_hit = false;
}

-- What the runs below compute with.
authorizes : Unit {0}
unfolding Access.resolve resolve_tenancy tenancy_of find_organization find_membership
    user_mfa_status newest_factor effective_permissions needs_reauthentication is_permission_key
    permission_definition permission_catalog permission_metadata hu_p0_003_permission_keys
    legacy_mfa_permission_keys requires_mfa_key matches_key_pattern
authorizes = tt

unused : find_by_token "second" st.db.sessions ≡ none
unfolding find_by_token
unused = refl

resolves :
    resolve hash_token settings run (some "hash") st
    ≡ (ok resolved, (resolve hash_token settings run (some "hash") st).1)
unfolding authorizes resolve resolve_in_database find_by_token is_expired get
    persist_database_activity_if_due
resolves = refl

resolve-Live_example : Live settings run "hash" st resolved
resolve-Live_example =
    resolve-Live hash_token settings run "hash" st
      (resolve hash_token settings run (some "hash") st).1 resolved resolves

revoke_sessions_by_user-resolve_example :
    (e : Failure) × ((resolve hash_token settings run
        (some "hash")
        (revoke_sessions_by_user "ana" none (λ s. false) 250 "logout_all" st)).0
      ≡ err e)
revoke_sessions_by_user-resolve_example =
    revoke_sessions_by_user-resolve hash_token settings run "hash" "ana" none (λ s. false) 250
      "logout_all" st refl

abbrev rotation : Rotation
rotation = record { raw_token = "new"; previous_token_hash = "hash" }

abbrev rotated_state : State
rotated_state = (rotate_for_manager hash_token "new" "s-ana" st).1

rotates : rotate_for_manager hash_token "new" "s-ana" st ≡ (ok rotation, rotated_state)
unfolding rotate_for_manager
rotates = refl

abbrev new_token : String
new_token = "new"

is_new : new_token ≢ "hash"
is_new = λ h. cc

rotate_for_manager-resolve_example :
    (e : Failure) × ((resolve hash_token settings run (some "hash") rotated_state).0 ≡ err e)
rotate_for_manager-resolve_example =
    rotate_for_manager-resolve hash_token settings run "hash" "new" "s-ana" st rotated_state
      rotation rotates refl is_new refl

-- Ana's second session, which Redis does not know and whose activity is written again
abbrev input : CreationInput
input = record {
  user_id = "ana";
  organization_id = some "org";
  membership_id = some "m-ana";
  mfa_verified_at = some 100;
  reauthenticated_at = some 200;
  requires_mfa = true;
}

abbrev second : AuthSession
second = new_session settings 200 "s-2" "second" input

abbrev second_state : State
second_state = (create_for_manager settings 200 "s-2" "second" input st).1

abbrev second_context : SessionContext
second_context = record ana { session_id = "s-2"; expires_at = 43200200 }

abbrev offline : Run
offline = record run {
  get_up = false;
  check = 70000;
  persist = 70000;
  authorize = 70000;
  authorized = 70000;
}

second-context :
    Access.resolve second_state.db 70000 70000 (touched 70000 second) ≡ ok second_context
unfolding authorizes create_for_manager
second-context = refl

create_for_manager-resolve_example :
    (st'' : State) × (resolve hash_token settings offline (some "second") second_state ≡ (
      ok (record {
        session = touched 70000 second;
        context = second_context;
        token_hash = "second";
        cache_hit = false;
      }),
      st'',
    ))
unfolding create_for_manager
create_for_manager-resolve_example =
    create_for_manager-resolve hash_token settings offline "second" "s-2" 200 input st
      second_context unused refl (omega arith) (omega arith) second-context

abbrev entry : Entry
entry = to_cache_entry ana_session ana 100

abbrev filled : List CacheRow
filled = (set settings [] true 300 "hash" entry).1

set-get_example :
    ((get filled true 9500 "hash").value
      ≡ (if ltb 9500 (300 + cache_ttl_seconds settings 300 entry * 1000) then some entry else none))
    × (((get filled true 9500 "hash").value ≡ none)
        ⊎ (9500 < 300 + 1000)
        ⊎ ((9500 < entry.expires_at + 1000)
            × (9500 < entry.last_activity_at + settings.idle_ttl_seconds * 1000 + 1000)
            × (9500 < 300 + settings.authorization_cache_ttl_seconds * 1000 + 1000)))
    × ((get filled true 9500 "new").value ≡ (get [] true 9500 "new").value)
set-get_example = set-get settings [] 300 9500 "hash" new_token entry is_new
