-- ===== src/Sessions/Kept.antt =====
-- What the cache gives back of what it is given.
use balanz.Prelude.{
  ℕ, String, ◌+◌, ◌*◌, ◌<◌, ◌≡◌, ◌≢◌, ◌⊎◌, inl, inr, refl, arith, true, List, [], ◌∷◌, none, some,
  find, ltb, if◌then◌else◌, Bool-cases, eq_iff, eq_refl,
}
use balanz.Sessions.Cache.{Entry, CacheRow, Settings, is_live, get, without, cache_ttl_seconds, set}

-- The rows of other keys are found as before.
find-without :
    (token_hash other : String) (now : ℕ) (cache : List CacheRow)
    → other ≢ token_hash
    → find (is_live other now) (without token_hash cache) ≡ find (is_live other now) cache
find-without token_hash other now [] different = refl
find-without token_hash other now (row ∷ cache) different = ground (
  arith,
  eq_iff row.token_hash token_hash,
  eq_iff row.token_hash other,
  find-without token_hash other now cache different,
)

find-without_self :
    (token_hash : String) (now : ℕ) (cache : List CacheRow)
    → find (is_live token_hash now) (without token_hash cache) ≡ none
find-without_self token_hash now [] = refl
find-without_self token_hash now (row ∷ cache) =
    ground (arith, find-without_self token_hash now cache)

ttl_bounds :
    (settings : Settings) (now later : ℕ) (entry : Entry)
    → later < now + cache_ttl_seconds settings now entry * 1000
    → (later < now + 1000)
      ⊎ ((later < entry.expires_at + 1000)
          × (later < entry.last_activity_at + settings.idle_ttl_seconds * 1000 + 1000)
          × (later < now + settings.authorization_cache_ttl_seconds * 1000 + 1000))
unfolding cache_ttl_seconds
ttl_bounds settings now later entry h = ground arith

-- While Redis answers, what is read under the key of an entry that was set is the entry, until its
-- time to live ends and nothing after; at a time when something is read, it is within one second of
-- the setting, or less than one second after the session's end, after its idle time, and after the
-- time that an authorization is kept; and the other keys hold what they held.
pub set-get :
    (settings : Settings) (cache : List CacheRow) (now later : ℕ) (token_hash other : String)
    (entry : Entry)
    → other ≢ token_hash
    → let after = (set settings cache true now token_hash entry).1 in
      ((get after true later token_hash).value ≡ (
        if ltb later (now + cache_ttl_seconds settings now entry * 1000) then some entry else none))
      × (((get after true later token_hash).value ≡ none)
          ⊎ (later < now + 1000)
          ⊎ ((later < entry.expires_at + 1000)
              × (later < entry.last_activity_at + settings.idle_ttl_seconds * 1000 + 1000)
              × (later < now + settings.authorization_cache_ttl_seconds * 1000 + 1000)))
      × ((get after true later other).value ≡ (get cache true later other).value)
unfolding set get
set-get settings cache now later token_hash other entry different =
    let gone = find-without_self token_hash later cache in
    let kept = find-without token_hash other later cache different in
    elim (Bool-cases (ltb later (now + cache_ttl_seconds settings now entry * 1000))) [
      | inl live ↦ (
        ground (arith, eq_refl token_hash),
        inr (ttl_bounds settings now later entry (ground arith)),
        ground (arith, kept, eq_iff token_hash other),
      )
      | inr over ↦ (
        ground (arith, gone),
        inl (ground (arith, gone)),
        ground (arith, kept, eq_iff token_hash other),
      )
    ]
