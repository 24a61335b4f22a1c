-- ===== src/RateLimit.antt =====
-- modules/auth/rate-limit.service.ts: AuthRateLimitService.consume, the attempts of a key within a
-- window. The digest of a key (SHA-256, by node:crypto) is a parameter.
pub mod Laws
mod Tests
use Prim.Native.String.{◌++◌ as ◌<>◌}
use balanz.Prelude.{
  ℕ, suc, String, ◌+◌, ◌*◌, Bool, true, false, ◌&&◌, List, [], ◌∷◌, ◌++◌, Option, none, some, leb,
  find, update_where, if◌then◌else◌, ◌==◌,
}

-- AuthRateLimit
pub record RateLimitRow : Type 0 where
  pub scope : String
  pub key_hash : String
  pub attempts : ℕ
  pub window_started_at : ℕ
  pub expires_at : ℕ

-- the unique key of the table
abbrev pub is_row : String → String → RateLimitRow → Bool
is_row scope key_hash r = r.scope == scope && r.key_hash == key_hash

unfoldable pub find_row : String → String → List RateLimitRow → Option RateLimitRow
find_row scope key_hash rows = find (is_row scope key_hash) rows

abbrev pub new_row : String → String → ℕ → ℕ → RateLimitRow
new_row scope key_hash now expires_at = record {
  scope = scope;
  key_hash = key_hash;
  attempts = 0;
  window_started_at = now;
  expires_at = expires_at;
}

-- `INSERT … ON CONFLICT DO NOTHING`
unfoldable pub ensure_row : String → String → ℕ → ℕ → List RateLimitRow → List RateLimitRow
ensure_row scope key_hash now expires_at rows = elim (find_row scope key_hash rows) [
  | none ↦ rows ++ new_row scope key_hash now expires_at ∷ []
  | some r ↦ rows
]

-- `repository.save(row)`
unfoldable pub save_row : RateLimitRow → List RateLimitRow → List RateLimitRow
save_row r rows = update_where (is_row r.scope r.key_hash) (λ _. r) rows

-- the row that an attempt writes, if it is allowed
unfoldable pub attempt : ℕ → ℕ → ℕ → RateLimitRow → Option RateLimitRow
attempt limit now expires_at r =
    if leb r.expires_at now
    then some (record r { attempts = 1; window_started_at = now; expires_at = expires_at })
    else if leb limit r.attempts
    then none
    else some (record r { attempts = r.attempts + 1 })

-- the transaction of consume, on the digest of the scope and the key
unfoldable pub consume_hashed :
    List RateLimitRow → ℕ → String → String → ℕ → ℕ → Bool × List RateLimitRow
consume_hashed rows now scope key_hash limit window_seconds =
    let expires_at = now + window_seconds * 1000 in
    let ensured = ensure_row scope key_hash now expires_at rows in
    elim (find_row scope key_hash ensured) [
      | none ↦ (false, ensured)
      | some r ↦ elim (attempt limit now expires_at r) [
        | none ↦ (false, ensured)
        | some r' ↦ (true, save_row r' ensured)
      ]
    ]

unfoldable pub consume :
    (String → String) → List RateLimitRow → ℕ → String → String → ℕ → ℕ → Bool × List RateLimitRow
consume digest rows now scope key limit window_seconds =
    consume_hashed rows now scope (digest (scope <> ":" <> key)) limit window_seconds

-- Consecutive attempts at the given times: how many were allowed, and the rows.
unfoldable pub consume_all :
    (String → String) → List RateLimitRow → List ℕ → String → String → ℕ → ℕ → ℕ × List RateLimitRow
consume_all digest rows [] scope key limit window_seconds = (0, rows)
consume_all digest rows (now ∷ times) scope key limit window_seconds =
    let (allowed, rows') = consume digest rows now scope key limit window_seconds in
    let (granted, rows'') = consume_all digest rows' times scope key limit window_seconds in
    ((if allowed then suc granted else granted), rows'')
