-- ===== src/RateLimit/Laws.antt =====
-- How many attempts a window allows.
use Prim.Native.String.{◌++◌ as ◌<>◌}
use balanz.Prelude.{
  ℕ, String, ◌+◌, ◌-◌, ◌*◌, ◌≤◌, ◌<◌, ◌≡◌, refl, arith, Bool, true, false, List, [], ◌∷◌, ◌++◌,
  none, some, leb, ltb, length, all, eq_refl, find_holds, eq_iff, if◌then◌else◌, Option-cases,
  Bool-cases, and-split, ltb→lt, inl, inr, subst, sym,
}
use balanz.RateLimit.{
  RateLimitRow, is_row, find_row, new_row, ensure_row, save_row, attempt, consume_hashed, consume,
  consume_all,
}

abbrev pub least : ℕ → ℕ → ℕ
least a b = if leb a b then a else b

find-save_row :
    (scope key_hash : String) (rows : List RateLimitRow) (r r' : RateLimitRow)
    → find_row scope key_hash rows ≡ some r
    → r'.scope ≡ r.scope
    → r'.key_hash ≡ r.key_hash
    → find_row scope key_hash (save_row r' rows) ≡ some r'
unfolding find_row save_row
find-save_row scope key_hash [] r r' found same_scope same_key = ground arith
find-save_row scope key_hash (x ∷ rows) r r' found same_scope same_key = ground (
  arith,
  find-save_row scope key_hash rows r r',
  eq_iff x.scope scope,
  eq_iff x.key_hash key_hash,
  eq_iff r.scope scope,
  eq_iff r.key_hash key_hash,
  eq_iff r'.scope scope,
  eq_iff r'.key_hash key_hash,
  eq_iff x.scope r'.scope,
  eq_iff x.key_hash r'.key_hash,
  find_holds (is_row scope key_hash) rows {x = r},
)

find-append :
    (scope key_hash : String) (rows : List RateLimitRow) (now expires_at : ℕ)
    → find_row scope key_hash rows ≡ none
    → find_row scope key_hash (rows ++ new_row scope key_hash now expires_at ∷ [])
      ≡ some (new_row scope key_hash now expires_at)
unfolding find_row
find-append scope key_hash [] now expires_at missing =
    ground (arith, eq_refl scope, eq_refl key_hash)
find-append scope key_hash (x ∷ rows) now expires_at missing =
    ground (arith, find-append scope key_hash rows now expires_at)

-- Whether the key has a row whose window is open.
unfoldable pub window_open : List RateLimitRow → ℕ → String → String → Bool
window_open rows now scope key_hash = elim (find_row scope key_hash rows) [
  | none ↦ false
  | some r ↦ ltb now r.expires_at
]

-- An attempt within the window of its row.
consume_within :
    (rows : List RateLimitRow) (now : ℕ) (scope key_hash : String) (limit window_seconds : ℕ)
    (r : RateLimitRow)
    → find_row scope key_hash rows ≡ some r
    → now < r.expires_at
    → consume_hashed rows now scope key_hash limit window_seconds ≡ (
        if leb limit r.attempts
        then (false, rows)
        else (true, save_row (record r { attempts = r.attempts + 1 }) rows))
unfolding consume_hashed ensure_row attempt
consume_within rows now scope key_hash limit window_seconds r found within = ground (arith, found)

-- An attempt without a row, or at one whose window has ended.
consume_first :
    (rows : List RateLimitRow) (now : ℕ) (scope key_hash : String) (limit window_seconds : ℕ)
    → 1 ≤ limit
    → 0 < window_seconds
    → window_open rows now scope key_hash ≡ false
    → (r : RateLimitRow) × (rows' : List RateLimitRow) × (consume_hashed rows now scope key_hash
          limit window_seconds
        ≡ (true, rows'))
      × (find_row scope key_hash rows' ≡ some r)
      × (r.attempts ≡ 1)
      × (r.expires_at ≡ now + window_seconds * 1000)
unfolding consume_hashed ensure_row attempt window_open
consume_first rows now scope key_hash limit window_seconds some_limit some_window closed =
    elim (Option-cases (find_row scope key_hash rows)) [
      | inl missing ↦
          let fresh = new_row scope key_hash now (now + window_seconds * 1000) in
          let added = find-append scope key_hash rows now (now + window_seconds * 1000) missing in
          let r = record fresh { attempts = 1 } in
          let saved = find-save_row scope key_hash (rows ++ fresh ∷ []) fresh r added refl refl in
          (r, save_row r (rows ++ fresh ∷ []), ground arith, saved, refl, refl)
      | inr (old, found) ↦
          let r = record old {
            attempts = 1;
            window_started_at = now;
            expires_at = now + window_seconds * 1000;
          } in
          let saved = find-save_row scope key_hash rows old r found refl refl in
          (r, save_row r rows, ground arith, saved, refl, refl)
    ]

module _ (digest : String → String) (scope key : String) (limit window_seconds : ℕ) where
  abbrev hash : String
  hash = digest (scope <> ":" <> key)

  -- Within the window of a row each attempt is allowed until the limit is reached, and none after.
  consume_all_within :
      (rows : List RateLimitRow) (times : List ℕ) (r : RateLimitRow)
      → find_row scope hash rows ≡ some r
      → all (λ t. ltb t r.expires_at) times ≡ true
      → (consume_all digest rows times scope key limit window_seconds).0
        ≡ least (length times) (limit - r.attempts)
  unfolding consume_all consume
  consume_all_within rows [] r found within = ground arith
  consume_all_within rows (now ∷ times) r found within =
      let (early, rest) = and-split (ltb now r.expires_at) _ within in
      let here =
        consume_within rows now scope hash limit window_seconds r found (ltb→lt _ _ early) in
      let r' = record r { attempts = r.attempts + 1 } in
      let saved = find-save_row scope hash rows r r' found refl refl in
      elim (Bool-cases (leb limit r.attempts)) [
        | inl spent ↦ ground (arith, here, consume_all_within rows times r found rest)
        | inr left ↦ ground (arith, here, consume_all_within (save_row r' rows) times r' saved rest)
      ]

  -- From the first attempt of a key without an open window, until that window ends, exactly the
  -- first `limit` attempts are allowed, whatever their times.
  pub consume_all_window :
      (rows : List RateLimitRow) (now : ℕ) (times : List ℕ)
      → 1 ≤ limit
      → 0 < window_seconds
      → window_open rows now scope (digest (scope <> ":" <> key)) ≡ false
      → all (λ t. ltb t (now + window_seconds * 1000)) times ≡ true
      → (consume_all digest rows (now ∷ times) scope key limit window_seconds).0
        ≡ least (length (now ∷ times)) limit
  unfolding consume_all consume
  consume_all_window rows now times some_limit some_window closed within =
      let (r, rows', first, found, one, end) =
        consume_first rows now scope hash limit window_seconds some_limit some_window closed in
      ground (
        arith,
        consume_all_within rows' times r found
            (subst (λ e. all (λ t. ltb t e) times ≡ true) (sym end) within),
      )
