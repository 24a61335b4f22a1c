-- ===== src/RateLimit/Tests.antt =====
-- Five attempts at a key that allows three in a window of one second.
use balanz.Prelude.{false, ◌≡◌, refl, arith, List, [], ◌∷◌}
use balanz.RateLimit.{RateLimitRow, find_row, consume_all}
use balanz.RateLimit.Laws.{window_open, consume_all_window}

-- another key's attempt, and an old one of this key, whose window has ended
abbrev rows : List RateLimitRow
rows =
    record {
      scope = "login";
      key_hash = "login:ben";
      attempts = 3;
      window_started_at = 4000;
      expires_at = 9000;
    }
    ∷ record {
      scope = "login";
      key_hash = "login:ana";
      attempts = 3;
      window_started_at = 100;
      expires_at = 1100;
    }
    ∷ []

closed-window_open : window_open rows 5000 "login" "login:ana" ≡ false
unfolding window_open find_row
closed-window_open = refl

consume_all_window_example :
    (consume_all (λ text. text) rows (5000 ∷ 5001 ∷ 5002 ∷ 5003 ∷ 5999 ∷ []) "login" "ana" 3 1).0
    ≡ 3
consume_all_window_example =
    consume_all_window (λ text. text) "login" "ana" 3 1 rows 5000 (5001 ∷ 5002 ∷ 5003 ∷ 5999 ∷ [])
      (omega arith) (omega arith) closed-window_open refl
