-- ===== src/Ingestion/Retry/Backoff.antt =====
-- The delays of the locked policy.
use balanz.Prelude.{
  ℕ, zero, suc, ◌+◌, ◌≤◌, ◌≡◌, refl, sym, ap, subst, arith, true, List, [], ◌∷◌, some, length,
}
use balanz.Ingestion.Policy.{Policy, is_locked, is_backoff}
use balanz.Ingestion.Retry.{backoff, delay_seconds, array_element, least}

-- the base delay before the next attempt, by the retries that were already granted
abbrev pub base_delay : ℕ → ℕ
base_delay zero = 10
base_delay (suc zero) = 30
base_delay (suc (suc _)) = 120

is_backoff-eq : (delays : List ℕ) → is_backoff delays ≡ true → delays ≡ 10 ∷ 30 ∷ 120 ∷ []
is_backoff-eq [] h = cc
is_backoff-eq (a ∷ []) h = cc
is_backoff-eq (a ∷ b ∷ []) h = cc
is_backoff-eq (a ∷ b ∷ c ∷ []) h = ground arith
is_backoff-eq (a ∷ b ∷ c ∷ d ∷ delays) h = cc

pub locked-backoff_seconds :
    (policy : Policy)
    → is_locked policy ≡ true
    → (policy.backoff_seconds ≡ 10 ∷ 30 ∷ 120 ∷ []) × (policy.max_retries ≡ 3)
locked-backoff_seconds policy h = ground (arith, is_backoff-eq policy.backoff_seconds)

least_ge : (a b : ℕ) → b ≤ a → least a b ≡ b
least_ge a b h = ground arith

element-base_delay :
    (retries : ℕ)
    → array_element (10 ∷ 30 ∷ 120 ∷ []) (least (retries + 1) 3) ≡ some (base_delay retries)
element-base_delay zero = refl
element-base_delay (suc zero) = refl
element-base_delay (suc (suc retries)) =
    ap (array_element (10 ∷ 30 ∷ 120 ∷ [])) (least_ge (suc (suc retries) + 1) 3 (omega arith))

-- Under the locked policy there is a delay for each number of retries, of 10, 30 or 120 seconds
-- with the jitter.
pub backoff-base_delay :
    (policy : Policy) (retries draw range : ℕ)
    → is_locked policy ≡ true
    → backoff policy retries draw range
      ≡ some (delay_seconds (base_delay retries) policy.backoff_jitter_percent draw range)
unfolding backoff
backoff-base_delay policy retries draw range locked =
    let element : array_element policy.backoff_seconds
          (least (retries + 1) (length policy.backoff_seconds))
        ≡ some (base_delay retries) =
      subst (λ d. array_element d (least (retries + 1) (length d)) ≡ some (base_delay retries))
        (sym (locked-backoff_seconds policy locked).0) (element-base_delay retries) in
    rw (element, backoff) refl
