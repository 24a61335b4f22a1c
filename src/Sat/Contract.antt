-- ===== src/Sat/Contract.antt =====
-- modules/sat-download/sat-contract.ts: the limits of a package, the errors, and the reading of a
-- verification.
use balanz.Prelude.{
  ◌≡◌, refl, ◌⊎◌, inl, inr, ℕ, String, ◌*◌, Bool, true, false, not, ◌||◌, List, [], ◌∷◌, ltb, eqb,
  is_empty, includes, if◌then◌else◌, ◌==◌,
}

-- SAT_PACKAGE_LIMITS.compressed
abbrev pub compressed_limit : ℕ
compressed_limit = 50 * 1024 * 1024

-- SatError, by its code
pub data Sat {ℓ} (A : Type ℓ) : Type ℓ where
  done : A → Sat A
  sat_error : String → Sat A

infixl 5 ◌>>=◌
abbrev pub ◌>>=◌ {ℓ κ} : {A : Type ℓ} {B : Type κ} → Sat A → (A → Sat B) → Sat B
m >>= next = elim m [ done value ↦ next value | sat_error code ↦ sat_error code ]

-- A JavaScript number: an integer, by its sign, or none.
pub data Number : Type 0 where
  natural negated : ℕ → Number
  other : Number

pub record Verification : Type 0 where
  pub code : String
  pub state : Number
  pub request_code : String
  pub count : Number
  pub packages : List String

pub data Reading : Type 0 where
  waiting packages empty failed contradictory : Reading

-- `!Number.isSafeInteger(count) || count < 0`; the negation of zero is zero.
abbrev pub is_bad_count : Number → Bool
is_bad_count (Number.natural n) = not (ltb n 9007199254740992)
is_bad_count (Number.negated n) = not (eqb n 0)
is_bad_count Number.other = true

abbrev pub is_zero : Number → Bool
is_zero (Number.natural n) = eqb n 0
is_zero (Number.negated n) = eqb n 0
is_zero Number.other = false

-- `state === n` for a positive n
abbrev pub is_state : ℕ → Number → Bool
is_state n (Number.natural m) = eqb m n
is_state n _ = false

-- `new Set(texts).size !== texts.length`
abbrev pub has_repetition : List String → Bool
has_repetition [] = false
has_repetition (s ∷ ss) = includes ss s || has_repetition ss

-- classifyVerification
unfoldable pub classify_verification : Verification → Reading
classify_verification v =
    if not (v.code == "5000")
    then failed
    else if is_bad_count v.count || has_repetition v.packages
    then contradictory
    else if is_state 1 v.state || is_state 2 v.state
    then (if is_empty v.packages then waiting else contradictory)
    else if not (is_state 3 v.state)
    then (if is_state 4 v.state || is_state 5 v.state || is_state 6 v.state
        then failed
        else contradictory)
    else if not (v.request_code == "5000")
    then contradictory
    else if not (is_empty v.packages)
    then (if is_zero v.count then contradictory else packages)
    else (if is_zero v.count then empty else contradictory)

pub Sat-cases {ℓ} :
    {A : Type ℓ} (r : Sat A) → ((code : String) × (r ≡ sat_error code)) ⊎ ((a : A) × (r ≡ done a))
Sat-cases (sat_error code) = inl (code, refl)
Sat-cases (done a) = inr (a, refl)
