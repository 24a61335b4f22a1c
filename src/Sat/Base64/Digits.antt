-- ===== src/Sat/Base64/Digits.antt =====
-- The digits and the quads of base64.
use balanz.Prelude.{
  ℕ, ◌+◌, ◌*◌, ◌/◌, ◌%◌, ◌<◌, ◌≡◌, refl, arith, true, false, List, [], ◌∷◌, All, eqb,
}
use balanz.Sat.Base64.{is_digit, digit, digit_value, is_space, encode, decode, is_quads}

pub digit_value-digit : (v : ℕ) → v < 64 → digit_value (digit v) ≡ v
unfolding digit_value digit
digit_value-digit v h = ground arith

-- A digit is in the alphabet, and neither a pad nor a space.
pub is_digit-digit : (v : ℕ) → v < 64 → is_digit (digit v) ≡ true
unfolding is_digit digit
is_digit-digit v h = ground arith

pub digit_ne_pad : (v : ℕ) → v < 64 → eqb (digit v) 61 ≡ false
unfolding digit
digit_ne_pad v h = ground arith

pub is_space-digit : (v : ℕ) → v < 64 → is_space (digit v) ≡ false
unfolding digit
is_space-digit v h = ground arith

abbrev pub IsByte : ℕ → Type 0
IsByte x = x < 256

pub decode-encode : (xs : List ℕ) → All IsByte xs → decode (encode xs) ≡ xs
unfolding decode encode
decode-encode [] h = refl
decode-encode (x ∷ []) h = ground (arith, digit_value-digit (x / 4), digit_value-digit (x % 4 * 16))
decode-encode (x ∷ y ∷ []) h = ground (
  arith,
  digit_value-digit (x / 4),
  digit_value-digit (x % 4 * 16 + y / 16),
  digit_value-digit (y % 16 * 4),
  digit_ne_pad (y % 16 * 4),
)
decode-encode (x ∷ y ∷ z ∷ rest) h = ground (
  arith,
  digit_value-digit (x / 4),
  digit_value-digit (x % 4 * 16 + y / 16),
  digit_value-digit (y % 16 * 4 + z / 64),
  digit_value-digit (z % 64),
  digit_ne_pad (y % 16 * 4 + z / 64),
  digit_ne_pad (z % 64),
  decode-encode rest,
)

pub is_quads-encode : (xs : List ℕ) → All IsByte xs → is_quads (encode xs) ≡ true
unfolding is_quads encode
is_quads-encode [] h = refl
is_quads-encode (x ∷ []) h = ground (arith, is_digit-digit (x / 4), is_digit-digit (x % 4 * 16))
is_quads-encode (x ∷ y ∷ []) h = ground (
  arith,
  is_digit-digit (x / 4),
  is_digit-digit (x % 4 * 16 + y / 16),
  is_digit-digit (y % 16 * 4),
)
is_quads-encode (x ∷ y ∷ z ∷ rest) h = ground (
  arith,
  is_digit-digit (x / 4),
  is_digit-digit (x % 4 * 16 + y / 16),
  is_digit-digit (y % 16 * 4 + z / 64),
  is_digit-digit (z % 64),
  is_quads-encode rest,
)
