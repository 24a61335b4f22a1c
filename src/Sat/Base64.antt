-- ===== src/Sat/Base64.antt =====
-- modules/sat-download/soap-package-stream.ts: Base64Decoder, the strict decoder that keeps less
-- than four characters between its calls. A text is the list of its code units, a buffer the list
-- of its bytes; `Buffer.from(…, 'base64')` and `toString('base64')` are written out.

pub mod Digits
pub mod Quads
pub mod Laws
pub mod Written
pub mod Strict
use balanz.Prelude.{
  ℕ, ◌+◌, ◌*◌, ◌/◌, ◌%◌, Bool, true, false, not, ◌&&◌, ◌||◌, List, [], ◌∷◌, ◌++◌, any, filter,
  is_empty, same_codes, ◌-◌, length, leb, ltb, eqb, if◌then◌else◌,
}
use balanz.Sat.Contract.{Sat, done, sat_error, compressed_limit, ◌>>=◌}

-- `[\t\r\n ]`
abbrev pub is_space : ℕ → Bool
is_space c = eqb c 9 || eqb c 13 || eqb c 10 || eqb c 32

-- `[A-Za-z0-9+/]`
unfoldable pub is_digit : ℕ → Bool
is_digit c =
    leb 65 c && leb c 90 || leb 97 c && leb c 122 || leb 48 c && leb c 57 || eqb c 43 || eqb c 47

-- the value of a digit
unfoldable pub digit_value : ℕ → ℕ
digit_value c =
    if leb 97 c
    then c - 71
    else if leb 65 c
    then c - 65
    else if leb 48 c
    then c + 4
    else if eqb c 43
    then 62
    else 63

-- the digit of a value below 64
unfoldable pub digit : ℕ → ℕ
digit v =
    if ltb v 26
    then v + 65
    else if ltb v 52
    then v + 71
    else if ltb v 62
    then v - 4
    else if eqb v 62
    then 43
    else 47

-- `buffer.toString('base64')`
unfoldable pub encode : List ℕ → List ℕ
unfolding digit
encode [] = []
encode (x ∷ []) = digit (x / 4) ∷ digit (x % 4 * 16) ∷ 61 ∷ 61 ∷ []
encode (x ∷ y ∷ []) = digit (x / 4) ∷ digit (x % 4 * 16 + y / 16) ∷ digit (y % 16 * 4) ∷ 61 ∷ []
encode (x ∷ y ∷ z ∷ rest) =
    digit (x / 4)
    ∷ digit (x % 4 * 16 + y / 16)
    ∷ digit (y % 16 * 4 + z / 64)
    ∷ digit (z % 64)
    ∷ encode rest

-- `Buffer.from(text, 'base64')` of whole quads: the bits of each are cut into bytes, up to the
-- padding.
unfoldable pub decode : List ℕ → List ℕ
unfolding digit_value
decode (a ∷ b ∷ c ∷ d ∷ rest) =
    let x = digit_value a * 4 + digit_value b / 16 in
    let y = digit_value b % 16 * 16 + digit_value c / 4 in
    let z = digit_value c % 4 * 64 + digit_value d in
    if eqb c 61 then x ∷ [] else if eqb d 61 then x ∷ y ∷ [] else x ∷ y ∷ z ∷ decode rest
decode _ = []

-- the pattern of whole quads, the last of which may be padded
unfoldable pub is_quads : List ℕ → Bool
unfolding is_digit
is_quads [] = true
is_quads (a ∷ b ∷ c ∷ d ∷ rest) =
    is_digit a
    && is_digit b
    && (is_digit c && is_digit d && is_quads rest
        || is_empty rest && eqb d 61 && (is_digit c || eqb c 61))
is_quads _ = false

-- `text.slice(0, n)` and `text.slice(n)` where n is the length less its remainder by four
unfoldable pub split_quads : List ℕ → List ℕ × List ℕ
split_quads (a ∷ b ∷ c ∷ d ∷ rest) =
    let (whole, tail) = split_quads rest in (a ∷ b ∷ c ∷ d ∷ whole, tail)
split_quads tail = ([], tail)

-- The fields of the class.
pub record Decoder : Type 0 where
  pub tail : List ℕ
  pub ended : Bool
  pub bytes : ℕ

abbrev pub new_decoder : Decoder
new_decoder = record { tail = []; ended = false; bytes = 0 }

abbrev pub is_foreign : ℕ → Bool
is_foreign c = not (is_digit c || eqb c 61)

abbrev pub is_pad : ℕ → Bool
is_pad c = eqb c 61

-- write
unfoldable pub write : Decoder → List ℕ → Sat (List ℕ × Decoder)
unfolding encode decode is_quads split_quads
write s text =
    let clean = filter (λ c. not (is_space c)) text in
    let (complete, tail) = split_quads (s.tail ++ clean) in
    let decoded = decode complete in
    if any is_foreign clean || s.ended && not (is_empty clean)
    then sat_error "SAT_BASE64_INVALID"
    else if is_empty complete
    then done ([], record s { tail = tail })
    else if not (is_quads complete)
    then sat_error "SAT_BASE64_INVALID"
    else if not (same_codes (encode decoded) complete)
    then sat_error "SAT_BASE64_INVALID"
    else if any is_pad complete && not (is_empty tail)
    then sat_error "SAT_BASE64_INVALID"
    else if ltb compressed_limit (s.bytes + length decoded)
    then sat_error "SAT_PACKAGE_LIMIT"
    else done (
      decoded,
      record { tail = tail; ended = any is_pad complete; bytes = s.bytes + length decoded },
    )

-- finish
unfoldable pub finish : Decoder → Sat (Unit {0})
finish s =
    if not (is_empty s.tail) || eqb s.bytes 0 then sat_error "SAT_BASE64_INVALID" else done tt

-- The calls of a parser: each text is written, then the decoder is finished.
unfoldable pub write_all : Decoder → List (List ℕ) → Sat (List ℕ × Decoder)
write_all s [] = done ([], s)
write_all s (text ∷ texts) = do
  (out, s') ← write s text
  (outs, s'') ← write_all s' texts
  done (out ++ outs, s'')

unfoldable pub decode_texts : List (List ℕ) → Sat (List ℕ)
decode_texts texts = do (out, s) ← write_all new_decoder texts; _ ← finish s; done out
