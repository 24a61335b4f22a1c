-- ===== src/Sat/Metadata.antt =====
-- modules/sat-download/metadata-parser.ts: the metadata of a request, a text of lines with fields
-- between tildes. A text is the list of its code points; the digest of a line (SHA-256) is an
-- argument.
pub mod Row
pub mod Reader
pub mod Laws
pub mod Bounds
use balanz.Prelude.{
  ℕ, zero, suc, ◌+◌, ◌*◌, ◌-◌, ◌%◌, String, Bool, true, false, not, ◌&&◌, ◌||◌, List, [], ◌∷◌, ◌++◌,
  Option, none, some, any, all, length, is_empty, same_codes, codes, leb, ltb, eqb, map,
  if◌then◌else◌,
}
use balanz.Sat.Contract.{Sat, done, sat_error, ◌>>=◌}

-- METADATA_HEADER
abbrev pub metadata_header : List String
metadata_header =
    "Uuid" ∷ "RfcEmisor" ∷ "NombreEmisor" ∷ "RfcReceptor" ∷ "NombreReceptor" ∷ "RfcPac"
    ∷ "FechaEmision" ∷ "FechaCertificacionSat" ∷ "Monto" ∷ "EfectoComprobante" ∷ "Estatus"
    ∷ "FechaCancelacion" ∷ []

-- METADATA_LIMITS
abbrev pub max_rows : ℕ
max_rows = 100000

abbrev pub max_line_bytes : ℕ
max_line_bytes = 8192

abbrev pub max_field_chars : ℕ
max_field_chars = 1024

pub data RowStatus : Type 0 where
  active cancelled : RowStatus

pub record MetadataRow : Type 0 where
  pub uuid : List ℕ
  pub issuer : List ℕ
  pub receiver : List ℕ
  pub issued_at : List ℕ
  pub certified_at : List ℕ
  pub total : List ℕ
  pub effect : List ℕ
  pub status : RowStatus
  pub cancelled_at : Option (List ℕ)
  pub sha256 : String

abbrev pub is_decimal : ℕ → Bool
is_decimal c = leb 48 c && leb c 57

abbrev pub is_upper : ℕ → Bool
is_upper c = leb 65 c && leb c 90

abbrev pub is_low : ℕ → Bool
is_low c = leb 97 c && leb c 122

-- A text of one character for each test, which it passes.
unfoldable pub matches_tests : List (ℕ → Bool) → List ℕ → Bool
matches_tests [] [] = true
matches_tests (t ∷ ts) (c ∷ cs) = t c && matches_tests ts cs
matches_tests _ _ = false

abbrev pub times : ℕ → (ℕ → Bool) → List (ℕ → Bool)
times zero t = []
times (suc n) t = t ∷ times n t

-- `[-0-9a-f]` without regard to case
abbrev pub is_uuid_char : ℕ → Bool
is_uuid_char c = eqb c 45 || is_decimal c || leb 97 c && leb c 102 || leb 65 c && leb c 70

-- `\w`
abbrev pub is_word_char : ℕ → Bool
is_word_char c = is_decimal c || is_upper c || is_low c || eqb c 95

-- the two patterns of an identifier
unfoldable pub is_uuid : List ℕ → Bool
is_uuid s =
    matches_tests (times 36 is_uuid_char) s
    && matches_tests
        (times 8 is_word_char
          ++ (eqb 45 ∷ times 4 is_word_char)
          ++ (eqb 45 ∷ times 4 is_word_char)
          ++ (eqb 45 ∷ times 4 is_word_char)
          ++ (eqb 45 ∷ times 12 is_word_char))
        s

-- `rfc`
unfoldable pub is_rfc : List ℕ → Bool
is_rfc s =
    let initial = λ (c : ℕ). is_upper c || eqb c 38 || eqb c 209 in
    let rest = times 6 is_decimal ++ times 3 (λ c. is_upper c || is_decimal c) in
    matches_tests (times 3 initial ++ rest) s || matches_tests (times 4 initial ++ rest) s

-- the text before the first of a character, and the text after it if it is there
unfoldable pub cut_at : ℕ → List ℕ → List ℕ × Option (List ℕ)
cut_at d [] = ([], none)
cut_at d (c ∷ cs) =
    if eqb c d then ([], some cs) else (let (before, after) = cut_at d cs in (c ∷ before, after))

-- `\d{1,18}(?:\.\d{1,6})?`
unfoldable pub is_amount : List ℕ → Bool
is_amount s =
    let (whole, fraction) = cut_at 46 s in
    (all is_decimal whole && leb 1 (length whole) && leb (length whole) 18) && elim fraction [
      | none ↦ true
      | some ds ↦ all is_decimal ds && leb 1 (length ds) && leb (length ds) 6
    ]

-- `split('~')`
unfoldable pub split_fields : List ℕ → List (List ℕ)
split_fields [] = [] ∷ []
split_fields (c ∷ cs) =
    let rest = split_fields cs in
    if eqb c 126 then [] ∷ rest else elim rest [ [] ↦ (c ∷ []) ∷ [] | ◌∷◌ f fs ↦ (c ∷ f) ∷ fs ]

-- `Buffer.byteLength`, in UTF-8
unfoldable pub byte_length : List ℕ → ℕ
byte_length [] = 0
byte_length (c ∷ cs) =
    (if ltb c 128 then 1 else if ltb c 2048 then 2 else if ltb c 65536 then 3 else 4)
    + byte_length cs
