-- ===== src/Sat/Metadata/Reader.antt =====
-- parseMetadata (modules/sat-download/metadata-parser.ts): the pieces are the texts that the decoder
-- of UTF-8 returns for the parts of the chunks; a text that it refuses ends the reading and is left
-- out. What the generator yields is a list, with what ends it.
use balanz.Prelude.{
  ℕ, String, Bool, false, List, [], ◌∷◌, ◌++◌, none, some, is_empty, ltb, eqb, if◌then◌else◌,
}
use balanz.Sat.Contract.{Sat, done, sat_error}
use balanz.Sat.Metadata.{MetadataRow, max_line_bytes, byte_length}
use balanz.Sat.Metadata.Row.{Reader, parse}

-- The rows that are yielded, and the result or the error after them.
pub record Yield {ℓ} (A : Type ℓ) : Type ℓ where
  pub rows : List MetadataRow
  pub end : Sat A

abbrev pub prepend {ℓ} : {A : Type ℓ} → List MetadataRow → Yield A → Yield A
prepend rows y = record { rows = rows ++ y.rows; end = y.end }

infixl 5 ◌>>=◌
abbrev pub ◌>>=◌ {κ ℓ} : {A : Type κ} {B : Type ℓ} → Yield A → (A → Yield B) → Yield B
y >>= next = elim y.end [
  | done a ↦ prepend y.rows (next a)
  | sat_error code ↦ record { rows = y.rows; end = sat_error code }
]

-- the lines that end, and the text after the last of them
unfoldable pub split_lines : List ℕ → List (List ℕ) × List ℕ
split_lines [] = ([], [])
split_lines (c ∷ cs) =
    let (lines, rest) = split_lines cs in
    if eqb c 10
    then ([] ∷ lines, rest)
    else elim lines [ [] ↦ ([], c ∷ rest) | ◌∷◌ line more ↦ ((c ∷ line) ∷ more, rest) ]

-- `replace(/\r$/, '')`
unfoldable pub without_return : List ℕ → List ℕ
without_return [] = []
without_return (c ∷ []) = if eqb c 13 then [] else c ∷ []
without_return (c ∷ d ∷ cs) = c ∷ without_return (d ∷ cs)

-- `const row = parse(line); if (row) yield row;`
unfoldable pub parse_line : (List ℕ → String) → Reader → List ℕ → Yield Reader
parse_line digest r line = elim (parse digest r line) [
  | sat_error code ↦ record { rows = []; end = sat_error code }
  | done (none, r') ↦ record { rows = []; end = done r' }
  | done (some row, r') ↦ record { rows = row ∷ []; end = done r' }
]

abbrev pub too_long : List ℕ → Bool
too_long line = ltb max_line_bytes (byte_length line)

abbrev pub refuse {ℓ} : {A : Type ℓ} → String → Yield A
refuse code = record { rows = []; end = sat_error code }

abbrev pub return {ℓ} : {A : Type ℓ} → A → Yield A
return a = record { rows = []; end = done a }

-- the inner loop, on the lines that end
unfoldable pub drain : (List ℕ → String) → Reader → List (List ℕ) → Yield Reader
drain digest r [] = return r
drain digest r (raw ∷ lines) =
    let line = without_return raw in
    if too_long line
    then refuse "SAT_METADATA_LIMIT"
    else parse_line digest r line >>= λ r'. drain digest r' lines

-- The end of the source: the text that is pending is a line.
unfoldable pub finish : (List ℕ → String) → Reader → List ℕ → Yield (Unit {0})
finish digest r pending =
    (if is_empty pending then return r else parse_line digest r (without_return pending)) >>= λ r'.
    if r'.header then return tt else refuse "SAT_METADATA_HEADER_UNSUPPORTED"

-- The loop over the pieces.
unfoldable pub read : (List ℕ → String) → Reader → List ℕ → List (List ℕ) → Yield (Unit {0})
read digest r pending [] = finish digest r pending
read digest r pending (piece ∷ pieces) =
    let (lines, rest) = split_lines (pending ++ piece) in
    drain digest r lines >>= λ r'.
    if too_long rest then refuse "SAT_METADATA_LIMIT" else read digest r' rest pieces

-- parseMetadata
unfoldable pub parse_metadata : (List ℕ → String) → List (List ℕ) → Yield (Unit {0})
parse_metadata digest pieces = read digest (record { header = false; rows = 0 }) [] pieces
