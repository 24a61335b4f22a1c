-- ===== src/Sat/Metadata/Row.antt =====
-- date and parse (modules/sat-download/metadata-parser.ts): one line.
use balanz.Prelude.{
  ℕ, ◌+◌, ◌*◌, ◌-◌, ◌%◌, String, Bool, true, false, not, ◌&&◌, ◌||◌, List, [], ◌∷◌, ◌++◌, Option,
  none, some, any, is_empty, same_codes, codes, utf16_length, leb, ltb, eqb, map, if◌then◌else◌,
}
use balanz.Sat.Contract.{Sat, done, sat_error, ◌>>=◌}
use balanz.Sat.Metadata.{
  MetadataRow, RowStatus, metadata_header, max_rows, max_field_chars, is_decimal, matches_tests,
  times, is_uuid, is_rfc, is_amount, is_low, split_fields,
}

-- the value of decimal digits
abbrev pub number : List ℕ → ℕ
number = go 0
  where
    go : ℕ → List ℕ → ℕ
    go n [] = n
    go n (c ∷ cs) = go (n * 10 + (c - 48)) cs

abbrev is_leap : ℕ → Bool
is_leap year = eqb (year % 4) 0 && (not (eqb (year % 100) 0) || eqb (year % 400) 0)

abbrev days_in : ℕ → ℕ → ℕ
days_in year month =
    if eqb month 2
    then (if is_leap year then 29 else 28)
    else if eqb month 4 || eqb month 6 || eqb month 9 || eqb month 11
    then 30
    else 31

-- What `Date.parse` and `toISOString` give back unchanged: a day of the calendar and a time of it.
unfoldable pub is_instant : ℕ → ℕ → ℕ → ℕ → ℕ → ℕ → Bool
is_instant year month day hour minute second =
    (leb 1 month && leb month 12)
    && (leb 1 day && leb day (days_in year month))
    && (ltb hour 24 && ltb minute 60 && ltb second 60)

-- date
unfoldable pub date : List ℕ → Sat (List ℕ)
date
      (y1 ∷ y2 ∷ y3 ∷ y4 ∷ d1 ∷ m1 ∷ m2 ∷ d2 ∷ a1 ∷ a2 ∷ t ∷ h1 ∷ h2 ∷ c1 ∷ i1 ∷ i2 ∷ c2 ∷ s1 ∷ s2
        ∷ []) =
    if matches_tests
        (times 4 is_decimal
          ++ (eqb 45 ∷ times 2 is_decimal)
          ++ (eqb 45 ∷ times 2 is_decimal)
          ++ ((λ c. eqb c 84 || eqb c 32) ∷ times 2 is_decimal)
          ++ (eqb 58 ∷ times 2 is_decimal)
          ++ (eqb 58 ∷ times 2 is_decimal))
        (y1 ∷ y2 ∷ y3 ∷ y4 ∷ d1 ∷ m1 ∷ m2 ∷ d2 ∷ a1 ∷ a2 ∷ t ∷ h1 ∷ h2 ∷ c1 ∷ i1 ∷ i2 ∷ c2 ∷ s1 ∷ s2
          ∷ [])
      && is_instant (number (y1 ∷ y2 ∷ y3 ∷ y4 ∷ [])) (number (m1 ∷ m2 ∷ []))
          (number (a1 ∷ a2 ∷ [])) (number (h1 ∷ h2 ∷ [])) (number (i1 ∷ i2 ∷ []))
          (number (s1 ∷ s2 ∷ []))
    then done (
        y1 ∷ y2 ∷ y3 ∷ y4 ∷ d1 ∷ m1 ∷ m2 ∷ d2 ∷ a1 ∷ a2 ∷ 84 ∷ h1 ∷ h2 ∷ c1 ∷ i1 ∷ i2 ∷ c2 ∷ s1 ∷ s2
        ∷ [])
    else sat_error "SAT_METADATA_INVALID"
date _ = sat_error "SAT_METADATA_INVALID"

-- `toUpperCase` of the characters of an identifier
abbrev upper : ℕ → ℕ
upper c = if is_low c then c - 32 else c

-- `f[11] ? date(f[11]) : null`
abbrev optional_date : List ℕ → Sat (Option (List ℕ))
optional_date [] = done none
optional_date (c ∷ cs) = do d ← date (c ∷ cs); done (some d)

abbrev is_one_of : List String → List ℕ → Bool
is_one_of [] s = false
is_one_of (x ∷ xs) s = same_codes (codes x) s || is_one_of xs s

-- The fields of a line, checked and read in the order of the source.
unfoldable pub parse_fields : (List ℕ → String) → List ℕ → List (List ℕ) → Sat MetadataRow
parse_fields digest line
      (uuid ∷ issuer ∷ name ∷ receiver ∷ name' ∷ pac ∷ issued ∷ certified ∷ total ∷ effect ∷ status
        ∷ cancelled ∷ []) =
    if any (λ f. ltb max_field_chars (utf16_length f))
        (uuid ∷ issuer ∷ name ∷ receiver ∷ name' ∷ pac ∷ issued ∷ certified ∷ total ∷ effect
          ∷ status ∷ cancelled ∷ [])
      || not (is_uuid uuid)
      || not (is_rfc issuer)
      || not (is_rfc receiver)
      || not (is_amount total)
      || not (is_one_of ("I" ∷ "E" ∷ "T" ∷ "N" ∷ "P" ∷ []) effect)
      || not (is_one_of ("0" ∷ "1" ∷ []) status)
    then sat_error "SAT_METADATA_INVALID"
    else (do
      issued_at ← date issued
      certified_at ← date certified
      cancelled_at ← optional_date cancelled
      done (record {
        uuid = map upper uuid;
        issuer = issuer;
        receiver = receiver;
        issued_at = issued_at;
        certified_at = certified_at;
        total = total;
        effect = effect;
        status = if same_codes (codes "1") status then RowStatus.active else RowStatus.cancelled;
        cancelled_at = cancelled_at;
        sha256 = digest line;
      }))
parse_fields digest line _ = sat_error "SAT_METADATA_INVALID"

-- the variables of the parser: whether the header was read, and the number of rows
pub record Reader : Type 0 where
  pub header : Bool
  pub rows : ℕ

-- `METADATA_HEADER.join('~')`
abbrev joined_header : List String → List ℕ
joined_header [] = []
joined_header (x ∷ []) = codes x
joined_header (x ∷ xs) = codes x ++ 126 ∷ joined_header xs

-- `line.replace(/^\uFEFF/, '')`
abbrev without_mark : List ℕ → List ℕ
without_mark [] = []
without_mark (c ∷ cs) = if eqb c 65279 then cs else c ∷ cs

-- parse: the row, if the line has one, and the variables
unfoldable pub parse : (List ℕ → String) → Reader → List ℕ → Sat (Option MetadataRow × Reader)
parse digest r line =
    if not r.header
    then (if same_codes (without_mark line) (joined_header metadata_header)
        then done (none, record r { header = true })
        else sat_error "SAT_METADATA_HEADER_UNSUPPORTED")
    else if is_empty line
    then done (none, r)
    else if ltb max_rows (r.rows + 1)
    then sat_error "SAT_METADATA_LIMIT"
    else (do
      row ← parse_fields digest line (split_fields line)
      done (some row, record r { rows = r.rows + 1 }))
