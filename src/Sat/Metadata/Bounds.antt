-- ===== src/Sat/Metadata/Bounds.antt =====
-- How many rows the reader yields, and what each of them satisfies.
use balanz.Prelude.{
  ℕ, ◌+◌, ◌≤◌, ◌≡◌, refl, inl, inr, arith, String, false, List, [], ◌∷◌, ◌++◌, length, is_empty,
  Bool-cases,
}
use balanz.Sat.Contract.{Sat, done, sat_error, Sat-cases}
use balanz.Sat.Metadata.{MetadataRow, max_rows, split_fields}
use balanz.Sat.Metadata.Row.{Reader, parse, parse_fields}
use balanz.Sat.Metadata.Reader.{
  Yield, ◌>>=◌, split_lines, parse_line, too_long, drain, finish, read, without_return,
  parse_metadata,
}

-- The rows that are yielded after a reader has counted some: with them the limit is kept, and the
-- next reader has counted them.
abbrev Counted : Reader → List MetadataRow → Sat Reader → Type 0
Counted r rows end =
    (length rows + r.rows ≤ max_rows)
    × ((r' : Reader) → end ≡ done r' → r'.rows ≡ length rows + r.rows)

parse_line-Counted :
    (digest : List ℕ → String) (r : Reader) (line : List ℕ)
    → r.rows ≤ max_rows
    → Counted r (parse_line digest r line).rows (parse_line digest r line).end
unfolding parse_line parse
parse_line-Counted digest r line h =
    elim (Sat-cases (parse_fields digest line (split_fields line))) [
      | inl (code, refused) ↦ (ground arith, λ r' e. ground arith)
      | inr (row, read) ↦ (ground arith, λ r' e. ground arith)
    ]

length-append : (xs ys : List MetadataRow) → length (xs ++ ys) ≡ length xs + length ys
length-append [] ys = omega arith
length-append (x ∷ xs) ys = omega (arith, length-append xs ys)

bind-bounded :
    {A : Type 0} (r : Reader) (rows : List MetadataRow) (end : Sat Reader) (f : Reader → Yield A)
    → Counted r rows end
    → ((r' : Reader) → r'.rows ≤ max_rows → length (f r').rows + r'.rows ≤ max_rows)
    → length ((record { rows = rows; end = end }) >>= f).rows + r.rows ≤ max_rows
bind-bounded r rows (sat_error code) f counted rest = counted.0
bind-bounded r rows (done r') f counted rest =
    omega (arith, length-append rows (f r').rows, counted.0, counted.1 r' refl, rest r')

bind-Counted :
    (r : Reader) (rows : List MetadataRow) (end : Sat Reader) (f : Reader → Yield Reader)
    → Counted r rows end
    → ((r' : Reader) → r'.rows ≤ max_rows → Counted r' (f r').rows (f r').end)
    → Counted r
        ((record { rows = rows; end = end }) >>= f).rows
        ((record { rows = rows; end = end }) >>= f).end
bind-Counted r rows (sat_error code) f counted rest = (counted.0, λ r' e. absurd (ground arith))
bind-Counted r rows (done r') f counted rest =
    let counts = counted.1 r' refl in
    let more = rest r' (omega (arith, counted.0, counts)) in
    (
      omega (arith, length-append rows (f r').rows, more.0, counts),
      λ r'' e. omega (arith, length-append rows (f r').rows, more.1 r'' e, counts),
    )

drain-Counted :
    (digest : List ℕ → String) (r : Reader) (lines : List (List ℕ))
    → r.rows ≤ max_rows
    → Counted r (drain digest r lines).rows (drain digest r lines).end
unfolding drain
drain-Counted digest r [] h = (omega arith, λ r' e. ground arith)
drain-Counted digest r (raw ∷ lines) h =
    let line = without_return raw in
    elim (Bool-cases (too_long line)) [
      | inl long ↦ rw long (omega arith, λ r' e. absurd (ground arith))
      | inr short ↦ rw short (
          bind-Counted r (parse_line digest r line).rows (parse_line digest r line).end
            (λ r'. drain digest r' lines) (parse_line-Counted digest r line h)
            (λ r' k. drain-Counted digest r' lines k))
    ]

finish_bounded :
    (digest : List ℕ → String) (r : Reader) (pending : List ℕ)
    → r.rows ≤ max_rows
    → length (finish digest r pending).rows + r.rows ≤ max_rows
unfolding finish
finish_bounded digest r pending h =
    let line = parse_line digest r (without_return pending) in
    elim (Bool-cases (is_empty pending)) [
      | inl empty ↦ ground arith
      | inr text ↦ rw text (
          bind-bounded r line.rows line.end _
            (parse_line-Counted digest r (without_return pending) h)
            (λ r' k. elim (Bool-cases r'.header) [ inl y ↦ ground arith | inr n ↦ ground arith ]))
    ]

read_bounded :
    (digest : List ℕ → String) (r : Reader) (pending : List ℕ) (pieces : List (List ℕ))
    → r.rows ≤ max_rows
    → length (read digest r pending pieces).rows + r.rows ≤ max_rows
unfolding read
read_bounded digest r pending [] h = finish_bounded digest r pending h
read_bounded digest r pending (piece ∷ pieces) h =
    let (lines, rest) = split_lines (pending ++ piece) in
    let whole = drain digest r lines in
    bind-bounded r whole.rows whole.end _ (drain-Counted digest r lines h) (λ r' k.
      elim (Bool-cases (too_long rest)) [
        | inl long ↦ rw long (omega arith)
        | inr short ↦ rw short (read_bounded digest r' rest pieces k)
      ])

-- Whatever it is given, the reader never yields more than 100000 rows.
pub parse_metadata_bounded :
    (digest : List ℕ → String) (pieces : List (List ℕ))
    → length (parse_metadata digest pieces).rows ≤ max_rows
unfolding parse_metadata
parse_metadata_bounded digest pieces =
    let start : Reader = record { header = false; rows = 0 } in
    omega (arith, read_bounded digest start [] pieces (omega arith))
