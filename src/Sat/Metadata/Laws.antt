-- ===== src/Sat/Metadata/Laws.antt =====
-- What the reader yields does not depend on how the text is cut into pieces.
use balanz.Prelude.{
  append_assoc, append-nil, ℕ, ◌≤◌, ◌≡◌, refl, sym, ap, subst, ◌∙◌, inl, inr, arith, String, Bool,
  true, false, not, ◌&&◌, List, [], ◌∷◌, ◌++◌, all, eqb, Bool-cases,
}
use balanz.Sat.Contract.{Sat, done, sat_error}
use balanz.Sat.Metadata.{MetadataRow, max_line_bytes, byte_length}
use balanz.Sat.Metadata.Row.{Reader}
use balanz.Sat.Metadata.Reader.{
  Yield, prepend, ◌>>=◌, split_lines, parse_line, too_long, drain, finish, read, without_return,
  parse_metadata,
}

abbrev pub concat : List (List ℕ) → List ℕ
concat [] = []
concat (piece ∷ pieces) = piece ++ concat pieces

-- The text read in one go: all its lines, then what is left.
abbrev pub read_whole : (List ℕ → String) → Reader → List ℕ → Yield (Unit {0})
read_whole digest r text =
    let (lines, rest) = split_lines text in drain digest r lines >>= λ r'. finish digest r' rest

abbrev yields : {A : Type 0} → List MetadataRow → Sat A → Yield A
yields rows end = record { rows = rows; end = end }

prepend-prepend :
    {A : Type 0} (xs ys : List MetadataRow) (y : Yield A)
    → prepend xs (prepend ys y) ≡ prepend (xs ++ ys) y
prepend-prepend xs ys y = ap (λ rows. yields rows y.end) (sym (append_assoc xs ys y.rows))

prepend-bind :
    {A B : Type 0} (rows more : List MetadataRow) (end : Sat A) (f : A → Yield B)
    → (prepend rows (yields more end) >>= f) ≡ prepend rows (yields more end >>= f)
prepend-bind rows more (sat_error code) f = refl
prepend-bind rows more (done a) f = sym (prepend-prepend rows more (f a))

bind_assoc :
    {A B C : Type 0} (rows : List MetadataRow) (end : Sat A) (f : A → Yield B) (g : B → Yield C)
    → ((yields rows end >>= f) >>= g) ≡ (yields rows end >>= λ a. f a >>= g)
bind_assoc rows (sat_error code) f g = refl
bind_assoc rows (done a) f g = prepend-bind rows (f a).rows (f a).end g

bind_ext :
    {A B : Type 0} (rows : List MetadataRow) (end : Sat A) (f g : A → Yield B)
    → ((a : A) → f a ≡ g a)
    → (yields rows end >>= f) ≡ (yields rows end >>= g)
bind_ext rows (sat_error code) f g same = refl
bind_ext rows (done a) f g same = ap (prepend rows) (same a)

drain-append :
    (digest : List ℕ → String) (r : Reader) (lines more : List (List ℕ))
    → drain digest r (lines ++ more) ≡ (drain digest r lines >>= λ r'. drain digest r' more)
unfolding drain
drain-append digest r [] more = refl
drain-append digest r (raw ∷ lines) more =
    let line = without_return raw in
    elim (Bool-cases (too_long line)) [
      | inl long ↦ rw long refl
      | inr short ↦
          let first = parse_line digest r line in
          rw short (
            bind_ext first.rows first.end _ _ (λ r'. drain-append digest r' lines more)
            ∙ sym (
                bind_assoc first.rows first.end (λ r'. drain digest r' lines)
                  (λ r'. drain digest r' more)))
    ]

split_lines-append :
    (a b : List ℕ)
    → split_lines (a ++ b) ≡ (
      (split_lines a).0 ++ (split_lines ((split_lines a).1 ++ b)).0,
      (split_lines ((split_lines a).1 ++ b)).1,
    )
unfolding split_lines
split_lines-append [] b = refl
split_lines-append (c ∷ cs) b = elim (Bool-cases (eqb c 10)) [
  | inl ends ↦ ground (arith, split_lines-append cs b)
  | inr inside ↦ ground (arith, split_lines-append cs b)
]

split_lines-rest : (a : List ℕ) → split_lines (split_lines a).1 ≡ ([], (split_lines a).1)
unfolding split_lines
split_lines-rest [] = refl
split_lines-rest (c ∷ cs) = ground (arith, split_lines-rest cs)

abbrev first : List (List ℕ) × List ℕ → List ℕ
first ([], rest) = rest
first (line ∷ lines, rest) = line

pending_prefix :
    (a b : List ℕ)
    → split_lines a ≡ ([], a)
    → byte_length a ≤ byte_length (first (split_lines (a ++ b)))
unfolding split_lines byte_length
pending_prefix [] b h = omega arith
pending_prefix (c ∷ cs) b h = ground (arith, pending_prefix cs b)

-- No raw line of a text is above the limit, nor is what is left after the last one.
abbrev pub fits : List (List ℕ) × List ℕ → Bool
fits (lines, rest) = all (λ line. not (too_long line)) lines && not (too_long rest)

fits-first :
    (lines : List (List ℕ)) (rest : List ℕ)
    → fits (lines, rest) ≡ true
    → byte_length (first (lines, rest)) ≤ max_line_bytes
fits-first [] rest h = ground arith
fits-first (line ∷ lines) rest h = ground arith

fits-append :
    (lines more : List (List ℕ)) (rest : List ℕ)
    → fits (lines ++ more, rest) ≡ true
    → fits (more, rest) ≡ true
fits-append [] more rest h = h
fits-append (line ∷ lines) more rest h = ground (arith, fits-append lines more rest)

-- Reading whole, in two parts.
read_whole-append :
    (digest : List ℕ → String) (r : Reader) (a b : List ℕ)
    → read_whole digest r (a ++ b)
      ≡ (drain digest r (split_lines a).0 >>= λ r'. read_whole digest r' ((split_lines a).1 ++ b))
read_whole-append digest r a b =
    let (lines, rest) = split_lines a in
    let (more, last) = split_lines (rest ++ b) in
    let whole = drain digest r lines in
    ap (λ (s : List (List ℕ) × List ℕ). drain digest r s.0 >>= λ r'. finish digest r' s.1)
      (split_lines-append a b)
    ∙ ap (λ (y : Yield Reader). y >>= λ r'. finish digest r' last)
        (drain-append digest r lines more)
    ∙ bind_assoc whole.rows whole.end (λ r'. drain digest r' more) (λ r'. finish digest r' last)

read-read_whole :
    (digest : List ℕ → String) (r : Reader) (pending : List ℕ) (pieces : List (List ℕ))
    → split_lines pending ≡ ([], pending)
    → fits (split_lines (pending ++ concat pieces)) ≡ true
    → read digest r pending pieces ≡ read_whole digest r (pending ++ concat pieces)
unfolding read drain
read-read_whole digest r pending [] single small = rw (append-nil pending, single) refl
read-read_whole digest r pending (piece ∷ pieces) single small =
    let a = pending ++ piece in
    let (lines, rest) = split_lines a in
    let text = append_assoc pending piece (concat pieces) in
    let small' = subst (λ t. fits (split_lines t) ≡ true) (sym text) small in
    let small'' =
      fits-append lines (split_lines (rest ++ concat pieces)).0
        (split_lines (rest ++ concat pieces)).1
        (subst (λ t. fits t ≡ true) (split_lines-append a (concat pieces)) small') in
    let single' = split_lines-rest a in
    let short : too_long rest ≡ false = ground (
      arith,
      pending_prefix rest (concat pieces) single',
      fits-first (split_lines (rest ++ concat pieces)).0 (split_lines (rest ++ concat pieces)).1
          small'',
    ) in
    let whole = drain digest r lines in
    bind_ext whole.rows whole.end _ (λ r'. read_whole digest r' (rest ++ concat pieces))
      (λ r'. rw short (read-read_whole digest r' rest pieces single' small''))
    ∙ sym (read_whole-append digest r a (concat pieces))
    ∙ ap (read_whole digest r) text

-- If no line of the text, with its return, is above 8192 bytes, the reader yields the rows of the
-- whole text and ends as it does, however the text is cut into pieces.
pub parse_metadata-read_whole :
    (digest : List ℕ → String) (pieces : List (List ℕ))
    → fits (split_lines (concat pieces)) ≡ true
    → parse_metadata digest pieces
      ≡ read_whole digest (record { header = false; rows = 0 }) (concat pieces)
unfolding parse_metadata split_lines
parse_metadata-read_whole digest pieces small =
    read-read_whole digest (record { header = false; rows = 0 }) [] pieces refl small
