-- ===== src/Sat/Tests.antt =====
-- A package of four bytes in two texts with a line break, a metadata text in three pieces, and the
-- theorems at them.
use balanz.Prelude.{
  ℕ, same_codes, String, true, false, codes, ◌++◌, ◌≡◌, ◌<◌, ◌≤◌, refl, List, [], ◌∷◌, length, All,
  arith,
}
use balanz.Sat.Contract.{done, compressed_limit}
use balanz.Sat.Base64.{
  is_digit, digit_value, digit, encode, decode, is_quads, split_quads, write, finish, write_all,
  decode_texts,
}
use balanz.Sat.Base64.Digits.{IsByte}
use balanz.Sat.Base64.Laws.{joined, decode_texts-encode}
use balanz.Sat.Base64.Strict.{decode_texts_strict}
use balanz.Sat.Metadata.{
  byte_length, max_rows, is_uuid, is_rfc, is_amount, cut_at, split_fields, matches_tests,
}
use balanz.Sat.Metadata.Reader.{
  split_lines, parse_metadata, read, drain, parse_line, without_return,
}
use balanz.Sat.Metadata.Reader as Reader
use balanz.Sat.Metadata.Row.{parse, parse_fields, date, is_instant}
use balanz.Sat.Metadata.Laws.{concat, fits, read_whole, parse_metadata-read_whole}
use balanz.Sat.Metadata.Bounds.{parse_metadata_bounded}

abbrev bytes : List ℕ
bytes = 72 ∷ 105 ∷ 33 ∷ 255 ∷ []

-- SG⏎kh/w==
abbrev texts : List (List ℕ)
texts = (83 ∷ 71 ∷ 10 ∷ 107 ∷ []) ∷ (104 ∷ 47 ∷ 119 ∷ 61 ∷ 61 ∷ []) ∷ []

-- What the runs below compute with.
runs : Unit {0}
unfolding is_digit digit_value digit encode decode is_quads split_quads write finish write_all
    decode_texts joined
runs = tt

in_range : All IsByte bytes
in_range = (omega arith, (omega arith, (omega arith, (omega arith, tt))))

spelled : joined texts ≡ encode bytes
unfolding runs
spelled = refl

decode_texts-encode_example : decode_texts texts ≡ done bytes
decode_texts-encode_example =
    decode_texts-encode texts bytes in_range spelled (omega arith) (omega arith)

decoded : decode_texts texts ≡ done bytes
decoded = decode_texts-encode texts bytes in_range spelled (omega arith) (omega arith)

decode_texts_strict_example :
    (joined texts ≡ encode bytes) × (0 < length bytes) × (length bytes ≤ compressed_limit)
decode_texts_strict_example = decode_texts_strict texts bytes decoded

abbrev header : List ℕ
header =
    codes
      "Uuid~RfcEmisor~NombreEmisor~RfcReceptor~NombreReceptor~RfcPac~FechaEmision~FechaCertificacionSat~Monto~EfectoComprobante~Estatus~FechaCancelacion"

-- The header ends in a return and a new line; the row is cut within its fields.
abbrev pieces : List (List ℕ)
pieces =
    (header ++ 13 ∷ [])
    ∷ (10 ∷ codes "0a1b2c3d-0000-4000-8000-00000000ab")
    ∷ codes
        "cd~AAA010101AAA~Ana~XAXX010101000~Luz~SAT970701NN3~2024-02-29 10:00:00~2024-02-29T10:00:05~1234.50~I~1~"
    ∷ []

abbrev digest : List ℕ → String
digest line = "digest"

in_limit : fits (split_lines (concat pieces)) ≡ true
unfolding split_lines byte_length
in_limit = refl

parse_metadata-read_whole_example :
    parse_metadata digest pieces
    ≡ read_whole digest (record { header = false; rows = 0 }) (concat pieces)
parse_metadata-read_whole_example = parse_metadata-read_whole digest pieces in_limit

parse_metadata_bounded_example : length (parse_metadata digest pieces).rows ≤ max_rows
parse_metadata_bounded_example = parse_metadata_bounded digest pieces

yields_one_row : length (parse_metadata digest pieces).rows ≡ 1
unfolding runs same_codes split_lines byte_length parse_metadata read drain Reader.finish parse_line
    without_return parse parse_fields date is_instant is_uuid is_rfc is_amount cut_at split_fields
    matches_tests
yields_one_row = refl
