-- ===== src/Sat/Package/Tests.antt =====
-- A response with a package of four bytes, and the theorem at it.
use balanz.Prelude.{ℕ, ◌≡◌, ◌≤◌, refl, true, false, List, [], ◌∷◌, ◌++◌, same_codes}
use balanz.Sat.Contract.{done}
use balanz.Sat.Base64.{
  is_digit, digit_value, digit, encode, decode, is_quads, split_quads, write, finish, decode_texts,
}
use balanz.Sat.Package.{
  Event, State, new_state, Chunk, soap, sat, wrapper, soap_limit, is_allowed, check_status, enter,
  open_element, close_element, is_blank, handle, handle_all, read_parts, read_chunks, is_complete,
  decode_soap_package,
}
use balanz.Sat.Package.Laws.{package_texts, events_of, total_size, decode_soap_package-decode_texts}

abbrev bytes : List ℕ
bytes = 72 ∷ 105 ∷ 33 ∷ 255 ∷ []

-- The text of the package is cut between two chunks.
abbrev chunks : List Chunk
chunks =
    record {
      size = 300;
      parts =
          record {
            has_ampersand = false;
            events =
                Event.instruction "xml"
                ∷ Event.open_tag "Envelope" soap []
                ∷ Event.open_tag "Header" soap []
                ∷ Event.open_tag "respuesta" sat
                    (record { local = "CodEstatus"; uri = ""; value = "5000" } ∷ [])
                ∷ Event.close_tag
                ∷ Event.close_tag
                ∷ [];
          }
          ∷ record {
            has_ampersand = false;
            events =
                Event.text (10 ∷ [])
                ∷ Event.open_tag "Body" soap []
                ∷ Event.open_tag wrapper sat []
                ∷ Event.open_tag "Paquete" sat []
                ∷ Event.text (83 ∷ 71 ∷ 10 ∷ 107 ∷ [])
                ∷ [];
          }
          ∷ [];
    }
    ∷ record {
      size = 100;
      parts =
          record {
            has_ampersand = false;
            events =
                Event.text (104 ∷ 47 ∷ 119 ∷ 61 ∷ 61 ∷ []) ∷ Event.close_tag ∷ Event.close_tag ∷ [];
          }
          ∷ [];
    }
    ∷ []

abbrev last : List Event
last = Event.close_tag ∷ Event.close_tag ∷ []

decoded : decode_soap_package chunks last ≡ done bytes
unfolding is_digit digit_value digit encode decode is_quads split_quads write finish is_allowed
    check_status enter open_element close_element is_blank handle handle_all read_parts read_chunks
    decode_soap_package same_codes
decoded = refl

decode_soap_package-decode_texts_example :
    (decode_texts (package_texts [] (events_of chunks ++ last)) ≡ done bytes)
    × (total_size chunks ≤ soap_limit)
    × ((s : State) × (handle_all new_state (events_of chunks ++ last) ≡ done (bytes, s))
        × (is_complete s ≡ true))
decode_soap_package-decode_texts_example =
    decode_soap_package-decode_texts chunks last bytes decoded
