-- ===== src/Sat/Package/Laws.antt =====
-- The bytes of a package are the decoding of the texts in its element.
use balanz.Prelude.{
  append_assoc, ℕ, ◌+◌, ◌≤◌, ◌≡◌, refl, subst, inl, inr, arith, String, Bool, true, false, not,
  ◌||◌, ◌==◌, List, [], ◌∷◌, ◌++◌, is_some_of, if◌then◌else◌, Bool-cases,
}
use balanz.Sat.Contract.{Sat, done, sat_error, Sat-cases, ◌>>=◌}
use balanz.Sat.Base64.{write, finish, write_all, decode_texts}
use balanz.Sat.Package.{
  Attribute, check_status, wrapper, fail, Event, State, new_state, Part, Chunk, handle, handle_all,
  read_parts, read_chunks, is_complete, decode_soap_package, last_name, without_last, open_element,
  enter, close_element, soap_limit,
}

-- The texts whose innermost element is `Paquete`, by the open elements alone.
unfoldable pub package_texts : List String → List Event → List (List ℕ)
package_texts stack [] = []
package_texts stack (Event.open_tag local uri attributes ∷ events) =
    package_texts (stack ++ local ∷ []) events
package_texts stack (Event.close_tag ∷ events) = package_texts (without_last stack) events
package_texts stack (Event.text t ∷ events) =
    let rest = package_texts stack events in
    if is_some_of (last_name stack) "Paquete" then t ∷ rest else rest
package_texts stack (_ ∷ events) = package_texts stack events

abbrev pub events_of_parts : List Part → List Event
events_of_parts [] = []
events_of_parts (part ∷ parts) = part.events ++ events_of_parts parts

abbrev pub events_of : List Chunk → List Event
events_of [] = []
events_of (chunk ∷ chunks) = events_of_parts chunk.parts ++ events_of chunks

abbrev pub total_size : List Chunk → ℕ
total_size [] = 0
total_size (chunk ∷ chunks) = chunk.size + total_size chunks

handle_all-append :
    (s s' s'' : State) (events more : List Event) (out outs : List ℕ)
    → handle_all s events ≡ done (out, s')
    → handle_all s' more ≡ done (outs, s'')
    → handle_all s (events ++ more) ≡ done (out ++ outs, s'')
unfolding handle_all
handle_all-append s s' s'' [] more out outs h k = ground arith
handle_all-append s s' s'' (event ∷ events) more out outs h k = elim (Sat-cases (handle s event)) [
  | inl (code, failed) ↦ absurd (ground arith)
  | inr ((o, t), first) ↦ elim (Sat-cases (handle_all t events)) [
    | inl (code, failed) ↦ absurd (ground arith)
    | inr ((os, t'), rest) ↦
        let tail = handle_all-append t s' s'' events more os outs (ground arith) k in
        ground (arith, tail, append_assoc o os outs)
  ]
]

read_parts-handle_all :
    (s s' : State) (parts : List Part) (out : List ℕ)
    → read_parts s parts ≡ done (out, s')
    → handle_all s (events_of_parts parts) ≡ done (out, s')
unfolding read_parts handle_all
read_parts-handle_all s s' [] out h = h
read_parts-handle_all s s' (part ∷ parts) out h = elim (Sat-cases (handle_all s part.events)) [
  | inl (code, failed) ↦ absurd (ground arith)
  | inr ((o, t), first) ↦ elim (Sat-cases (read_parts t parts)) [
    | inl (code, failed) ↦ absurd (ground arith)
    | inr ((os, t'), rest) ↦
        let tail =
          handle_all-append s t t' part.events (events_of_parts parts) o os first
            (read_parts-handle_all t t' parts os rest) in
        ground (arith, tail)
  ]
]

read_chunks-handle_all :
    (bytes : ℕ) (s s' : State) (chunks : List Chunk) (out : List ℕ)
    → bytes ≤ soap_limit
    → read_chunks bytes s chunks ≡ done (out, s')
    → (handle_all s (events_of chunks) ≡ done (out, s')) × (bytes + total_size chunks ≤ soap_limit)
unfolding read_chunks handle_all
read_chunks-handle_all bytes s s' [] out small h = (h, omega arith)
read_chunks-handle_all bytes s s' (chunk ∷ chunks) out small h =
    elim (Sat-cases (read_parts s chunk.parts)) [
      | inl (code, failed) ↦ absurd (ground arith)
      | inr ((o, t), first) ↦ elim (Sat-cases (read_chunks (bytes + chunk.size) t chunks)) [
        | inl (code, failed) ↦ absurd (ground arith)
        | inr ((os, t'), rest) ↦
            let (tail, size) =
              read_chunks-handle_all (bytes + chunk.size) t t' chunks os (ground arith) rest in
            let all =
              handle_all-append s t t' (events_of_parts chunk.parts) (events_of chunks) o os
                (read_parts-handle_all s t chunk.parts o first) tail in
            (ground (arith, all), ground (arith, size))
      ]
    ]

-- A success keeps the decoder.
abbrev Keeps : State → Sat State → Type 0
Keeps s result = (s' : State) → result ≡ done s' → s'.base64 ≡ s.base64

if-Keeps :
    (s : State) (b : Bool) (r t : Sat State) → Keeps s r → Keeps s t → Keeps s (if b then r else t)
if-Keeps s true r t first second = first
if-Keeps s false r t first second = second

fail-Keeps : (s : State) (code : String) → Keeps s (sat_error code)
fail-Keeps s code s' h = absurd (ground arith)

done-Keeps : (s t : State) → t.base64 ≡ s.base64 → Keeps s (done t)
done-Keeps s t same s' h = ground (arith, same)

check_status-Keeps :
    (s t : State) (status : Sat (Unit {0})) → t.base64 ≡ s.base64 → Keeps s (status >>= λ _. done t)
check_status-Keeps s t (sat_error code) same = fail-Keeps s code
check_status-Keeps s t (done unit) same = done-Keeps s t same

enter-base64 :
    (s s' : State) (local : String) (attributes : List Attribute)
    → enter s local attributes ≡ done s'
    → s'.base64 ≡ s.base64
unfolding enter
enter-base64 s s' local attributes =
    let refused = fail-Keeps s "SAT_SOAP_INVALID" in
    if-Keeps s (local == "Envelope") _ _
      (if-Keeps s s.envelope_seen fail _ refused
        (done-Keeps s (record s { envelope_seen = true }) refl))
      (if-Keeps s (local == "Header") _ _
        (if-Keeps s (s.header_seen || s.body_seen) fail _ refused
          (done-Keeps s (record s { header_seen = true }) refl))
        (if-Keeps s (local == "Body") _ _
          (if-Keeps s (s.body_seen || not s.header_seen || not s.response_seen) fail _ refused
            (done-Keeps s (record s { body_seen = true }) refl))
          (if-Keeps s (local == wrapper) _ _
            (if-Keeps s s.wrapper_seen fail _ refused
              (done-Keeps s (record s { wrapper_seen = true }) refl))
            (if-Keeps s (local == "respuesta") _ _
              (if-Keeps s s.response_seen fail _ refused (
                check_status-Keeps s (record s { response_seen = true }) (check_status attributes)
                  refl))
              (if-Keeps s (local == "Paquete") _ _
                (if-Keeps s s.package_seen fail _ refused
                  (done-Keeps s (record s { package_seen = true }) refl))
                (done-Keeps s s refl))))))
      s'

open_element_lem :
    (s s' : State) (local uri : String) (attributes : List Attribute)
    → open_element s local uri attributes ≡ done s'
    → (s'.base64 ≡ s.base64) × (s'.stack ≡ s.stack ++ local ∷ [])
unfolding open_element
open_element_lem s s' local uri attributes h = elim (Sat-cases (enter s local attributes)) [
  | inl (code, refused) ↦ absurd (ground arith)
  | inr (t, entered) ↦
      let same = enter-base64 s t local attributes entered in (ground (arith, same), ground arith)
]

handle_all-write_all :
    (s s' : State) (events : List Event) (out : List ℕ)
    → handle_all s events ≡ done (out, s')
    → write_all s.base64 (package_texts s.stack events) ≡ done (out, s'.base64)
unfolding handle_all write_all package_texts handle close_element
handle_all-write_all s s' [] out h = ground arith
handle_all-write_all s s' (Event.error ∷ events) out h = absurd (ground arith)
handle_all-write_all s s' (Event.doctype ∷ events) out h = absurd (ground arith)
handle_all-write_all s s' (Event.cdata ∷ events) out h = absurd (ground arith)
handle_all-write_all s s' (Event.instruction name ∷ events) out h =
    elim (Sat-cases (handle_all s events)) [
      | inl (code, failed) ↦ absurd (ground arith)
      | inr ((o, t), rest) ↦ ground (arith, handle_all-write_all s t events o rest)
    ]
handle_all-write_all s s' (Event.open_tag local uri attributes ∷ events) out h =
    elim (Sat-cases (open_element s local uri attributes)) [
      | inl (code, refused) ↦ absurd (ground arith)
      | inr (t, opened) ↦ elim (Sat-cases (handle_all t events)) [
        | inl (code, failed) ↦ absurd (ground arith)
        | inr ((o, u), rest) ↦
            let (same, stack) = open_element_lem s t local uri attributes opened in
            ground (arith, same, stack, handle_all-write_all t u events o rest)
      ]
    ]
handle_all-write_all s s' (Event.close_tag ∷ events) out h =
    let t = close_element s in
    elim (Sat-cases (handle_all t events)) [
      | inl (code, failed) ↦ absurd (ground arith)
      | inr ((o, u), rest) ↦ ground (arith, handle_all-write_all t u events o rest)
    ]
handle_all-write_all s s' (Event.text x ∷ events) out h =
    elim (Bool-cases (is_some_of (last_name s.stack) "Paquete")) [
      | inl inside ↦ elim (Sat-cases (write s.base64 x)) [
        | inl (code, refused) ↦ absurd (ground arith)
        | inr ((o, base64), written) ↦
            let t = record s { base64 = base64 } in
            elim (Sat-cases (handle_all t events)) [
              | inl (code, failed) ↦ absurd (ground arith)
              | inr ((os, u), rest) ↦ ground (arith, handle_all-write_all t u events os rest)
            ]
      ]
      | inr outside ↦ elim (Sat-cases (handle_all s events)) [
        | inl (code, failed) ↦ absurd (ground arith)
        | inr ((o, u), rest) ↦ ground (arith, handle_all-write_all s u events o rest)
      ]
    ]

-- If the package is read to its end, the source was within its limit, every element was there and
-- closed, and the bytes are what the decoder returns for the texts in the element of the package.
pub decode_soap_package-decode_texts :
    (chunks : List Chunk) (last : List Event) (bytes : List ℕ)
    → decode_soap_package chunks last ≡ done bytes
    → (decode_texts (package_texts [] (events_of chunks ++ last)) ≡ done bytes)
      × (total_size chunks ≤ soap_limit)
      × ((s : State) × (handle_all new_state (events_of chunks ++ last) ≡ done (bytes, s))
          × (is_complete s ≡ true))
unfolding decode_soap_package decode_texts
decode_soap_package-decode_texts chunks last bytes h =
    elim (Sat-cases (read_chunks 0 new_state chunks)) [
      | inl (code, failed) ↦ absurd (ground arith)
      | inr ((out, s), chunked) ↦ elim (Sat-cases (handle_all s last)) [
        | inl (code, failed) ↦ absurd (ground arith)
        | inr ((outs, s'), ended) ↦ elim (Bool-cases (is_complete s')) [
          | inr missing ↦ absurd (ground arith)
          | inl complete ↦ elim (Sat-cases (finish s'.base64)) [
            | inl (code, cut) ↦ absurd (ground arith)
            | inr (unit, whole) ↦
                let (all, size) =
                  read_chunks-handle_all 0 new_state s chunks out (omega arith) chunked in
                let events =
                  handle_all-append new_state s s' (events_of chunks) last out outs all ended in
                let same : out ++ outs ≡ bytes = ground arith in
                let written =
                  handle_all-write_all new_state s' (events_of chunks ++ last) (out ++ outs)
                    events in
                (
                  ground (arith, written, whole, same),
                  omega (arith, size),
                  (
                    s',
                    subst (λ o. handle_all new_state (events_of chunks ++ last) ≡ done (o, s')) same
                        events,
                    complete,
                  ),
                )
          ]
        ]
      ]
    ]
