-- ===== src/Sat/Package.antt =====
-- decodeSoapPackage (modules/sat-download/soap-package-stream.ts): what it does with the events that
-- the XML parser (sax) reports for each part of the source. A local name holds no slash, so a path
-- is the list of its names.
pub mod Laws
mod Tests
use balanz.Prelude.{
  ℕ, ◌+◌, ◌*◌, ◌/◌, String, Bool, true, false, not, ◌&&◌, ◌||◌, List, [], ◌∷◌, ◌++◌, Option, none,
  some, all, find, includes, is_empty, is_some_of, leb, ltb, eqb, if◌then◌else◌, ◌==◌,
}
use balanz.Sat.Contract.{Sat, done, sat_error, compressed_limit, ◌>>=◌}
use balanz.Sat.Base64.{Decoder, new_decoder, write, finish}

pub record Attribute : Type 0 where
  pub local : String
  pub uri : String
  pub value : String

-- The callbacks of the parser.
pub data Event : Type 0 where
  error doctype cdata : Event
  instruction : String → Event
  open_tag : String → String → List Attribute → Event
  close_tag : Event
  text : List ℕ → Event

-- the variables of the function
pub record State : Type 0 where
  pub stack : List String
  pub package_seen : Bool
  pub header_seen : Bool
  pub response_seen : Bool
  pub wrapper_seen : Bool
  pub body_seen : Bool
  pub envelope_seen : Bool
  pub ended : Bool
  pub base64 : Decoder

abbrev pub new_state : State
new_state = record {
  stack = [];
  package_seen = false;
  header_seen = false;
  response_seen = false;
  wrapper_seen = false;
  body_seen = false;
  envelope_seen = false;
  ended = false;
  base64 = new_decoder;
}

-- SOAP and SAT
abbrev pub soap : String
soap = "http://schemas.xmlsoap.org/soap/envelope/"

abbrev pub sat : String
sat = "http://DescargaMasivaTerceros.sat.gob.mx"

abbrev pub wrapper : String
wrapper = "RespuestaDescargaMasivaTercerosSalida"

abbrev pub same_path : List String → List String → Bool
same_path [] [] = true
same_path (x ∷ xs) (y ∷ ys) = (x == y) && same_path xs ys
same_path _ _ = false

-- `allowed.includes(path)`
unfoldable pub is_allowed : List String → Bool
is_allowed path =
    same_path path ("Envelope" ∷ [])
    || same_path path ("Envelope" ∷ "Header" ∷ [])
    || same_path path ("Envelope" ∷ "Header" ∷ "respuesta" ∷ [])
    || same_path path ("Envelope" ∷ "Body" ∷ [])
    || same_path path ("Envelope" ∷ "Body" ∷ wrapper ∷ [])
    || same_path path ("Envelope" ∷ "Body" ∷ wrapper ∷ "Paquete" ∷ [])

abbrev pub fail {ℓ} : {A : Type ℓ} → Sat A
fail = sat_error "SAT_SOAP_INVALID"

-- The status of the response, if its attribute is there.
unfoldable pub check_status : List Attribute → Sat (Unit {0})
check_status attributes = elim (find (λ x. x.local == "CodEstatus" && x.uri == "") attributes) [
  | none ↦ sat_error "SAT_DOWNLOAD_REJECTED"
  | some a ↦
      if a.value == "5008"
      then sat_error "SAT_DOWNLOAD_BUDGET"
      else if a.value == "5007"
      then sat_error "SAT_PACKAGE_EXPIRED"
      else if not (a.value == "5000")
      then sat_error "SAT_DOWNLOAD_REJECTED"
      else done tt
]

-- The flags of an element that may stand where it is.
unfoldable pub enter : State → String → List Attribute → Sat State
enter s local attributes =
    if local == "Envelope"
    then (if s.envelope_seen then fail else done (record s { envelope_seen = true }))
    else if local == "Header"
    then (if s.header_seen || s.body_seen then fail else done (record s { header_seen = true }))
    else if local == "Body"
    then (if s.body_seen || not s.header_seen || not s.response_seen
        then fail
        else done (record s { body_seen = true }))
    else if local == wrapper
    then (if s.wrapper_seen then fail else done (record s { wrapper_seen = true }))
    else if local == "respuesta"
    then (if s.response_seen
        then fail
        else (do _ ← check_status attributes; done (record s { response_seen = true })))
    else if local == "Paquete"
    then (if s.package_seen then fail else done (record s { package_seen = true }))
    else done s

-- onopentag
unfoldable pub open_element : State → String → String → List Attribute → Sat State
open_element s local uri attributes =
    if s.ended
      || not (is_allowed (s.stack ++ local ∷ []))
      || not (uri == (if includes ("Envelope" ∷ "Header" ∷ "Body" ∷ []) local then soap else sat))
    then fail
    else (do s' ← enter s local attributes; done (record s' { stack = s.stack ++ local ∷ [] }))

-- `stack.pop()`
abbrev pub without_last : List String → List String
without_last [] = []
without_last (x ∷ []) = []
without_last (x ∷ y ∷ xs) = x ∷ without_last (y ∷ xs)

-- `stack.at(-1)`
abbrev pub last_name : List String → Option String
last_name [] = none
last_name (x ∷ []) = some x
last_name (x ∷ y ∷ xs) = last_name (y ∷ xs)

-- onclosetag
unfoldable pub close_element : State → State
close_element s =
    let stack = without_last s.stack in
    record s { stack = stack; ended = s.ended || is_empty stack }

-- the white space of `trim`
unfoldable pub is_blank : ℕ → Bool
is_blank c =
    leb 9 c && leb c 13
    || eqb c 32
    || eqb c 160
    || eqb c 5760
    || leb 8192 c && leb c 8202
    || eqb c 8232
    || eqb c 8233
    || eqb c 8239
    || eqb c 8287
    || eqb c 12288
    || eqb c 65279

-- A callback: the bytes that it puts out, and the variables.
unfoldable pub handle : State → Event → Sat (List ℕ × State)
handle s Event.error = fail
handle s Event.doctype = fail
handle s Event.cdata = fail
handle s (Event.instruction name) =
    if not (name == "xml") || s.envelope_seen then fail else done ([], s)
handle s (Event.open_tag local uri attributes) = do
  s' ← open_element s local uri attributes
  done ([], s')
handle s Event.close_tag = done ([], close_element s)
handle s (Event.text t) =
    if is_some_of (last_name s.stack) "Paquete"
    then (do (out, base64) ← write s.base64 t; done (out, record s { base64 = base64 }))
    else if all is_blank t
    then done ([], s)
    else fail

-- The callbacks of one text that the parser is given.
unfoldable pub handle_all : State → List Event → Sat (List ℕ × State)
handle_all s [] = done ([], s)
handle_all s (event ∷ events) = do
  (out, s') ← handle s event
  (outs, s'') ← handle_all s' events
  done (out ++ outs, s'')

-- A part of a chunk: whether its text has an ampersand, and the events that it leads to.
pub record Part : Type 0 where
  pub has_ampersand : Bool
  pub events : List Event

pub record Chunk : Type 0 where
  pub size : ℕ
  pub parts : List Part

unfoldable pub read_parts : State → List Part → Sat (List ℕ × State)
read_parts s [] = done ([], s)
read_parts s (part ∷ parts) = if part.has_ampersand then fail else (do
  (out, s') ← handle_all s part.events
  (outs, s'') ← read_parts s' parts
  done (out ++ outs, s''))

-- `Math.ceil(SAT_PACKAGE_LIMITS.compressed / 3) * 4 + 1024 * 1024`
abbrev pub soap_limit : ℕ
soap_limit = (compressed_limit + 2) / 3 * 4 + 1024 * 1024

unfoldable pub read_chunks : ℕ → State → List Chunk → Sat (List ℕ × State)
read_chunks bytes s [] = done ([], s)
read_chunks bytes s (chunk ∷ chunks) =
    if ltb soap_limit (bytes + chunk.size) then sat_error "SAT_SOAP_LIMIT" else (do
      (out, s') ← read_parts s chunk.parts
      (outs, s'') ← read_chunks (bytes + chunk.size) s' chunks
      done (out ++ outs, s''))

abbrev pub is_complete : State → Bool
is_complete s =
    s.ended && s.package_seen && s.header_seen && s.response_seen && s.wrapper_seen && s.body_seen

-- decodeSoapPackage: the bytes of all buffers; `last` are the events of the end of the text. The
-- buffers that come before an error are left out.
unfoldable pub decode_soap_package : List Chunk → List Event → Sat (List ℕ)
decode_soap_package chunks last = do
  (out, s) ← read_chunks 0 new_state chunks
  (outs, s') ← handle_all s last
  _ ← (if is_complete s' then finish s'.base64 else fail)
  done (out ++ outs)
