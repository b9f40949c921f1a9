-- ===== src/Mcp/Events/Stream.antt =====
-- The event of a stream that answers a request.
use hot_take.Base.{
  ltb, eqb, length, All, Outcome, ok, err, ◌>>=◌, Text, codes, ◌==◌, ℕ, ◌<◌, ◌≡◌, refl, ap, ◌∙◌,
  ◌≢◌, true, false, not, Option, none, some, List, [], ◌∷◌, ◌++◌, append_assoc, append-nil, arith,
}
use hot_take.Base.Strings.{join}
use hot_take.Base.Int.{ℤ}
use hot_take.Http.{has_line_break}
use hot_take.Mcp.Events.{
  ResponseError, Decoder, raw_lines, drop_cr, max_response_size, decode_response, decode_event_data,
  flush, read_lines, decode_event_stream,
}

-- A line of data that the stream can carry: without line breaks, and short enough for the scanner.
abbrev pub IsLine : Text → Type 0
IsLine line = (has_line_break line ≡ false) × (length (codes "data: " ++ line) < max_response_size)

-- An event as a server writes it: each line of its data behind `data: `, and then an empty line.
abbrev pub data_line : Text → Text
data_line line = codes "data: " ++ line

abbrev pub print_lines : List Text → Text → Text
print_lines [] rest = b'\n' ∷ rest
print_lines (line ∷ lines) rest = data_line line ++ b'\n' ∷ print_lines lines rest

abbrev pub print_stream : List (List Text) → Text
print_stream [] = []
print_stream (event ∷ events) = print_lines event (print_stream events)

abbrev pub data_of : List Text → Text
data_of event = join event (codes "\n")

-- An event with some lines, whose message has no identifier.
abbrev pub IsNotification : {E : Type 0} → Decoder E → List Text → Type 0
IsNotification decoder event =
    (event ≢ []) × All IsLine event × (decoder.header_id (data_of event) ≡ ok [])

raw_lines-append :
    (line rest : Text)
    → has_line_break line ≡ false
    → raw_lines (line ++ b'\n' ∷ rest) ≡ line ∷ raw_lines rest
unfolding raw_lines
raw_lines-append [] rest h = refl
raw_lines-append (c ∷ line) rest h = rw (raw_lines-append line rest (ground arith)) (ground arith)

drop_cr-line : (line : Text) → has_line_break line ≡ false → drop_cr line ≡ line
unfolding drop_cr
drop_cr-line [] h = refl
drop_cr-line (c ∷ []) h = ground arith
drop_cr-line (c ∷ d ∷ line) h = ap (λ s. c ∷ s) (drop_cr-line (d ∷ line) (ground arith))

not_empty : (s : Text) → s ≢ [] → eqb (length s) 0 ≡ false
not_empty [] h = absurd (h refl)
not_empty (c ∷ s) h = ground arith

below : (n m : ℕ) → n < m → not (ltb n m) ≡ false
below n m h = ground arith

module _ {E : Type 0} (decoder : Decoder E) (expected_id : ℤ) (status : ℕ) where
  read_line-data :
      (line : Text) (lines event : List Text)
      → IsLine line
      → read_lines decoder (data_line line ∷ lines) event expected_id status
        ≡ read_lines decoder lines (event ++ line ∷ []) expected_id status
  unfolding read_lines ◌==◌
  read_line-data line lines event (clean, short) =
      rw
        (
          below (length (data_line line)) max_response_size short,
          drop_cr-line (codes " " ++ line) clean,
        )
        refl

  read_event :
      (lines event : List Text) (rest : Text)
      → All IsLine lines
      → read_lines decoder (raw_lines (print_lines lines rest)) event expected_id status
        ≡ read_lines decoder ([] ∷ raw_lines rest) (event ++ lines) expected_id status
  unfolding raw_lines
  read_event [] event rest h = rw (append-nil event) refl
  read_event (line ∷ lines) event rest h =
      rw
        (
          raw_lines-append (data_line line) (print_lines lines rest) (ground arith),
          read_line-data line (raw_lines (print_lines lines rest)) event h.0,
        )
        (read_event lines (event ++ line ∷ []) rest h.1
          ∙ ap (λ e. read_lines decoder ([] ∷ raw_lines rest) e expected_id status)
              (append_assoc event (line ∷ []) lines))

  -- What a flush of the data of an event amounts to, if it has some lines.
  flush-decode :
      (event : List Text)
      → event ≢ []
      → flush decoder event expected_id status
        ≡ decode_event_data decoder (data_of event) expected_id status
  unfolding flush
  flush-decode [] h = absurd (h refl)
  flush-decode (line ∷ event) h = refl

  returned :
      (o other : Outcome (ResponseError E) Text)
      → (o >>= (λ result. ok (some result)) >>= λ (found : Option Text). elim found [
        | none ↦ other
        | some result ↦ ok result
      ])
        ≡ o
  returned (ok result) other = refl
  returned (err e) other = refl

  named_choice :
      (id : Text) (o : Outcome (ResponseError E) Text)
      → id ≢ []
      → (elim (eqb (length id) 0) [ true ↦ ok none | false ↦ o >>= λ result. ok (some result) ])
        ≡ (o >>= λ result. ok (some result))
  named_choice id o named = rw (not_empty id named) refl

  decode_event_data-named :
      (event id : Text)
      → decoder.header_id event ≡ ok id
      → id ≢ []
      → decode_event_data decoder event expected_id status
        ≡ (decode_response decoder event expected_id status >>= λ result. ok (some result))
  unfolding decode_event_data
  decode_event_data-named event id has named =
      rw has (named_choice id (decode_response decoder event expected_id status) named)

  read_stream :
      (before after : List (List Text)) (answer : List Text) (id : Text)
      → All (IsNotification decoder) before
      → answer ≢ []
      → All IsLine answer
      → decoder.header_id (data_of answer) ≡ ok id
      → id ≢ []
      → read_lines decoder
          (raw_lines (print_stream (before ++ answer ∷ after)))
          []
          expected_id
          status
        ≡ decode_response decoder (data_of answer) expected_id status
  unfolding read_lines decode_event_data
  read_stream [] after answer id b given lines has named =
      read_event answer [] (print_stream after) lines
      ∙ rw (flush-decode answer given, decode_event_data-named (data_of answer) id has named)
          (returned (decode_response decoder (data_of answer) expected_id status) _)
  read_stream (event ∷ before) after answer id ((some_lines, clean, unnamed), b) given lines has
        named =
      read_event event [] (print_stream (before ++ answer ∷ after)) clean
      ∙ rw (flush-decode event some_lines, unnamed)
          (read_stream before after answer id b given lines has named)

  -- Of a stream of events, `decodeEventStream` returns the answer in the first one whose message has an identifier:
  -- the events before it, which have some lines but no identifier, are skipped, and those behind it are not
  -- read. The lines contain no line break and fit the scanner's buffer.
  pub decode_event_stream_first :
      (before after : List (List Text)) (answer : List Text) (id : Text)
      → All (IsNotification decoder) before
      → answer ≢ []
      → All IsLine answer
      → decoder.header_id (data_of answer) ≡ ok id
      → id ≢ []
      → decode_event_stream decoder (print_stream (before ++ answer ∷ after)) expected_id status
        ≡ decode_response decoder (data_of answer) expected_id status
  unfolding decode_event_stream
  decode_event_stream_first before after answer id b given lines has named =
      read_stream before after answer id b given lines has named
