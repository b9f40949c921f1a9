-- ===== src/Tests/Remote.antt =====
-- A listing and a call through mcp/client.go, with a decoder and a network of its own.
use hot_take.Base.{
  if◌then◌else◌, eqb, all, ok, Text, codes, ℕ, zero, suc, ◌+◌, ◌≤◌, ◌≡◌, refl, ap, ◌↔◌, Bool, true,
  false, none, List, [], ◌∷◌, ◌++◌, arith,
}
use hot_take.Base.Strings.{has_prefix, join}
use hot_take.Base.Int.{pos}
use hot_take.Json.{Json, Decoded, end_of_input, value, string, object, no_fields, field}
use hot_take.Http.{Header}
use hot_take.Mcp.{ToolDefinition}
use hot_take.Mcp.Schema.{validate_tool_definition}
use hot_take.Mcp.Schema.Laws.{IsOffered, validate_tool_definition-eq-ok}
use hot_take.Mcp.Values.{is_printable, encode_header_value}
use hot_take.Mcp.Values.Laws.{encode_header_value-injective}
use hot_take.Mcp.Events.{RpcResponse, Decoder, decode_response, decode_event_stream}
use hot_take.Mcp.Events.Laws.{IsAnswer, decode_response_iff}
use hot_take.Mcp.Events.Stream.{print_stream, data_of, decode_event_stream_first}
use hot_take.Mcp.Client.{Client, State, Platform}
use hot_take.Mcp.Client.Listing
use hot_take.Mcp.Client.Listing.{list_tools, max_tool_pages}
use hot_take.Mcp.Client.Listing.Laws.{IsEnd, list_tools-IsEnd}
use hot_take.Mcp.Client.Calling
use hot_take.Mcp.Client.Calling.{call_tool}
use hot_take.Mcp.Client.Calling.Results.{IsComplete}
use hot_take.Mcp.Client.Calling.Laws.{IsPrepared, request_call, call_tool-eq-ok}

abbrev pub all_valid : Text → Bool
all_valid s = true

-- A number in unary, and then a mark.
abbrev unary : ℕ → Text → Text
unary zero rest = b'b' ∷ rest
unary (suc n) rest = b'a' ∷ unary n rest

abbrev base64 : Text → Text
base64 [] = []
base64 (c ∷ s) = unary c (base64 s)

unary-printable :
    (n : ℕ) (s : Text) → all is_printable s ≡ true → all is_printable (unary n s) ≡ true
unary-printable zero s h = h
unary-printable (suc n) s h = unary-printable n s h

base64-printable : (s : Text) → all is_printable (base64 s) ≡ true
base64-printable [] = refl
base64-printable (c ∷ s) = unary-printable c (base64 s) (base64-printable s)

abbrev is_mark : Text → Bool
is_mark [] = false
is_mark (c ∷ s) = eqb c b'b'

abbrev tail : Text → Text
tail [] = []
tail (c ∷ s) = s

unary-injective : (n m : ℕ) (s t : Text) → unary n s ≡ unary m t → (n ≡ m) × (s ≡ t)
unary-injective zero zero s t h = (refl, ap tail h)
unary-injective zero (suc m) s t h = (let e : true ≡ false = ap is_mark h in cc)
unary-injective (suc n) zero s t h = (let e : false ≡ true = ap is_mark h in cc)
unary-injective (suc n) (suc m) s t h =
    let (e, f) = unary-injective n m s t (ap tail h) in (ap suc e, f)

base64-injective : (s t : Text) → base64 s ≡ base64 t → s ≡ t
base64-injective [] [] h = refl
base64-injective [] (zero ∷ t) h = cc
base64-injective [] (suc d ∷ t) h = cc
base64-injective (zero ∷ s) [] h = cc
base64-injective (suc c ∷ s) [] h = cc
base64-injective (c ∷ s) (d ∷ t) h =
    let (e, f) = unary-injective c d (base64 s) (base64 t) h in rw (e, base64-injective s t f) refl

abbrev city_schema : Json
city_schema = object (
    field (codes "type") (string (codes "string"))
      (field (codes "x-mcp-header") (string (codes "City")) no_fields))

-- A document is read as a schema or as arguments: both have a property `city`.
abbrev decode : Text → Decoded
decode [] = end_of_input
decode (c ∷ s) =
    if eqb c b's'
    then value
        (object (
          field (codes "properties") (object (field (codes "city") city_schema no_fields))
            no_fields))
        []
    else value (object (field (codes "city") (string (codes "Rome")) no_fields)) []

abbrev pub advertised : ToolDefinition
advertised = record {
  name = codes "weather";
  title = [];
  description = codes "Tells the weather.";
  input_schema = codes "schema";
  headers = [];
}

abbrev pub weather : ToolDefinition
weather = record advertised {
  headers =
      record { name = codes "City"; value_type = codes "string"; path = codes "city" ∷ [] } ∷ [];
}

abbrev response : RpcResponse
response = record { jsonrpc = codes "2.0"; id = codes "1"; result = codes "{}"; error = none }

abbrev decoder : Decoder ℕ
decoder = record {
  response = λ s. ok response;
  int64 = λ s. ok (pos 1);
  header_id = λ s. if has_prefix s (codes "note") then ok [] else ok (codes "1");
}

abbrev pub platform : Platform ℕ
platform = record {
  marshal = λ r. ok (codes "request");
  new_request = λ u. ok tt;
  parse_media_type = λ s. ok (codes "application/json");
  canonical = λ s. s;
  base64 = base64;
  decoder = decoder;
}

-- The network counts the requests.
abbrev pub client : Client ℕ ℕ
client = record {
  endpoint = codes "https://example.com";
  bearer_token = [];
  client_name = codes "hot-take";
  client_version = codes "1";
  http_client = λ r w. (
    ok (record {
      status = 200;
      header = λ k. [];
      body = record { content = codes "answer"; failure = none; close_error = none };
    }),
    suc w,
  );
}

abbrev pub listing_codec : Listing.Codec ℕ
listing_codec = record {
  json_valid = all_valid;
  decode = decode;
  list_result = λ s. ok (record { result_type = []; tools = advertised ∷ []; next_cursor = [] });
}

abbrev pub calling_codec : Calling.Codec ℕ
calling_codec = record { decode = decode; result_type = λ s. ok (codes "complete") }

abbrev fresh : State ℕ
fresh = record { world = 0; request_count = 0; tools = [] }

abbrev known : State ℕ
known = record fresh { tools = (codes "weather", weather) ∷ [] }

abbrev called : State ℕ
called = record known { world = 1; request_count = 1 }

validation_test : validate_tool_definition all_valid decode advertised ≡ ok weather
unfolding validate_tool_definition
validation_test = refl

listing_test :
    list_tools platform listing_codec client fresh
    ≡ (ok (weather ∷ []), record called { tools = known.tools })
unfolding list_tools
listing_test = refl

calling_test :
    call_tool platform calling_codec client (codes "weather") (codes "arguments") known
    ≡ (ok (codes "{}"), called)
unfolding call_tool
calling_test = refl

encoding_test : encode_header_value base64 (3 ∷ []) ≡ codes "=?base64?aaab?="
unfolding encode_header_value
encoding_test = refl

decode_response_iff_example :
    (decode_response decoder (codes "answer") (pos 1) 200 ≡ ok (codes "{}")) ↔ (
      (r : RpcResponse) × (decoder.response (codes "answer") ≡ ok r)
      × IsAnswer decoder (pos 1) r
      × (r.result ≡ codes "{}"))
decode_response_iff_example = decode_response_iff decoder (codes "answer") (pos 1) 200 (codes "{}")

abbrev notes : List (List Text)
notes = (codes "note" ∷ []) ∷ []

abbrev answer : List Text
answer = codes "the" ∷ codes "answer" ∷ []

decode_event_stream_first_example :
    decode_event_stream decoder (print_stream (notes ++ answer ∷ notes)) (pos 1) 200
    ≡ decode_response decoder (data_of answer) (pos 1) 200
unfolding join has_prefix
decode_event_stream_first_example =
    decode_event_stream_first decoder (pos 1) 200 notes notes answer (codes "1")
      ((λ h. cc, ((refl, omega arith), tt), refl), tt) (λ h. cc)
      ((refl, omega arith), ((refl, omega arith), tt)) refl (λ h. cc)

validate_tool_definition-eq-ok_example :
    (weather ≡ record advertised { headers = weather.headers }) × IsOffered all_valid weather
validate_tool_definition-eq-ok_example =
    validate_tool_definition-eq-ok all_valid decode advertised weather validation_test

encode_header_value-injective_example :
    ((v : Text) → all is_printable (encode_header_value base64 v) ≡ true)
    × ((v w : Text) → encode_header_value base64 v ≡ encode_header_value base64 w → v ≡ w)
encode_header_value-injective_example =
    encode_header_value-injective base64 (base64-printable, base64-injective)

list_tools-IsEnd_example :
    IsEnd platform listing_codec client fresh (list_tools platform listing_codec client fresh)
    × (((list_tools platform listing_codec client fresh).1).request_count ≤ 0 + max_tool_pages)
list_tools-IsEnd_example = list_tools-IsEnd platform listing_codec client fresh

call_tool-eq-ok_example :
    (arguments : Text) × (headers : Header) × IsPrepared platform calling_codec client
      (codes "weather")
      (codes "arguments")
      known
      arguments
      headers
    × (request_call platform calling_codec client (codes "weather") arguments headers known
        ≡ (ok (codes "{}"), called))
    × IsComplete (calling_codec.result_type (codes "{}"))
call_tool-eq-ok_example =
    call_tool-eq-ok platform calling_codec client (codes "weather") (codes "arguments") (codes "{}")
      known called calling_test
