-- ===== src/Openai/Generate.antt =====
-- providers/openai/client.go: `Generate`, `readBody` and `decodeAPIError`.
pub mod Laws
pub mod Continues
use hot_take.Base.{
  if◌then◌else◌, ltb, length, drop, Outcome, ok, err, ◌>>=◌, ◌>>◌, reject_if, map_err, Text, codes,
  ◌==◌, ℕ, ◌+◌, Bool, not, List, [], ◌++◌,
}
use hot_take.Base.Strings.{trim_space, is_blank}
use hot_take.Base.Int.{ℤ, pos, pos_part}
use hot_take.Provider
use hot_take.Provider.{Item, Turn}
use hot_take.Tool.{Definition}
use hot_take.Http
use hot_take.Http.{Body, read_limited, close_result, Response, set, is_failure}
use hot_take.Openai.{
  Client, ClientState, InputItem, FunctionTool, ResponseRequest, ResponseEnvelope,
}
use hot_take.Openai.Encode.{EncodeError, ToolError, encode_items, encode_tools}
use hot_take.Openai.Decode.{StateError, TurnError, decode_state, decode_turn}

abbrev pub max_response_body : ℕ
max_response_body = 4194304

pub data Error (E : Type 0) : Type 0 where
  state_error : StateError E → Error E
  input_error : EncodeError → Error E
  tools_error : ToolError → Error E
  marshal_error request_error send_error read_error decode_error state_marshal_error : E → Error E
  too_large missing_response_id : Error E
  -- the status, the identifier of the request and the message
  api_error : ℕ → Text → Text → Error E
  turn_error : TurnError → Error E

-- What the client takes from encoding/json and net/http: decoders of its types, encoders, the check of a
-- request by http.NewRequest, http.StatusText and http.CanonicalHeaderKey.
pub record Codec (E : Type 0) : Type 0 where
  pub json_valid : Text → Bool
  pub unmarshal_state : Text → Outcome E ClientState
  pub marshal_state : ClientState → Outcome E Text
  pub marshal_request : ResponseRequest → Outcome E Text
  pub unmarshal_response : Text → Outcome E ResponseEnvelope
  -- the field error.message
  pub unmarshal_error : Text → Outcome E Text
  pub new_request : Text → Outcome E (Unit {0})
  pub status_text : ℕ → Text
  pub canonical : Text → Text

unfoldable pub read_body : {E : Type 0} → Body E → Outcome (Error E) Text
unfolding read_limited
read_body body = do
  payload ← map_err read_error (read_limited (max_response_body + 1) body)
  map_err read_error (close_result body.close_error)
  reject_if (ltb max_response_body (length payload)) too_large
  ok payload

-- The message of an API error: that of the payload if it has one, or else the text of the status.
unfoldable pub api_message : {E : Type 0} → Outcome E Text → Text → Text
api_message (ok message) status = if not (is_blank message) then message else status
api_message (err e) status = status

module _ {E : Type 0} (codec : Codec E) where
  unfoldable pub decode_api_error : ℕ → Text → Text → Error E
  unfolding api_message
  decode_api_error status request_id payload =
      api_error status request_id
        (api_message (codec.unmarshal_error payload) (trim_space (codec.status_text status)))

  -- What `Generate` sends as input: the items that are not consumed.
  unfoldable pub input_of : Provider.Request → Outcome (Error E) (ClientState × List InputItem)
  unfolding decode_state encode_items
  input_of request = do
    state ←
        map_err state_error
          (decode_state codec.unmarshal_state request.state (length request.items))
    input ← map_err input_error (
        encode_items codec.json_valid (drop (pos_part state.consumed_items) request.items)
          (not (state.previous_response_id == [])))
    ok (state, input)

  -- `Generate` behind the call of the network, for a request with this many items.
  unfoldable pub read_turn : ℕ → Response E → Outcome (Error E) Turn
  unfolding read_body decode_api_error decode_turn is_failure
  read_turn item_count response = do
    payload ← read_body response.body
    reject_if (is_failure response.status)
        (decode_api_error response.status (response.header (codes "x-request-id")) payload)
    envelope ← map_err decode_error (codec.unmarshal_response payload)
    reject_if (is_blank envelope.id) missing_response_id
    turn ← map_err turn_error (decode_turn codec.json_valid envelope)
    next_state ← map_err state_marshal_error (
        codec.marshal_state
          (record { previous_response_id = envelope.id; consumed_items = pos item_count }))
    ok (record turn { state = next_state })

module _ {W E : Type 0} (codec : Codec E) where
  -- `Generate` up to the call of the network: the body of the request.
  unfoldable pub request_body : Client W E → Provider.Request → Outcome (Error E) Text
  unfolding input_of encode_tools
  request_body client request = do
    found ← input_of codec request
    tools ← map_err tools_error (encode_tools codec.json_valid request.tools)
    payload ← map_err marshal_error (
        codec.marshal_request (record {
          model = client.model;
          instructions = request.instructions;
          input = found.1;
          tools = tools;
          previous_response_id = found.0.previous_response_id;
        }))
    map_err request_error (codec.new_request client.endpoint)
    ok payload

  abbrev pub http_request : Client W E → Text → Http.Request
  http_request client payload = record {
    url = client.endpoint;
    header =
        set codec.canonical (codes "Content-Type") (codes "application/json")
          (set codec.canonical (codes "Authorization") (codes "Bearer " ++ client.api_key) []);
    body = payload;
  }

  unfoldable pub receive : ℕ → Outcome E (Response E) × W → Outcome (Error E) Turn × W
  unfolding read_turn
  receive item_count (err e, w) = (err (send_error e), w)
  receive item_count (ok response, w) = (read_turn codec item_count response, w)

  unfoldable pub send : Client W E → ℕ → Outcome (Error E) Text → W → Outcome (Error E) Turn × W
  unfolding receive
  send client item_count (err e) w = (err e, w)
  send client item_count (ok payload) w =
      receive item_count (client.http_client (http_request client payload) w)

  -- `Generate`, a model of package provider
  unfoldable pub generate : Client W E → Provider.Model W (Error E)
  unfolding request_body send
  generate client request w = send client (length request.items) (request_body client request) w
