-- ===== src/Mcp/Client.antt =====
-- mcp/client.go: the client's configuration, its state and its data. The method `request` is in
-- `Mcp.Client.Request`, `ListTools` in `Mcp.Client.Listing`, `CallTool` in `Mcp.Client.Calling`.
pub mod Request
pub mod Listing
pub mod Calling
use hot_take.Base.{
  Outcome, ok, err, ◌>>=◌, ◌>>◌, reject_if, map_err, Text, codes, ◌==◌, ℕ, Bool, not, ◌&&◌, ◌||◌,
  Option, none, some, [], map,
}
use hot_take.Base.Strings.{trim_space, is_blank, lower_byte}
use hot_take.Base.Dict.{Dict}
use hot_take.Base.Int.{ℤ}
use hot_take.Http
use hot_take.Http.{
  Body, Response, Transport, Url, Header, set, add, is_failure, has_line_break, read_limited,
  close_result,
}
use hot_take.Mcp.{ToolDefinition}
use hot_take.Mcp.Values.{encode_header_value}
use hot_take.Mcp.Events.{
  ResponseError, Decoder, max_response_size, decode_response, decode_event_stream,
}

abbrev pub protocol_version : Text
protocol_version = codes "2026-07-28"

pub record Config (W E : Type 0) : Type 0 where
  pub endpoint : Text
  pub bearer_token : Text
  pub client_name : Text
  pub client_version : Text
  pub http_client : Option (Transport W E)

-- What does not change of a client. `endpoint` is the text of its URL.
pub record Client (W E : Type 0) : Type 0 where
  pub endpoint : Text
  pub bearer_token : Text
  pub client_name : Text
  pub client_version : Text
  pub http_client : Transport W E

-- What changes: the world, the tools of the last listing, and the number of requests so far, which the
-- counter `nextID` holds as an int64.
pub record State (W : Type 0) : Type 0 where
  pub world : W
  pub request_count : ℕ
  pub tools : Dict ToolDefinition

-- The texts of ErrInvalidConfiguration.
pub data ConfigError (E : Type 0) : Type 0 where
  unparsable_endpoint : E → ConfigError E
  unsafe_endpoint https_required identity_required client_required line_break : ConfigError E

-- strings.EqualFold on ASCII text
unfoldable pub equal_fold : Text → Text → Bool
unfolding lower_byte ◌==◌
equal_fold s t = map lower_byte s == map lower_byte t

-- `isLoopbackHost`; `loopback_address` is net.ParseIP with IsLoopback.
unfoldable pub is_loopback_host : (Text → Bool) → Text → Bool
unfolding equal_fold
is_loopback_host loopback_address host =
    equal_fold host (codes "localhost") || loopback_address host

-- `validateEndpoint`; `parse_url` is url.Parse.
unfoldable pub validate_endpoint :
    {E : Type 0} → (Text → Outcome E Url) → (Text → Bool) → Text → Outcome (ConfigError E) Url
unfolding is_loopback_host trim_space ◌==◌
validate_endpoint parse_url loopback_address raw = do
  endpoint ← map_err unparsable_endpoint (parse_url (trim_space raw))
  reject_if (endpoint.has_user || not (endpoint.fragment == []) || endpoint.host == [])
      unsafe_endpoint
  reject_if
      (not (endpoint.scheme == codes "https")
        && not (
            endpoint.scheme == codes "http" && is_loopback_host loopback_address endpoint.hostname))
      https_required
  ok endpoint

abbrev pub required_http :
    {W E : Type 0} → Option (Transport W E) → Outcome (ConfigError E) (Transport W E)
required_http none = err client_required
required_http (some client) = ok client

-- `New`; `url_text` is the method String of a URL.
unfoldable pub new :
    {W E : Type 0}
    → (Text → Outcome E Url)
    → (Text → Bool)
    → (Url → Text)
    → Config W E
    → Outcome (ConfigError E) (Client W E)
unfolding validate_endpoint is_blank
new parse_url loopback_address url_text config = do
  endpoint ← validate_endpoint parse_url loopback_address config.endpoint
  reject_if (is_blank config.client_name || is_blank config.client_version) identity_required
  http_client ← required_http config.http_client
  reject_if (has_line_break config.bearer_token) line_break
  ok (record {
    endpoint = url_text endpoint;
    bearer_token = trim_space config.bearer_token;
    client_name = trim_space config.client_name;
    client_version = trim_space config.client_version;
    http_client = http_client;
  })

pub record RequestMetadata : Type 0 where
  pub protocol_version : Text
  pub client_name : Text
  pub client_version : Text

pub data Params : Type 0 where
  list_tools_params : RequestMetadata → Text → Params
  call_tool_params : RequestMetadata → Text → Text → Params

pub record RpcRequest : Type 0 where
  pub jsonrpc : Text
  pub id : ℤ
  pub method : Text
  pub params : Params

pub data Error (E : Type 0) : Type 0 where
  marshal_error request_error send_error read_error close_error media_error : E → Error E
  too_large : Error E
  http_status : ℕ → Error E
  unsupported_media : Text → Error E
  response_error : ResponseError E → Error E

-- What the client takes from encoding/json, net/http, mime and encoding/base64.
pub record Platform (E : Type 0) : Type 0 where
  pub marshal : RpcRequest → Outcome E Text
  pub new_request : Text → Outcome E (Unit {0})
  pub parse_media_type : Text → Outcome E Text
  pub canonical : Text → Text
  pub base64 : Text → Text
  pub decoder : Decoder E
