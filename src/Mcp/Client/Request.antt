-- ===== src/Mcp/Client/Request.antt =====
-- mcp/client.go: the method `request`.
use hot_take.Base.{
  if◌then◌else◌, ltb, length, Outcome, ok, err, ◌>>=◌, ◌>>◌, reject_if, map_err, Text, codes, ◌==◌,
  ℕ, ◌+◌, ◌-◌, ◌%◌, ◌^◌, Bool, true, not, ◌&&◌, ◌||◌, List, [], ◌∷◌, ◌++◌,
}
use hot_take.Base.Int.{ℤ, pos, negsuc}
use hot_take.Http
use hot_take.Http.{Body, Response, Header, set, add, is_failure, read_limited, close_result}
use hot_take.Mcp.Values.{encode_header_value}
use hot_take.Mcp.Events.{max_response_size, decode_response, decode_event_stream}
use hot_take.Mcp.Client.{
  protocol_version, Client, State, RequestMetadata, Params, Error, marshal_error, request_error,
  send_error, read_error, close_error, media_error, too_large, http_status, unsupported_media,
  response_error, Platform,
}

-- The value that `nextID.Add(1)` returns the `n`-th time.
unfoldable pub int64 : ℕ → ℤ
int64 n = let low = n % 2 ^ 64 in if ltb low (2 ^ 63) then pos low else negsuc (2 ^ 64 - 1 - low)

abbrev pub is_known_media : Text → Bool
is_known_media m = m == codes "application/json" || m == codes "text/event-stream"

abbrev pub fails_media : {E : Type 0} → Outcome E Text → Bool
fails_media (err e) = true
fails_media (ok m) = not (is_known_media m)

unfoldable pub add_values : (Text → Text) → Text → List Text → Header → Header
unfolding add
add_values canonical key [] h = h
add_values canonical key (v ∷ values) h = add_values canonical key values (add canonical key v h)

-- The loop over the extra headers
unfoldable pub add_all : (Text → Text) → Header → Header → Header
unfolding add_values
add_all canonical [] h = h
add_all canonical ((key, values) ∷ extra) h =
    add_all canonical extra (add_values canonical key values h)

module _ {W E : Type 0} (platform : Platform E) where
  unfoldable pub headers_of : Client W E → Text → Text → Header → Header
  unfolding set encode_header_value add_all ◌==◌
  headers_of client method name extra =
      let put_in = set platform.canonical in
      let basic = put_in (codes "Mcp-Method") method (
        put_in (codes "MCP-Protocol-Version") protocol_version (
          put_in (codes "Accept") (codes "application/json, text/event-stream")
            (put_in (codes "Content-Type") (codes "application/json") []))) in
      let named =
        if name == []
        then basic
        else put_in (codes "Mcp-Name") (encode_header_value platform.base64 name) basic in
      let authorized =
        if client.bearer_token == []
        then named
        else put_in (codes "Authorization") (codes "Bearer " ++ client.bearer_token) named in
      add_all platform.canonical extra authorized

  -- `request` up to the call of the network
  unfoldable pub request_of :
      Client W E → Text → Text → Params → Header → ℤ → Outcome (Error E) Http.Request
  unfolding headers_of
  request_of client method name params extra id = do
    body ← map_err marshal_error (
        platform.marshal
          (record { jsonrpc = codes "2.0"; id = id; method = method; params = params }))
    map_err request_error (platform.new_request client.endpoint)
    ok (record { url = client.endpoint; header = headers_of client method name extra; body = body })

module _ {E : Type 0} (platform : Platform E) where
  unfoldable pub read_body : Body E → Outcome (Error E) Text
  unfolding read_limited
  read_body body = do
    payload ← map_err read_error (read_limited (max_response_size + 1) body)
    map_err close_error (close_result body.close_error)
    reject_if (ltb max_response_size (length payload)) too_large
    ok payload

  -- The answer in a payload, by its media type.
  unfoldable pub decode_payload : Text → Text → ℤ → ℕ → Outcome (Error E) Text
  unfolding decode_response decode_event_stream ◌==◌
  decode_payload media payload id status =
      if media == codes "application/json"
      then map_err response_error (decode_response platform.decoder payload id status)
      else if media == codes "text/event-stream"
      then map_err response_error (decode_event_stream platform.decoder payload id status)
      else err (unsupported_media media)

  -- `request` behind the call of the network
  unfoldable pub read_response : ℤ → Response E → Outcome (Error E) Text
  unfolding read_body decode_payload is_failure ◌==◌
  read_response id response =
      let media_type = platform.parse_media_type (response.header (codes "Content-Type")) in
      do
        payload ← read_body response.body
        reject_if (is_failure response.status && fails_media media_type)
            (http_status response.status)
        media ← map_err media_error media_type
        result ← decode_payload media payload id response.status
        reject_if (is_failure response.status) (http_status response.status)
        ok result

module _ {W E : Type 0} (platform : Platform E) (client : Client W E) where
  abbrev pub metadata : RequestMetadata
  metadata = record {
    protocol_version = protocol_version;
    client_name = client.client_name;
    client_version = client.client_version;
  }

  unfoldable pub receive : ℤ → Outcome E (Response E) × W → Outcome (Error E) Text × W
  unfolding read_response
  receive id (err e, w) = (err (send_error e), w)
  receive id (ok response, w) = (read_response platform id response, w)

  unfoldable pub send : ℤ → Outcome (Error E) Http.Request → W → Outcome (Error E) Text × W
  unfolding receive
  send id (err e) w = (err e, w)
  send id (ok r) w = receive id (client.http_client r w)

  -- `request`
  unfoldable pub request :
      Text → Text → Params → Header → State W → Outcome (Error E) Text × State W
  unfolding request_of send int64
  request method name params extra s =
      let id = int64 (s.request_count + 1) in
      let (answer, w) = send id (request_of platform client method name params extra id) s.world in
      (answer, record s { world = w; request_count = s.request_count + 1 })
