-- ===== src/Mcp/Client/Calling.antt =====
-- mcp/client.go: `CallTool` and `tool`.
pub mod Laws
pub mod Results
use hot_take.Base.{
  if◌then◌else◌, Outcome, ok, err, ◌>>=◌, ◌>>◌, map_err, Text, codes, ◌==◌, ◌||◌, none, some, [],
}
use hot_take.Base.Dict.{lookup}
use hot_take.Json.{Decoded}
use hot_take.Http.{Header}
use hot_take.Mcp.{ToolDefinition}
use hot_take.Mcp.Values.{ValueError, validate_arguments, call_headers}
use hot_take.Mcp.Client
use hot_take.Mcp.Client.{Client, State, Platform, call_tool_params}
use hot_take.Mcp.Client.Request.{metadata, request}

pub data Error (E : Type 0) : Type 0 where
  not_advertised input_required : Text → Error E
  malformed_arguments headers_failed : ValueError → Error E
  call_failed : Client.Error E → Error E
  undecodable : E → Error E
  bad_result_type : Text → Error E

-- `tool`
unfoldable pub tool : {W E : Type 0} → Text → State W → Outcome (Error E) ToolDefinition
unfolding lookup
tool name s = elim (lookup name s.tools) [
  | none ↦ err (not_advertised name)
  | some definition ↦ ok definition
]

-- What the call takes from encoding/json: a decoder of values, and that of the field `resultType`.
pub record Codec (E : Type 0) : Type 0 where
  pub decode : Text → Decoded
  pub result_type : Text → Outcome E Text

module _ {E : Type 0} (codec : Codec E) where
  unfoldable pub judge_type : Text → Text → Text → Outcome (Error E) Text
  unfolding ◌==◌
  judge_type name payload result_type =
      if result_type == [] || result_type == codes "complete"
      then ok payload
      else if result_type == codes "input_required"
      then err (input_required name)
      else err (bad_result_type result_type)

  -- What is done with the payload of a call.
  unfoldable pub read_result : Text → Text → Outcome (Error E) Text
  unfolding judge_type
  read_result name payload = do
    result_type ← map_err undecodable (codec.result_type payload)
    judge_type name payload result_type

module _ {W E : Type 0} (platform : Platform E) (codec : Codec E) (client : Client W E) where
  -- `CallTool` before its request: the arguments and the headers of the call.
  unfoldable pub prepare_call : Text → Text → State W → Outcome (Error E) (Text × Header)
  unfolding tool validate_arguments call_headers
  prepare_call name given s = do
    definition ← tool name s
    arguments ← map_err malformed_arguments (validate_arguments codec.decode given)
    headers ←
        map_err headers_failed
          (call_headers platform.canonical platform.base64 codec.decode definition arguments)
    ok (arguments, headers)

  unfoldable pub perform_call :
      Text → Outcome (Error E) (Text × Header) → State W → Outcome (Error E) Text × State W
  unfolding request read_result
  perform_call name (err e) s = (err e, s)
  perform_call name (ok (arguments, headers)) s =
      let (answer, s') =
        request platform client (codes "tools/call") name
          (call_tool_params (metadata platform client) name arguments) headers s in
      (map_err call_failed answer >>= read_result codec name, s')

  -- `CallTool`
  unfoldable pub call_tool : Text → Text → State W → Outcome (Error E) Text × State W
  unfolding prepare_call perform_call
  call_tool name arguments s = perform_call name (prepare_call name arguments s) s
