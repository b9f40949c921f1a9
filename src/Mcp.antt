-- ===== src/Mcp.antt =====
-- Package mcp: remote tools and their names, in mcp/tool.go and mcp/schema.go. The client is a parameter
-- here; that of mcp/client.go is in `Mcp.Client`, and what it reads in `Mcp.Schema`, `Mcp.Values` and `Mcp.Events`.
pub mod Laws
pub mod Binding
pub mod Schema
pub mod Values
pub mod Events
pub mod Client
use hot_take.Base.{
  if◌then◌else◌, ltb, eqb, length, all, Outcome, ok, err, ◌>>=◌, ◌>>◌, reject_if, Text, codes, ◌==◌,
  ℕ, Bool, false, not, ◌&&◌, ◌||◌, Option, none, some, List, [], ◌∷◌, ◌++◌,
}
use hot_take.Base.Strings.{trim_space, is_lower, is_upper, is_digit}
use hot_take.Base.Dict.{elem}
use hot_take.Tool.{Definition, Tool}

-- `headerBinding`
pub record HeaderBinding : Type 0 where
  pub name : Text
  pub value_type : Text
  pub path : List Text

pub record ToolDefinition : Type 0 where
  pub name : Text
  pub title : Text
  pub description : Text
  pub input_schema : Text
  pub headers : List HeaderBinding

pub data Error : Type 0 where
  client_required : Error
  invalid_namespace invalid_tool_name no_capabilities empty_capability : Text → Error

-- The test of one byte in `validToolName`.
abbrev pub is_name_byte : ℕ → Bool
is_name_byte c = is_lower c || is_upper c || is_digit c || eqb c b'_' || eqb c b'-' || eqb c b'.'

unfoldable pub valid_tool_name : Text → Bool
valid_tool_name name = not (ltb (length name) 1 || ltb 128 (length name)) && all is_name_byte name

abbrev pub is_namespace_byte : ℕ → Bool
is_namespace_byte c = is_lower c || is_digit c || eqb c b'-' || eqb c b'_'

unfoldable pub valid_namespace : Text → Bool
valid_namespace [] = false
valid_namespace (c ∷ s) = is_lower c && all is_namespace_byte (c ∷ s)

-- strings.ReplaceAll of one byte by another
unfoldable pub replace_all : ℕ → ℕ → Text → Text
replace_all old new [] = []
replace_all old new (c ∷ s) = (if eqb c old then new else c) ∷ replace_all old new s

unfoldable pub normalize : Text → Text
unfolding replace_all
normalize value = replace_all b'-' b'_' (replace_all b'.' b'_' value)

-- `LocalToolName`
unfoldable pub local_tool_name : Text → Text → Outcome Error Text
unfolding valid_tool_name valid_namespace normalize
local_tool_name namespace remote_name = do
  reject_if (not (valid_namespace namespace)) (invalid_namespace namespace)
  reject_if (not (valid_tool_name remote_name)) (invalid_tool_name remote_name)
  ok (normalize namespace ++ codes "__" ++ normalize remote_name)

-- The client, by its method `CallTool`: a tool name and its arguments.
abbrev pub ToolCaller : Type 0 → Type 0 → Type 0
ToolCaller W E = Text → Text → W → Outcome E Text × W

-- The loop of `NewRemoteTool`; `validated` holds the same names as `seen`.
unfoldable pub validate_capabilities : Text → List Text → List Text → Outcome Error (List Text)
validate_capabilities remote_name [] validated = ok validated
validate_capabilities remote_name (given ∷ capabilities) validated =
    let capability = trim_space given in
    let skip = validate_capabilities remote_name capabilities validated in
    let take_in = validate_capabilities remote_name capabilities (validated ++ capability ∷ []) in
    reject_if (capability == []) (empty_capability remote_name)
    >> (if elem capability validated then skip else take_in)

pub record RemoteTool (W E : Type 0) : Type 0 where
  pub client : ToolCaller W E
  pub remote_name : Text
  pub definition : Definition

module _ {W E : Type 0} where
  abbrev pub required_client : Option (ToolCaller W E) → Outcome Error (ToolCaller W E)
  required_client none = err client_required
  required_client (some client) = ok client

  -- `NewRemoteTool`; a nil client is `none`.
  unfoldable pub new_remote_tool :
      Option (ToolCaller W E) → Text → ToolDefinition → List Text → Outcome Error (RemoteTool W E)
  unfolding local_tool_name validate_capabilities
  new_remote_tool given namespace remote capabilities = do
    client ← required_client given
    name ← local_tool_name namespace remote.name
    reject_if (eqb (length capabilities) 0) (no_capabilities remote.name)
    validated ← validate_capabilities remote.name capabilities []
    ok (record {
      client = client;
      remote_name = remote.name;
      definition = record {
        name = name;
        description = remote.description;
        input_schema = remote.input_schema;
        capabilities = validated;
        strict = false;
      };
    })

  -- `Definition` and `Execute`: a remote tool as a tool of the framework. The text that `Execute` wraps
  -- around an error of the client is left out.
  unfoldable pub as_tool : RemoteTool W E → Tool W E
  as_tool t = record {
    definition = t.definition;
    execute = λ arguments w. t.client t.remote_name arguments w;
  }
