-- ===== src/Openai/Encode.antt =====
-- providers/openai/client.go: what a request of the provider becomes. `json_valid` is json.Valid.
pub mod Laws
use hot_take.Base.{
  if◌then◌else◌, eqb, Outcome, ok, ◌>>=◌, ◌>>◌, reject_if, Text, codes, ℕ, ◌+◌, Bool, true, false,
  not, ◌&&◌, ◌||◌, Option, none, some, List, [], ◌∷◌, ◌++◌,
}
use hot_take.Base.Strings.{is_blank}
use hot_take.Tool.{Definition, Call, Result}
use hot_take.Provider.{Role, user, assistant, other_role, Message, Item}
use hot_take.Openai.{InputItem, FunctionTool}

pub data EncodeError : Type 0 where
  not_one_value : ℕ → EncodeError
  unsupported_role : ℕ → Role → EncodeError
  call_incomplete call_arguments result_incomplete result_content : ℕ → EncodeError

pub data ToolError : Type 0 where
  tool_incomplete : ℕ → ToolError
  tool_schema : Text → ToolError

-- 1 for a field that is not nil.
abbrev pub count : {A : Type 0} → Option A → ℕ
count none = 0
count (some a) = 1

abbrev pub is_supported : Role → Bool
is_supported user = true
is_supported assistant = true
is_supported (other_role r) = false

abbrev pub is_assistant : Role → Bool
is_assistant assistant = true
is_assistant _ = false

abbrev pub message_input : Message → InputItem
message_input m = record {
  type = [];
  role = some m.role;
  content = m.content;
  call_id = [];
  name = [];
  arguments = [];
  output = [];
}

abbrev pub call_input : Call → InputItem
call_input c = record {
  type = codes "function_call";
  role = none;
  content = [];
  call_id = c.id;
  name = c.name;
  arguments = c.arguments;
  output = [];
}

abbrev pub result_input : Result → InputItem
result_input r = record {
  type = codes "function_call_output";
  role = none;
  content = [];
  call_id = r.call_id;
  name = [];
  arguments = [];
  output = r.content;
}

unfoldable pub append_encoded : List InputItem → Option InputItem → List InputItem
append_encoded encoded none = encoded
append_encoded encoded (some i) = encoded ++ i ∷ []

abbrev pub function_tool : Definition → FunctionTool
function_tool d = record {
  type = codes "function";
  name = d.name;
  description = d.description;
  parameters = d.input_schema;
  strict = d.strict;
}

module _ (json_valid : Text → Bool) where
  -- The switch of `encodeItems`. `none` is an item that is skipped.
  unfoldable pub encode_value :
      Bool
      → ℕ
      → Option Message
      → Option Call
      → Option Result
      → Outcome EncodeError (Option InputItem)
  encode_value continuing index (some m) call result = do
    reject_if (not (is_supported m.role)) (unsupported_role index m.role)
    ok (if continuing && is_assistant m.role then none else some (message_input m))
  encode_value true index none (some c) result = ok none
  encode_value false index none (some c) result = do
    reject_if (is_blank c.id || is_blank c.name) (call_incomplete index)
    reject_if (not (json_valid c.arguments)) (call_arguments index)
    ok (some (call_input c))
  encode_value continuing index none none (some r) = do
    reject_if (is_blank r.call_id) (result_incomplete index)
    reject_if (not (json_valid r.content)) (result_content index)
    ok (some (result_input r))
  encode_value continuing index none none none = ok none

  unfoldable pub encode_item : Bool → ℕ → Item → Outcome EncodeError (Option InputItem)
  unfolding encode_value
  encode_item continuing index item = do
    reject_if (not (eqb (count item.message + count item.tool_call + count item.tool_result) 1))
        (not_one_value index)
    encode_value continuing index item.message item.tool_call item.tool_result

  -- `encodeItems`, from an index, with what is encoded so far.
  unfoldable pub encode_from :
      Bool → ℕ → List Item → List InputItem → Outcome EncodeError (List InputItem)
  unfolding encode_item append_encoded
  encode_from continuing index [] encoded = ok encoded
  encode_from continuing index (item ∷ items) encoded = do
    o ← encode_item continuing index item
    encode_from continuing (index + 1) items (append_encoded encoded o)

  unfoldable pub encode_items : List Item → Bool → Outcome EncodeError (List InputItem)
  unfolding encode_from
  encode_items items continuing = encode_from continuing 0 items []

  unfoldable pub encode_tools_from :
      ℕ → List Definition → List FunctionTool → Outcome ToolError (List FunctionTool)
  encode_tools_from index [] tools = ok tools
  encode_tools_from index (d ∷ definitions) tools = do
    reject_if (is_blank d.name || is_blank d.description) (tool_incomplete index)
    reject_if (not (json_valid d.input_schema)) (tool_schema d.name)
    encode_tools_from (index + 1) definitions (tools ++ function_tool d ∷ [])

  unfoldable pub encode_tools : List Definition → Outcome ToolError (List FunctionTool)
  unfolding encode_tools_from
  encode_tools definitions = encode_tools_from 0 definitions []
