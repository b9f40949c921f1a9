-- ===== src/Mcp/Schema.antt =====
-- mcp/schema.go: the validation of a tool that a server advertises, and its annotations `x-mcp-header`.
-- `json_valid` is json.Valid and `decode` the decoder of encoding/json.
pub mod Growth
pub mod Laws
use hot_take.Base.{
  eqb, length, all, any, Outcome, ok, err, ◌>>=◌, ◌>>◌, reject_if, Text, codes, ◌==◌, ℕ, Bool, true,
  false, not, ◌&&◌, ◌||◌, Option, none, some, List, [], ◌∷◌, ◌++◌, map,
}
use hot_take.Base.Strings.{is_blank, is_lower, is_upper, is_digit, lower_byte}
use hot_take.Base.Dict.{elem}
use hot_take.Json.{
  Json, Elements, Fields, no_elements, element, no_fields, field, array, object, Decoded, value,
  field_of, as_string,
}
use hot_take.Mcp.{HeaderBinding, ToolDefinition, valid_tool_name}

pub data DefinitionError : Type 0 where
  -- those that are an errInvalidHeaderDefinition
  annotation : List Text → DefinitionError
  annotated_type duplicate_name : Text → DefinitionError
  -- the others
  name_required description_required schema_required schema_not_object : DefinitionError
  properties_not_object : List Text → DefinitionError

-- errors.Is(err, errInvalidHeaderDefinition)
unfoldable pub is_header_error : DefinitionError → Bool
is_header_error (annotation path) = true
is_header_error (annotated_type name) = true
is_header_error (duplicate_name name) = true
is_header_error _ = false

abbrev pub is_token_byte : ℕ → Bool
is_token_byte c = is_lower c || is_upper c || is_digit c || any (eqb c) (codes "!#$%&'*+-.^_`|~")

unfoldable pub valid_header_token : Text → Bool
valid_header_token s = not (s == []) && all is_token_byte s

-- strings.ToLower of a valid token
unfoldable pub fold : Text → Text
unfolding lower_byte
fold name = map lower_byte name

abbrev pub is_bindable : Text → Bool
is_bindable t = t == codes "string" || t == codes "integer" || t == codes "boolean"

-- `appendPath`
unfoldable pub append_path : List Text → Text → List Text
append_path path segment = path ++ segment ∷ []

-- What a scan yields: the bindings, and the names that it has seen.
abbrev pub Scan : Type 0
Scan = Outcome DefinitionError (List HeaderBinding × List Text)

abbrev pub checked_name : Bool → List Text → Option Text → Outcome DefinitionError Text
checked_name reachable path none = err (annotation path)
checked_name reachable path (some name) = do
  reject_if (not reachable || eqb (length path) 0 || not (valid_header_token name))
      (annotation path)
  ok name

abbrev pub checked_type : Text → Option Text → Outcome DefinitionError Text
checked_type name none = err (annotated_type name)
checked_type name (some t) = do reject_if (not (is_bindable t)) (annotated_type name); ok t

-- The annotation of an object: its fields `x-mcp-header` and `type`.
unfoldable pub scan_annotation : Option Json → Option Json → List Text → Bool → List Text → Scan
unfolding valid_header_token fold elem
scan_annotation none type path reachable names = ok ([], names)
scan_annotation (some raw_name) type path reachable names = do
  name ← checked_name reachable path (as_string (some raw_name))
  value_type ← checked_type name (as_string type)
  reject_if (elem (fold name) names) (duplicate_name name)
  ok (record { name = name; value_type = value_type; path = path } ∷ [], names ++ fold name ∷ [])

-- `scanHeaderBindings`, and its loops over a list, over the fields of an object, and over its properties.
unfoldable mutual
  unfolding scan_annotation field_of append_path ◌==◌

  pub scan : Json → List Text → Bool → List Text → Scan
  scan (object fields) path reachable names = do
    own ←
        scan_annotation (field_of (codes "x-mcp-header") fields) (field_of (codes "type") fields)
          path reachable names
    found ← scan_fields fields path reachable own.1
    ok (own.0 ++ found.0, found.1)
  scan (array elements) path reachable names = do
    seen ← scan_elements elements path names
    ok ([], seen)
  scan _ path reachable names = ok ([], names)

  pub scan_elements : Elements → List Text → List Text → Outcome DefinitionError (List Text)
  scan_elements no_elements path names = ok names
  scan_elements (element item items) path names = do
    found ← scan item path false names
    scan_elements items path found.1

  pub scan_fields : Fields → List Text → Bool → List Text → Scan
  scan_fields no_fields path reachable names = ok ([], names)
  scan_fields (field key v fields) path reachable names = do
    found ← elim (key == codes "x-mcp-header") [
      | true ↦ ok ([], names)
      | false ↦ elim (key == codes "properties" && reachable) [
        | true ↦ scan_properties v path names
        | false ↦ scan v path false names
      ]
    ]
    more ← scan_fields fields path reachable found.1
    ok (found.0 ++ more.0, more.1)

  pub scan_properties : Json → List Text → List Text → Scan
  scan_properties (object properties) path names = scan_property_list properties path names
  scan_properties _ path names = err (properties_not_object path)

  pub scan_property_list : Fields → List Text → List Text → Scan
  scan_property_list no_fields path names = ok ([], names)
  scan_property_list (field property schema properties) path names = do
    found ← scan schema (append_path path property) true names
    more ← scan_property_list properties path found.1
    ok (found.0 ++ more.0, more.1)

abbrev pub schema_object : Decoded → Outcome DefinitionError Fields
schema_object (value (object fields) rest) = ok fields
schema_object _ = err schema_not_object

module _ (json_valid : Text → Bool) (decode : Text → Decoded) where
  -- `validateToolDefinition`; the result is the definition with its bindings.
  unfoldable pub validate_tool_definition : ToolDefinition → Outcome DefinitionError ToolDefinition
  unfolding valid_tool_name is_blank scan
  validate_tool_definition definition = do
    reject_if (not (valid_tool_name definition.name)) name_required
    reject_if (is_blank definition.description) description_required
    reject_if (eqb (length definition.input_schema) 0 || not (json_valid definition.input_schema))
        schema_required
    fields ← schema_object (decode definition.input_schema)
    found ← scan (object fields) [] true []
    ok (record definition { headers = found.0 })
