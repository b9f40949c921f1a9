-- ===== src/Mcp/Schema/Laws.antt =====
-- The definitions that `validateToolDefinition` accepts.
use hot_take.Base.{
  eqb, length, All, ok, reject_if, >>=-eq-ok, Text, ◌≡◌, refl, subst, Bool, true, false, not, ◌||◌,
  [], arith, ok-injective,
}
use hot_take.Base.Strings.{is_blank}
use hot_take.Base.Dict.{IsDistinct}
use hot_take.Json.{Decoded, object}
use hot_take.Mcp.{ToolDefinition, valid_tool_name}
use hot_take.Mcp.Schema.{
  name_required, description_required, schema_required, scan, schema_object,
  validate_tool_definition,
}
use hot_take.Mcp.Schema.Growth.{IsBinding, folded, scan-Grows}

-- A definition that the client may offer: its name is valid, it has a description and a valid schema, and the
-- names of its headers are distinct however they are cased.
abbrev pub IsOffered : (Text → Bool) → ToolDefinition → Type 0
IsOffered json_valid d =
    (valid_tool_name d.name ≡ true)
    × (is_blank d.description ≡ false)
    × (json_valid d.input_schema ≡ true)
    × IsDistinct (folded d.headers)
    × All IsBinding d.headers

-- A definition that `validateToolDefinition` accepts is the given one with header bindings. It has a valid
-- name, a description and a valid schema. Each of its headers has a token as its name, which no other header
-- has whatever the case, the type string, integer or boolean, and a path that is not empty.
pub validate_tool_definition-eq-ok :
    (json_valid : Text → Bool) (decode : Text → Decoded) (given d : ToolDefinition)
    → validate_tool_definition json_valid decode given ≡ ok d
    → (d ≡ record given { headers = d.headers }) × IsOffered json_valid d
unfolding validate_tool_definition
validate_tool_definition-eq-ok json_valid decode given d h =
    let (_, named, h) =
      >>=-eq-ok (reject_if (not (valid_tool_name given.name)) name_required) _ h in
    let (_, described, h) =
      >>=-eq-ok (reject_if (is_blank given.description) description_required) _ h in
    let (_, schema, h) =
      >>=-eq-ok
        (reject_if (eqb (length given.input_schema) 0 || not (json_valid given.input_schema))
          schema_required)
        _ h in
    let (fields, _, h) = >>=-eq-ok (schema_object (decode given.input_schema)) _ h in
    let (found, scanned, h) = >>=-eq-ok (scan (object fields) [] true []) _ h in
    let (n, distinct, bindings, _) = scan-Grows (object fields) [] true [] found scanned in
    subst
      (λ (d' : ToolDefinition).
        (d' ≡ record given { headers = d'.headers }) × IsOffered json_valid d')
      (ok-injective h)
      (refl, (ground arith, ground arith, ground arith, subst IsDistinct n (distinct tt), bindings))
