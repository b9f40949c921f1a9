-- ===== src/Mcp/Values.antt =====
-- mcp/schema.go and mcp/client.go: the headers of a tool call, made of its arguments.
pub mod Laws
use hot_take.Base.{
  if◌then◌else◌, ltb, eqb, all, Outcome, ok, err, ◌>>=◌, ◌>>◌, reject_if, map_err, Text, codes,
  ◌==◌, ℕ, zero, suc, ◌+◌, ◌-◌, ◌*◌, ◌^◌, Bool, true, false, not, ◌&&◌, ◌||◌, Option, none, some,
  List, [], ◌∷◌, ◌++◌,
}
use hot_take.Base.Strings.{trim_space, has_prefix, is_digit}
use hot_take.Base.Int.{ℤ, pos, negsuc}
use hot_take.Base.Decimal.{decimal}
use hot_take.Json.{
  Json, null, boolean, number, string, object, Decoded, end_of_input, failed, value, field_of,
}
use hot_take.Mcp.{HeaderBinding, ToolDefinition}
use hot_take.Http.{Header, set}

pub data ValueError : Type 0 where
  undecodable not_an_object multiple_values trailing_data : ValueError
  not_a_string not_an_integer not_a_boolean : ValueError
  unsafe_integer : ℤ → ValueError
  unsupported_type : Text → ValueError
  header_error : Text → ValueError → ValueError

-- `nestedValue`, from a current value
unfoldable pub nested_value : Json → List Text → Option Json
unfolding field_of
nested_value current [] = some current
nested_value (object fields) (segment ∷ path) = elim (field_of segment fields) [
  | none ↦ none
  | some next ↦ nested_value next path
]
nested_value _ (segment ∷ path) = none

abbrev pub max_safe_integer : ℕ
max_safe_integer = 2 ^ 53 - 1

-- The value of a text of decimal digits, on top of that of the digits before it.
unfoldable pub digits_value : ℕ → Text → Option ℕ
digits_value n [] = some n
digits_value n (c ∷ s) =
    let rest = digits_value (10 * n + (c - b'0')) s in if is_digit c then rest else none

-- A text of at least one digit.
unfoldable pub number_value : Text → Option ℕ
unfolding digits_value
number_value [] = none
number_value (c ∷ s) = digits_value 0 (c ∷ s)

-- The int64 of a magnitude and a sign.
unfoldable pub signed : Bool → Option ℕ → Option ℤ
signed negative none = none
signed false (some n) = if ltb n (2 ^ 63) then some (pos n) else none
signed true (some zero) = some (pos 0)
signed true (some (suc n)) = if ltb n (2 ^ 63) then some (negsuc n) else none

-- strconv.ParseInt(text, 10, 64); an error is `none`.
unfoldable pub parse_int : Text → Option ℤ
unfolding number_value signed
parse_int [] = none
parse_int (c ∷ s) =
    if eqb c b'-'
    then signed true (number_value s)
    else if eqb c b'+'
    then signed false (number_value s)
    else signed false (number_value (c ∷ s))

-- strconv.FormatInt(n, 10)
unfoldable pub format_int : ℤ → Text
unfolding decimal
format_int (pos n) = decimal n
format_int (negsuc n) = b'-' ∷ decimal (n + 1)

-- `integer < -maxSafeInteger || integer > maxSafeInteger`
unfoldable pub exceeds : ℤ → Bool
exceeds (pos n) = ltb max_safe_integer n
exceeds (negsuc n) = ltb max_safe_integer (n + 1)

abbrev pub integer_of : Option ℤ → Outcome ValueError ℤ
integer_of none = err not_an_integer
integer_of (some n) = ok n

unfoldable pub safe_integer : Text → Outcome ValueError Text
unfolding parse_int format_int exceeds
safe_integer text = do
  integer ← integer_of (parse_int text)
  reject_if (exceeds integer) (unsafe_integer integer)
  ok (format_int integer)

abbrev pub string_value : Json → Outcome ValueError Text
string_value (string s) = ok s
string_value _ = err not_a_string

unfoldable pub integer_value : Json → Outcome ValueError Text
unfolding safe_integer
integer_value (number n) = safe_integer n
integer_value _ = err not_an_integer

abbrev pub boolean_value : Json → Outcome ValueError Text
boolean_value (boolean true) = ok (codes "true")
boolean_value (boolean false) = ok (codes "false")
boolean_value _ = err not_a_boolean

unfoldable pub binding_value : Text → Json → Outcome ValueError Text
unfolding integer_value
binding_value value_type v =
    if value_type == codes "string"
    then string_value v
    else if value_type == codes "integer"
    then integer_value v
    else if value_type == codes "boolean"
    then boolean_value v
    else err (unsupported_type value_type)

abbrev pub is_printable : ℕ → Bool
is_printable c = not (ltb c 0x20 || ltb 0x7e c)

unfoldable pub is_plain : Text → Bool
unfolding trim_space ◌==◌ has_prefix
is_plain v =
    not (v == [])
    && trim_space v == v
    && not (has_prefix v (codes "=?base64?"))
    && all is_printable v

-- `encodeHeaderValue`; `base64` is base64.StdEncoding.EncodeToString.
unfoldable pub encode_header_value : (Text → Text) → Text → Text
unfolding is_plain
encode_header_value base64 v = if is_plain v then v else codes "=?base64?" ++ base64 v ++ codes "?="

-- The arguments as an object. A JSON null is an empty map, which has no value at a path.
abbrev pub as_object : Decoded → Outcome ValueError Json
as_object (value (object fields) rest) = ok (object fields)
as_object (value null rest) = ok null
as_object _ = err undecodable

module _ (canonical base64 : Text → Text) where
  -- The loop of `callHeaders`
  unfoldable pub add_headers : List HeaderBinding → Json → Header → Outcome ValueError Header
  unfolding nested_value binding_value encode_header_value set
  add_headers [] values headers = ok headers
  add_headers (b ∷ bindings) values headers = elim (nested_value values b.path) [
    | none ↦ add_headers bindings values headers
    | some v ↦ map_err (header_error b.name) (binding_value b.value_type v) >>= λ encoded.
        add_headers bindings values (
          set canonical (codes "Mcp-Param-" ++ b.name) (encode_header_value base64 encoded) headers)
  ]

  -- `callHeaders`
  unfoldable pub call_headers : (Text → Decoded) → ToolDefinition → Text → Outcome ValueError Header
  unfolding add_headers
  call_headers decode definition arguments = do
    values ← as_object (decode arguments)
    add_headers definition.headers values []

abbrev pub or_empty_object : Text → Text
or_empty_object [] = codes "{}"
or_empty_object (c ∷ s) = c ∷ s

-- What is behind the arguments: nothing, or else an error.
abbrev pub check_trailing : Decoded → Outcome ValueError (Unit {0})
check_trailing end_of_input = ok tt
check_trailing failed = err trailing_data
check_trailing (value v rest) = err multiple_values

-- The first value of the arguments, an object, with the input behind it.
abbrev pub leading_object : Decoded → Outcome ValueError Text
leading_object (value (object _) rest) = ok rest
leading_object (value null rest) = err not_an_object
leading_object _ = err undecodable

-- `validateArguments`
unfoldable pub validate_arguments : (Text → Decoded) → Text → Outcome ValueError Text
validate_arguments decode arguments = do
  rest ← leading_object (decode (or_empty_object arguments))
  check_trailing (decode rest)
  ok (or_empty_object arguments)
