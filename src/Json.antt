-- ===== src/Json.antt =====
-- JSON values as encoding/json decodes them into an `any`, with its option UseNumber: a number keeps its text.
-- The fields of an object, a Go map, stand in the order in which one loop visits them.
use hot_take.Base.{if◌then◌else◌, Text, ◌==◌, Bool, Option, none, some}

mutual
  pub data Json : Type 0 where
    null : Json
    boolean : Bool → Json
    number string : Text → Json
    array : Elements → Json
    object : Fields → Json

  pub data Elements : Type 0 where
    no_elements : Elements
    element : Json → Elements → Elements

  pub data Fields : Type 0 where
    no_fields : Fields
    field : Text → Json → Fields → Fields

-- `value, exists := object[key]`
unfoldable pub field_of : Text → Fields → Option Json
field_of key no_fields = none
field_of key (field name value fields) =
    let rest = field_of key fields in if name == key then some value else rest

-- `any.(string)`
abbrev pub as_string : Option Json → Option Text
as_string (some (string s)) = some s
as_string _ = none

-- What one call of `Decode` finds: nothing but white space, a value with the input behind it, or an error.
pub data Decoded : Type 0 where
  end_of_input failed : Decoded
  value : Json → Text → Decoded
