-- ===== src/Clock.antt =====
-- tools/clock/clock.go: the tool that tells the time.
use hot_take.Base.{
  eqb, length, Outcome, ok, err, ◌>>=◌, reject_if, map_err, Text, codes, true, not, Option, none,
  some, List, [], ◌∷◌,
}
use hot_take.Tool.{Definition, Tool}

pub data Error (E : Type 0) : Type 0 where
  context_error decode_error encode_error : E → Error E
  takes_no_arguments : Error E

-- What the tool takes from its context, its clock and encoding/json: the error of the context, the time in UTC as
-- RFC 3339, the keys of an object, and the encoding of a result.
pub record Platform (W E : Type 0) : Type 0 where
  pub context_err : W → Option E × W
  pub now : W → Text × W
  pub unmarshal_keys : Text → Outcome E (List Text)
  pub marshal_time : Text → Outcome E Text

abbrev pub definition : Definition
definition = record {
  name = codes "clock_now";
  description = codes "Return the current time as an RFC 3339 timestamp.";
  input_schema = codes "{\"type\":\"object\",\"properties\":{},\"additionalProperties\":false}";
  capabilities = codes "clock.read" ∷ [];
  strict = true;
}

module _ {W E : Type 0} (platform : Platform W E) where
  unfoldable pub check_arguments : Text → Outcome (Error E) (Unit {0})
  check_arguments arguments = do
    input ← map_err decode_error (platform.unmarshal_keys arguments)
    reject_if (not (eqb (length input) 0)) takes_no_arguments

  unfoldable pub tell : Outcome (Error E) (Unit {0}) → W → Outcome (Error E) Text × W
  tell (err e) w = (err e, w)
  tell (ok u) w =
      let (time, w') = platform.now w in (map_err encode_error (platform.marshal_time time), w')

  unfoldable pub respond : Text → Option E × W → Outcome (Error E) Text × W
  unfolding check_arguments tell
  respond arguments (some e, w) = (err (context_error e), w)
  respond arguments (none, w) = tell (check_arguments arguments) w

  -- `Execute`
  unfoldable pub execute : Text → W → Outcome (Error E) Text × W
  unfolding respond
  execute arguments w = respond arguments (platform.context_err w)

-- The tool in a world that has that of the clock in it, with errors that are wrapped.
abbrev pub tool :
    {V W E F : Type 0} → Platform W E → (V → W) → (W → V → V) → (Error E → F) → Tool V F
tool platform read write wrap = record {
  definition = definition;
  execute = λ arguments v.
      let (result, w) = execute platform arguments (read v) in (map_err wrap result, write w v);
}
