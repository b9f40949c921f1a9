-- ===== src/Provider.antt =====
-- provider/provider.go: what the runtime and a model exchange.
use hot_take.Base.{Outcome, Text, Option, none, some, List}
use hot_take.Tool.{Definition, Call, Result}

pub data Role : Type 0 where
  user assistant : Role
  other_role : Text → Role

pub record Message : Type 0 where
  pub role : Role
  pub content : Text

-- A nil field is `none`.
pub record Item : Type 0 where
  pub message : Option Message
  pub tool_call : Option Call
  pub tool_result : Option Result

pub record Request : Type 0 where
  pub instructions : Text
  pub items : List Item
  pub tools : List Definition
  pub state : Text

pub record Turn : Type 0 where
  pub text : Text
  pub tool_calls : List Call
  pub state : Text

-- `Model`, by its method `Generate`
abbrev pub Model : Type 0 → Type 0 → Type 0
Model W E = Request → W → Outcome E Turn × W

abbrev pub message_item : Message → Item
message_item m = record { message = some m; tool_call = none; tool_result = none }

abbrev pub call_item : Call → Item
call_item c = record { message = none; tool_call = some c; tool_result = none }

abbrev pub result_item : Result → Item
result_item r = record { message = none; tool_call = none; tool_result = some r }
