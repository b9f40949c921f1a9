-- ===== src/Tool.antt =====
-- tool/tool.go: definitions, calls and results, and the interface `Tool`.
-- A tool runs in a world `W`, which holds all that its effects reach, the context included; its errors
-- are of a type `E`.
pub mod Registry
use hot_take.Base.{Outcome, Text, Bool, List}

pub record Definition : Type 0 where
  pub name : Text
  pub description : Text
  pub input_schema : Text
  pub capabilities : List Text
  pub strict : Bool

pub record Call : Type 0 where
  pub id : Text
  pub name : Text
  pub arguments : Text

pub record Result : Type 0 where
  pub call_id : Text
  pub content : Text

pub record Tool (W E : Type 0) : Type 0 where
  pub definition : Definition
  pub execute : Text → W → Outcome E Text × W
