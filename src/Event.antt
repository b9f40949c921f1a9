-- ===== src/Event.antt =====
-- event/event.go. A sink runs in a world `W`; its errors are of a type `E`. A time is a number.
use hot_take.Base.{Outcome, ok, Text, ℕ}

pub data Kind : Type 0 where
  run_started skill_selected model_completed tool_started tool_completed run_completed : Kind

pub record Event : Type 0 where
  pub kind : Kind
  pub occurred_at : ℕ
  pub run_id : Text
  pub name : Text
  pub step : ℕ

-- `Sink`, by its method `Publish`
abbrev pub Sink : Type 0 → Type 0 → Type 0
Sink W E = Event → W → Outcome E (Unit {0}) × W

-- `Discard`
unfoldable pub discard : {W E : Type 0} → Sink W E
discard event w = (ok tt, w)
