-- ===== src/Agent.antt =====
-- agent/runtime.go: the configuration of a runtime. The loop is in `Agent.Loop`, its effects in
-- `Agent.Effects`.
pub mod Effects
pub mod Loop
pub mod Selection
pub mod Protocol
pub mod Budget
pub mod Authority
pub mod Transcript
pub mod Announcements
pub mod Endings
pub mod Hoare
pub mod Refinement
pub mod Ensures
pub mod Prepare
pub mod Scope
pub mod Whole
pub mod Outcomes
pub mod Configuration
pub mod Runs
use hot_take.Base.{
  if◌then◌else◌, ltb, eqb, Outcome, ok, err, ◌>>=◌, ◌>>◌, reject_if, Text, ℕ, ◌||◌, Option, none,
  some,
}
use hot_take.Base.Strings.{is_blank}
use hot_take.Base.Int.{ℤ, pos, negsuc, pos_part, is_negative}
use hot_take.Tool.{Call}
use hot_take.Tool.Registry as ToolRegistry
use hot_take.Capability
use hot_take.Skill
use hot_take.Permission
use hot_take.Provider.{Model}
use hot_take.Event.{Sink, discard}

-- An authorizer of package permission, with errors of any type.
abbrev pub Authorizer : Type 0 → Type 0 → Type 0
Authorizer W E = Permission.Request → W → Outcome E (Unit {0}) × W

abbrev pub Clock : Type 0 → Type 0
Clock W = W → ℕ × W

-- `Config`. A nil dependency is `none`; a duration is its count of nanoseconds.
pub record Config (W E : Type 0) : Type 0 where
  pub name : Text
  pub instructions : Text
  pub max_steps : ℤ
  pub max_tool_calls : ℤ
  pub run_timeout : ℤ
  pub model : Option (Model W E)
  pub skills : Option Skill.Registry
  pub capabilities : Option Capability.Registry
  pub tools : Option (ToolRegistry.Registry W E)
  pub authorizer : Option (Authorizer W E)
  pub events : Option (Sink W E)
  pub clock : Option (Clock W)

-- `Runtime`, without its counter `sequence`, which is part of the state of a run. Its limits were
-- checked not to be negative.
pub record Runtime (W E : Type 0) : Type 0 where
  pub name : Text
  pub instructions : Text
  pub max_steps : ℕ
  pub max_tool_calls : ℕ
  pub run_timeout : ℕ
  pub model : Model W E
  pub skills : Skill.Registry
  pub capabilities : Capability.Registry
  pub tools : ToolRegistry.Registry W E
  pub authorizer : Authorizer W E
  pub events : Sink W E
  pub clock : Clock W

-- The texts of ErrInvalidConfiguration.
pub data ConfigError : Type 0 where
  name_and_instructions_required max_steps_not_positive negative_limit dependency_missing :
      ConfigError

abbrev pub default_max_tool_calls : ℕ
default_max_tool_calls = 32

-- Two minutes
abbrev pub default_run_timeout : ℕ
default_run_timeout = 120000000000

unfoldable pub or_default : ℕ → ℕ → ℕ
or_default n d = if eqb n 0 then d else n

unfoldable pub required : {A : Type 0} → Option A → Outcome ConfigError A
required none = err dependency_missing
required (some a) = ok a

unfoldable pub or_else : {A : Type 0} → Option A → A → A
or_else none a = a
or_else (some a) b = a

-- `NewRuntime`; `now` is time.Now.
unfoldable pub new_runtime :
    {W E : Type 0} → Clock W → Config W E → Outcome ConfigError (Runtime W E)
unfolding or_default required or_else
new_runtime now config = do
  reject_if (is_blank config.name || is_blank config.instructions) name_and_instructions_required
  reject_if (ltb (pos_part config.max_steps) 1) max_steps_not_positive
  reject_if (is_negative config.max_tool_calls || is_negative config.run_timeout) negative_limit
  model ← required config.model
  skills ← required config.skills
  capabilities ← required config.capabilities
  tools ← required config.tools
  authorizer ← required config.authorizer
  ok (record {
    name = config.name;
    instructions = config.instructions;
    max_steps = pos_part config.max_steps;
    max_tool_calls = or_default (pos_part config.max_tool_calls) default_max_tool_calls;
    run_timeout = or_default (pos_part config.run_timeout) default_run_timeout;
    model = model;
    skills = skills;
    capabilities = capabilities;
    tools = tools;
    authorizer = authorizer;
    events = or_else config.events discard;
    clock = or_else config.clock now;
  })
