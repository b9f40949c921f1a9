-- ===== src/Tests/Fixture.antt =====
-- A small agent: one skill, one capability, one tool, and a model that asks for the tool once.
use hot_take.Base.{if◌then◌else◌, ok, Text, codes, ◌==◌, ℕ, ◌+◌, true, none, List, [], ◌∷◌, map}
use hot_take.Base.Strings.{lower_byte}
use hot_take.Base.Dict.{Dict}
use hot_take.Tool.{Tool, Call}
use hot_take.Tool.Registry as ToolRegistry
use hot_take.Capability
use hot_take.Skill
use hot_take.Provider.{Model}
use hot_take.Event.{discard}
use hot_take.Agent.{Runtime}
use hot_take.Agent.Effects.{Platform, State}

abbrev pub lower : Text → Text
lower = map lower_byte

abbrev pub clock_name : Text
clock_name = codes "clock_now"

abbrev pub clock_tool : Tool ℕ Text
clock_tool = record {
  definition = record {
    name = clock_name;
    description = codes "The time.";
    input_schema = codes "{}";
    capabilities = codes "clock.read" ∷ [];
    strict = true;
  };
  execute = λ arguments w. (ok (codes "noon"), w);
}

abbrev pub tools : ToolRegistry.Registry ℕ Text
tools = record { tools = (clock_name, clock_tool) ∷ [] }

abbrev pub providers : Dict (List Text)
providers = (codes "clock.read", clock_name ∷ []) ∷ []

abbrev pub capabilities : Capability.Registry
capabilities = record { providers = providers }

abbrev pub day : Skill.Skill
day = record {
  name = codes "day";
  description = codes "Tells the time.";
  instructions = codes "Read the clock.";
  examples = codes "time" ∷ [];
  required_capabilities = codes "clock.read" ∷ [];
}

abbrev pub night : Skill.Skill
night = record day { name = codes "night"; examples = codes "dark" ∷ [] }

abbrev pub skills : Skill.Registry
skills = record {
  default_name = codes "night";
  skills = (codes "day", day) ∷ (codes "night", night) ∷ [];
}

abbrev pub platform : Platform ℕ Text
platform = record {
  with_timeout = λ timeout w. w;
  context_err = λ w. (none, w);
  lower = lower;
  visit = λ registry. day ∷ night ∷ [];
}

abbrev pub call_of : Text → Call
call_of name = record { id = codes "c1"; name = name; arguments = codes "{}" }

-- A model that asks for a tool in its first turn and answers in its second.
abbrev pub asks_for : Text → Model ℕ Text
asks_for name request w =
    if request.state == []
    then (ok (record { text = []; tool_calls = call_of name ∷ []; state = codes "s" }), w)
    else (ok (record { text = codes " noon "; tool_calls = []; state = codes "s" }), w)

abbrev pub runtime : Runtime ℕ Text
runtime = record {
  name = codes "agent";
  instructions = codes "Help.";
  max_steps = 2;
  max_tool_calls = 1;
  run_timeout = 1;
  model = asks_for clock_name;
  skills = skills;
  capabilities = capabilities;
  tools = tools;
  authorizer = λ request w. (ok tt, w);
  events = discard;
  clock = λ w. (w, w + 1);
}

abbrev pub start : State ℕ Text
start = record { world = 0; sequence = 0; trace = [] }

abbrev pub question : Text
question = codes "What time is it?"
