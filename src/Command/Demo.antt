-- ===== src/Command/Demo.antt =====
-- cmd/hot-take/main.go: runDemo with its model, and projectModel.
use hot_take.Base.{
  if◌then◌else◌, Outcome, ok, err, ◌>>=◌, map_err, Text, codes, ◌==◌, Option, none, some, List, [],
  ◌∷◌, ◌++◌,
}
use hot_take.Base.Strings.{trim_space, join}
use hot_take.Base.Int.{pos}
use hot_take.Tool.{Call}
use hot_take.Skill
use hot_take.Skill.{Skill}
use hot_take.Permission
use hot_take.Permission.{allow_all}
use hot_take.Provider.{Item, Turn, Model}
use hot_take.Project
use hot_take.Http.{Transport, Url}
use hot_take.Openai
use hot_take.Agent
use hot_take.Agent.{Runtime, Authorizer, Clock, new_runtime}
use hot_take.Agent.Effects
use hot_take.Agent.Loop.{run}
use hot_take.Command
use hot_take.Command.{World}
use hot_take.Command.ProjectTools.{Setting, built_in_tools}

pub data Error (E F : Type 0) : Type 0 where
  message_required : Error E F
  tools_failed : Command.Error E → Error E F
  skills_failed : Skill.Error → Error E F
  runtime_failed : Agent.ConfigError → Error E F
  run_failed : Effects.Error F → Error E F
  write_failed : E → Error E F

-- What the demonstration takes beside what its tools take: the decoder of a clock's result, the platform of a run,
-- time.Now, the output, and how errors are wrapped.
pub record DemoSetting (W E F : Type 0) : Type 0 where
  pub setting : Setting W E F
  pub unmarshal_time : Text → Outcome E Text
  pub wrap_model : E → F
  pub wrap_permission : Permission.Error E → F
  pub platform : Effects.Platform (World W) F
  pub now : Clock (World W)
  pub write_line : Text → World W → Option E × World W

abbrev pub clock_call : Call
clock_call = record { id = codes "clock-call"; name = codes "clock_now"; arguments = codes "{}" }

abbrev pub time_turn : Text → Turn
time_turn time = record {
  text = codes "The current UTC time is " ++ time ++ codes ".";
  tool_calls = [];
  state = [];
}

-- `Generate` of exampleModel, over the items of a request
unfoldable pub answer_items : {E : Type 0} → (Text → Outcome E Text) → List Item → Outcome E Turn
answer_items unmarshal_time [] = ok (record { text = []; tool_calls = clock_call ∷ []; state = [] })
answer_items unmarshal_time (item ∷ items) = elim item.tool_result [
  | none ↦ answer_items unmarshal_time items
  | some result ↦ unmarshal_time result.content >>= λ time. ok (time_turn time)
]

unfoldable pub example_model : {V E F : Type 0} → (Text → Outcome E Text) → (E → F) → Model V F
unfolding answer_items
example_model unmarshal_time wrap request w =
    (map_err wrap (answer_items unmarshal_time request.items), w)

abbrev pub clock_skill : Skill
clock_skill = record {
  name = codes "clock";
  description = codes "Answer questions about the current time.";
  instructions = codes "Use the clock tool before answering.";
  examples = codes "time" ∷ codes "date" ∷ codes "day" ∷ [];
  required_capabilities = codes "clock.read" ∷ [];
}

module _ {W E F : Type 0} (demo : DemoSetting W E F) where
  -- permission.AllowAll
  abbrev pub allow_every : Authorizer (World W) F
  allow_every request w =
      let (answer, w') = allow_all {E = E} request w in (map_err demo.wrap_permission answer, w')

  -- The runtime of the demonstration
  unfoldable pub demo_runtime : Outcome (Error E F) (Runtime (World W) F)
  unfolding built_in_tools Skill.new_registry new_runtime allow_all example_model
  demo_runtime = do
    built ← map_err tools_failed (built_in_tools demo.setting)
    skills ← map_err skills_failed (Skill.new_registry (codes "clock") (clock_skill ∷ []))
    map_err runtime_failed (
        new_runtime demo.now (record {
          name = codes "Base Agent";
          instructions = codes "Answer accurately and concisely.";
          max_steps = pos 4;
          max_tool_calls = pos 0;
          run_timeout = pos 0;
          model = some (example_model demo.unmarshal_time demo.wrap_model);
          skills = some skills;
          capabilities = some built.1;
          tools = some built.0;
          authorizer = some allow_every;
          events = none;
          clock = none;
        }))

  unfoldable pub written : Option E × World W → Outcome (Error E F) (Unit {0}) × World W
  written (none, w) = (ok tt, w)
  written (some e, w) = (err (write_failed e), w)

  -- The answer of a run, on the output
  unfoldable pub print_answer :
      Outcome (Effects.Error F) Text × Effects.State (World W) F
      → Outcome (Error E F) (Unit {0}) × World W
  unfolding written
  print_answer (err e, s) = (err (run_failed e), s.world)
  print_answer (ok answer, s) = written (demo.write_line answer s.world)

  unfoldable pub run_message :
      Text
      → Outcome (Error E F) (Runtime (World W) F)
      → World W
      → Outcome (Error E F) (Unit {0}) × World W
  unfolding print_answer run
  run_message message (err e) w = (err e, w)
  run_message message (ok runtime) w =
      print_answer
        (run demo.platform runtime message (record { world = w; sequence = 0; trace = [] }))

  -- `runDemo`
  unfoldable pub run_demo : List Text → World W → Outcome (Error E F) (Unit {0}) × World W
  unfolding trim_space join run_message demo_runtime ◌==◌
  run_demo arguments w =
      let message = trim_space (join arguments (codes " ")) in
      if message == [] then (err message_required, w) else run_message message demo_runtime w

pub data ModelError (E : Type 0) : Type 0 where
  create_failed : Openai.ConfigError E → ModelError E
  unsupported_provider : Text → ModelError E

-- `projectModel`; `get_env` is os.Getenv.
unfoldable pub project_model :
    {W E : Type 0}
    → (Text → Outcome E Url)
    → Transport W E
    → (Text → Text)
    → Project.Provider
    → Outcome (ModelError E) (Openai.Client W E)
unfolding Openai.new ◌==◌
project_model parse_url default_client get_env provider =
    if provider.name == codes "openai"
    then map_err create_failed (
        Openai.new parse_url default_client (record {
          api_key = get_env (codes "OPENAI_API_KEY");
          model = provider.model;
          base_url = [];
          http_client = none;
        }))
    else err (unsupported_provider provider.name)
