-- ===== src/Command/Main.antt =====
-- cmd/hot-take/main.go: runProject and run.
pub mod Laws
pub mod Assembly
use hot_take.Base.{
  if◌then◌else◌, ltb, Outcome, ok, err, ◌>>=◌, ◌>>◌, reject_if, map_err, Text, codes, ◌==◌, Bool,
  false, not, ◌||◌, Option, none, some, List, [], ◌∷◌,
}
use hot_take.Base.Strings.{trim_space, join}
use hot_take.Base.Int.{ℤ, pos_part, pos, negsuc}
use hot_take.Permission
use hot_take.Permission.{Policy, authorize}
use hot_take.Provider.{Model}
use hot_take.Project
use hot_take.Project.Files as Files
use hot_take.Project.Load as Load
use hot_take.Project.Load.{load}
use hot_take.Http.{Transport}
use hot_take.Openai
use hot_take.Openai.Generate as Generate
use hot_take.Openai.Generate.{generate}
use hot_take.Agent
use hot_take.Agent.{Runtime, Authorizer, new_runtime}
use hot_take.Agent.Effects
use hot_take.Agent.Loop.{run}
use hot_take.Command
use hot_take.Command.{World}
use hot_take.Command.ProjectTools.{ToolSet, application_version, project_tools}
use hot_take.Command.Demo.{DemoSetting, ModelError, project_model, written, print_answer, run_demo}
use hot_take.Command.Demo as Demo

-- The options of the command run, with the arguments behind them; a duration is its count of nanoseconds.
pub record Options : Type 0 where
  pub project_directory : Text
  pub timeout : ℤ
  pub max_tool_calls : ℤ
  pub arguments : List Text

pub data Error (E F : Type 0) : Type 0 where
  parse_failed : E → Error E F
  options_not_positive message_required usage version_usage : Error E F
  unknown_command : Text → Error E F
  load_failed : Load.Error E → Error E F
  model_failed : ModelError E → Error E F
  tools_failed : Command.Error E → Error E F
  runtime_failed : Agent.ConfigError → Error E F
  demo_failed : Demo.Error E F → Error E F
  version_failed : E → Error E F

-- What the command takes beside what the demonstration takes: the flags as package flag parses them, what the loader
-- and the provider take, and how errors are wrapped. `panicked` stands for the panic of a policy without an
-- approver.
pub record MainSetting (W E F : Type 0) : Type 0 where
  pub demo : DemoSetting W E F
  pub parse_flags : List Text → Outcome E Options
  pub files : Files.Platform E
  pub get_env : Text → Text
  pub model_client : Transport W E
  pub codec : Generate.Codec E
  pub wrap_generate : Generate.Error E → F
  pub wrap_denial : Permission.Error F → F
  pub panicked : F

abbrev pub is_positive : ℤ → Bool
is_positive (pos n) = ltb 0 n
is_positive (negsuc n) = false

unfoldable pub check_options : {E F : Type 0} → Options → Outcome (Error E F) (Unit {0})
check_options options =
    reject_if (not (is_positive options.timeout) || not (is_positive options.max_tool_calls))
      options_not_positive

module _ {W E F : Type 0} (main : MainSetting W E F) where
  -- The provider as a model of the runtime
  unfoldable pub model_of : Openai.Client W E → Model (World W) F
  unfolding generate
  model_of client request w =
      let (turn, outer) = generate main.codec client request w.outer in
      (map_err main.wrap_generate turn, record w { outer = outer })

  -- The policy as an authorizer of the runtime
  unfoldable pub authorizer_of : Policy (World W) F → Authorizer (World W) F
  unfolding authorize
  authorizer_of policy request w = elim (authorize policy request w) [
    | none ↦ (err main.panicked, w)
    | some (answer, w') ↦ (map_err main.wrap_denial answer, w')
  ]

  -- The configuration that runProject gives to NewRuntime
  abbrev pub runtime_config :
      Options → Load.Definition → Model (World W) F → ToolSet W F → Agent.Config (World W) F
  runtime_config options definition model set = record {
    name = definition.name;
    instructions = definition.instructions;
    max_steps = definition.max_steps;
    max_tool_calls = options.max_tool_calls;
    run_timeout = options.timeout;
    model = some model;
    skills = some definition.skills;
    capabilities = some set.capabilities;
    tools = some set.tools;
    authorizer = some (authorizer_of set.policy);
    events = none;
    clock = none;
  }

  unfoldable pub project_runtime :
      Options
      → Load.Definition
      → Model (World W) F
      → ToolSet W F
      → Outcome (Error E F) (Runtime (World W) F)
  unfolding new_runtime authorizer_of
  project_runtime options definition model set =
      map_err runtime_failed
        (new_runtime main.demo.now (runtime_config options definition model set))

  unfoldable pub run_runtime :
      Text
      → Outcome (Error E F) (Runtime (World W) F)
      → World W
      → Outcome (Error E F) (Unit {0}) × World W
  unfolding run print_answer
  run_runtime message (err e) w = (err e, w)
  run_runtime message (ok runtime) w =
      let (done, w') =
        print_answer main.demo (
          run main.demo.platform runtime message
            (record { world = w; sequence = 0; trace = [] })) in
      (map_err demo_failed done, w')

  -- The project that is loaded, and its model
  unfoldable pub load_project : Text → Outcome (Error E F) (Load.Definition × Openai.Client W E)
  unfolding load project_model
  load_project directory = do
    definition ← map_err load_failed (load main.files directory)
    client ← map_err model_failed (
        project_model main.demo.setting.parse_url main.model_client main.get_env
          definition.provider)
    ok (definition, client)

  -- `runProject` behind its options
  unfoldable pub run_loaded :
      Options
      → Text
      → Outcome (Error E F) (Load.Definition × Openai.Client W E)
      → World W
      → Outcome (Error E F) (Unit {0}) × World W
  unfolding project_tools project_runtime run_runtime model_of
  run_loaded options message (err e) w = (err e, w)
  run_loaded options message (ok (definition, client)) w =
      let (set, w') = project_tools main.demo.setting definition.plugins w in
      run_runtime message
        (map_err tools_failed set >>= project_runtime options definition (model_of client)) w'

  unfoldable pub checked_options : List Text → Outcome (Error E F) Options
  unfolding check_options
  checked_options arguments = do
    options ← map_err parse_failed (main.parse_flags arguments)
    check_options options
    ok options

  unfoldable pub run_options :
      Outcome (Error E F) Options → World W → Outcome (Error E F) (Unit {0}) × World W
  unfolding run_loaded load_project trim_space join ◌==◌
  run_options (err e) w = (err e, w)
  run_options (ok options) w =
      let message = trim_space (join options.arguments (codes " ")) in
      let w' = main.demo.platform.with_timeout (pos_part options.timeout) w in
      if message == []
      then (err message_required, w')
      else run_loaded options message (load_project options.project_directory) w'

  -- `runProject`
  unfoldable pub run_project : List Text → World W → Outcome (Error E F) (Unit {0}) × World W
  unfolding checked_options run_options
  run_project arguments w = run_options (checked_options arguments) w

  unfoldable pub version_written : Option E × World W → Outcome (Error E F) (Unit {0}) × World W
  version_written (none, w) = (ok tt, w)
  version_written (some e, w) = (err (version_failed e), w)

  -- The command --version
  unfoldable pub print_version : List Text → World W → Outcome (Error E F) (Unit {0}) × World W
  unfolding version_written
  print_version [] w = version_written (main.demo.write_line application_version w)
  print_version (a ∷ arguments) w = (err version_usage, w)

  -- `run` of main.go
  unfoldable pub run_command : List Text → World W → Outcome (Error E F) (Unit {0}) × World W
  unfolding print_version run_demo run_project ◌==◌
  run_command [] w = (err usage, w)
  run_command (command ∷ arguments) w =
      if command == codes "--version"
      then print_version arguments w
      else if command == codes "demo"
      then (
        map_err demo_failed (run_demo main.demo arguments w).0,
        (run_demo main.demo arguments w).1,
      )
      else if command == codes "run"
      then run_project arguments w
      else (err (unknown_command command), w)
