-- ===== src/Tests/Configurations.antt =====
-- A configuration with its limits left at zero.
use hot_take.Base.{ok, Text, ℕ, ◌≡◌, refl, none, some}
use hot_take.Base.Int.{pos}
use hot_take.Event.{discard}
use hot_take.Agent.{Config, Runtime, new_runtime}
use hot_take.Agent.Configuration.{HasLimits, HasDependencies, new_runtime-eq-ok}
use hot_take.Tests.Fixture.{runtime}

abbrev config : Config ℕ Text
config = record {
  name = runtime.name;
  instructions = runtime.instructions;
  max_steps = pos 2;
  max_tool_calls = pos 0;
  run_timeout = pos 0;
  model = some runtime.model;
  skills = some runtime.skills;
  capabilities = some runtime.capabilities;
  tools = some runtime.tools;
  authorizer = some runtime.authorizer;
  events = none;
  clock = none;
}

abbrev configured : Runtime ℕ Text
configured = record runtime { max_tool_calls = 32; run_timeout = 120000000000; events = discard }

configured_test : new_runtime runtime.clock config ≡ ok configured
unfolding new_runtime hot_take.Base.Strings.is_blank
configured_test = refl

new_runtime-eq-ok_example :
    HasLimits runtime.clock config configured × HasDependencies runtime.clock config configured
new_runtime-eq-ok_example = new_runtime-eq-ok runtime.clock config configured configured_test
