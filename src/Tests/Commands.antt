-- ===== src/Tests/Commands.antt =====
-- Commands of cmd/hot-take/main.go, on the project, the clients and the provider of the other tests.
use hot_take.Base.{
  if◌then◌else◌, eqb, length, ok, err, codes, ◌==◌, ℕ, ◌≡◌, refl, none, [], ◌∷◌, map,
}
use hot_take.Base.Strings.{trim_space, is_blank, contains, split, lower_byte}
use hot_take.Base.Sort.{sort}
use hot_take.Base.Dict.{Dict, lookup, put, elem}
use hot_take.Base.Int.{pos}
use hot_take.Command.{World, not_advertised}
use hot_take.Command.Main.{
  MainSetting, Options, options_not_positive, unknown_command, tools_failed, run_project,
  run_command,
}
use hot_take.Tests.Projects
use hot_take.Tests.Projects.{loaded_skill, documented}
use hot_take.Tests.Remote.{listing_codec, advertised, weather}
use hot_take.Project.Load as Load
use hot_take.Agent.{Runtime}
use hot_take.Openai
use hot_take.Command.ProjectTools.{ToolSet}
use hot_take.Command.Main.Laws.{IsProjectRun, run_project-IsProjectRun}
use hot_take.Tests.Conversations
use hot_take.Tests.Wirings.{setting, before}
use hot_take.Tests.Demonstrations.{demo}

abbrev given : Options
given = record {
  project_directory = codes "p";
  timeout = pos 1;
  max_tool_calls = pos 1;
  arguments = codes "hello" ∷ [];
}

abbrev main : MainSetting ℕ ℕ ℕ
main = record {
  demo = demo;
  parse_flags = λ arguments.
      ok (if eqb (length arguments) 1 then given else record given { timeout = pos 0 });
  files = Projects.platform;
  get_env = λ name. codes "key";
  model_client = setting.http_client;
  codec = Conversations.codec;
  wrap_generate = λ e. 4;
  wrap_denial = λ e. 5;
  panicked = 6;
}

version_test :
    run_command main (codes "--version" ∷ []) before ≡ (ok tt, record before { outer = 13 })
unfolding run_command
version_test = refl

unknown_test :
    run_command main (codes "walk" ∷ []) before ≡ (err (unknown_command (codes "walk")), before)
unfolding run_command
unknown_test = refl

options_test : run_command main (codes "run" ∷ []) before ≡ (err options_not_positive, before)
unfolding run_command
options_test = refl

-- The server of the plugin github does not have the tool that the project maps.
plugin_test :
    (run_command main (codes "run" ∷ codes "hello" ∷ []) before).0
    ≡ err (tools_failed (not_advertised (codes "github") (codes "get")))
unfolding run_command hot_take.Base.Strings.split
plugin_test = refl

-- The server has the tool, and the model answers at once.
abbrev ready : MainSetting ℕ ℕ ℕ
ready = record main {
  demo = record demo {
    setting = record setting {
      listing = record listing_codec {
        list_result = λ s. ok (record {
          result_type = [];
          tools = record advertised { name = codes "get" } ∷ [];
          next_cursor = [];
        });
      };
    };
    platform = record {
      with_timeout = λ timeout w. w;
      context_err = λ w. (none, w);
      lower = map lower_byte;
      visit = λ registry. loaded_skill ∷ [];
    };
  };
  codec = record Conversations.codec {
    unmarshal_response = λ s. ok (record {
      id = codes "r1";
      output =
          record {
            type = codes "message";
            call_id = [];
            name = [];
            arguments = [];
            content = record { type = codes "output_text"; text = codes "hi" } ∷ [];
          }
          ∷ [];
    });
  };
}

abbrev after : World ℕ
after = record {
  outer = 2;
  sessions =
      (
        codes "github",
        record {
          request_count = 1;
          tools = (codes "get", record weather { name = codes "get" }) ∷ [];
        },
      )
      ∷ [];
}

project_test : run_project ready (codes "hello" ∷ []) before ≡ (ok tt, after)
unfolding run_project hot_take.Base.Strings.is_blank hot_take.Base.Strings.trim_space
    hot_take.Base.Dict.lookup hot_take.Base.Strings.split hot_take.Base.Dict.elem
    hot_take.Base.Dict.put hot_take.Event.discard hot_take.Skill.select
    hot_take.Agent.Selection.resolve_tools hot_take.Base.Sort.sort hot_take.Base.Strings.contains
    hot_take.Base.Strings.lower_byte hot_take.Capability.resolve hot_take.Tool.Registry.definitions
    hot_take.Agent.Selection.scope_check hot_take.Agent.Selection.unselected hot_take.Clock.execute
    hot_take.Agent.Loop.add_text hot_take.Base.◌==◌
project_test = refl

run_project-IsProjectRun_example :
    (options : Options) × (definition : Load.Definition) × (client : Openai.Client ℕ ℕ)
    × (set : ToolSet ℕ ℕ) × (runtime : Runtime (World ℕ) ℕ) × IsProjectRun ready
        (codes "hello" ∷ [])
        before
        after
        options
        definition
        client
        set
        runtime
run_project-IsProjectRun_example =
    run_project-IsProjectRun ready (codes "hello" ∷ []) before after documented project_test
