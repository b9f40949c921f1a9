-- ===== src/Tests/Demonstrations.antt =====
-- The demonstration of cmd/hot-take/main.go: it answers with the time of the clock.
use hot_take.Base.{length, ok, codes, ◌==◌, ℕ, ◌≡◌, refl, none, [], ◌∷◌, map}
use hot_take.Base.Strings.{trim_space, is_blank, contains, split, lower_byte}
use hot_take.Base.Sort.{sort}
use hot_take.Base.Dict.{Dict, lookup, put, elem}
use hot_take.Command.Demo.{DemoSetting, clock_skill, run_demo, project_model}
use hot_take.Tests.Wirings.{setting, before}

-- The output keeps the length of the line.
abbrev pub demo : DemoSetting ℕ ℕ ℕ
demo = record {
  setting = setting;
  unmarshal_time = λ s. ok s;
  wrap_model = λ e. 2;
  wrap_permission = λ e. 3;
  platform = record {
    with_timeout = λ timeout w. w;
    context_err = λ w. (none, w);
    lower = map lower_byte;
    visit = λ registry. clock_skill ∷ [];
  };
  now = λ w. (0, w);
  write_line = λ line w. (none, record w { outer = length line });
}

demo_test :
    run_demo demo (codes "what" ∷ codes "time" ∷ []) before
    ≡ (ok tt, record before { outer = length (codes "The current UTC time is 12:00.") })
unfolding run_demo hot_take.Base.Strings.is_blank hot_take.Base.Strings.trim_space
    hot_take.Base.Dict.lookup hot_take.Base.Strings.split hot_take.Base.Dict.elem
    hot_take.Base.Dict.put hot_take.Event.discard hot_take.Skill.select
    hot_take.Agent.Selection.resolve_tools hot_take.Base.Sort.sort hot_take.Base.Strings.contains
    hot_take.Base.Strings.lower_byte hot_take.Capability.resolve hot_take.Tool.Registry.definitions
    hot_take.Agent.Selection.scope_check hot_take.Agent.Selection.unselected hot_take.Clock.execute
    hot_take.Agent.Loop.add_text hot_take.Base.◌==◌
demo_test = refl

model_test :
    project_model setting.parse_url setting.http_client
      (λ name. codes "key")
      (record { name = codes "openai"; model = codes "m" })
    ≡ ok (record {
      api_key = codes "key";
      model = codes "m";
      endpoint = codes "https://api.openai.com/v1/responses";
      http_client = setting.http_client;
    })
unfolding project_model hot_take.Base.Strings.trim_space
model_test = refl
