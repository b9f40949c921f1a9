-- ===== src/Tests/Wirings.antt =====
-- The tools of a project with one plugin, through projectTools of cmd/hot-take/main.go.
use hot_take.Base.{ok, codes, ℕ, ◌≡◌, refl, true, false, none, some, [], ◌∷◌}
use hot_take.Base.Strings.{split}
use hot_take.Permission.{allow, deny, ask}
use hot_take.Project.{Plugin}
use hot_take.Mcp.{RemoteTool, as_tool}
use hot_take.Mcp.Client.{Client}
use hot_take.Command.{World, caller}
use hot_take.Command.ProjectTools.{Setting, ToolSet, clock_tool, project_tools}
use hot_take.Command.ProjectTools.Laws.{IsToolSet, project_tools-IsToolSet}
use hot_take.Tests.Remote.{all_valid, platform, client, listing_codec, calling_codec, weather}

abbrev plugin : Plugin
plugin = record {
  name = codes "city";
  transport = codes "mcp_streamable_http";
  endpoint = codes "https://example.com";
  token_environment = codes "TOKEN";
  approval = codes "ask";
  capabilities = record { name = codes "city.weather"; tools = codes "weather" ∷ [] } ∷ [];
}

abbrev pub setting : Setting ℕ ℕ ℕ
setting = record {
  json_valid = all_valid;
  lookup_env = λ name. some (codes "secret");
  parse_url = λ s. ok (record {
    scheme = codes "https";
    host = codes "example.com";
    hostname = codes "example.com";
    has_user = false;
    raw_query = [];
    fragment = [];
  });
  loopback_address = λ host. false;
  url_text = λ u. codes "https://example.com";
  http_client = client.http_client;
  platform = platform;
  listing = listing_codec;
  calling = calling_codec;
  wrap = λ e. 0;
  clock = record {
    context_err = λ w. (none, w);
    now = λ w. (codes "12:00", w);
    unmarshal_keys = λ s. ok [];
    marshal_time = λ s. ok s;
  };
  wrap_clock = λ e. 1;
  approver = λ request w. (ok true, w);
  visit = λ name unique. unique;
}

abbrev connected : Client ℕ ℕ
connected = record client { bearer_token = codes "secret"; client_version = codes "0.1.0-alpha.1" }

abbrev bound : RemoteTool (World ℕ) ℕ
bound = record {
  client = caller platform calling_codec setting.wrap (codes "city") connected;
  remote_name = codes "weather";
  definition = record {
    name = codes "city__weather";
    description = codes "Tells the weather.";
    input_schema = codes "schema";
    capabilities = codes "city.weather" ∷ [];
    strict = false;
  };
}

abbrev tool_set : ToolSet ℕ ℕ
tool_set = record {
  tools = record {
    tools = (codes "clock_now", clock_tool setting) ∷ (codes "city__weather", as_tool bound) ∷ [];
  };
  capabilities = record {
    providers =
        (codes "clock.read", codes "clock_now" ∷ [])
        ∷ (codes "city.weather", codes "city__weather" ∷ [])
        ∷ [];
  };
  policy = record {
    default_mode = deny;
    rules = (codes "clock_now", allow) ∷ (codes "city__weather", ask) ∷ [];
    approver = some setting.approver;
  };
}

abbrev pub before : World ℕ
before = record { outer = 0; sessions = [] }

abbrev after : World ℕ
after = record {
  outer = 1;
  sessions =
      (codes "city", record { request_count = 1; tools = (codes "weather", weather) ∷ [] }) ∷ [];
}

wiring_test : project_tools setting (plugin ∷ []) before ≡ (ok tool_set, after)
unfolding project_tools hot_take.Base.Strings.split
wiring_test = refl

project_tools-IsToolSet_example : IsToolSet setting (plugin ∷ []) tool_set
project_tools-IsToolSet_example =
    project_tools-IsToolSet setting (plugin ∷ []) tool_set before after wiring_test
