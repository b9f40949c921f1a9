-- ===== src/Command/ProjectTools.antt =====
-- cmd/hot-take/main.go: projectTools and builtInTools.
pub mod Laws
use hot_take.Base.{
  Outcome, ok, err, ◌>>=◌, ◌>>◌, reject_if, map_err, Text, codes, ◌==◌, Bool, not, Option, some,
  List, [], ◌∷◌,
}
use hot_take.Base.Dict.{Dict}
use hot_take.Http.{Transport, Url}
use hot_take.Tool.{Tool}
use hot_take.Clock
use hot_take.Tool.Registry as Tools
use hot_take.Tool.Registry.{register, new_registry}
use hot_take.Capability
use hot_take.Permission.{allow, deny, Policy, Approver, new_policy}
use hot_take.Project.{Plugin}
use hot_take.Mcp.{ToolDefinition}
use hot_take.Mcp.Client
use hot_take.Mcp.Client.{Client, Platform}
use hot_take.Mcp.Client.Listing
use hot_take.Mcp.Client.Calling
use hot_take.Command.{
  World, Error, unsupported_transport, client_failed, clock_failed, capabilities_failed,
  policy_failed, caller, discover,
}
use hot_take.Command.Wiring.{Wiring, wire_plugin, token_of}

abbrev pub application_version : Text
application_version = codes "0.1.0-alpha.1"

-- What projectTools is given, and what it takes from the libraries: json.Valid, os.LookupEnv, url.Parse, net.ParseIP,
-- the HTTP client with its timeout, what the clients of the plugins take, an approver (`terminal_approver` is the program's), and the order in
-- which NewRegistry visits the set of a capability's tools.
pub record Setting (W E F : Type 0) : Type 0 where
  pub json_valid : Text → Bool
  pub lookup_env : Text → Option Text
  pub parse_url : Text → Outcome E Url
  pub loopback_address : Text → Bool
  pub url_text : Url → Text
  pub http_client : Transport W E
  pub platform : Platform E
  pub listing : Listing.Codec E
  pub calling : Calling.Codec E
  pub wrap : Calling.Error E → F
  pub clock : Clock.Platform (World W) E
  pub wrap_clock : Clock.Error E → F
  pub approver : Approver (World W) F
  pub visit : Text → List Text → List Text

-- What projectTools returns.
pub record ToolSet (W F : Type 0) : Type 0 where
  pub tools : Tools.Registry (World W) F
  pub capabilities : Capability.Registry
  pub policy : Policy (World W) F

abbrev pub clock_capabilities : Dict (List Text)
clock_capabilities = (codes "clock.read", codes "clock_now" ∷ []) ∷ []

module _ {W E F : Type 0} (setting : Setting W E F) where
  abbrev pub clock_tool : Tool (World W) F
  clock_tool = Clock.tool setting.clock (λ w. w) (λ w v. w) setting.wrap_clock

  -- The client of a plugin
  unfoldable pub client_of : Plugin → Outcome (Error E) (Client W E)
  unfolding token_of Client.new ◌==◌
  client_of plugin = do
    reject_if (not (plugin.transport == codes "mcp_streamable_http"))
        (unsupported_transport plugin.name plugin.transport)
    token ← token_of setting.lookup_env plugin
    map_err (client_failed plugin.name) (
        Client.new setting.parse_url setting.loopback_address setting.url_text (record {
          endpoint = plugin.endpoint;
          bearer_token = token;
          client_name = codes "hot-take";
          client_version = application_version;
          http_client = some setting.http_client;
        }))

  -- The round for a plugin, with its client
  unfoldable pub connect_client :
      Plugin
      → Outcome (Error E) (Client W E)
      → Wiring (World W) F
      → World W
      → Outcome (Error E) (Wiring (World W) F) × World W
  unfolding discover wire_plugin caller
  connect_client plugin (err e) x w = (err e, w)
  connect_client plugin (ok client) x w =
      let (advertised, w') = discover setting.platform setting.listing plugin.name client w in
      (
        advertised >>= λ definitions.
            wire_plugin setting.json_valid plugin
              (caller setting.platform setting.calling setting.wrap plugin.name client) definitions
              x,
        w',
      )

  -- The loop over the plugins
  unfoldable pub connect_plugins :
      List Plugin → Wiring (World W) F → World W → Outcome (Error E) (Wiring (World W) F) × World W
  unfolding connect_client client_of
  connect_plugins [] x w = (ok x, w)
  connect_plugins (plugin ∷ plugins) x w =
      let (connected, w') = connect_client plugin (client_of plugin) x w in
      elim connected [ err e ↦ (err e, w') | ok x' ↦ connect_plugins plugins x' w' ]

  -- The wiring of the clock, with which projectTools begins.
  unfoldable pub clock_wiring : Outcome (Error E) (Wiring (World W) F)
  unfolding register new_registry
  clock_wiring = do
    tools ← map_err clock_failed (register setting.json_valid new_registry (some clock_tool))
    ok (record {
      tools = tools;
      capabilities = clock_capabilities;
      rules = record { tool = codes "clock_now"; mode = allow } ∷ [];
    })

  -- The registry and the policy of a wiring
  unfoldable pub finish : Wiring (World W) F → Outcome (Error E) (ToolSet W F)
  unfolding Capability.new_registry new_policy
  finish x = do
    capabilities ←
        map_err capabilities_failed (Capability.new_registry setting.visit x.capabilities)
    policy ← map_err policy_failed (new_policy deny x.rules (some setting.approver))
    ok (record { tools = x.tools; capabilities = capabilities; policy = policy })

  unfoldable pub connect_all :
      Outcome (Error E) (Wiring (World W) F)
      → List Plugin
      → World W
      → Outcome (Error E) (ToolSet W F) × World W
  unfolding connect_plugins finish
  connect_all (err e) plugins w = (err e, w)
  connect_all (ok x) plugins w =
      let (connected, w') = connect_plugins plugins x w in (connected >>= finish, w')

  -- `projectTools`, for the plugins of a project
  unfoldable pub project_tools : List Plugin → World W → Outcome (Error E) (ToolSet W F) × World W
  unfolding connect_all clock_wiring
  project_tools plugins w = connect_all clock_wiring plugins w

  -- `builtInTools`
  unfoldable pub built_in_tools :
      Outcome (Error E) (Tools.Registry (World W) F × Capability.Registry)
  unfolding register new_registry Capability.new_registry
  built_in_tools = do
    tools ← map_err clock_failed (register setting.json_valid new_registry (some clock_tool))
    capabilities ←
        map_err capabilities_failed (Capability.new_registry setting.visit clock_capabilities)
    ok (tools, capabilities)
