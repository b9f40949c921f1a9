-- ===== src/Command.antt =====
-- cmd/hot-take/main.go: the data of projectTools, and the clients of the plugins. The terminal and the
-- environment are parameters.
pub mod Wiring
pub mod ProjectTools
pub mod Demo
pub mod Main
pub mod Terminal
use hot_take.Base.{Outcome, map_err, Text, ℕ, Option, none, some, List, []}
use hot_take.Base.Dict.{Dict, lookup, put}
use hot_take.Tool.Registry as Tools
use hot_take.Capability
use hot_take.Permission.{Rule, PolicyError}
use hot_take.Mcp
use hot_take.Mcp.{ToolDefinition, ToolCaller}
use hot_take.Mcp.Client.{Client, State, ConfigError, Platform}
use hot_take.Mcp.Client.Listing
use hot_take.Mcp.Client.Listing.{list_tools}
use hot_take.Mcp.Client.Calling
use hot_take.Mcp.Client.Calling.{call_tool}

-- What changes of a plugin's client: `nextID` and `tools`.
pub record Session : Type 0 where
  pub request_count : ℕ
  pub tools : Dict ToolDefinition

-- The clients' sessions by the names of their plugins, and the rest of the world.
pub record World (W : Type 0) : Type 0 where
  pub outer : W
  pub sessions : Dict Session

abbrev pub no_session : Session
no_session = record { request_count = 0; tools = [] }

abbrev pub or_new : Option Session → Session
or_new none = no_session
or_new (some session) = session

pub data Error (E : Type 0) : Type 0 where
  unsupported_transport token_required not_advertised : Text → Text → Error E
  client_failed : Text → ConfigError E → Error E
  discovery_failed : Text → Listing.Error E → Error E
  bind_failed : Text → Text → Mcp.Error → Error E
  register_failed : Text → Text → Tools.Error → Error E
  clock_failed : Tools.Error → Error E
  capabilities_failed : Capability.Error → Error E
  policy_failed : PolicyError → Error E

module _ {W : Type 0} where
  unfoldable pub state_of : Text → World W → State W
  unfolding lookup
  state_of plugin w =
      let session = or_new (lookup plugin w.sessions) in
      record { world = w.outer; request_count = session.request_count; tools = session.tools }

  unfoldable pub save : Text → State W → World W → World W
  unfolding put
  save plugin s w = record {
    outer = s.world;
    sessions = put plugin (record { request_count = s.request_count; tools = s.tools }) w.sessions;
  }

module _ {W E : Type 0} (platform : Platform E) where
  -- The method `CallTool` of a plugin's client
  unfoldable pub caller :
      {F : Type 0}
      → Calling.Codec E
      → (Calling.Error E → F)
      → Text
      → Client W E
      → ToolCaller (World W) F
  unfolding call_tool state_of save
  caller codec wrap plugin client name arguments w =
      let (result, s) = call_tool platform codec client name arguments (state_of plugin w) in
      (map_err wrap result, save plugin s w)

  -- The method `ListTools` of a plugin's new client
  unfoldable pub discover :
      Listing.Codec E
      → Text
      → Client W E
      → World W
      → Outcome (Error E) (List ToolDefinition) × World W
  unfolding list_tools state_of save
  discover codec plugin client w =
      let fresh : State W = record { world = w.outer; request_count = 0; tools = [] } in
      let (result, s) = list_tools platform codec client fresh in
      (map_err (discovery_failed plugin) result, save plugin s w)
