-- ===== src/Command/Wiring.antt =====
-- cmd/hot-take/main.go: what projectTools does with the tools of a plugin. It registers them, maps the capabilities
-- to them and gives each a rule.
pub mod Laws
use hot_take.Base.{
  if◌then◌else◌, Outcome, ok, err, ◌>>=◌, ◌>>◌, reject_if, map_err, Text, codes, ◌==◌, Bool, true,
  false, Option, none, some, List, [], ◌∷◌, ◌++◌,
}
use hot_take.Base.Strings.{is_blank}
use hot_take.Base.Order.{text_ltb}
use hot_take.Base.Sort.{sort}
use hot_take.Base.Dict.{Dict, lookup, put, keys}
use hot_take.Tool.{Tool}
use hot_take.Tool.Registry as Tools
use hot_take.Tool.Registry.{register}
use hot_take.Capability
use hot_take.Permission.{Mode, allow, deny, ask, other, Rule, Policy, Approver, new_policy}
use hot_take.Project.{Plugin, PluginCapability}
use hot_take.Mcp.{ToolDefinition, ToolCaller, new_remote_tool, as_tool}
use hot_take.Mcp.Client.{Client}
use hot_take.Mcp.Client.Listing.{tools_of}
use hot_take.Command.{
  World, Error, unsupported_transport, token_required, not_advertised, bind_failed, register_failed,
  clock_failed, capabilities_failed, policy_failed,
}

-- The local variables of `projectTools`
pub record Wiring (W E : Type 0) : Type 0 where
  pub tools : Tools.Registry W E
  pub capabilities : Dict (List Text)
  pub rules : List Rule

-- `permission.Mode(plugin.Approval)`
unfoldable pub mode_of : Text → Mode
unfolding ◌==◌
mode_of approval =
    if approval == codes "allow"
    then allow
    else if approval == codes "deny"
    then deny
    else if approval == codes "ask"
    then ask
    else other approval

abbrev pub or_none : Option (List Text) → List Text
or_none none = []
or_none (some names) = names

-- `m[key] = append(m[key], name)`
unfoldable pub append_to : Text → Text → Dict (List Text) → Dict (List Text)
unfolding lookup put
append_to key name m = put key (or_none (lookup key m) ++ name ∷ []) m

abbrev pub zero_definition : ToolDefinition
zero_definition = record {
  name = [];
  title = [];
  description = [];
  input_schema = [];
  headers = [];
}

abbrev pub or_zero : Option ToolDefinition → ToolDefinition
or_zero none = zero_definition
or_zero (some d) = d

module _ {E : Type 0} (plugin : Text) (definitions : Dict ToolDefinition) where
  -- The loop over the tools of a mapping
  unfoldable pub add_remote :
      Text → List Text → Dict (List Text) → Outcome (Error E) (Dict (List Text))
  unfolding append_to lookup
  add_remote capability [] remote = ok remote
  add_remote capability (name ∷ names) remote = do
    reject_if (is_none (lookup name definitions)) (not_advertised plugin name)
    add_remote capability names (append_to name capability remote)
    where
      is_none : Option ToolDefinition → Bool
      is_none none = true
      is_none (some d) = false

  -- The loop over the mappings
  unfoldable pub add_mappings :
      List PluginCapability → Dict (List Text) → Outcome (Error E) (Dict (List Text))
  unfolding add_remote
  add_mappings [] remote = ok remote
  add_mappings (mapping ∷ mappings) remote = do
    added ← add_remote mapping.name mapping.tools remote
    add_mappings mappings added

-- The loop over the capabilities of a tool
unfoldable pub add_local : Text → List Text → Dict (List Text) → Dict (List Text)
unfolding append_to
add_local local_name [] capabilities = capabilities
add_local local_name (c ∷ names) capabilities =
    add_local local_name names (append_to c local_name capabilities)

module _ {W E F : Type 0} (json_valid : Text → Bool) where
  -- What is done with a tool that is bound: its registration, its capabilities and its rule.
  unfoldable pub add_tool :
      Plugin → Text → List Text → Tool W F → Wiring W F → Outcome (Error E) (Wiring W F)
  unfolding register add_local mode_of
  add_tool plugin remote_name names bound x = do
    tools ←
        map_err (register_failed plugin.name remote_name) (register json_valid x.tools (some bound))
    ok (record {
      tools = tools;
      capabilities = add_local bound.definition.name names x.capabilities;
      rules =
          x.rules ++ record { tool = bound.definition.name; mode = mode_of plugin.approval } ∷ [];
    })

  -- One round of the loop over the remote names
  unfoldable pub bind_tool :
      Plugin
      → ToolCaller W F
      → Dict ToolDefinition
      → Dict (List Text)
      → Text
      → Wiring W F
      → Outcome (Error E) (Wiring W F)
  unfolding new_remote_tool as_tool add_tool lookup
  bind_tool plugin call definitions remote remote_name x = do
    let names = or_none (lookup remote_name remote)
    bound ←
        map_err (bind_failed plugin.name remote_name)
          (new_remote_tool (some call) plugin.name (or_zero (lookup remote_name definitions)) names)
    add_tool plugin remote_name names (as_tool bound) x

  unfoldable pub bind_tools :
      Plugin
      → ToolCaller W F
      → Dict ToolDefinition
      → Dict (List Text)
      → List Text
      → Wiring W F
      → Outcome (Error E) (Wiring W F)
  unfolding bind_tool
  bind_tools plugin call definitions remote [] x = ok x
  bind_tools plugin call definitions remote (name ∷ names) x = do
    bound ← bind_tool plugin call definitions remote name x
    bind_tools plugin call definitions remote names bound

  -- The rest of the round for a plugin, behind the listing of its tools.
  unfoldable pub wire_plugin :
      Plugin → ToolCaller W F → List ToolDefinition → Wiring W F → Outcome (Error E) (Wiring W F)
  unfolding tools_of add_mappings bind_tools sort
  wire_plugin plugin call advertised x = do
    let definitions = tools_of [] advertised
    remote ← add_mappings plugin.name definitions plugin.capabilities []
    bind_tools plugin call definitions remote (sort text_ltb (keys remote)) x

-- A token that the environment must have
unfoldable pub given_token : {E : Type 0} → Plugin → Option Text → Outcome (Error E) Text
unfolding is_blank
given_token plugin none = err (token_required plugin.name plugin.token_environment)
given_token plugin (some token) =
    reject_if (is_blank token) (token_required plugin.name plugin.token_environment) >> ok token

-- The token of a plugin; `lookup_env` is os.LookupEnv.
unfoldable pub token_of : {E : Type 0} → (Text → Option Text) → Plugin → Outcome (Error E) Text
unfolding given_token ◌==◌
token_of lookup_env plugin =
    if plugin.token_environment == []
    then ok []
    else given_token plugin (lookup_env plugin.token_environment)
