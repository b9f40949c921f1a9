-- ===== src/Tests/Names.antt =====
-- A plugin and the local names of its tools.
use hot_take.Base.{
  length, all, All, ok, Text, codes, ◌==◌, ℕ, ◌+◌, ◌≡◌, refl, ◌≢◌, true, false, some, [], ◌∷◌,
}
use hot_take.Base.Strings.{trim_space, is_blank, split}
use hot_take.Base.Dict.{Dict, elem, IsDistinct}
use hot_take.Project.{Plugin, validate_plugin, valid_capability}
use hot_take.Project.Laws.{IsUsable, names_of, validate_plugin-eq-ok}
use hot_take.Mcp.{
  ToolCaller, ToolDefinition, RemoteTool, new_remote_tool, as_tool, local_tool_name,
  valid_namespace, valid_tool_name,
}
use hot_take.Mcp.Binding.{IsBound, new_remote_tool-eq-ok}
use hot_take.Mcp.Laws.{is_word_byte, local_tool_name-eq-ok}

abbrev plugin : Plugin
plugin = record {
  name = codes "git-hub";
  transport = codes "mcp_streamable_http";
  endpoint = codes "https://example.com";
  token_environment = codes "GIT_TOKEN";
  approval = codes "ask";
  capabilities =
      record { name = codes "code.read"; tools = codes "get.file" ∷ codes "list" ∷ [] } ∷ [];
}

plugin_test : validate_plugin plugin ≡ ok tt
unfolding validate_plugin hot_take.Base.◌==◌ hot_take.Base.Strings.is_blank
    hot_take.Base.Strings.split hot_take.Base.Dict.elem
plugin_test = refl

capability_test : valid_capability (codes "code.read") ≡ true
unfolding valid_capability hot_take.Base.Strings.split
capability_test = refl

local_name_test :
    local_tool_name (codes "git-hub") (codes "get.file") ≡ ok (codes "git_hub__get_file")
unfolding local_tool_name
local_name_test = refl

validate_plugin-eq-ok_example :
    (plugin.capabilities ≢ [])
    × IsDistinct (names_of plugin.capabilities)
    × All (IsUsable plugin.name) plugin.capabilities
validate_plugin-eq-ok_example = validate_plugin-eq-ok plugin plugin_test

local_tool_name-eq-ok_example :
    (valid_namespace (codes "git-hub") ≡ true)
    × (valid_tool_name (codes "get.file") ≡ true)
    × (all is_word_byte (codes "git_hub__get_file") ≡ true)
    × (17 ≡ length (codes "git-hub") + 2 + length (codes "get.file"))
local_tool_name-eq-ok_example =
    local_tool_name-eq-ok (codes "git-hub") (codes "get.file") (codes "git_hub__get_file")
      local_name_test

abbrev client : ToolCaller ℕ Text
client name arguments w = (ok name, w + 1)

abbrev remote : ToolDefinition
remote = record {
  name = codes "get.file";
  title = [];
  description = codes "Reads.";
  input_schema = codes "{}";
  headers = [];
}

abbrev bound : RemoteTool ℕ Text
bound = record {
  client = client;
  remote_name = codes "get.file";
  definition = record {
    name = codes "git_hub__get_file";
    description = codes "Reads.";
    input_schema = codes "{}";
    capabilities = codes "code.read" ∷ [];
    strict = false;
  };
}

remote_test :
    new_remote_tool
      (some client)
      (codes "git-hub")
      remote
      (codes " code.read" ∷ codes "code.read" ∷ [])
    ≡ ok bound
unfolding new_remote_tool ◌==◌ hot_take.Base.Strings.trim_space elem
remote_test = refl

new_remote_tool-eq-ok_example :
    IsBound client
      (codes "git-hub")
      remote
      (codes " code.read" ∷ codes "code.read" ∷ [])
      (as_tool bound)
new_remote_tool-eq-ok_example =
    new_remote_tool-eq-ok client (codes "git-hub") remote
      (codes " code.read" ∷ codes "code.read" ∷ []) bound remote_test
