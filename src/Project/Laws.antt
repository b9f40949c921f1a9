-- ===== src/Project/Laws.antt =====
-- What a validated plugin promises to the packages that its names go to.
use hot_take.Base.{
  eqb, length, all, All, ok, Text, codes, ◌==◌, ==_iff, ==_refl, ℕ, ◌+◌, ◌≡◌, refl, ◌≢◌, true,
  false, List, [], ◌∷◌, ◌++◌, arith,
}
use hot_take.Base.Strings.{split}
use hot_take.Base.Dict.{elem, IsDistinct}
use hot_take.Capability
use hot_take.Capability.{validate_name, check_parts}
use hot_take.Mcp.{local_tool_name, normalize, valid_namespace, valid_tool_name, is_namespace_byte}
use hot_take.Project.{
  Plugin, PluginCapability, id_from, valid_id, valid_capability, valid_mcp_tool_name,
  validate_tools, validate_capabilities, validate_plugin,
}

id_from-name_bytes :
    (index : ℕ) (s : Text) → id_from index s ≡ true → all Capability.is_name_byte s ≡ true
unfolding id_from
id_from-name_bytes index [] h = ground arith
id_from-name_bytes index (c ∷ s) h = ground (arith, id_from-name_bytes (index + 1) s)

id_from-namespace_bytes :
    (index : ℕ) (s : Text) → id_from index s ≡ true → all is_namespace_byte s ≡ true
unfolding id_from
id_from-namespace_bytes index [] h = ground arith
id_from-namespace_bytes index (c ∷ s) h = ground (arith, id_from-namespace_bytes (index + 1) s)

valid_id-name_bytes :
    (s : Text) → valid_id s ≡ true → ((s == []) ≡ false) × (all Capability.is_name_byte s ≡ true)
unfolding valid_id ◌==◌
valid_id-name_bytes [] k = cc
valid_id-name_bytes (c ∷ s) k = (refl, id_from-name_bytes 0 (c ∷ s) (ground arith))

check_parts_ok :
    (name : Text) (parts : List Text) → all valid_id parts ≡ true → check_parts name parts ≡ ok tt
unfolding check_parts
check_parts_ok name [] h = refl
check_parts_ok name (part ∷ parts) h =
    ground (arith, valid_id-name_bytes part, check_parts_ok name parts)

-- A capability name that the project loader accepts is one that the capability registry accepts.
pub valid_capability-validate_name :
    (name : Text) → valid_capability name ≡ true → validate_name name ≡ ok tt
unfolding valid_capability validate_name
valid_capability-validate_name name h = ground (arith, check_parts_ok name (split name b'.'))

valid_id-valid_namespace : (name : Text) → valid_id name ≡ true → valid_namespace name ≡ true
unfolding valid_id valid_namespace
valid_id-valid_namespace [] h = cc
valid_id-valid_namespace (c ∷ s) h = ground (arith, id_from-namespace_bytes 0 (c ∷ s))

validate_tools-eq-ok :
    (tools seen : List Text)
    → validate_tools tools seen ≡ ok tt
    → IsDistinct tools
      × All (λ t. valid_mcp_tool_name t ≡ true) tools
      × ((k : Text) → elem k tools ≡ true → elem k seen ≡ false)
unfolding validate_tools elem
validate_tools-eq-ok [] seen h = (tt, tt, λ k m. cc)
validate_tools-eq-ok (tool ∷ tools) seen h =
    let (d, v, f) = validate_tools-eq-ok tools (tool ∷ seen) (ground arith) in
    (
      (ground (arith, f tool, ==_refl tool), d),
      (ground arith, v),
      λ k m. ground (arith, f k, ==_iff tool k, ==_iff k tool),
    )

-- The tools of a capability of a valid plugin: at least one, no two alike, each with a name of MCP.
abbrev pub HasTools : PluginCapability → Type 0
HasTools c =
    (valid_capability c.name ≡ true)
    × (c.tools ≢ [])
    × IsDistinct c.tools
    × All (λ t. valid_mcp_tool_name t ≡ true) c.tools

abbrev pub names_of : List PluginCapability → List Text
names_of [] = []
names_of (c ∷ cs) = c.name ∷ names_of cs

validate_capabilities_cons :
    (c : PluginCapability) (cs : List PluginCapability) (seen : List Text)
    → validate_capabilities (c ∷ cs) seen ≡ ok tt
    → HasTools c × (elem c.name seen ≡ false) × (validate_capabilities cs (c.name ∷ seen) ≡ ok tt)
unfolding validate_capabilities
validate_capabilities_cons c cs seen h =
    let (d, v, _) = validate_tools-eq-ok c.tools [] (ground arith) in
    ((ground arith, ne-nil_of_length c.tools (ground arith), d, v), ground arith, ground arith)
  where
    ne-nil_of_length : (l : List Text) → eqb (length l) 0 ≡ false → l ≢ []
    ne-nil_of_length [] h = cc
    ne-nil_of_length (a ∷ l) h = cc

validate_capabilities-eq-ok :
    (cs : List PluginCapability) (seen : List Text)
    → validate_capabilities cs seen ≡ ok tt
    → IsDistinct (names_of cs)
      × All HasTools cs
      × ((k : Text) → elem k (names_of cs) ≡ true → elem k seen ≡ false)
unfolding elem
validate_capabilities-eq-ok [] seen h = (tt, tt, λ k m. cc)
validate_capabilities-eq-ok (c ∷ cs) seen h =
    let (tools, new, rest) = validate_capabilities_cons c cs seen h in
    let (d, a, f) = validate_capabilities-eq-ok cs (c.name ∷ seen) rest in
    (
      (ground (arith, f c.name, ==_refl c.name), d),
      (tools, a),
      λ k m. ground (arith, f k, ==_iff c.name k, ==_iff k c.name),
    )

valid_mcp-valid_tool_name :
    (name : Text) → valid_mcp_tool_name name ≡ true → valid_tool_name name ≡ true
unfolding valid_mcp_tool_name valid_tool_name
valid_mcp-valid_tool_name name h = h

local_tool_name-ok :
    (namespace name : Text)
    → valid_namespace namespace ≡ true
    → valid_tool_name name ≡ true
    → local_tool_name namespace name ≡ ok (normalize namespace ++ codes "__" ++ normalize name)
unfolding local_tool_name
local_tool_name-ok namespace name h k = ground arith

All-local :
    (namespace : Text) (tools : List Text)
    → valid_namespace namespace ≡ true
    → All (λ t. valid_mcp_tool_name t ≡ true) tools
    → All
        (λ t. local_tool_name namespace t ≡ ok (normalize namespace ++ codes "__" ++ normalize t))
        tools
All-local namespace [] h a = tt
All-local namespace (t ∷ tools) h a = (
  local_tool_name-ok namespace t h (valid_mcp-valid_tool_name t a.0),
  All-local namespace tools h a.1,
)

-- What the rest of the program needs of a capability of a plugin with this name: the capability registry
-- accepts its name, and its tools are some, distinct, and each has a local name under the plugin's name.
abbrev pub IsUsable : Text → PluginCapability → Type 0
IsUsable plugin c =
    (validate_name c.name ≡ ok tt)
    × (c.tools ≢ [])
    × IsDistinct c.tools
    × All (λ t. local_tool_name plugin t ≡ ok (normalize plugin ++ codes "__" ++ normalize t))
        c.tools

All-IsUsable :
    (plugin : Text) (cs : List PluginCapability)
    → valid_namespace plugin ≡ true
    → All HasTools cs
    → All (IsUsable plugin) cs
All-IsUsable plugin [] n a = tt
All-IsUsable plugin (c ∷ cs) n ((v, s, d, t), a) = (
  (valid_capability-validate_name c.name v, s, d, All-local plugin c.tools n t),
  All-IsUsable plugin cs n a,
)

-- A plugin that the loader accepts has at least one capability, no two of one name, and each of them is
-- usable: neither capability.NewRegistry nor mcp.LocalToolName rejects a name of it.
pub validate_plugin-eq-ok :
    (p : Plugin)
    → validate_plugin p ≡ ok tt
    → (p.capabilities ≢ [])
      × IsDistinct (names_of p.capabilities)
      × All (IsUsable p.name) p.capabilities
unfolding validate_plugin
validate_plugin-eq-ok p h =
    let (d, a, _) = validate_capabilities-eq-ok p.capabilities [] (ground arith) in
    (
      ne-nil_of_length p.capabilities (ground arith),
      d,
      All-IsUsable p.name p.capabilities (valid_id-valid_namespace p.name (ground arith)) a,
    )
  where
    ne-nil_of_length : (l : List PluginCapability) → eqb (length l) 0 ≡ false → l ≢ []
    ne-nil_of_length [] h = cc
    ne-nil_of_length (a ∷ l) h = cc
