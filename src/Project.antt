-- ===== src/Project.antt =====
-- project/loader.go: the data of a project and what the loader validates of it. What it reads is
-- in `Project.Files` and `Project.Load`.
pub mod Laws
pub mod Files
pub mod Load
use hot_take.Base.{
  ltb, eqb, length, all, Outcome, ok, ◌>>=◌, ◌>>◌, reject_if, Text, codes, ◌==◌, ℕ, ◌+◌, Bool, true,
  false, not, ◌&&◌, ◌||◌, List, [], ◌∷◌,
}
use hot_take.Base.Strings.{is_blank, split, is_lower, is_upper, is_digit}
use hot_take.Base.Dict.{elem}
use hot_take.Base.Int.{ℤ, pos_part}

pub record Provider : Type 0 where
  pub name : Text
  pub model : Text

pub record PluginCapability : Type 0 where
  pub name : Text
  pub tools : List Text

pub record Plugin : Type 0 where
  pub name : Text
  pub transport : Text
  pub endpoint : Text
  pub token_environment : Text
  pub approval : Text
  pub capabilities : List PluginCapability

pub record Manifest : Type 0 where
  pub name : Text
  pub instructions : Text
  pub default_skill : Text
  pub skills_directory : Text
  pub plugins_directory : Text
  pub max_steps : ℤ
  pub provider : Provider

-- The texts of ErrInvalid.
pub data Error : Type 0 where
  agent_name_required paths_required bad_default_skill max_steps_not_positive provider_required :
      Error
  bad_plugin_name unsupported_transport endpoint_required bad_token_environment bad_approval
        no_capabilities :
      Text → Error
  bad_capability repeated_capability no_tools bad_tool repeated_tool : Text → Error

-- The loop of `validID`, from a byte index.
unfoldable pub id_from : ℕ → Text → Bool
id_from index [] = true
id_from index (c ∷ s) =
    ((ltb 0 index && (eqb c b'-' || eqb c b'_')) || is_lower c || (ltb 0 index && is_digit c))
    && id_from (index + 1) s

unfoldable pub valid_id : Text → Bool
unfolding id_from
valid_id [] = false
valid_id (c ∷ s) = is_lower c && id_from 0 (c ∷ s)

abbrev pub is_environment_byte : ℕ → Bool
is_environment_byte c = is_upper c || is_digit c || eqb c b'_'

unfoldable pub valid_environment_name : Text → Bool
valid_environment_name [] = false
valid_environment_name (c ∷ s) = (is_upper c || eqb c b'_') && all is_environment_byte (c ∷ s)

unfoldable pub valid_capability : Text → Bool
unfolding valid_id
valid_capability value =
    let parts = split value b'.' in not (ltb (length parts) 2) && all valid_id parts

abbrev pub is_tool_name_byte : ℕ → Bool
is_tool_name_byte c =
    is_lower c || is_upper c || is_digit c || eqb c b'_' || eqb c b'-' || eqb c b'.'

unfoldable pub valid_mcp_tool_name : Text → Bool
valid_mcp_tool_name value =
    not (ltb (length value) 1 || ltb 128 (length value)) && all is_tool_name_byte value

-- The loops of `validatePlugin`, each with the set of what it has seen.
unfoldable pub validate_tools : List Text → List Text → Outcome Error (Unit {0})
unfolding valid_mcp_tool_name
validate_tools [] seen = ok tt
validate_tools (tool ∷ tools) seen = do
  reject_if (not (valid_mcp_tool_name tool)) (bad_tool tool)
  reject_if (elem tool seen) (repeated_tool tool)
  validate_tools tools (tool ∷ seen)

unfoldable pub validate_capabilities : List PluginCapability → List Text → Outcome Error (Unit {0})
unfolding valid_capability validate_tools
validate_capabilities [] seen = ok tt
validate_capabilities (capability ∷ capabilities) seen = do
  reject_if (not (valid_capability capability.name)) (bad_capability capability.name)
  reject_if (elem capability.name seen) (repeated_capability capability.name)
  reject_if (eqb (length capability.tools) 0) (no_tools capability.name)
  validate_tools capability.tools []
  validate_capabilities capabilities (capability.name ∷ seen)

unfoldable pub validate_plugin : Plugin → Outcome Error (Unit {0})
unfolding valid_id valid_environment_name validate_capabilities
validate_plugin p = do
  reject_if (not (valid_id p.name)) (bad_plugin_name p.name)
  reject_if (not (p.transport == codes "mcp_streamable_http")) (unsupported_transport p.name)
  reject_if (is_blank p.endpoint) (endpoint_required p.name)
  reject_if (not (p.token_environment == []) && not (valid_environment_name p.token_environment))
      (bad_token_environment p.name)
  reject_if
      (not (p.approval == codes "allow")
        && not (p.approval == codes "deny")
        && not (p.approval == codes "ask"))
      (bad_approval p.name)
  reject_if (eqb (length p.capabilities) 0) (no_capabilities p.name)
  validate_capabilities p.capabilities []

unfoldable pub validate_manifest : Manifest → Outcome Error (Unit {0})
unfolding valid_id
validate_manifest m = do
  reject_if (is_blank m.name) agent_name_required
  reject_if (is_blank m.instructions || is_blank m.skills_directory) paths_required
  reject_if (not (valid_id m.default_skill)) bad_default_skill
  reject_if (ltb (pos_part m.max_steps) 1) max_steps_not_positive
  reject_if (not (valid_id m.provider.name) || is_blank m.provider.model) provider_required
