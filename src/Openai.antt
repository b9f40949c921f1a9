-- ===== src/Openai.antt =====
-- providers/openai/client.go: the data of the Responses API, and the client's configuration. Its requests
-- are in `Openai.Encode`, its responses in `Openai.Decode`, and `Generate` in `Openai.Generate`.
pub mod Encode
pub mod Decode
pub mod Generate
use hot_take.Base.{
  if◌then◌else◌, eqb, Outcome, ok, ◌>>=◌, ◌>>◌, reject_if, map_err, Text, codes, ◌==◌, Bool, not,
  ◌&&◌, ◌||◌, Option, none, some, List, [], ◌∷◌, ◌++◌,
}
use hot_take.Base.Strings.{trim_space}
use mathlib.Core.List.{reverse}
use hot_take.Base.Int.{ℤ}
use hot_take.Provider.{Role}
use hot_take.Http.{Url, Transport, has_line_break}

pub record Config (W E : Type 0) : Type 0 where
  pub api_key : Text
  pub model : Text
  pub base_url : Text
  pub http_client : Option (Transport W E)

pub record Client (W E : Type 0) : Type 0 where
  pub api_key : Text
  pub model : Text
  pub endpoint : Text
  pub http_client : Transport W E

-- The texts of ErrInvalidConfig.
pub data ConfigError (E : Type 0) : Type 0 where
  key_and_model_required line_break : ConfigError E
  unparsable_url : E → ConfigError E
  unsafe_url https_required : ConfigError E

pub record ClientState : Type 0 where
  pub previous_response_id : Text
  pub consumed_items : ℤ

pub record InputItem : Type 0 where
  pub type : Text
  pub role : Option Role
  pub content : Text
  pub call_id : Text
  pub name : Text
  pub arguments : Text
  pub output : Text

pub record FunctionTool : Type 0 where
  pub type : Text
  pub name : Text
  pub description : Text
  pub parameters : Text
  pub strict : Bool

pub record ResponseRequest : Type 0 where
  pub model : Text
  pub instructions : Text
  pub input : List InputItem
  pub tools : List FunctionTool
  pub previous_response_id : Text

pub record ResponseContent : Type 0 where
  pub type : Text
  pub text : Text

pub record ResponseItem : Type 0 where
  pub type : Text
  pub call_id : Text
  pub name : Text
  pub arguments : Text
  pub content : List ResponseContent

pub record ResponseEnvelope : Type 0 where
  pub id : Text
  pub output : List ResponseItem

abbrev pub default_base_url : Text
default_base_url = codes "https://api.openai.com/v1"

unfoldable pub skip_slashes : Text → Text
skip_slashes [] = []
skip_slashes (c ∷ s) = if eqb c b'/' then skip_slashes s else c ∷ s

-- strings.TrimRight(s, "/")
unfoldable pub trim_slashes : Text → Text
unfolding skip_slashes
trim_slashes s = reverse (skip_slashes (reverse s))

unfoldable pub is_loopback : Url → Bool
is_loopback u =
    u.scheme == codes "http"
    && (u.hostname == codes "localhost"
        || u.hostname == codes "127.0.0.1"
        || u.hostname == codes "::1")

abbrev pub or_default_url : Text → Text
or_default_url url = if url == [] then default_base_url else url

module _ {W E : Type 0} where
  abbrev pub or_default_client : Option (Transport W E) → Transport W E → Transport W E
  or_default_client none d = d
  or_default_client (some client) d = client

  -- `New`; `parse_url` is url.Parse, and `default_client` the client with a timeout of a minute.
  unfoldable pub new :
      (Text → Outcome E Url) → Transport W E → Config W E → Outcome (ConfigError E) (Client W E)
  unfolding trim_slashes is_loopback
  new parse_url default_client config = do
    let api_key = trim_space config.api_key
    let model = trim_space config.model
    reject_if (api_key == [] || model == []) key_and_model_required
    reject_if (has_line_break api_key || has_line_break model) line_break
    let base_url = or_default_url (trim_slashes (trim_space config.base_url))
    parsed ← map_err unparsable_url (parse_url base_url)
    reject_if
        (parsed.host == []
          || parsed.has_user
          || not (parsed.raw_query == [])
          || not (parsed.fragment == []))
        unsafe_url
    reject_if (not (parsed.scheme == codes "https") && not (is_loopback parsed)) https_required
    ok (record {
      api_key = api_key;
      model = model;
      endpoint = base_url ++ codes "/responses";
      http_client = or_default_client config.http_client default_client;
    })
