-- ===== src/Mcp/Client/Listing.antt =====
-- mcp/client.go: `ListTools` and `replaceTools`.
pub mod Index
pub mod Laws
use hot_take.Base.{
  if◌then◌else◌, Outcome, ok, err, ◌>>=◌, ◌>>◌, reject_if, map_err, Text, codes, ◌==◌, ℕ, zero, suc,
  Bool, true, false, not, ◌&&◌, ◌||◌, List, [], ◌∷◌, ◌++◌,
}
use hot_take.Base.Dict.{Dict, put, elem}
use hot_take.Json.{Decoded}
use hot_take.Mcp.{ToolDefinition}
use hot_take.Mcp.Schema.{DefinitionError, is_header_error, validate_tool_definition}
use hot_take.Mcp.Client
use hot_take.Mcp.Client.{Client, State, Platform, list_tools_params}
use hot_take.Mcp.Client.Request.{metadata, request}

abbrev pub max_tool_pages : ℕ
max_tool_pages = 100

pub record ListToolsResult : Type 0 where
  pub result_type : Text
  pub tools : List ToolDefinition
  pub next_cursor : Text

pub data Error (E : Type 0) : Type 0 where
  page_error : Client.Error E → Error E
  undecodable : E → Error E
  bad_result_type repeated_cursor duplicate_tool : Text → Error E
  invalid_tool : Text → DefinitionError → Error E
  too_many_pages : Error E

-- The variables of the loop; `names` holds the keys of `seenNames`.
pub record Listing : Type 0 where
  pub cursor : Text
  pub seen_cursors : List Text
  pub names : List Text
  pub all : List ToolDefinition

abbrev pub opening : Listing
opening = record { cursor = []; seen_cursors = []; names = []; all = [] }

abbrev pub is_complete : Text → Bool
is_complete result_type = result_type == [] || result_type == codes "complete"

-- What the listing takes from encoding/json: json.Valid, a decoder of values, and that of the result.
pub record Codec (E : Type 0) : Type 0 where
  pub json_valid : Text → Bool
  pub decode : Text → Decoded
  pub list_result : Text → Outcome E ListToolsResult

-- The loop of `replaceTools`
unfoldable pub tools_of : Dict ToolDefinition → List ToolDefinition → Dict ToolDefinition
unfolding put
tools_of tools [] = tools
tools_of tools (d ∷ definitions) = tools_of (put d.name d tools) definitions

unfoldable pub replace_tools : {W : Type 0} → List ToolDefinition → State W → State W
unfolding tools_of
replace_tools definitions s = record s { tools = tools_of [] definitions }

module _ {E : Type 0} (codec : Codec E) where
  -- The result of a validation in the loop over a page. A definition with an invalid annotation is excluded.
  unfoldable pub add_checked :
      Text → Outcome DefinitionError ToolDefinition → Listing → Outcome (Error E) Listing
  unfolding is_header_error elem
  add_checked name (err e) x = if is_header_error e then ok x else err (invalid_tool name e)
  add_checked name (ok d) x = do
    reject_if (elem d.name x.names) (duplicate_tool d.name)
    ok (record x { names = x.names ++ d.name ∷ []; all = x.all ++ d ∷ [] })

  -- The loop over the tools of a page
  unfoldable pub add_tools : List ToolDefinition → Listing → Outcome (Error E) Listing
  unfolding validate_tool_definition add_checked
  add_tools [] x = ok x
  add_tools (d ∷ definitions) x = do
    added ← add_checked d.name (validate_tool_definition codec.json_valid codec.decode d) x
    add_tools definitions added

  -- What is done with the payload of a page. The cursor of the result is empty on the last page.
  unfoldable pub read_page : Listing → Text → Outcome (Error E) Listing
  unfolding add_tools elem ◌==◌
  read_page x payload = do
    result ← map_err undecodable (codec.list_result payload)
    reject_if (not (is_complete result.result_type)) (bad_result_type result.result_type)
    added ← add_tools result.tools x
    reject_if (not (result.next_cursor == []) && elem result.next_cursor added.seen_cursors)
        (repeated_cursor result.next_cursor)
    ok (record added {
      cursor = result.next_cursor;
      seen_cursors = added.seen_cursors ++ result.next_cursor ∷ [];
    })

module _ {W E : Type 0} (platform : Platform E) (codec : Codec E) (client : Client W E) where
  unfoldable pub fetch_page : Listing → State W → Outcome (Error E) Listing × State W
  unfolding request read_page
  fetch_page x s =
      let (answer, s') =
        request platform client (codes "tools/list") []
          (list_tools_params (metadata platform client) x.cursor) [] s in
      (map_err page_error answer >>= read_page codec x, s')

  -- The loop over the pages, with the number of pages left.
  unfoldable pub list_pages :
      ℕ → Listing → State W → Outcome (Error E) (List ToolDefinition) × State W
  unfolding fetch_page replace_tools ◌==◌
  list_pages zero x s = (err too_many_pages, s)
  list_pages (suc left) x s =
      let (page, s') = fetch_page x s in
      elim page [
        | err e ↦ (err e, s')
        | ok x' ↦ elim (x'.cursor == []) [
          | true ↦ (ok x'.all, replace_tools x'.all s')
          | false ↦ list_pages left x' s'
        ]
      ]

  -- `ListTools`
  unfoldable pub list_tools : State W → Outcome (Error E) (List ToolDefinition) × State W
  unfolding list_pages
  list_tools s = list_pages max_tool_pages opening s
