-- ===== src/Mcp/Client/Listing/Index.antt =====
-- The map that `replaceTools` makes of a list of definitions.
use hot_take.Base.{
  All, Text, ◌==◌, ==_refl, ◌≡◌, refl, ap, ◌∙◌, Bool, false, ◌||◌, none, some, List, [], ◌∷◌, ◌++◌,
  map, arith,
}
use hot_take.Base.Dict.{Dict, lookup, put, lookup-put, elem, IsDistinct}
use hot_take.Mcp.{ToolDefinition}
use hot_take.Mcp.Client.Listing.{tools_of}

abbrev pub names_of : List ToolDefinition → List Text
names_of definitions = map (λ d. d.name) definitions

pub names_of-concat :
    (definitions : List ToolDefinition) (d : ToolDefinition)
    → names_of (definitions ++ d ∷ []) ≡ names_of definitions ++ d.name ∷ []
names_of-concat [] d = refl
names_of-concat (e ∷ definitions) d = ap (λ l. e.name ∷ l) (names_of-concat definitions d)

-- The tools of a list, each under its name and none else.
abbrev pub IsIndex : Dict ToolDefinition → List ToolDefinition → Type 0
IsIndex tools definitions =
    All (λ d. lookup d.name tools ≡ some d) definitions
    × ((k : Text) → elem k (names_of definitions) ≡ false → lookup k tools ≡ none)

tools_of-other :
    (k : Text) (definitions : List ToolDefinition) (tools : Dict ToolDefinition)
    → elem k (names_of definitions) ≡ false
    → lookup k (tools_of tools definitions) ≡ lookup k tools
unfolding tools_of elem
tools_of-other k [] tools h = refl
tools_of-other k (d ∷ definitions) tools h =
    tools_of-other k definitions (put d.name d tools) (ground arith)
    ∙ lookup-put d.name k d tools
    ∙ rw (not_first (d.name == k) (elem k (names_of definitions)) h) refl
  where
    not_first : (a b : Bool) → (a || b) ≡ false → a ≡ false
    not_first a b h = ground arith

tools_of-All :
    (definitions : List ToolDefinition) (tools : Dict ToolDefinition)
    → IsDistinct (names_of definitions)
    → All (λ d. lookup d.name (tools_of tools definitions) ≡ some d) definitions
unfolding tools_of
tools_of-All [] tools h = tt
tools_of-All (d ∷ definitions) tools (new, distinct) = (
  tools_of-other d.name definitions (put d.name d tools) new
      ∙ lookup-put d.name d.name d tools
      ∙ rw (==_refl d.name) refl,
  tools_of-All definitions (put d.name d tools) distinct,
)

pub tools_of-IsIndex :
    (definitions : List ToolDefinition)
    → IsDistinct (names_of definitions)
    → IsIndex (tools_of [] definitions) definitions
unfolding lookup
tools_of-IsIndex definitions distinct =
    (tools_of-All definitions [] distinct, λ k h. tools_of-other k definitions [] h)
