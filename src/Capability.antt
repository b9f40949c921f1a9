-- ===== src/Capability.antt =====
-- capability/registry.go. A Go map is visited in any order: the dictionary that `new_registry` takes is the map in
-- the order of one such visit, and `visit` gives the order in which the set of a capability's tools is visited.
pub mod Laws
pub mod Orders
use hot_take.Base.{
  if◌then◌else◌, ltb, eqb, length, all, Outcome, ok, err, ◌>>=◌, ◌>>◌, reject_if, Text, ◌==◌, ℕ,
  Bool, not, ◌||◌, none, some, List, [], ◌∷◌, ◌++◌,
}
use hot_take.Base.Strings.{trim_space, split, is_lower, is_digit}
use hot_take.Base.Order.{text_ltb}
use hot_take.Base.Sort.{sort}
use hot_take.Base.Dict.{Dict, lookup, put, elem}

pub data Error : Type 0 where
  no_namespace empty_segment unsupported_characters empty_tool_name no_providers not_found :
      Text → Error

pub record Registry : Type 0 where
  pub providers : Dict (List Text)

abbrev pub is_name_byte : ℕ → Bool
is_name_byte c = eqb c b'_' || eqb c b'-' || is_lower c || is_digit c

-- The loop over the segments of `validateName`.
unfoldable pub check_parts : Text → List Text → Outcome Error (Unit {0})
check_parts name [] = ok tt
check_parts name (part ∷ parts) = do
  reject_if (part == []) (empty_segment name)
  reject_if (not (all is_name_byte part)) (unsupported_characters name)
  check_parts name parts

unfoldable pub validate_name : Text → Outcome Error (Unit {0})
unfolding check_parts
validate_name name = do
  let parts = split name b'.'
  reject_if (ltb (length parts) 2) (no_namespace name)
  check_parts name parts

-- The set `unique` of the loop over tool names, as a list without repetition; `providers_of` visits it in any order.
unfoldable pub add_unique : Text → List Text → List Text
add_unique name unique = if elem name unique then unique else unique ++ name ∷ []

unfoldable pub unique_tools : Text → List Text → List Text → Outcome Error (List Text)
unfolding add_unique
unique_tools capability [] unique = ok unique
unique_tools capability (tool_name ∷ tools) unique = do
  let trimmed = trim_space tool_name
  reject_if (trimmed == []) (empty_tool_name capability)
  unique_tools capability tools (add_unique trimmed unique)

module _ (visit : Text → List Text → List Text) where
  -- One round of the loop of `NewRegistry`: the providers of a capability, in the order of a visit of their set, and
  -- then sorted.
  unfoldable pub providers_of : Text → List Text → Outcome Error (List Text)
  unfolding validate_name unique_tools
  providers_of name tools = do
    validate_name name
    unique ← unique_tools name tools []
    reject_if (eqb (length unique) 0) (no_providers name)
    ok (sort text_ltb (visit name unique))

  unfoldable pub fill : Dict (List Text) → Dict (List Text) → Outcome Error (Dict (List Text))
  unfolding providers_of
  fill [] providers = ok providers
  fill ((name, tools) ∷ rest) providers = do
    found ← providers_of name tools
    fill rest (put name found providers)

  unfoldable pub new_registry : Dict (List Text) → Outcome Error Registry
  unfolding fill
  new_registry definitions = do
    providers ← fill definitions []
    ok (record { providers = providers })

-- `Resolve`
unfoldable pub resolve : Registry → Text → Outcome Error (List Text)
resolve r name = elim (lookup name r.providers) [
  | none ↦ err (not_found name)
  | some tools ↦ ok tools
]
