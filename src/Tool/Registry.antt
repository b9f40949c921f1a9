-- ===== src/Tool/Registry.antt =====
-- tool/registry.go. `json_valid` is json.Valid. The lock makes each method one step, so a method is a
-- function of the map.
pub mod Laws
pub mod Listing
use hot_take.Base.{
  if◌then◌else◌, Outcome, ok, err, ◌>>=◌, ◌>>◌, reject_if, Text, ◌==◌, Bool, not, ◌||◌, Option,
  none, some, List, [], ◌∷◌, ◌++◌,
}
use hot_take.Base.Strings.{is_blank}
use hot_take.Base.Order.{text_ltb}
use hot_take.Base.Sort.{sort}
use hot_take.Base.Dict.{Dict, lookup, put, elem}
use hot_take.Tool.{Definition, Tool}

pub data Error : Type 0 where
  already_registered : Text → Error
  not_found : Text → Error
  nil_tool : Error
  missing_name_or_description : Error
  invalid_schema : Text → Error

pub record Registry (W E : Type 0) : Type 0 where
  pub tools : Dict (Tool W E)

-- The order of sort.Slice in `Definitions`.
abbrev pub by_name : Definition → Definition → Bool
by_name a b = text_ltb a.name b.name

module _ {W E : Type 0} where
  unfoldable pub new_registry : Registry W E
  new_registry = record { tools = [] }

  unfoldable pub get : Registry W E → Text → Outcome Error (Tool W E)
  get r name = elim (lookup name r.tools) [
    | none ↦ err (not_found name)
    | some candidate ↦ ok candidate
  ]

  -- The loop of `Definitions`, with its `definitions` and `seen`.
  unfoldable pub collect :
      Registry W E → List Text → List Definition → List Text → Outcome Error (List Definition)
  unfolding get
  collect r [] definitions seen = ok definitions
  collect r (name ∷ names) definitions seen =
      let skip = collect r names definitions seen in
      let take_in =
        (get r name >>= λ candidate.
        collect r names (definitions ++ candidate.definition ∷ []) (name ∷ seen)) in
      if elem name seen then skip else take_in

  unfoldable pub definitions : Registry W E → List Text → Outcome Error (List Definition)
  unfolding collect
  definitions r names = do found ← collect r names [] []; ok (sort by_name found)

module _ (json_valid : Text → Bool) where
  -- The checks of `Register` on a tool that is not nil.
  unfoldable pub check_definition : Definition → Outcome Error (Unit {0})
  check_definition d = do
    reject_if (is_blank d.name || is_blank d.description) missing_name_or_description
    reject_if (d.input_schema == [] || not (json_valid d.input_schema)) (invalid_schema d.name)

module _ {W E : Type 0} where
  unfoldable pub insert_new :
      Registry W E → Tool W E → Option (Tool W E) → Outcome Error (Registry W E)
  insert_new r candidate (some _) = err (already_registered candidate.definition.name)
  insert_new r candidate none =
      ok (record { tools = put candidate.definition.name candidate r.tools })

  unfoldable pub register :
      (Text → Bool) → Registry W E → Option (Tool W E) → Outcome Error (Registry W E)
  unfolding check_definition insert_new
  register json_valid r none = err nil_tool
  register json_valid r (some candidate) = do
    check_definition json_valid candidate.definition
    insert_new r candidate (lookup candidate.definition.name r.tools)
