-- ===== src/Agent/Selection.antt =====
-- agent/runtime.go: `resolveTools`, and the check that a batch stays among the selected tools.
use hot_take.Base.{
  if◌then◌else◌, Outcome, ok, err, ◌>>=◌, Text, Option, none, some, List, [], ◌∷◌, ◌++◌,
}
use hot_take.Base.Dict.{elem}
use hot_take.Tool.{Call}
use hot_take.Capability
use hot_take.Agent.Effects.{Error, tool_not_selected}

-- The inner loop of `resolveTools`, over the providers of one capability; `names` holds the same
-- names as `seen`.
unfoldable pub add_providers : List Text → List Text → List Text
add_providers [] names = names
add_providers (name ∷ providers) names =
    add_providers providers (if elem name names then names else names ++ name ∷ [])

unfoldable pub resolve_tools :
    Capability.Registry → List Text → List Text → Outcome Capability.Error (List Text)
unfolding add_providers
resolve_tools r [] names = ok names
resolve_tools r (capability ∷ required) names = Capability.resolve r capability >>= λ providers.
    resolve_tools r required (add_providers providers names)

-- The first call of a batch whose tool is not selected.
unfoldable pub unselected : List Text → List Call → Option Call
unselected names [] = none
unselected names (call ∷ calls) = if elem call.name names then unselected names calls else some call

unfoldable pub scope_check : {E : Type 0} → Option Call → Outcome (Error E) (Unit {0})
scope_check none = ok tt
scope_check (some call) = err (tool_not_selected call.name)
