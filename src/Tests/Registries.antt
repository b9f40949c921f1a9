-- ===== src/Tests/Registries.antt =====
-- Registrations of two tools.
use hot_take.Base.{ok, Text, ℕ, ◌≡◌, refl, Bool, true, some}
use hot_take.Base.Strings.{is_blank}
use hot_take.Base.Dict.{Dict, lookup, put}
use hot_take.Tool.Registry.{new_registry, register}
use hot_take.Tool.Registry.Laws.{IsValid}
use hot_take.Tests.Fixture.{clock_tool, tools}

abbrev any_json : Text → Bool
any_json s = true

register_test : register any_json new_registry (some clock_tool) ≡ ok tools
unfolding register hot_take.Base.Strings.is_blank lookup new_registry hot_take.Base.Dict.put
register_test = refl

empty_test : IsValid any_json {W = ℕ} {E = Text} new_registry
unfolding new_registry lookup
empty_test = record { checked = λ key t h. cc }
