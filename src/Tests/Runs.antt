-- ===== src/Tests/Runs.antt =====
-- Runs of the small agent.
use hot_take.Base.{
  length, ok, err, Text, codes, ◌==◌, ℕ, ◌+◌, ◌≤◌, ◌<◌, ◌≡◌, refl, ◌≢◌, false, Memᴰ,
}
use hot_take.Base.Strings.{trim_space, is_blank, contains, lower_byte}
use hot_take.Base.Sort.{sort}
use hot_take.Base.Dict.{Dict, lookup, elem}
use hot_take.Tests.Fixture.{platform, asks_for, runtime, start, question}
use hot_take.Tool.{Call}
use hot_take.Provider.{Turn}
use hot_take.Agent.{Runtime}
use hot_take.Agent.Effects.{tool_call_limit, tool_not_selected, step_limit, Trace}
use hot_take.Agent.Loop.{Plan, run}
use hot_take.Agent.Prepare.{IsPlan}
use hot_take.Agent.Whole.{Refines, run-Refines}
use hot_take.Agent.Authority.{IsAuthorised}
use hot_take.Agent.Budget.{executions, generations}
use hot_take.Agent.Transcript.{SendsTranscripts}
use hot_take.Agent.Announcements.{stage_of, over, broken}
use hot_take.Agent.Endings.{EndsInAnswer, EndsInTurn}
use hot_take.Agent.Runs.{run-IsAuthorised, run-Spent, run-SendsTranscripts, run-stage_of}
use hot_take.Agent.Outcomes.{
  InScope, run-answer, run-call_limit, run-step_limit, run-not_selected, run-InScope,
}

-- The same agent with other limits or another model.
abbrev no_tool_calls : Runtime ℕ Text
no_tool_calls = record runtime { max_tool_calls = 0 }

abbrev one_step : Runtime ℕ Text
one_step = record runtime { max_steps = 1 }

abbrev curious : Runtime ℕ Text
curious = record runtime { model = asks_for (codes "shell") }

run_test : (run platform runtime question start).0 ≡ ok (codes "noon")
unfolding run hot_take.Base.◌==◌ hot_take.Base.Strings.trim_space hot_take.Event.discard
    hot_take.Skill.select hot_take.Agent.Selection.resolve_tools hot_take.Base.Sort.sort
    hot_take.Base.Strings.contains hot_take.Base.Strings.lower_byte hot_take.Capability.resolve
    hot_take.Base.Dict.lookup hot_take.Tool.Registry.definitions hot_take.Base.Dict.elem
    hot_take.Agent.Selection.scope_check hot_take.Agent.Selection.unselected
    hot_take.Base.Strings.is_blank
run_test = refl

counts_test :
    (executions (run platform runtime question start).1.trace ≡ 1)
    × (generations (run platform runtime question start).1.trace ≡ 2)
unfolding run hot_take.Base.◌==◌ hot_take.Base.Strings.trim_space hot_take.Event.discard
    hot_take.Skill.select hot_take.Agent.Selection.resolve_tools hot_take.Base.Sort.sort
    hot_take.Base.Strings.contains hot_take.Base.Strings.lower_byte hot_take.Capability.resolve
    hot_take.Base.Dict.lookup hot_take.Tool.Registry.definitions hot_take.Base.Dict.elem
    hot_take.Agent.Selection.scope_check hot_take.Agent.Selection.unselected
    hot_take.Base.Strings.is_blank
counts_test = (refl, refl)

call_limit_test : (run platform no_tool_calls question start).0 ≡ err (tool_call_limit 0)
unfolding run hot_take.Base.◌==◌ hot_take.Base.Strings.trim_space hot_take.Event.discard
    hot_take.Skill.select hot_take.Agent.Selection.resolve_tools hot_take.Base.Sort.sort
    hot_take.Base.Strings.contains hot_take.Base.Strings.lower_byte hot_take.Capability.resolve
    hot_take.Base.Dict.lookup hot_take.Tool.Registry.definitions hot_take.Base.Dict.elem
    hot_take.Agent.Selection.scope_check hot_take.Agent.Selection.unselected
    hot_take.Base.Strings.is_blank
call_limit_test = refl

step_limit_test : (run platform one_step question start).0 ≡ err (step_limit 1)
unfolding run hot_take.Base.◌==◌ hot_take.Base.Strings.trim_space hot_take.Event.discard
    hot_take.Skill.select hot_take.Agent.Selection.resolve_tools hot_take.Base.Sort.sort
    hot_take.Base.Strings.contains hot_take.Base.Strings.lower_byte hot_take.Capability.resolve
    hot_take.Base.Dict.lookup hot_take.Tool.Registry.definitions hot_take.Base.Dict.elem
    hot_take.Agent.Selection.scope_check hot_take.Agent.Selection.unselected
    hot_take.Base.Strings.is_blank
step_limit_test = refl

not_selected_test :
    (run platform curious question start).0 ≡ err (tool_not_selected (codes "shell"))
unfolding run hot_take.Base.◌==◌ hot_take.Base.Strings.trim_space hot_take.Event.discard
    hot_take.Skill.select hot_take.Agent.Selection.resolve_tools hot_take.Base.Sort.sort
    hot_take.Base.Strings.contains hot_take.Base.Strings.lower_byte hot_take.Capability.resolve
    hot_take.Base.Dict.lookup hot_take.Tool.Registry.definitions hot_take.Base.Dict.elem
    hot_take.Agent.Selection.scope_check hot_take.Agent.Selection.unselected
    hot_take.Base.Strings.is_blank
not_selected_test = refl

run-IsAuthorised_example : IsAuthorised (run platform runtime question start).1.trace
run-IsAuthorised_example = run-IsAuthorised platform runtime question start refl

run-InScope_example :
    InScope platform runtime question (run platform runtime question start).1.trace
run-InScope_example = run-InScope platform runtime question start refl

run-Spent_example :
    (executions (run platform runtime question start).1.trace ≤ 1)
    × (generations (run platform runtime question start).1.trace ≤ 2)
run-Spent_example = run-Spent platform runtime question start refl

run-Refines_example : Refines platform runtime question (run platform runtime question start)
run-Refines_example = run-Refines platform runtime question start refl

run-SendsTranscripts_example : SendsTranscripts (run platform runtime question start).1.trace
run-SendsTranscripts_example = run-SendsTranscripts platform runtime question start refl

run-stage_of_example : stage_of (run platform runtime question start).1.trace ≢ broken
run-stage_of_example = run-stage_of platform runtime question start refl

run-answer_example :
    EndsInAnswer (run platform runtime question start).1.trace (codes "noon")
    × (stage_of (run platform runtime question start).1.trace ≡ over)
run-answer_example = run-answer platform runtime question start (codes "noon") refl run_test

run-call_limit_example :
    (turn : Turn) × (rest : Trace Text) × EndsInTurn
      (run platform no_tool_calls question start).1.trace
      turn
      rest
    × ◌≡◌ {A = ℕ} 0 0
    × (0 < executions (run platform no_tool_calls question start).1.trace + length turn.tool_calls)
run-call_limit_example = run-call_limit platform no_tool_calls question start 0 refl call_limit_test

run-step_limit_example :
    ◌≡◌ {A = ℕ} 1 1 × (generations (run platform one_step question start).1.trace ≡ 1)
run-step_limit_example = run-step_limit platform one_step question start 1 refl step_limit_test

run-not_selected_example :
    (x : Plan) × IsPlan platform curious question x
    × (turn : Turn) × (rest : Trace Text) × EndsInTurn
        (run platform curious question start).1.trace
        turn
        rest
    × (call : Call) × Memᴰ call turn.tool_calls
    × (call.name ≡ codes "shell")
    × (elem (codes "shell") x.tool_names ≡ false)
run-not_selected_example =
    run-not_selected platform curious question start (codes "shell") refl not_selected_test
