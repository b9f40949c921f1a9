-- ===== src/Agent/Loop.antt =====
-- The loop of agent/runtime.go: `Run`, `resolveTools` and `publish`.
use hot_take.Base.{
  if◌then◌else◌, ltb, eqb, length, ok, err, map_err, Text, codes, ◌==◌, ℕ, zero, suc, ◌+◌, ◌-◌, ◌%◌,
  ◌^◌, ◌||◌, List, [], ◌∷◌, ◌++◌,
}
use hot_take.Base.Strings.{trim_space, is_blank}
use hot_take.Base.Decimal.{decimal}
use hot_take.Tool.{Definition, Call, Result}
use hot_take.Tool.Registry as ToolRegistry
use hot_take.Skill
use hot_take.Permission
use hot_take.Provider
use hot_take.Provider.{Item, Turn, message_item, call_item, result_item}
use hot_take.Event.{Event, Kind}
use hot_take.Agent.{Runtime}
use hot_take.Agent.Selection.{resolve_tools, unselected, scope_check}
use hot_take.Agent.Effects.{
  empty_input, publish_error, select_error, resolve_error, describe_error, generate_error,
  empty_turn, tool_call_limit, blank_call, authorize_error, unknown_tool, execute_error, step_limit,
  published, generated, authorized, executed, Platform, Run, ◌>>=◌, ◌>>◌, pure, lift, perform,
  guard, check_context, observe,
}

-- What a run has fixed when its loop starts.
pub record Plan : Type 0 where
  pub agent_name : Text
  pub run_id : Text
  pub input : Text
  pub skill_name : Text
  pub instructions : Text
  pub tool_names : List Text
  pub definitions : List Definition
  pub max_steps : ℕ
  pub max_tool_calls : ℕ

-- The variables of the loop: `items`, `providerState` and `toolCalls`.
pub record Conversation : Type 0 where
  pub items : List Item
  pub provider_state : Text
  pub tool_calls : ℕ

-- The item that the loop adds for the text of a turn with tool calls.
unfoldable pub add_text : Text → List Item → List Item
add_text text items =
    if is_blank text
    then items
    else items ++ message_item (record { role = Provider.assistant; content = text }) ∷ []

-- The conversation in which the loop starts.
abbrev pub opening : Plan → Conversation
opening x = record {
  items = message_item (record { role = Provider.user; content = x.input }) ∷ [];
  provider_state = [];
  tool_calls = 0;
}

abbrev pub request_of : Plan → Conversation → Provider.Request
request_of x c = record {
  instructions = x.instructions;
  items = c.items;
  tools = x.definitions;
  state = c.provider_state;
}

abbrev pub permission_request : Plan → Call → Permission.Request
permission_request x call = record {
  agent_name = x.agent_name;
  skill_name = x.skill_name;
  call = call;
}

-- What one turn of the model comes to: the answer, or the conversation after its tool calls.
pub data Progress : Type 0 where
  answered : Text → Progress
  continued : Conversation → Progress

module _ {W E : Type 0} (r : Runtime W E) where
  -- `publish`
  unfoldable pub publish : Kind → Text → Text → ℕ → Run W E (Unit {0})
  unfolding observe perform
  publish kind run_id name step = do
    now ← observe r.clock
    let event : Event = record {
      kind = kind;
      occurred_at = now;
      run_id = run_id;
      name = name;
      step = step;
    }
    perform (r.events event) (published event) (publish_error kind)

  -- The values that the loop reads and does not change.
  abbrev pub plan_of : Text → Text → Skill.Skill → List Text → List Definition → Plan
  plan_of run_id input selected tool_names definitions = record {
    agent_name = r.name;
    run_id = run_id;
    input = input;
    skill_name = selected.name;
    instructions = trim_space r.instructions ++ codes "\n\n" ++ trim_space selected.instructions;
    tool_names = tool_names;
    definitions = definitions;
    max_steps = r.max_steps;
    max_tool_calls = r.max_tool_calls;
  }

-- `r.sequence.Add(1)` on an atomic uint64
unfoldable pub next_sequence : {W E : Type 0} → Run W E ℕ
next_sequence s = let n = (s.sequence + 1) % 2 ^ 64 in (ok n, record s { sequence = n })

module _ {W E : Type 0} (platform : Platform W E) (r : Runtime W E) where
  module _ (x : Plan) where
    -- One round of the loop over the tool calls of a turn.
    unfoldable pub run_call : ℕ → Call → Conversation → Run W E Conversation
    unfolding publish guard check_context lift perform pure
    run_call step call c = do
      guard (is_blank call.id || is_blank call.name) (blank_call step)
      check_context platform
      let items = c.items ++ call_item call ∷ []
      publish r Kind.tool_started x.run_id call.name step
      perform (r.authorizer (permission_request x call)) (authorized (permission_request x call))
          (authorize_error call.name)
      candidate ← lift (map_err (unknown_tool call.name) (ToolRegistry.get r.tools call.name))
      check_context platform
      content ← perform (candidate.execute call.arguments) (executed call) (execute_error call.name)
      let result : Result = record { call_id = call.id; content = content }
      publish r Kind.tool_completed x.run_id call.name step
      pure (record c { items = items ++ result_item result ∷ []; tool_calls = c.tool_calls + 1 })

    unfoldable pub run_calls : ℕ → List Call → Conversation → Run W E Conversation
    unfolding run_call
    run_calls step [] c = pure c
    run_calls step (call ∷ calls) c = do c' ← run_call step call c; run_calls step calls c'

    -- The end of a turn without tool calls.
    unfoldable pub finish : ℕ → Turn → Run W E Progress
    unfolding publish guard pure
    finish step turn = do
      let answer = trim_space turn.text
      guard (answer == []) (empty_turn step)
      publish r Kind.run_completed x.run_id x.agent_name step
      pure (answered answer)

    -- The rest of a turn with tool calls. `maxToolCalls - toolCalls` is not negative: a batch that
    -- does not fit ends the run.
    unfoldable pub run_batch : ℕ → Turn → Conversation → Run W E Progress
    unfolding run_calls guard lift pure
    run_batch step turn c = do
      guard (ltb (x.max_tool_calls - c.tool_calls) (length turn.tool_calls))
          (tool_call_limit x.max_tool_calls)
      lift (scope_check (unselected x.tool_names turn.tool_calls))
      c' ← run_calls step turn.tool_calls (record c { items = add_text turn.text c.items })
      pure (continued c')

    unfoldable pub take_turn : ℕ → Conversation → Run W E Progress
    unfolding finish run_batch check_context perform publish
    take_turn step c = do
      check_context platform
      turn ← perform (r.model (request_of x c)) (generated (request_of x c)) (generate_error step)
      check_context platform
      publish r Kind.model_completed x.run_id x.agent_name step
      let c' = record c { provider_state = turn.state }
      if eqb (length turn.tool_calls) 0 then finish step turn else run_batch step turn c'

    -- `for step := 1; step <= r.maxSteps; step++`, with the rounds that are left.
    unfoldable pub run_loop : ℕ → ℕ → Conversation → Run W E Text
    unfolding take_turn lift
    run_loop zero step c = lift (err (step_limit x.max_steps))
    run_loop (suc left) step c = do
      progress ← take_turn step c
      elim progress [ answered answer ↦ pure answer | continued c' ↦ run_loop left (step + 1) c' ]

  -- `Run` up to its loop: what it validates, selects and resolves.
  unfoldable pub prepare : Text → Run W E Plan
  unfolding observe check_context guard next_sequence publish lift
  prepare given = do
    observe (λ w. (tt, platform.with_timeout r.run_timeout w))
    check_context platform
    let input = trim_space given
    guard (input == []) empty_input
    sequence ← next_sequence
    let run_id = codes "run-" ++ decimal sequence
    publish r Kind.run_started run_id r.name 0
    selected ← lift (
        map_err select_error (Skill.select platform.lower r.skills (platform.visit r.skills) input))
    publish r Kind.skill_selected run_id selected.name 0
    tool_names ← lift (
        map_err (resolve_error selected.name)
          (resolve_tools r.capabilities selected.required_capabilities []))
    definitions ← lift (map_err describe_error (ToolRegistry.definitions r.tools tool_names))
    pure (plan_of r run_id input selected tool_names definitions)

  -- `Run`
  unfoldable pub run : Text → Run W E Text
  unfolding prepare run_loop
  run given = do x ← prepare given; run_loop x x.max_steps 1 (opening x)
