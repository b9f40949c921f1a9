-- ===== src/Agent/Protocol.antt =====
-- What a run of agent/runtime.go may do, as a state machine over the calls of its dependencies.
-- `Agent.Refinement` proves that the loop follows it; the properties of runs are proved of it.
use hot_take.Base.{
  length, All, ok, err, Text, ℕ, ◌+◌, ◌≤◌, ◌<◌, ◌≡◌, ◌≢◌, true, false, ◌||◌, some, List, [], ◌∷◌,
  ◌++◌,
}
use hot_take.Base.Strings.{trim_space, is_blank}
use hot_take.Base.Dict.{elem}
use hot_take.Tool.{Call}
use hot_take.Provider.{Turn, call_item, result_item}
use hot_take.Event.{Event, Kind}
use hot_take.Agent.Effects.{
  Error, context_error, publish_error, generate_error, empty_turn, tool_call_limit,
  tool_not_selected, blank_call, authorize_error, unknown_tool, execute_error, step_limit, Trace,
  published, generated, authorized, executed,
}
use hot_take.Agent.Selection.{unselected}
use hot_take.Agent.Loop.{Plan, Conversation, opening, request_of, permission_request, add_text}

-- Where a run stands between two calls.
pub data Phase : Type 0 where
  -- about to ask the model for this turn
  ready : ℕ → Conversation → Phase
  -- the model has answered
  replied : ℕ → Conversation → Turn → Phase
  -- the answer is announced
  considered : ℕ → Conversation → Turn → Phase
  -- these calls of the turn are left
  working : ℕ → Conversation → List Call → Phase
  -- a call is announced
  asking : ℕ → Conversation → Call → List Call → Phase
  -- the call is authorised
  permitted : ℕ → Conversation → Call → List Call → Phase
  -- the call has been executed
  performed : ℕ → Conversation → Call → List Call → Phase
  -- the answer is given
  finished : Text → Phase
  -- a dependency has failed
  halted : Phase

abbrev pub IsLive : Phase → Type 0
IsLive (finished answer) = ⊥
IsLive halted = ⊥
IsLive _ = Unit

-- The conversation after a call, with its result.
abbrev pub with_result : Conversation → Call → Text → Conversation
with_result c call content = record c {
  items = c.items ++ result_item (record { call_id = call.id; content = content }) ∷ [];
  tool_calls = c.tool_calls + 1;
}

abbrev pub with_call : Conversation → Call → Conversation
with_call c call = record c { items = c.items ++ call_item call ∷ [] }

abbrev pub with_text : Conversation → Turn → Conversation
with_text c turn = record c { items = add_text turn.text c.items }

abbrev pub event_of : Plan → Kind → Text → ℕ → ℕ → Event
event_of x kind name step now = record {
  kind = kind;
  occurred_at = now;
  run_id = x.run_id;
  name = name;
  step = step;
}

module _ {E : Type 0} (x : Plan) where
  -- The traces of the runs of a plan, latest call first, with the phase that each has reached.
  pub data Follows : Trace E → Phase → Type 0 where
    begin :
        (t₀ t₁ : ℕ)
        → Follows
            (published (event_of x Kind.skill_selected x.skill_name 0 t₁) (ok tt)
              ∷ published (event_of x Kind.run_started x.agent_name 0 t₀) (ok tt)
              ∷ [])
            (ready 1 (opening x))
    reply :
        {t : Trace E} {n : ℕ} {c : Conversation} (turn : Turn)
        → Follows t (ready n c)
        → n ≤ x.max_steps
        → Follows (generated (request_of x c) (ok turn) ∷ t) (replied n c turn)
    no_reply :
        {t : Trace E} {n : ℕ} {c : Conversation} (e : E)
        → Follows t (ready n c)
        → n ≤ x.max_steps
        → Follows (generated (request_of x c) (err e) ∷ t) halted
    announce_reply :
        {t : Trace E} {n : ℕ} {c : Conversation} {turn : Turn} (now : ℕ)
        → Follows t (replied n c turn)
        → Follows
            (published (event_of x Kind.model_completed x.agent_name n now) (ok tt) ∷ t)
            (considered n (record c { provider_state = turn.state }) turn)
    answer :
        {t : Trace E} {n : ℕ} {c : Conversation} {turn : Turn} (now : ℕ)
        → Follows t (considered n c turn)
        → turn.tool_calls ≡ []
        → trim_space turn.text ≢ []
        → Follows
            (published (event_of x Kind.run_completed x.agent_name n now) (ok tt) ∷ t)
            (finished (trim_space turn.text))
    accept :
        {t : Trace E} {n : ℕ} {c : Conversation} {turn : Turn}
        → Follows t (considered n c turn)
        → turn.tool_calls ≢ []
        → c.tool_calls + length turn.tool_calls ≤ x.max_tool_calls
        → All (λ (call : Call). elem call.name x.tool_names ≡ true) turn.tool_calls
        → Follows t (working n (with_text c turn) turn.tool_calls)
    announce_call :
        {t : Trace E} {n : ℕ} {c : Conversation} {call : Call} {calls : List Call} (now : ℕ)
        → Follows t (working n c (call ∷ calls))
        → is_blank call.id ≡ false
        → is_blank call.name ≡ false
        → Follows
            (published (event_of x Kind.tool_started call.name n now) (ok tt) ∷ t)
            (asking n (with_call c call) call calls)
    permit :
        {t : Trace E} {n : ℕ} {c : Conversation} {call : Call} {calls : List Call}
        → Follows t (asking n c call calls)
        → Follows (authorized (permission_request x call) (ok tt) ∷ t) (permitted n c call calls)
    refuse :
        {t : Trace E} {n : ℕ} {c : Conversation} {call : Call} {calls : List Call} (e : E)
        → Follows t (asking n c call calls)
        → Follows (authorized (permission_request x call) (err e) ∷ t) halted
    execute :
        {t : Trace E} {n : ℕ} {c : Conversation} {call : Call} {calls : List Call} (content : Text)
        → Follows t (permitted n c call calls)
        → Follows
            (executed call (ok content) ∷ t)
            (performed n (with_result c call content) call calls)
    crash :
        {t : Trace E} {n : ℕ} {c : Conversation} {call : Call} {calls : List Call} (e : E)
        → Follows t (permitted n c call calls)
        → Follows (executed call (err e) ∷ t) halted
    announce_result :
        {t : Trace E} {n : ℕ} {c : Conversation} {call : Call} {calls : List Call} (now : ℕ)
        → Follows t (performed n c call calls)
        → Follows
            (published (event_of x Kind.tool_completed call.name n now) (ok tt) ∷ t)
            (working n c calls)
    go_on :
        {t : Trace E} {n : ℕ} {c : Conversation}
        → Follows t (working n c [])
        → Follows t (ready (n + 1) c)
    unpublished :
        {t : Trace E} {p : Phase} (event : Event) (e : E)
        → Follows t p
        → IsLive p
        → Follows (published event (err e) ∷ t) halted

  -- How a run that has reached a phase may end with an error.
  abbrev pub EndsWith : Phase → Error E → Type 0
  EndsWith p (context_error e) = IsLive p
  EndsWith halted (publish_error kind e) = Unit
  EndsWith halted (generate_error n e) = Unit
  EndsWith halted (authorize_error name e) = Unit
  EndsWith halted (execute_error name e) = Unit
  EndsWith (considered n c turn) (empty_turn m) =
      (turn.tool_calls ≡ []) × (trim_space turn.text ≡ []) × (m ≡ n)
  EndsWith (considered n c turn) (tool_call_limit m) =
      (x.max_tool_calls < c.tool_calls + length turn.tool_calls) × (m ≡ x.max_tool_calls)
  EndsWith (considered n c turn) (tool_not_selected name) =
      (call : Call) × (unselected x.tool_names turn.tool_calls ≡ some call) × (name ≡ call.name)
  EndsWith (working n c (call ∷ calls)) (blank_call m) =
      ((is_blank call.id || is_blank call.name) ≡ true) × (m ≡ n)
  EndsWith (permitted n c call calls) (unknown_tool name e) = name ≡ call.name
  EndsWith (ready n c) (step_limit m) = (x.max_steps < n) × (m ≡ x.max_steps)
  EndsWith _ _ = ⊥
