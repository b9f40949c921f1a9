-- ===== src/Agent/Refinement.antt =====
-- The loop of agent/runtime.go follows the protocol of `Agent.Protocol`.
use hot_take.Base.{
  if◌then◌else◌, ltb, eqb, Bool-cases, length, All, Outcome, ok, err, map_err, Text, ◌==◌, ==_iff,
  ℕ, zero, suc, ◌+◌, ◌-◌, ◌≤◌, ◌≡◌, refl, subst, ◌≢◌, ◌⊎◌, inl, inr, true, false, ◌||◌, Option,
  none, some, List, [], ◌∷◌, arith, err-injective,
}
use hot_take.Base.Strings.{trim_space, is_blank}
use hot_take.Base.Dict.{elem}
use hot_take.Tool.{Call}
use hot_take.Tool.Registry as ToolRegistry
use hot_take.Provider.{Turn}
use hot_take.Event.{Kind}
use hot_take.Agent.{Runtime}
use hot_take.Agent.Effects.{
  Error, blank_call, authorize_error, unknown_tool, execute_error, empty_turn, tool_call_limit,
  generate_error, step_limit, generated, authorized, executed, Platform,
}
use hot_take.Agent.Selection.{unselected, scope_check}
use hot_take.Agent.Loop.{
  Plan, Conversation, Progress, answered, continued, permission_request, request_of, run_call,
  run_calls, finish, run_batch, take_turn, run_loop,
}
use hot_take.Agent.Protocol.{
  Phase, ready, replied, considered, working, permitted, performed, finished, halted, with_result,
  with_call, with_text, reply, no_reply, announce_reply, answer, accept, announce_call, permit,
  refuse, execute, crash, announce_result, go_on, EndsWith,
}
use hot_take.Agent.Budget.{Follows-Spent}
use hot_take.Agent.Hoare.{
  Leads, bind-Leads, pure-Leads, lift-Leads, guard-Leads, perform-Leads, check_context-Leads,
  publish-Leads,
}

nil_of_length : (calls : List Call) → eqb (length calls) 0 ≡ true → calls ≡ []
nil_of_length [] h = refl
nil_of_length (call ∷ calls) h = ground arith

ne-nil_of_length : (calls : List Call) → eqb (length calls) 0 ≡ false → calls ≢ []
ne-nil_of_length [] h = cc
ne-nil_of_length (call ∷ calls) h = cc

module _ {E : Type 0} (x : Plan) where
  -- The errors of the steps that only compute.
  EndsWith-unknown_tool :
      {A : Type 0} (n : ℕ) (c : Conversation) (call : Call) (calls : List Call)
      (o : Outcome ToolRegistry.Error A) (e : Error E)
      → map_err (unknown_tool call.name) o ≡ err e
      → EndsWith x (permitted n c call calls) e
  EndsWith-unknown_tool n c call calls (ok a) e h = cc
  EndsWith-unknown_tool n c call calls (err f) e h =
      subst (EndsWith x (permitted n c call calls)) (err-injective h) refl

  EndsWith-scope_check :
      (n : ℕ) (c : Conversation) (turn : Turn) (o : Option Call) (e : Error E)
      → unselected x.tool_names turn.tool_calls ≡ o
      → scope_check o ≡ err e
      → EndsWith x (considered n c turn) e
  unfolding scope_check
  EndsWith-scope_check n c turn none e s h = cc
  EndsWith-scope_check n c turn (some call) e s h =
      subst (EndsWith x (considered n c turn)) (err-injective h) (call, s, refl)

-- A batch that passes the check of the scope is within it.
scope_check-ok :
    {E : Type 0} (names : List Text) (calls : List Call) (u : Unit {0})
    → scope_check {E = E} (unselected names calls) ≡ ok u
    → All (λ (call : Call). elem call.name names ≡ true) calls
unfolding unselected scope_check
scope_check-ok names [] u h = tt
scope_check-ok {E} names (call ∷ calls) u h =
    (ground arith, scope_check-ok {E = E} names calls u (ground arith))

module _ {W E : Type 0} (platform : Platform W E) (r : Runtime W E) (x : Plan) where
  run_call-Leads :
      (n : ℕ) (call : Call) (calls : List Call) (c : Conversation)
      → Leads x
          (working n c (call ∷ calls))
          (run_call platform r x n call c)
          (λ c'. working n c' calls)
  unfolding run_call
  run_call-Leads n call calls c =
      let request = permission_request x call in
      guard-Leads x (is_blank call.id || is_blank call.name) (blank_call n) _ (λ e. (e, refl))
        λ given. bind-Leads x (check_context-Leads x platform tt) λ _.
          bind-Leads x
            (publish-Leads x r Kind.tool_started call.name n tt
              (λ now t f. announce_call now f (ground arith) (ground arith)))
            λ _.
              bind-Leads x
                (perform-Leads x {q = λ _. permitted n (with_call c call) call calls}
                  (r.authorizer request) (authorized request) (authorize_error call.name)
                  (λ a t f. permit f) (λ e t f. (halted, refuse e f, tt)))
                λ _.
                  bind-Leads x
                    (lift-Leads x {q = λ _. permitted n (with_call c call) call calls}
                      (map_err (unknown_tool call.name) (ToolRegistry.get r.tools call.name))
                      (λ a e t f. f)
                      (EndsWith-unknown_tool x n (with_call c call) call calls
                        (ToolRegistry.get r.tools call.name)))
                    λ candidate. bind-Leads x (check_context-Leads x platform tt) λ _.
                      bind-Leads x
                        (perform-Leads x
                          {q = λ content.
                            performed n (with_result (with_call c call) call content) call calls}
                          (candidate.execute call.arguments) (executed call)
                          (execute_error call.name) (λ content t f. execute content f)
                          (λ e t f. (halted, crash e f, tt)))
                        λ content.
                          bind-Leads x
                            (publish-Leads x r Kind.tool_completed call.name n tt
                              (λ now t f. announce_result now f))
                            λ _.
                              pure-Leads x (with_result (with_call c call) call content) (λ t f. f)

  run_calls-Leads :
      (n : ℕ) (calls : List Call) (c : Conversation)
      → Leads x (working n c calls) (run_calls platform r x n calls c) (λ c'. working n c' [])
  unfolding run_calls
  run_calls-Leads n [] c = pure-Leads x c (λ t f. f)
  run_calls-Leads n (call ∷ calls) c =
      bind-Leads x (run_call-Leads n call calls c) (λ c'. run_calls-Leads n calls c')

  -- Where the loop stands behind a turn.
  abbrev after : ℕ → Progress → Phase
  after n (answered text) = finished text
  after n (continued c) = ready (n + 1) c

  finish-Leads :
      (n : ℕ) (turn : Turn) (c : Conversation)
      → turn.tool_calls ≡ []
      → Leads x (considered n c turn) (finish platform r x n turn) (after n)
  unfolding finish
  finish-Leads n turn c no_calls =
      guard-Leads x (trim_space turn.text == []) (empty_turn n) _
        (λ e. (no_calls, (==_iff (trim_space turn.text) []).0 e, refl))
        λ given.
          bind-Leads x
            (publish-Leads x r Kind.run_completed x.agent_name n tt
              (λ now t f. answer now f no_calls (ground (arith, ==_iff (trim_space turn.text) []))))
            λ _. pure-Leads x (answered (trim_space turn.text)) (λ t f. f)

  run_batch-Leads :
      (n : ℕ) (turn : Turn) (c : Conversation)
      → turn.tool_calls ≢ []
      → c.tool_calls ≤ x.max_tool_calls
      → Leads x (considered n c turn) (run_batch platform r x n turn c) (after n)
  unfolding run_batch
  run_batch-Leads n turn c some_call within =
      guard-Leads x (ltb (x.max_tool_calls - c.tool_calls) (length turn.tool_calls))
        (tool_call_limit x.max_tool_calls) _ (λ e. (ground arith, refl))
        λ given.
          bind-Leads x
            (lift-Leads x {q = λ _. working n (with_text c turn) turn.tool_calls}
              (scope_check (unselected x.tool_names turn.tool_calls))
              (λ a e t f.
                accept f some_call (ground arith) (scope_check-ok x.tool_names turn.tool_calls a e))
              (λ e h. EndsWith-scope_check x n c turn _ e refl h))
            λ _.
              bind-Leads x (run_calls-Leads n turn.tool_calls (with_text c turn))
                λ c'. pure-Leads x (continued c') (λ t f. go_on f)

  take_turn-Leads :
      (n : ℕ) (c : Conversation)
      → n ≤ x.max_steps
      → Leads x (ready n c) (take_turn platform r x n c) (after n)
  unfolding take_turn
  take_turn-Leads n c within = bind-Leads x (check_context-Leads x platform tt) λ _.
      bind-Leads x
        (perform-Leads x {q = λ turn. replied n c turn} (r.model (request_of x c))
          (generated (request_of x c)) (generate_error n) (λ turn t f. reply turn f within)
          (λ e t f. (halted, no_reply e f within, tt)))
        λ turn. bind-Leads x (check_context-Leads x platform tt) λ _.
          bind-Leads x
            (publish-Leads x r Kind.model_completed x.agent_name n tt
              (λ now t f. announce_reply now f))
            λ _.
              end_of turn (record c { provider_state = turn.state })
                (Bool-cases (eqb (length turn.tool_calls) 0))
    where
      end_of :
          (turn : Turn) (c' : Conversation)
          → ((eqb (length turn.tool_calls) 0 ≡ true) ⊎ (eqb (length turn.tool_calls) 0 ≡ false))
          → Leads x
              (considered n c' turn)
              (if eqb (length turn.tool_calls) 0
                then finish platform r x n turn
                else run_batch platform r x n turn c')
              (after n)
      end_of turn c' (inl e) = rw e (finish-Leads n turn c' (nil_of_length turn.tool_calls e))
      end_of turn c' (inr e) = rw e (record {
        at = λ s f.
            (run_batch-Leads n turn c' (ne-nil_of_length turn.tool_calls e)
                (omega (arith, Follows-Spent x f))).at
              s f;
      })

  pub run_loop-Leads :
      (left n : ℕ) (c : Conversation)
      → n + left ≡ x.max_steps + 1
      → Leads x (ready n c) (run_loop platform r x left n c) finished
  unfolding run_loop
  run_loop-Leads zero n c h =
      lift-Leads x {q = finished} (err (step_limit x.max_steps)) (λ a e. cc)
        (λ e k. subst (EndsWith x (ready n c)) (err-injective k) (omega arith, refl))
  run_loop-Leads (suc left) n c h = bind-Leads x (take_turn-Leads n c (omega arith)) (elim [
    | answered text ↦ pure-Leads x text (λ t f. f)
    | continued c' ↦ run_loop-Leads left (n + 1) c' (omega arith)
  ])
