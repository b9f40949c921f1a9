-- ===== src/Agent/Outcomes.antt =====
-- What the result of a run of agent/runtime.go says about the calls that it made.
use hot_take.Base.{
  Bool-cases, length, Outcome, ok, err, Text, ℕ, ◌+◌, ◌<◌, ◌≡◌, sym, ◌∙◌, subst, inl, inr, true,
  false, some, List, [], ◌∷◌, Memᴰ, arith, ok-injective, err-injective,
}
use hot_take.Base.Strings.{trim_space}
use hot_take.Base.Dict.{elem}
use hot_take.Tool.{Call}
use hot_take.Provider.{Turn}
use hot_take.Skill
use hot_take.Agent.{Runtime}
use hot_take.Agent.Effects.{
  Error, tool_call_limit, tool_not_selected, step_limit, Effect, executed, published, generated,
  authorized, State, Platform, Trace,
}
use hot_take.Agent.Selection.{unselected}
use hot_take.Agent.Loop.{Plan, run}
use hot_take.Agent.Protocol.{Phase, ready, considered, Follows, EndsWith}
use hot_take.Agent.Prepare.{IsPlan}
use hot_take.Agent.Ensures.{IsEarly, IsSilent}
use hot_take.Agent.Hoare.{Stopped}
use hot_take.Agent.Whole.{Refines, run-Refines}
use hot_take.Agent.Authority.{StaysWithin, Follows-IsAuthorised}
use hot_take.Agent.Budget.{executions, generations, Follows-Spent}
use hot_take.Agent.Announcements.{stage_of, over, Follows-Seen}
use hot_take.Agent.Endings.{EndsInAnswer, EndsInTurn, Follows-Ending}
use hot_take.Agent.Runs.{cases}
use hot_take.Agent.Scope.{IsProvided, resolve_tools_lem}

module _ {E : Type 0} where
  StaysWithin-mem :
      (names : List Text) (t : Trace E) (call : Call) (result : Outcome E Text)
      → StaysWithin names t
      → Memᴰ {A = Effect E} (executed call result) t
      → elem call.name names ≡ true
  StaysWithin-mem names [] call result h m = elim m [ ]
  StaysWithin-mem names (executed c u ∷ t) call result h (Memᴰ.head e) = ground arith
  StaysWithin-mem names (executed c u ∷ t) call result h (Memᴰ.tail m) =
      StaysWithin-mem names t call result h.1 m
  StaysWithin-mem names (published c u ∷ t) call result h (Memᴰ.head e) = cc
  StaysWithin-mem names (published c u ∷ t) call result h (Memᴰ.tail m) =
      StaysWithin-mem names t call result h m
  StaysWithin-mem names (generated c u ∷ t) call result h (Memᴰ.head e) = cc
  StaysWithin-mem names (generated c u ∷ t) call result h (Memᴰ.tail m) =
      StaysWithin-mem names t call result h m
  StaysWithin-mem names (authorized c u ∷ t) call result h (Memᴰ.head e) = cc
  StaysWithin-mem names (authorized c u ∷ t) call result h (Memᴰ.tail m) =
      StaysWithin-mem names t call result h m

module _ {E : Type 0} (x : Plan) (t : Trace E) where
  call_limit :
      (p : Phase) (m : ℕ)
      → Follows x t p
      → EndsWith {E = E} x p (tool_call_limit m)
      → (turn : Turn) × (rest : Trace E) × EndsInTurn t turn rest
        × (m ≡ x.max_tool_calls)
        × (x.max_tool_calls < executions t + length turn.tool_calls)
  call_limit (considered n c turn) m f e =
      let (rest, ends) = Follows-Ending x f in
      (turn, rest, ends, e.1, omega (arith, Follows-Spent x f))
  call_limit _ m f e = absurd e

  out_of_scope :
      (p : Phase) (name : Text)
      → Follows x t p
      → EndsWith {E = E} x p (tool_not_selected name)
      → (turn : Turn) × (rest : Trace E) × EndsInTurn t turn rest
        × (call : Call) × (unselected x.tool_names turn.tool_calls ≡ some call)
        × (name ≡ call.name)
  out_of_scope (considered n c turn) name f e =
      let (rest, ends) = Follows-Ending x f in (turn, rest, ends, e.0, e.1, e.2)
  out_of_scope _ name f e = absurd e

  turn_limit :
      (p : Phase) (m : ℕ)
      → Follows x t p
      → EndsWith {E = E} x p (step_limit m)
      → (m ≡ x.max_steps) × (generations t ≡ x.max_steps)
  turn_limit (ready n c) m f e = omega (arith, Follows-Spent x f)
  turn_limit _ m f e = absurd e

-- The first call outside a list of names.
unselected-mem :
    (names : List Text) (calls : List Call) (call : Call)
    → unselected names calls ≡ some call
    → Memᴰ call calls × (elem call.name names ≡ false)
unfolding unselected
unselected-mem names [] call h = cc
unselected-mem names (c ∷ calls) call h = elim (Bool-cases (elem c.name names)) [
  | inl e ↦ (let (m, out) = unselected-mem names calls call (ground arith) in (Memᴰ.tail m, out))
  | inr e ↦
      (let same : c ≡ call = ground arith in
        (Memᴰ.head (sym same), subst (λ (d : Call). elem d.name names ≡ false) same e))
]

module _ {W E : Type 0} (platform : Platform W E) (r : Runtime W E) (given : Text) where
  stopped :
      (o : Outcome (Error E) Text × State W E) (e : Error E)
      → ¬ IsEarly e
      → o.0 ≡ err e
      → Refines platform r given o
      → (x : Plan) × IsPlan platform r given x × Stopped x e o.1
  stopped (_, s) e late h (inl (e', h', early, q)) =
      absurd (late (subst IsEarly (err-injective (sym h' ∙ h)) early))
  stopped (ok text, s) e late h (inr (x, plan, f)) = cc
  stopped (err e', s) e late h (inr (x, plan, f)) =
      (x, plan, subst (λ u. Stopped x u s) (err-injective h) f)

  run-Stopped :
      (s : State W E) (e : Error E)
      → ¬ IsEarly e
      → s.trace ≡ []
      → (run platform r given s).0 ≡ err e
      → (x : Plan) × IsPlan platform r given x × Stopped x e (run platform r given s).1
  run-Stopped s e late fresh h =
      stopped (run platform r given s) e late h (run-Refines platform r given s fresh)

  answered_lem :
      (o : Outcome (Error E) Text × State W E) (text : Text)
      → o.0 ≡ ok text
      → Refines platform r given o
      → EndsInAnswer o.1.trace text × (stage_of o.1.trace ≡ over)
  answered_lem (_, s) text h (inl (e', h', _, _)) = cc
  answered_lem (ok text', s) text h (inr (x, plan, f)) =
      (subst (EndsInAnswer s.trace) (ok-injective h) (Follows-Ending x f), Follows-Seen x f)
  answered_lem (err e, s) text h (inr _) = cc

  -- A run from a state with no calls yet that answers has announced its end last, right behind a turn
  -- of the model that asks for no tool: the answer is the trimmed text of that turn and is not empty,
  -- and the events are complete.
  pub run-answer :
      (s : State W E) (text : Text)
      → s.trace ≡ []
      → (run platform r given s).0 ≡ ok text
      → EndsInAnswer (run platform r given s).1.trace text
        × (stage_of (run platform r given s).1.trace ≡ over)
  run-answer s text fresh h =
      answered_lem (run platform r given s) text h (run-Refines platform r given s fresh)

  -- A run from a state with no calls yet ends with the error of the tool-call limit only directly
  -- behind a turn of the model whose calls, with the executions before, exceed the limit: no call of
  -- that turn is executed.
  pub run-call_limit :
      (s : State W E) (m : ℕ)
      → s.trace ≡ []
      → (run platform r given s).0 ≡ err (tool_call_limit m)
      → (turn : Turn) × (rest : Trace E) × EndsInTurn (run platform r given s).1.trace turn rest
        × (m ≡ r.max_tool_calls)
        × (r.max_tool_calls < executions (run platform r given s).1.trace + length turn.tool_calls)
  run-call_limit s m fresh h =
      let (x, plan, (p, f, e)) = run-Stopped s (tool_call_limit m) (λ b. b) fresh h in
      let (turn, rest, ends, same, exceeds) =
        call_limit x (run platform r given s).1.trace p m f e in
      (turn, rest, ends, same ∙ plan.max_tool_calls, omega (arith, exceeds, plan.max_tool_calls))

  -- A run from a state with no calls yet ends with the error of the step limit only when the model was
  -- asked `max_steps` times.
  pub run-step_limit :
      (s : State W E) (m : ℕ)
      → s.trace ≡ []
      → (run platform r given s).0 ≡ err (step_limit m)
      → (m ≡ r.max_steps) × (generations (run platform r given s).1.trace ≡ r.max_steps)
  run-step_limit s m fresh h =
      let (x, plan, (p, f, e)) = run-Stopped s (step_limit m) (λ b. b) fresh h in
      let (same, all_used) = turn_limit x (run platform r given s).1.trace p m f e in
      (same ∙ plan.max_steps, all_used ∙ plan.max_steps)

  -- A run from a state with no calls yet ends with the error of a tool outside the scope only directly
  -- behind a turn of the model with a call of that tool, which the selected tools do not have: no call
  -- of that turn is executed.
  pub run-not_selected :
      (s : State W E) (name : Text)
      → s.trace ≡ []
      → (run platform r given s).0 ≡ err (tool_not_selected name)
      → (x : Plan) × IsPlan platform r given x
        × (turn : Turn) × (rest : Trace E) × EndsInTurn (run platform r given s).1.trace turn rest
        × (call : Call) × Memᴰ call turn.tool_calls
        × (call.name ≡ name)
        × (elem name x.tool_names ≡ false)
  run-not_selected s name fresh h =
      let (x, plan, (p, f, e)) = run-Stopped s (tool_not_selected name) (λ b. b) fresh h in
      let (turn, rest, ends, call, first, same) =
        out_of_scope x (run platform r given s).1.trace p name f e in
      let (m, out) = unselected-mem x.tool_names turn.tool_calls call first in
      (
        x,
        plan,
        turn,
        rest,
        ends,
        call,
        m,
        sym same,
        subst (λ n. elem n x.tool_names ≡ false) (sym same) out,
      )

  abbrev pub InScope : Trace E → Type 0
  InScope t =
      (call : Call) (result : Outcome E Text)
      → Memᴰ {A = Effect E} (executed call result) t
      → (skill : Skill.Skill) × (Skill.select platform.lower r.skills (platform.visit r.skills)
            (trim_space given)
          ≡ ok skill)
        × IsProvided r.capabilities skill.required_capabilities call.name

  IsSilent-InScope : (t : Trace E) → IsSilent t → InScope t
  IsSilent-InScope [] q call result m = elim m [ ]
  IsSilent-InScope (published event u ∷ t) q call result (Memᴰ.head e) = cc
  IsSilent-InScope (published event u ∷ t) q call result (Memᴰ.tail m) =
      IsSilent-InScope t q call result m
  IsSilent-InScope (_ ∷ t) q call result m = absurd q

  -- In every run from a state with no calls yet each executed call, whether the tool failed or not, is
  -- of a tool that a capability required by the skill selected for the input provides.
  pub run-InScope : (s : State W E) → s.trace ≡ [] → InScope (run platform r given s).1.trace
  run-InScope s fresh =
      cases platform r given InScope (run platform r given s) (λ t q. IsSilent-InScope t q.0)
        (λ x plan t p f call result m. (
          plan.skill,
          plan.selected,
          (resolve_tools_lem r.capabilities plan.skill.required_capabilities x.tool_names
                plan.resolved).1
              call.name (StaysWithin-mem x.tool_names t call result (Follows-IsAuthorised x f).1 m),
        ))
        (run-Refines platform r given s fresh)
