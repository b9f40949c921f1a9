-- ===== src/Command/Main/Assembly.antt =====
-- The runtime that runProject of cmd/hot-take/main.go builds, and what it does with it.
use hot_take.Base.{
  Outcome, ok, err, Text, ℕ, ◌≡◌, refl, sym, ap, ◌∙◌, ◌⊎◌, inl, inr, true, Option, none, some, [],
  map_err-eq-ok,
}
use hot_take.Base.Int.{ℤ, pos}
use hot_take.Project.Load as Load
use hot_take.Openai
use hot_take.Agent.{Runtime, new_runtime}
use hot_take.Agent.Configuration.{new_runtime-eq-ok, new_runtime-texts}
use hot_take.Agent.Effects
use hot_take.Agent.Loop.{run}
use hot_take.Command.{World}
use hot_take.Command.Demo as Demo
use hot_take.Command.Demo.{DemoSetting, written, print_answer}
use hot_take.Command.ProjectTools.{ToolSet}
use hot_take.Command.Main.{
  MainSetting, Options, Error, runtime_failed, demo_failed, is_positive, model_of, authorizer_of,
  runtime_config, project_runtime, run_runtime,
}

module _ {W E F : Type 0} (main : MainSetting W E F) where
  -- A runtime that has the limits of the options, the texts, steps and skills of the project, the client as its model,
  -- and the tools, the capabilities and the policy of the plugins.
  abbrev pub IsRuntimeOf :
      Options → Load.Definition → Openai.Client W E → ToolSet W F → Runtime (World W) F → Type 0
  IsRuntimeOf options definition client set runtime =
      (definition.name ≡ runtime.name)
      × (definition.instructions ≡ runtime.instructions)
      × (definition.max_steps ≡ pos runtime.max_steps)
      × (options.max_tool_calls ≡ pos runtime.max_tool_calls)
      × (options.timeout ≡ pos runtime.run_timeout)
      × (model_of main client ≡ runtime.model)
      × (definition.skills ≡ runtime.skills)
      × (set.capabilities ≡ runtime.capabilities)
      × (set.tools ≡ runtime.tools)
      × (authorizer_of main set.policy ≡ runtime.authorizer)

  -- The runtime answers the message, and the answer is written.
  abbrev pub IsAnswered : Runtime (World W) F → Text → World W → World W → Type 0
  IsAnswered runtime message w w' =
      (answer : Text) × (s : Effects.State (World W) F) × (run main.demo.platform runtime message
          (record { world = w; sequence = 0; trace = [] })
        ≡ (ok answer, s))
      × (main.demo.write_line answer s.world ≡ (none, w'))

  given_limit :
      (n : ℤ) (m d k : ℕ) → is_positive n ≡ true → (n ≡ pos m) ⊎ ((n ≡ pos 0) × (k ≡ d)) → n ≡ pos m
  given_limit n m d k p (inl e) = e
  given_limit n m d k p (inr (e, _)) = absurd (zero_not_positive (sym (ap is_positive e) ∙ p))
    where
      zero_not_positive : is_positive (pos 0) ≡ true → ⊥
      zero_not_positive h = cc

  pub project_runtime-IsRuntimeOf :
      (options : Options) (definition : Load.Definition) (client : Openai.Client W E)
      (set : ToolSet W F) (runtime : Runtime (World W) F)
      → is_positive options.timeout ≡ true
      → is_positive options.max_tool_calls ≡ true
      → project_runtime main options definition (model_of main client) set ≡ ok runtime
      → IsRuntimeOf options definition client set runtime
  unfolding project_runtime
  project_runtime-IsRuntimeOf options definition client set runtime t c h =
      let config = runtime_config main options definition (model_of main client) set in
      let built = map_err-eq-ok runtime_failed (new_runtime main.demo.now config) h in
      let (name, instructions) = new_runtime-texts main.demo.now config runtime built in
      let ((steps, _, _, calls, _, timeout), (model, skills, capabilities, tools, authorizer)) =
        new_runtime-eq-ok main.demo.now config runtime built in
      (
        name,
        instructions,
        steps,
        given_limit _ _ _ _ c calls,
        given_limit _ _ _ _ t timeout,
        some-injective model,
        some-injective skills,
        some-injective capabilities,
        some-injective tools,
        some-injective authorizer,
      )
    where
      some-injective : {A : Type 0} {a b : A} → ◌≡◌ {A = Option A} (some a) (some b) → a ≡ b
      some-injective e = cc

  written-eq-ok :
      (r : Option E × World W) (w' : World W) → written main.demo r ≡ (ok tt, w') → r ≡ (none, w')
  unfolding written
  written-eq-ok (none, w) w' h = ap (λ v. (none, v)) (ap (λ p. p.1) h)
  written-eq-ok (some e, w) w' h = cc

  print_answer-eq-ok :
      (r : Outcome (Effects.Error F) Text × Effects.State (World W) F) (w' : World W)
      → print_answer main.demo r ≡ (ok tt, w')
      → (answer : Text) × (s : Effects.State (World W) F) × (r ≡ (ok answer, s))
        × (main.demo.write_line answer s.world ≡ (none, w'))
  unfolding print_answer
  print_answer-eq-ok (err e, s) w' h = cc
  print_answer-eq-ok (ok answer, s) w' h =
      (answer, s, refl, written-eq-ok (main.demo.write_line answer s.world) w' h)

  pub run_runtime-eq-ok :
      (message : Text) (o : Outcome (Error E F) (Runtime (World W) F)) (w w' : World W)
      → run_runtime main message o w ≡ (ok tt, w')
      → (runtime : Runtime (World W) F) × (o ≡ ok runtime) × IsAnswered runtime message w w'
  unfolding run_runtime
  run_runtime-eq-ok message (err e) w w' h = cc
  run_runtime-eq-ok message (ok runtime) w w' h =
      let r =
        print_answer main.demo (
          run main.demo.platform runtime message
            (record { world = w; sequence = 0; trace = [] })) in
      (
        runtime,
        refl,
        print_answer-eq-ok _ w'
            (paired r (map_err-eq-ok demo_failed (r.0) (ap (λ p. p.0) h)) (ap (λ p. p.1) h)),
      )
    where
      paired :
          (r : Outcome (Demo.Error E F) (Unit {0}) × World W) {v : World W}
          → r.0 ≡ ok tt
          → r.1 ≡ v
          → r ≡ (ok tt, v)
      paired (x, y) e f = cc (e, f)
