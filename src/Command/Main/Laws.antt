-- ===== src/Command/Main/Laws.antt =====
-- What a successful run of a project has done before its answer.
use hot_take.Base.{
  Bool-cases, Outcome, ok, err, ◌>>=◌, reject_if, >>=-eq-ok, map_err, reject_if-eq-ok, Text, codes,
  ◌==◌, ==_iff, ◌≡◌, refl, sym, ap, ◌∙◌, subst, ◌≢◌, inl, inr, Bool, true, false, not, ◌||◌, List,
  [], arith, ok-injective, map_err-eq-ok,
}
use hot_take.Base.Strings.{trim_space, join}
use hot_take.Base.Int.{pos_part}
use hot_take.Project.Load as Load
use hot_take.Project.Load.{load}
use hot_take.Project.Load.Laws.{IsRoot, IsLoadedFrom, load-eq-ok}
use hot_take.Project.Files.Laws.{IsFilepath}
use hot_take.Openai
use hot_take.Agent.{Runtime}
use hot_take.Command
use hot_take.Command.{World}
use hot_take.Command.ProjectTools.{ToolSet, project_tools}
use hot_take.Command.ProjectTools.Laws.{IsToolSet, project_tools-IsToolSet}
use hot_take.Command.Demo.{project_model}
use hot_take.Command.Main.Assembly.{
  IsRuntimeOf, IsAnswered, project_runtime-IsRuntimeOf, run_runtime-eq-ok,
}
use hot_take.Command.Main.{
  MainSetting, Options, Error, parse_failed, options_not_positive, load_failed, model_failed,
  tools_failed, is_positive, check_options, checked_options, model_of, project_runtime,
  load_project, run_loaded, run_options, run_project,
}

module _ {W E F : Type 0} (main : MainSetting W E F) where
  abbrev pub message_of : Options → Text
  message_of options = trim_space (join options.arguments (codes " "))

  abbrev pub connected_at : Options → World W → World W
  connected_at options w = main.demo.platform.with_timeout (pos_part options.timeout) w

  -- A run of a project with these arguments: their flags are the options, which are positive and leave a message; the
  -- project was loaded from below the root of its directory; the client is that of the project's provider;
  -- the tools are those that the plugins gave, under the timeout; the runtime is built of all these, and
  -- answered the message behind the plugins, and the answer was written.
  abbrev pub IsProjectRun :
      List Text
      → World W
      → World W
      → Options
      → Load.Definition
      → Openai.Client W E
      → ToolSet W F
      → Runtime (World W) F
      → Type 0
  IsProjectRun arguments w w' options definition client set runtime =
      (main.parse_flags arguments ≡ ok options)
      × (is_positive options.timeout ≡ true)
      × (is_positive options.max_tool_calls ≡ true)
      × (message_of options ≢ [])
      × (load main.files options.project_directory ≡ ok definition)
      × ((root : Text) × IsRoot main.files options.project_directory root
          × IsLoadedFrom main.files root definition)
      × (project_model main.demo.setting.parse_url main.model_client main.get_env
            definition.provider
          ≡ ok client)
      × IsToolSet main.demo.setting definition.plugins set
      × IsRuntimeOf main options definition client set runtime
      × ((v : World W) × (project_tools main.demo.setting definition.plugins
              (connected_at options w)
            ≡ (ok set, v))
          × IsAnswered main runtime (message_of options) v w')

  checked_options-eq-ok :
      (arguments : List Text) (options : Options)
      → checked_options main arguments ≡ ok options
      → (main.parse_flags arguments ≡ ok options)
        × (is_positive options.timeout ≡ true)
        × (is_positive options.max_tool_calls ≡ true)
  unfolding checked_options check_options
  checked_options-eq-ok arguments options h =
      let (o, parsed, h) = >>=-eq-ok (map_err parse_failed (main.parse_flags arguments)) _ h in
      let (_, c, h) =
        >>=-eq-ok
          (reject_if (not (is_positive o.timeout) || not (is_positive o.max_tool_calls))
            options_not_positive)
          _ h in
      let (p, q) =
        both (is_positive o.timeout) (is_positive o.max_tool_calls) (reject_if-eq-ok _ _ c) in
      subst
        (λ (p : Options).
          (main.parse_flags arguments ≡ ok p)
          × (is_positive p.timeout ≡ true)
          × (is_positive p.max_tool_calls ≡ true))
        (ok-injective h) (map_err-eq-ok parse_failed _ parsed, p, q)
    where
      both : (a b : Bool) → (not a || not b) ≡ false → (a ≡ true) × (b ≡ true)
      both a b h = ground arith

  load_project-eq-ok :
      (directory : Text) (definition : Load.Definition) (client : Openai.Client W E)
      → load_project main directory ≡ ok (definition, client)
      → (load main.files directory ≡ ok definition)
        × (project_model main.demo.setting.parse_url main.model_client main.get_env
              definition.provider
            ≡ ok client)
  unfolding load_project
  load_project-eq-ok directory definition client h =
      let (d, l, h) = >>=-eq-ok (map_err load_failed (load main.files directory)) _ h in
      let (c, m, h) =
        >>=-eq-ok
          (map_err model_failed
            (project_model main.demo.setting.parse_url main.model_client main.get_env d.provider))
          _ h in
      subst
        (λ (p : Load.Definition × Openai.Client W E).
          (load main.files directory ≡ ok p.0)
          × (project_model main.demo.setting.parse_url main.model_client main.get_env p.0.provider
              ≡ ok p.1))
        (ok-injective h) (map_err-eq-ok load_failed _ l, map_err-eq-ok model_failed _ m)

  run_loaded-eq-ok :
      (options : Options) (message : Text)
      (o : Outcome (Error E F) (Load.Definition × Openai.Client W E)) (w w' : World W)
      → run_loaded main options message o w ≡ (ok tt, w')
      → (definition : Load.Definition) × (client : Openai.Client W E) × (set : ToolSet W F)
        × (runtime : Runtime (World W) F) × (v : World W) × (o ≡ ok (definition, client))
        × (project_tools main.demo.setting definition.plugins w ≡ (ok set, v))
        × (project_runtime main options definition (model_of main client) set ≡ ok runtime)
        × IsAnswered main runtime message v w'
  unfolding run_loaded
  run_loaded-eq-ok options message (err e) w w' h = cc
  run_loaded-eq-ok options message (ok (definition, client)) w w' h =
      let r = project_tools main.demo.setting definition.plugins w in
      let (runtime, b, answered) =
        run_runtime-eq-ok main message
          (map_err tools_failed (r.0)
            >>= project_runtime main options definition (model_of main client))
          (r.1) w' h in
      let (set, s, b) =
        >>=-eq-ok (map_err tools_failed (r.0))
          (project_runtime main options definition (model_of main client)) b in
      (
        definition,
        client,
        set,
        runtime,
        r.1,
        refl,
        paired r (map_err-eq-ok tools_failed _ s),
        b,
        answered,
      )
    where
      paired :
          (r : Outcome (Command.Error E) (ToolSet W F) × World W) {t : ToolSet W F}
          → r.0 ≡ ok t
          → r ≡ (ok t, r.1)
      paired (x, y) e = ap (λ z. (z, y)) e

  run_options-eq-ok :
      (o : Outcome (Error E F) Options) (w w' : World W)
      → run_options main o w ≡ (ok tt, w')
      → (options : Options) × (o ≡ ok options)
        × (message_of options ≢ [])
        × (run_loaded main options
              (message_of options)
              (load_project main options.project_directory)
              (connected_at options w)
            ≡ (ok tt, w'))
  unfolding run_options
  run_options-eq-ok (err e) w w' h = cc
  run_options-eq-ok (ok options) w w' h = elim (Bool-cases (message_of options == [])) [
    | inl e ↦ absurd (failed (ap (λ p. p.0) (rw (e, run_options) at h)))
    | inr e ↦ (
      options,
      refl,
      (λ none_left. clash (sym e ∙ (==_iff (message_of options) []).1 none_left)),
      rw (e, run_options) at h,
    )
  ]
    where
      failed : {e : Error E F} → ◌≡◌ {A = Outcome (Error E F) (Unit {0})} (err e) (ok tt) → ⊥
      failed h = cc

      clash : false ≡ true → ⊥
      clash h = cc

  -- A command run that succeeds parsed its arguments to options with positive limits and a message, loaded a valid
  -- project from below the root of the directory in the options, made the client of the project's provider,
  -- and wired the tools of the project's plugins, each with its one rule. It built a runtime with the limits of the
  -- options, the texts and skills of the project, this client, these tools and their policy; the runtime's run on
  -- the message, behind the connections to the plugins, gave an answer, and writing the answer was the last effect.
  -- It is assumed that path/filepath is as documented.
  pub run_project-IsProjectRun :
      (arguments : List Text) (w w' : World W)
      → IsFilepath main.files
      → run_project main arguments w ≡ (ok tt, w')
      → (options : Options) × (definition : Load.Definition) × (client : Openai.Client W E)
        × (set : ToolSet W F) × (runtime : Runtime (World W) F) × IsProjectRun arguments w w'
            options definition client set runtime
  unfolding run_project
  run_project-IsProjectRun arguments w w' documented h =
      let (options, o, given, h) = run_options-eq-ok (checked_options main arguments) w w' h in
      let (definition, client, set, runtime, v, l, t, b, answered) =
        run_loaded-eq-ok options (message_of options) (load_project main options.project_directory)
          (connected_at options w) w' h in
      let (parsed, p, q) = checked_options-eq-ok arguments options o in
      let (loaded, modelled) = load_project-eq-ok options.project_directory definition client l in
      (
        options,
        definition,
        client,
        set,
        runtime,
        (
          parsed,
          p,
          q,
          given,
          loaded,
          load-eq-ok main.files options.project_directory definition documented loaded,
          modelled,
          project_tools-IsToolSet main.demo.setting definition.plugins set (connected_at options w)
              v t,
          project_runtime-IsRuntimeOf main options definition client set runtime p q b,
          (v, t, answered),
        ),
      )
