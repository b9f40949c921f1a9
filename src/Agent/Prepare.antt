-- ===== src/Agent/Prepare.antt =====
-- What `Run` of agent/runtime.go has done when its loop starts, or when it fails before.
use hot_take.Base.{
  ok, Text, codes, ◌==◌, ==_iff, ℕ, ◌≡◌, refl, sym, ap, ◌∙◌, subst, ◌≢◌, false, List, [], ◌∷◌, ◌++◌,
}
use hot_take.Base.Strings.{trim_space}
use hot_take.Tool.Registry as ToolRegistry
use hot_take.Skill
use hot_take.Tool.{Definition}
use mathlib.Core.Bool.{false≢true}
use hot_take.Event.{Kind}
use hot_take.Base.Decimal.{decimal}
use hot_take.Agent.{Runtime}
use hot_take.Agent.Effects.{
  select_error, resolve_error, describe_error, empty_input, Effect, Trace, published, Platform,
}
use hot_take.Agent.Selection.{resolve_tools}
use hot_take.Agent.Loop.{Plan, opening, prepare, plan_of}
use hot_take.Agent.Announcements.{next_stage}
use hot_take.Agent.Protocol.{ready, Follows, begin}
use hot_take.Agent.Ensures.{
  IsQuiet, Ensures, bind-Ensures, lift-Ensures, guard-Ensures, given-Ensures, pure-Ensures,
  observe-Ensures, check_context-Ensures, publish-Ensures, next_sequence-Ensures,
}

module _ {W E : Type 0} where
  -- What `Run` has fixed in its plan.
  pub record IsPlan (platform : Platform W E) (r : Runtime W E) (given : Text) (x : Plan)
      : Type 0 where
    pub skill : Skill.Skill
    pub selected :
        Skill.select platform.lower r.skills (platform.visit r.skills) (trim_space given) ≡ ok skill
    pub resolved : resolve_tools r.capabilities skill.required_capabilities [] ≡ ok x.tool_names
    pub described : ToolRegistry.definitions r.tools x.tool_names ≡ ok x.definitions
    pub input : x.input ≡ trim_space given
    pub not_blank : trim_space given ≢ []
    pub agent_name : x.agent_name ≡ r.name
    pub skill_name : x.skill_name ≡ skill.name
    pub instructions :
        x.instructions ≡ trim_space r.instructions ++ codes "\n\n" ++ trim_space skill.instructions
    pub max_steps : x.max_steps ≡ r.max_steps
    pub max_tool_calls : x.max_tool_calls ≡ r.max_tool_calls

module _ {W E : Type 0} (platform : Platform W E) (r : Runtime W E) (given : Text) where
  abbrev pub Prepared : Plan → Trace E → Type 0
  Prepared x t = Follows x t (ready 1 (opening x)) × IsPlan platform r given x

  abbrev sent : Kind → Text → Text → ℕ → Effect E
  sent kind run_id name now =
      published (record { kind = kind; occurred_at = now; run_id = run_id; name = name; step = 0 })
        (ok tt)

  abbrev Started : Text → Trace E → Type 0
  Started run_id t = (t₀ : ℕ) × (t ≡ sent Kind.run_started run_id r.name t₀ ∷ [])

  abbrev Routed : Text → Text → Trace E → Type 0
  Routed run_id skill_name t =
      (t₀ t₁ : ℕ) × (t
        ≡ sent Kind.skill_selected run_id skill_name t₁
          ∷ sent Kind.run_started run_id r.name t₀
          ∷ [])

  quiet : (t : Trace E) → t ≡ [] → IsQuiet t
  quiet t e = subst IsQuiet (sym e) (tt, unfold next_stage in λ b. cc)

  Started-IsQuiet : (run_id : Text) (t : Trace E) → Started run_id t → IsQuiet t
  Started-IsQuiet run_id t (t₀, e) = subst IsQuiet (sym e) (tt, unfold next_stage in λ b. cc)

  Routed-IsQuiet : (run_id skill_name : Text) (t : Trace E) → Routed run_id skill_name t → IsQuiet t
  Routed-IsQuiet run_id skill_name t (t₀, t₁, e) =
      subst IsQuiet (sym e) (tt, unfold next_stage in λ b. cc)

  plan_of-Prepared :
      (run_id : Text) (skill : Skill.Skill) (tool_names : List Text) (definitions : List Definition)
      (t : Trace E)
      → Routed run_id skill.name t
      → (trim_space given == []) ≡ false
      → Skill.select platform.lower r.skills (platform.visit r.skills) (trim_space given) ≡ ok skill
      → resolve_tools r.capabilities skill.required_capabilities [] ≡ ok tool_names
      → ToolRegistry.definitions r.tools tool_names ≡ ok definitions
      → Prepared (plan_of r run_id (trim_space given) skill tool_names definitions) t
  plan_of-Prepared run_id skill tool_names definitions t (t₀, t₁, e) not_blank selected resolved
        described =
      let x = plan_of r run_id (trim_space given) skill tool_names definitions in
      (
        subst (λ u. Follows x u (ready 1 (opening x))) (sym e) (begin t₀ t₁),
        record {
          skill = skill;
          selected = selected;
          resolved = resolved;
          described = described;
          input = refl;
          not_blank = λ blank. false≢true (sym not_blank ∙ (==_iff (trim_space given) []).1 blank);
          agent_name = refl;
          skill_name = refl;
          instructions = refl;
          max_steps = refl;
          max_tool_calls = refl;
        },
      )

  -- Before its loop a run only sends events; it comes to the loop with a plan, having announced its
  -- start and its skill.
  pub prepare-Ensures : Ensures (λ t. t ≡ []) (prepare platform r given) Prepared
  unfolding prepare
  prepare-Ensures =
      bind-Ensures _ _
        (observe-Ensures {P = λ t. t ≡ []} (λ w. (tt, platform.with_timeout r.run_timeout w)))
        λ _. bind-Ensures _ _ (check_context-Ensures platform quiet) λ _.
          bind-Ensures _ _
            (guard-Ensures {P = λ t. t ≡ []} (trim_space given == []) empty_input tt quiet)
            λ _. given-Ensures λ not_blank. bind-Ensures _ _ next_sequence-Ensures λ sequence.
              let run_id = codes "run-" ++ decimal sequence in
              bind-Ensures _ _
                (publish-Ensures {P = λ t. t ≡ []} {Q = Started run_id} r Kind.run_started run_id
                  r.name 0 quiet
                  (λ now t e. (now, ap (λ u. sent Kind.run_started run_id r.name now ∷ u) e)))
                λ _.
                  bind-Ensures _ _
                    (lift-Ensures {P = Started run_id} select_error
                      (Skill.select platform.lower r.skills (platform.visit r.skills)
                        (trim_space given))
                      (λ f. tt) (Started-IsQuiet run_id))
                    λ skill. given-Ensures λ selected.
                      bind-Ensures _ _
                        (publish-Ensures {P = Started run_id} {Q = Routed run_id skill.name} r
                          Kind.skill_selected run_id skill.name 0 (Started-IsQuiet run_id)
                          (λ now t h. (
                            h.0,
                            now,
                            ap (λ u. sent Kind.skill_selected run_id skill.name now ∷ u) h.1,
                          )))
                        λ _.
                          bind-Ensures _ _
                            (lift-Ensures {P = Routed run_id skill.name} (resolve_error skill.name)
                              (resolve_tools r.capabilities skill.required_capabilities [])
                              (λ f. tt) (Routed-IsQuiet run_id skill.name))
                            λ tool_names. given-Ensures λ resolved.
                              bind-Ensures _ _
                                (lift-Ensures {P = Routed run_id skill.name} describe_error
                                  (ToolRegistry.definitions r.tools tool_names) (λ f. tt)
                                  (Routed-IsQuiet run_id skill.name))
                                λ definitions. given-Ensures λ described. pure-Ensures _ (λ t h.
                                  plan_of-Prepared run_id skill tool_names definitions t h not_blank
                                    selected resolved described)
