-- ===== src/Agent/Configuration.antt =====
-- What a runtime that NewRuntime of agent/runtime.go built has.
use hot_take.Base.{
  ltb, eqb, Bool-cases, ok, reject_if, >>=-eq-ok, ℕ, ◌<◌, ◌≡◌, refl, ap, subst, ◌⊎◌, inl, inr,
  false, ◌||◌, Option, none, some, arith, ok-injective,
}
use hot_take.Base.Strings.{is_blank}
use hot_take.Base.Int.{ℤ, pos_part, is_negative, pos, negsuc}
use hot_take.Agent.{
  Config, Runtime, Clock, new_runtime, required, or_default, default_max_tool_calls,
  default_run_timeout,
}

required-eq-ok : {A : Type 0} (o : Option A) (a : A) → required o ≡ ok a → o ≡ some a
unfolding required
required-eq-ok none a h = cc
required-eq-ok (some b) a h = cc

module _ {W E : Type 0} (now : Clock W) (config : Config W E) where
  -- The limits of a runtime: positive, and those of its configuration where these are not zero.
  abbrev pub HasLimits : Runtime W E → Type 0
  HasLimits r =
      (config.max_steps ≡ pos r.max_steps)
      × (0 < r.max_steps)
      × (0 < r.max_tool_calls)
      × ((config.max_tool_calls ≡ pos r.max_tool_calls)
          ⊎ ((config.max_tool_calls ≡ pos 0) × (r.max_tool_calls ≡ default_max_tool_calls)))
      × (0 < r.run_timeout)
      × ((config.run_timeout ≡ pos r.run_timeout)
          ⊎ ((config.run_timeout ≡ pos 0) × (r.run_timeout ≡ default_run_timeout)))

  -- And its dependencies: those of the configuration, none of them missing.
  abbrev pub HasDependencies : Runtime W E → Type 0
  HasDependencies r =
      (config.model ≡ some r.model)
      × (config.skills ≡ some r.skills)
      × (config.capabilities ≡ some r.capabilities)
      × (config.tools ≡ some r.tools)
      × (config.authorizer ≡ some r.authorizer)

positive : (n : ℤ) → ltb (pos_part n) 1 ≡ false → (n ≡ pos (pos_part n)) × (0 < pos_part n)
positive (pos n) h = (refl, ground arith)
positive (negsuc n) h = cc

defaulted :
    (n : ℤ) (d : ℕ)
    → is_negative n ≡ false
    → 0 < d
    → (0 < or_default (pos_part n) d)
      × ((n ≡ pos (or_default (pos_part n) d)) ⊎ ((n ≡ pos 0) × (or_default (pos_part n) d ≡ d)))
unfolding or_default
defaulted (pos n) d h p = elim (Bool-cases (eqb n 0)) [
  | inl e ↦ rw e (p, inr (ground arith, refl))
  | inr e ↦ rw e (ground arith, inl refl)
]
defaulted (negsuc n) d h p = cc

module _ {W E : Type 0} (now : Clock W) (config : Config W E) where
  pub new_runtime-texts :
      (r : Runtime W E)
      → new_runtime now config ≡ ok r
      → (config.name ≡ r.name) × (config.instructions ≡ r.instructions)
  unfolding new_runtime
  new_runtime-texts r h =
      let (_, _, h) =
        >>=-eq-ok (reject_if (is_blank config.name || is_blank config.instructions) _) _ h in
      let (_, _, h) = >>=-eq-ok (reject_if (ltb (pos_part config.max_steps) 1) _) _ h in
      let (_, _, h) =
        >>=-eq-ok
          (reject_if (is_negative config.max_tool_calls || is_negative config.run_timeout) _) _ h in
      let (_, _, h) = >>=-eq-ok (required config.model) _ h in
      let (_, _, h) = >>=-eq-ok (required config.skills) _ h in
      let (_, _, h) = >>=-eq-ok (required config.capabilities) _ h in
      let (_, _, h) = >>=-eq-ok (required config.tools) _ h in
      let (_, _, h) = >>=-eq-ok (required config.authorizer) _ h in
      (
        ap (λ (x : Runtime W E). x.name) (ok-injective h),
        ap (λ (x : Runtime W E). x.instructions) (ok-injective h),
      )

  -- A runtime that `NewRuntime` built has the positive step limit of its configuration, a positive limit of
  -- tool calls and a positive timeout, each that of the configuration or, where this is zero, the default,
  -- and the dependencies of the configuration, none of which is missing.
  pub new_runtime-eq-ok :
      (r : Runtime W E)
      → new_runtime now config ≡ ok r
      → HasLimits now config r × HasDependencies now config r
  unfolding new_runtime
  new_runtime-eq-ok r h =
      let (_, named, h) =
        >>=-eq-ok (reject_if (is_blank config.name || is_blank config.instructions) _) _ h in
      let (_, steps, h) = >>=-eq-ok (reject_if (ltb (pos_part config.max_steps) 1) _) _ h in
      let (_, limits, h) =
        >>=-eq-ok
          (reject_if (is_negative config.max_tool_calls || is_negative config.run_timeout) _) _ h in
      let (model, m, h) = >>=-eq-ok (required config.model) _ h in
      let (skills, s, h) = >>=-eq-ok (required config.skills) _ h in
      let (capabilities, c, h) = >>=-eq-ok (required config.capabilities) _ h in
      let (tools, t, h) = >>=-eq-ok (required config.tools) _ h in
      let (authorizer, a, h) = >>=-eq-ok (required config.authorizer) _ h in
      let (e, p) = positive config.max_steps (ground arith) in
      let (p', e') =
        defaulted config.max_tool_calls default_max_tool_calls (ground arith) (ground arith) in
      let (p'', e'') =
        defaulted config.run_timeout default_run_timeout (ground arith) (ground arith) in
      subst (λ (r : Runtime W E). HasLimits now config r × HasDependencies now config r)
        (ok-injective h)
        (
          (e, p, p', e', p'', e''),
          (
            required-eq-ok _ _ m,
            required-eq-ok _ _ s,
            required-eq-ok _ _ c,
            required-eq-ok _ _ t,
            required-eq-ok _ _ a,
          ),
        )
