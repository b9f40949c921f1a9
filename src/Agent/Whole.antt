-- ===== src/Agent/Whole.antt =====
-- A whole run of agent/runtime.go: its preparation and its loop.
use hot_take.Base.{Outcome, ok, err, Text, ◌≡◌, refl, ◌⊎◌, inl, inr, [], arith}
use hot_take.Agent.{Runtime}
use hot_take.Agent.Effects.{Error, State, Platform, continue}
use hot_take.Agent.Loop.{Plan, opening, prepare, run_loop, run}
use hot_take.Agent.Protocol.{finished}
use hot_take.Agent.Hoare.{Post}
use hot_take.Agent.Refinement.{run_loop-Leads}
use hot_take.Agent.Prepare.{IsPlan, Prepared, prepare-Ensures}
use hot_take.Agent.Ensures.{IsEarly, IsQuiet, After}

module _ {W E : Type 0} (platform : Platform W E) (r : Runtime W E) (given : Text) where
  -- The two ways of a run: it fails before its loop, or its loop follows the protocol of a plan.
  abbrev pub Refines : Outcome (Error E) Text × State W E → Type 0
  Refines o =
      ((e : Error E) × (o.0 ≡ err e) × IsEarly e × IsQuiet o.1.trace)
      ⊎ ((x : Plan) × IsPlan platform r given x × Post x finished o)

  whole :
      (o : Outcome (Error E) Plan × State W E)
      → After (Prepared platform r given) o
      → Refines (continue o.0 (λ x. run_loop platform r x x.max_steps 1 (opening x)) o.1)
  whole (ok x, s) (f, p) =
      inr (x, p, (run_loop-Leads platform r x x.max_steps 1 (opening x) (omega arith)).at s f)
  whole (err e, s) q = inl (e, refl, q.0, q.1)

  -- Every run, from a state with no calls yet, either fails before its loop, with an error of that part and
  -- with nothing done but events published in order, or it follows the protocol of the plan that it
  -- prepared, up to its answer or to an error that the protocol allows where the run stops.
  pub run-Refines : (s : State W E) → s.trace ≡ [] → Refines (run platform r given s)
  unfolding run
  run-Refines s fresh =
      whole (prepare platform r given s) ((prepare-Ensures platform r given).at s fresh)
