-- ===== src/Agent/Runs.antt =====
-- Properties of every run of agent/runtime.go, from a state with no calls yet.
use hot_take.Base.{Outcome, ok, err, Text, ◌≤◌, ◌≡◌, refl, ◌≢◌, inl, inr, [], ◌∷◌, arith}
use hot_take.Agent.{Runtime}
use hot_take.Agent.Effects.{Error, State, Platform, Trace, published}
use hot_take.Agent.Loop.{Plan, run}
use hot_take.Agent.Protocol.{Phase, Follows, finished}
use hot_take.Agent.Prepare.{IsPlan}
use hot_take.Agent.Ensures.{IsSilent, IsQuiet}
use hot_take.Agent.Whole.{Refines, run-Refines}
use hot_take.Agent.Authority.{IsAuthorised, Follows-IsAuthorised}
use hot_take.Agent.Budget.{executions, generations, Spent-halted, Follows-Spent}
use hot_take.Agent.Transcript.{SendsTranscripts, Follows-SendsTranscripts}
use hot_take.Agent.Announcements.{stage_of, broken, Seen-halted, Follows-Seen}

module _ {E : Type 0} where
  IsSilent-IsAuthorised : (t : Trace E) → IsSilent t → IsAuthorised t
  IsSilent-IsAuthorised [] h = tt
  IsSilent-IsAuthorised (published event result ∷ t) h = IsSilent-IsAuthorised t h
  IsSilent-IsAuthorised (_ ∷ t) h = absurd h

  IsSilent-executions : (t : Trace E) → IsSilent t → (executions t ≡ 0) × (generations t ≡ 0)
  IsSilent-executions [] h = (refl, refl)
  IsSilent-executions (published event result ∷ t) h = IsSilent-executions t h
  IsSilent-executions (_ ∷ t) h = absurd h

  IsSilent-SendsTranscripts : (t : Trace E) → IsSilent t → SendsTranscripts t
  IsSilent-SendsTranscripts [] h = tt
  IsSilent-SendsTranscripts (published event result ∷ t) h = IsSilent-SendsTranscripts t h
  IsSilent-SendsTranscripts (_ ∷ t) h = absurd h

module _ {W E : Type 0} (platform : Platform W E) (r : Runtime W E) (given : Text) where
  pub cases :
      (P : Trace E → Type 0) (o : Outcome (Error E) Text × State W E)
      → ((t : Trace E) → IsQuiet t → P t)
      → ((x : Plan) → IsPlan platform r given x → (t : Trace E) (p : Phase) → Follows x t p → P t)
      → Refines platform r given o
      → P o.1.trace
  cases P (_, s) quiet follows (inl (e, _, _, q)) = quiet s.trace q
  cases P (ok text, s) quiet follows (inr (x, plan, f)) = follows x plan s.trace (finished text) f
  cases P (err e, s) quiet follows (inr (x, plan, (p, f, _))) = follows x plan s.trace p f

  -- In every run from a state with no calls yet, each execution of a tool comes right behind a
  -- permission of the authorizer for that very call, which comes right behind the event that announces
  -- the call.
  pub run-IsAuthorised :
      (s : State W E) → s.trace ≡ [] → IsAuthorised (run platform r given s).1.trace
  run-IsAuthorised s fresh =
      cases IsAuthorised (run platform r given s) (λ t q. IsSilent-IsAuthorised t q.0)
        (λ x plan t p f. (Follows-IsAuthorised x f).0) (run-Refines platform r given s fresh)

  -- Every run from a state with no calls yet executes at most `max_tool_calls` tools and asks the
  -- model at most `max_steps` times.
  pub run-Spent :
      (s : State W E)
      → s.trace ≡ []
      → (executions (run platform r given s).1.trace ≤ r.max_tool_calls)
        × (generations (run platform r given s).1.trace ≤ r.max_steps)
  run-Spent s fresh =
      cases (λ t. (executions t ≤ r.max_tool_calls) × (generations t ≤ r.max_steps))
        (run platform r given s) (λ t q. omega (arith, IsSilent-executions t q.0))
        (λ x plan t p f. omega (
          arith,
          plan.max_steps,
          plan.max_tool_calls,
          Spent-halted x p (executions t) (generations t) (Follows-Spent x f),
        ))
        (run-Refines platform r given s fresh)

  -- In every run from a state with no calls yet, each request to the model has a transcript in which
  -- every tool call is followed at once by a result with its identifier, and carries the state that
  -- the model returned last.
  pub run-SendsTranscripts :
      (s : State W E) → s.trace ≡ [] → SendsTranscripts (run platform r given s).1.trace
  run-SendsTranscripts s fresh =
      cases SendsTranscripts (run platform r given s) (λ t q. IsSilent-SendsTranscripts t q.0)
        (λ x plan t p f. (Follows-SendsTranscripts x f).0) (run-Refines platform r given s fresh)

  -- In every run from a state with no calls yet the delivered events come in the order of the life of
  -- a run, whatever fails.
  pub run-stage_of :
      (s : State W E) → s.trace ≡ [] → stage_of (run platform r given s).1.trace ≢ broken
  run-stage_of s fresh =
      cases (λ t. stage_of t ≢ broken) (run platform r given s) (λ t q. q.1)
        (λ x plan t p f. Seen-halted p (stage_of t) (Follows-Seen x f))
        (run-Refines platform r given s fresh)
