-- ===== src/Agent/Announcements.antt =====
-- The order of the events that a run publishes.
use hot_take.Base.{ok, err, ◌≡◌, refl, ◌≢◌, ◌⊎◌, inl, [], ◌∷◌, arith}
use hot_take.Event.{
  Kind, run_started, skill_selected, model_completed, tool_started, tool_completed, run_completed,
}
use hot_take.Agent.Effects.{Trace, published, generated, authorized, executed}
use hot_take.Agent.Loop.{Plan}
use hot_take.Agent.Protocol.{
  Phase, ready, replied, considered, working, asking, permitted, performed, finished, halted,
  Follows, begin, reply, no_reply, announce_reply, answer, accept, announce_call, permit, refuse,
  execute, crash, announce_result, go_on, unpublished,
}

-- What an observer of the events knows: nothing yet, the run, the skill, a turn of the model, a tool
-- at work, a tool that is done, the end; or that the order is broken.
pub data Stage : Type 0 where
  unseen begun routed thought busy done over broken : Stage

unfoldable pub next_stage : Stage → Kind → Stage
next_stage unseen run_started = begun
next_stage begun skill_selected = routed
next_stage routed model_completed = thought
next_stage thought tool_started = busy
next_stage thought run_completed = over
next_stage busy tool_completed = done
next_stage done tool_started = busy
next_stage done model_completed = thought
next_stage _ _ = broken

-- The stage behind the events that were delivered.
abbrev pub stage_of : {E : Type 0} → Trace E → Stage
stage_of [] = unseen
stage_of (published event (ok u) ∷ t) = next_stage (stage_of t) event.kind
stage_of (published event (err e) ∷ t) = stage_of t
stage_of (generated request result ∷ t) = stage_of t
stage_of (authorized request result ∷ t) = stage_of t
stage_of (executed call result ∷ t) = stage_of t

abbrev pub Seen : Phase → Stage → Type 0
Seen (ready n c) s = (s ≡ routed) ⊎ (s ≡ done)
Seen (replied n c turn) s = (s ≡ routed) ⊎ (s ≡ done)
Seen (considered n c turn) s = s ≡ thought
Seen (working n c calls) s = ((s ≡ thought) × (calls ≢ [])) ⊎ (s ≡ done)
Seen (asking n c call calls) s = s ≡ busy
Seen (permitted n c call calls) s = s ≡ busy
Seen (performed n c call calls) s = s ≡ busy
Seen (finished text) s = s ≡ over
Seen halted s = s ≢ broken

pub Seen-halted : (p : Phase) (s : Stage) → Seen p s → Seen halted s
Seen-halted (ready n c) s h = ground arith
Seen-halted (replied n c turn) s h = ground arith
Seen-halted (working n c calls) s h = ground arith
Seen-halted halted s h = h
Seen-halted _ s h = ground arith

module _ {E : Type 0} (x : Plan) where
  pub Follows-Seen : {t : Trace E} {p : Phase} → Follows x t p → Seen p (stage_of t)
  unfolding next_stage
  Follows-Seen (begin t₀ t₁) = inl refl
  Follows-Seen (reply turn f h) = Follows-Seen f
  Follows-Seen (no_reply {n} {c} e f h) = Seen-halted (ready n c) _ (Follows-Seen f)
  Follows-Seen (announce_reply {t} now f) = ground (arith, Follows-Seen f)
  Follows-Seen (answer now f h k) = ground (arith, Follows-Seen f)
  Follows-Seen (accept f h k l) = inl (Follows-Seen f, h)
  Follows-Seen (announce_call now f h k) = ground (arith, Follows-Seen f)
  Follows-Seen (permit f) = Follows-Seen f
  Follows-Seen (refuse {n} {c} {call} {calls} e f) =
      Seen-halted (asking n c call calls) _ (Follows-Seen f)
  Follows-Seen (execute content f) = Follows-Seen f
  Follows-Seen (crash {n} {c} {call} {calls} e f) =
      Seen-halted (permitted n c call calls) _ (Follows-Seen f)
  Follows-Seen (announce_result now f) = ground (arith, Follows-Seen f)
  Follows-Seen (go_on f) = ground (arith, Follows-Seen f)
  Follows-Seen (unpublished {p} event e f live) = Seen-halted p _ (Follows-Seen f)
