-- ===== src/Agent/Budget.antt =====
-- The limits of a run: turns of the model and executions of tools.
use hot_take.Base.{length, ℕ, suc, ◌+◌, ◌≤◌, ◌≡◌, [], ◌∷◌, arith}
use hot_take.Agent.Effects.{Trace, published, generated, authorized, executed}
use hot_take.Agent.Loop.{Plan}
use hot_take.Agent.Protocol.{
  Phase, ready, replied, considered, working, asking, permitted, performed, finished, halted,
  Follows, begin, reply, no_reply, announce_reply, answer, accept, announce_call, permit, refuse,
  execute, crash, announce_result, go_on, unpublished,
}

-- How often a tool was executed, and the model asked.
abbrev pub executions : {E : Type 0} → Trace E → ℕ
executions [] = 0
executions (executed call result ∷ t) = suc (executions t)
executions (published event result ∷ t) = executions t
executions (generated request result ∷ t) = executions t
executions (authorized request result ∷ t) = executions t

abbrev pub generations : {E : Type 0} → Trace E → ℕ
generations [] = 0
generations (generated request result ∷ t) = suc (generations t)
generations (published event result ∷ t) = generations t
generations (executed call result ∷ t) = generations t
generations (authorized request result ∷ t) = generations t

module _ (x : Plan) where
  -- The counts and limits that hold in a phase: tool executions so far, and turns so far.
  abbrev pub Spent : Phase → ℕ → ℕ → Type 0
  Spent (ready n c) calls turns =
      (calls ≡ c.tool_calls) × (calls ≤ x.max_tool_calls) × (turns + 1 ≡ n) × (turns ≤ x.max_steps)
  Spent (replied n c turn) calls turns =
      (calls ≡ c.tool_calls) × (calls ≤ x.max_tool_calls) × (turns ≡ n) × (turns ≤ x.max_steps)
  Spent (considered n c turn) calls turns =
      (calls ≡ c.tool_calls) × (calls ≤ x.max_tool_calls) × (turns ≡ n) × (turns ≤ x.max_steps)
  Spent (working n c left) calls turns =
      (calls ≡ c.tool_calls)
      × (calls + length left ≤ x.max_tool_calls)
      × (turns ≡ n)
      × (turns ≤ x.max_steps)
  Spent (asking n c call left) calls turns =
      (calls ≡ c.tool_calls)
      × (calls + suc (length left) ≤ x.max_tool_calls)
      × (turns ≡ n)
      × (turns ≤ x.max_steps)
  Spent (permitted n c call left) calls turns =
      (calls ≡ c.tool_calls)
      × (calls + suc (length left) ≤ x.max_tool_calls)
      × (turns ≡ n)
      × (turns ≤ x.max_steps)
  Spent (performed n c call left) calls turns =
      (calls ≡ c.tool_calls)
      × (calls + length left ≤ x.max_tool_calls)
      × (turns ≡ n)
      × (turns ≤ x.max_steps)
  Spent (finished text) calls turns = (calls ≤ x.max_tool_calls) × (turns ≤ x.max_steps)
  Spent halted calls turns = (calls ≤ x.max_tool_calls) × (turns ≤ x.max_steps)

  pub Spent-halted : (p : Phase) (calls turns : ℕ) → Spent p calls turns → Spent halted calls turns
  Spent-halted (ready n c) calls turns h = omega arith
  Spent-halted (finished text) calls turns h = h
  Spent-halted _ calls turns h = omega arith

module _ {E : Type 0} (x : Plan) where
  -- The limits hold in every trace of the protocol.
  pub Follows-Spent :
      {t : Trace E} {p : Phase} → Follows x t p → Spent x p (executions t) (generations t)
  Follows-Spent (begin t₀ t₁) = omega arith
  Follows-Spent (reply turn f h) = omega (arith, Follows-Spent f)
  Follows-Spent (no_reply e f h) = omega (arith, Follows-Spent f)
  Follows-Spent (announce_reply now f) = Follows-Spent f
  Follows-Spent (answer now f h k) = omega (arith, Follows-Spent f)
  Follows-Spent (accept f h k l) = omega (arith, Follows-Spent f)
  Follows-Spent (announce_call now f h k) = Follows-Spent f
  Follows-Spent (permit f) = Follows-Spent f
  Follows-Spent (refuse e f) = omega (arith, Follows-Spent f)
  Follows-Spent (execute content f) = omega (arith, Follows-Spent f)
  Follows-Spent (crash e f) = omega (arith, Follows-Spent f)
  Follows-Spent (announce_result now f) = Follows-Spent f
  Follows-Spent (go_on f) = omega (arith, Follows-Spent f)
  Follows-Spent (unpublished {t} {p} event e f live) = Spent-halted x p _ _ (Follows-Spent f)
