-- ===== src/Agent/Effects.antt =====
-- The state and the effects of a run of agent/runtime.go: actions that change the world, that may fail,
-- and that leave a record of every call of a dependency.
use hot_take.Base.{
  Outcome, ok, err, reject_if, map_err, Text, ℕ, Bool, Option, none, some, List, ◌∷◌,
}
use hot_take.Tool.{Call}
use hot_take.Tool.Registry as ToolRegistry
use hot_take.Capability
use hot_take.Skill
use hot_take.Permission
use hot_take.Provider
use hot_take.Event.{Event, Kind}

-- The errors that `Run` returns. `E` holds those of the dependencies and of the context.
pub data Error (E : Type 0) : Type 0 where
  context_error : E → Error E
  empty_input : Error E
  publish_error : Kind → E → Error E
  select_error : Skill.Error → Error E
  resolve_error : Text → Capability.Error → Error E
  describe_error : ToolRegistry.Error → Error E
  generate_error : ℕ → E → Error E
  empty_turn : ℕ → Error E
  tool_call_limit : ℕ → Error E
  tool_not_selected : Text → Error E
  blank_call : ℕ → Error E
  authorize_error : Text → E → Error E
  unknown_tool : Text → ToolRegistry.Error → Error E
  execute_error : Text → E → Error E
  step_limit : ℕ → Error E

-- A call of a dependency, with what it returned.
pub data Effect (E : Type 0) : Type 0 where
  published : Event → Outcome E (Unit {0}) → Effect E
  generated : Provider.Request → Outcome E Provider.Turn → Effect E
  authorized : Permission.Request → Outcome E (Unit {0}) → Effect E
  executed : Call → Outcome E Text → Effect E

-- The calls of the dependencies, the latest first.
abbrev pub Trace : Type 0 → Type 0
Trace E = List (Effect E)

-- The world, the runtime's counter of runs, and the calls made so far in this run. The program keeps no
-- trace: no action reads it.
pub record State (W E : Type 0) : Type 0 where
  pub world : W
  pub sequence : ℕ
  pub trace : Trace E

-- What the Go platform gives: the deadline and the error of a context, strings.ToLower, and the order
-- in which a map of skills is visited.
pub record Platform (W E : Type 0) : Type 0 where
  pub with_timeout : ℕ → W → W
  pub context_err : W → Option E × W
  pub lower : Text → Text
  pub visit : Skill.Registry → List Skill.Skill

abbrev pub Run : Type 0 → Type 0 → Type 0 → Type 0
Run W E A = State W E → Outcome (Error E) A × State W E

module _ {W E A B : Type 0} where
  abbrev pub continue :
      Outcome (Error E) A → (A → Run W E B) → State W E → Outcome (Error E) B × State W E
  continue (ok a) f s = f a s
  continue (err e) f s = (err e, s)

  infixl 5 ◌>>=◌ ◌>>◌
  abbrev pub ◌>>=◌ : Run W E A → (A → Run W E B) → Run W E B
  ◌>>=◌ m f s = let (r, s') = m s in continue r f s'

  abbrev pub ◌>>◌ : Run W E A → Run W E B → Run W E B
  m >> k = m >>= λ _. k

module _ {W E A : Type 0} where
  unfoldable pub pure : A → Run W E A
  pure a s = (ok a, s)

  unfoldable pub lift : Outcome (Error E) A → Run W E A
  lift r s = (r, s)

  -- A call of a dependency: the world changes, and the trace has one more entry.
  unfoldable pub perform :
      (W → Outcome E A × W) → (Outcome E A → Effect E) → (E → Error E) → Run W E A
  perform act entry wrap s =
      let (r, w) = act s.world in
      (map_err wrap r, record s { world = w; trace = entry r ∷ s.trace })

unfoldable pub context_result : {E : Type 0} → Option E → Outcome (Error E) (Unit {0})
context_result none = ok tt
context_result (some e) = err (context_error e)

module _ {W E : Type 0} where
  -- `if test { return "", err }`
  unfoldable pub guard : Bool → Error E → Run W E (Unit {0})
  guard b e s = (reject_if b e, s)

  -- `if err := ctx.Err(); err != nil { return "", err }`
  unfoldable pub check_context : Platform W E → Run W E (Unit {0})
  unfolding context_result
  check_context platform s =
      let (r, w) = platform.context_err s.world in (context_result r, record s { world = w })

  -- A read of the world that cannot fail: the clock, the start of the deadline.
  unfoldable pub observe : {A : Type 0} → (W → A × W) → Run W E A
  observe act s = let (a, w) = act s.world in (ok a, record s { world = w })
