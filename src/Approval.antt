-- ===== src/Approval.antt =====
-- cmd/hot-take/approval.go: the approver at a terminal. The gate lets one call in at a time, so a call is
-- one step of a sequence of calls.
pub mod Rules
pub mod Laws
use hot_take.Base.{
  if◌then◌else◌, Outcome, ok, err, map_err, Text, codes, ◌==◌, Bool, ◌||◌, Option, none, some, List,
  [], ◌∷◌, ◌++◌,
}
use hot_take.Base.Strings.{trim_space}
use hot_take.Permission.{Request}

-- What the wait for a line comes to: the context is done first, with its error, or there is a line, with
-- the error of the reader if any.
pub data ReadError (E : Type 0) : Type 0 where
  end_of_file : ReadError E
  broken : E → ReadError E

pub data Reading (E : Type 0) : Type 0 where
  cancelled : E → Reading E
  line : Text → Option (ReadError E) → Reading E

-- The terminal and the context of the calls. `acquire` is the first select: the gate, or the error of a
-- context that is done. `to_lower` is strings.ToLower.
pub record Terminal (W E : Type 0) : Type 0 where
  pub acquire : W → Option E × W
  pub context_err : W → Option E × W
  pub write : Text → W → Outcome E (Unit {0}) × W
  pub read : W → Reading E × W
  pub to_lower : Text → Text

pub data Error (E : Type 0) : Type 0 where
  context_error write_error : E → Error E
  read_error : ReadError E → Error E

pub data Effect (E : Type 0) : Type 0 where
  prompted : Text → Outcome E (Unit {0}) → Effect E
  waited : Reading E → Effect E

-- The world, the field `stopped`, and what was written and read, the latest first; the trace is not a part
-- of the program.
pub record State (W E : Type 0) : Type 0 where
  pub world : W
  pub stopped : Option E
  pub trace : List (Effect E)

abbrev pub Step : Type 0 → Type 0 → Type 0 → Type 0
Step W E A = State W E → Outcome (Error E) A × State W E

module _ {W E A B : Type 0} where
  abbrev pub continue :
      Outcome (Error E) A → (A → Step W E B) → State W E → Outcome (Error E) B × State W E
  continue (ok a) f s = f a s
  continue (err e) f s = (err e, s)

  infixl 5 ◌>>=◌ ◌>>◌
  abbrev pub ◌>>=◌ : Step W E A → (A → Step W E B) → Step W E B
  ◌>>=◌ m f s = let (o, s') = m s in continue o f s'

  abbrev pub ◌>>◌ : Step W E A → Step W E B → Step W E B
  m >> k = m >>= λ _. k

unfoldable pub error_of : {E : Type 0} → Option E → Outcome (Error E) (Unit {0})
error_of none = ok tt
error_of (some e) = err (context_error e)

abbrev pub prompt : Request → Text
prompt request =
    codes "Approve tool "
    ++ request.call.name
    ++ codes " with arguments "
    ++ request.call.arguments
    ++ codes "? [y/N] "

-- The error of a line that is not accepted; one at the end of the input is, if it has text.
unfoldable pub line_error :
    {E : Type 0} → Text → Option (ReadError E) → Outcome (Error E) (Unit {0})
line_error text none = ok tt
line_error text (some end_of_file) = if text == [] then err (read_error end_of_file) else ok tt
line_error text (some (broken e)) = err (read_error (broken e))

module _ {W E : Type 0} (t : Terminal W E) where
  -- A check of the context, or the wait for the gate.
  unfoldable pub check : (W → Option E × W) → Step W E (Unit {0})
  unfolding error_of
  check ask s = let (e, w) = ask s.world in (error_of e, record s { world = w })

  unfoldable pub check_stopped : Step W E (Unit {0})
  unfolding error_of
  check_stopped s = (error_of s.stopped, s)

  unfoldable pub write_prompt : Request → Step W E (Unit {0})
  write_prompt request s =
      let (r, w) = t.write (prompt request) s.world in
      (map_err write_error r, record s { world = w; trace = prompted (prompt request) r ∷ s.trace })

  unfoldable pub judge_line : Text → Option (ReadError E) → Step W E Bool
  unfolding check line_error
  judge_line text error = do
    check t.context_err
    λ s. (line_error text error, s)
    let value = t.to_lower (trim_space text)
    λ s. (ok (value == codes "y" || value == codes "yes"), s)

  -- The second select.
  unfoldable pub judge : Reading E → Step W E Bool
  unfolding judge_line
  judge (cancelled e) s = (err (context_error e), record s { stopped = some e })
  judge (line text error) s = judge_line text error s

  -- The goroutine that reads a line is behind `read`. One that stays blocked when the context is done first is not
  -- modelled: the approver is stopped then, and no call waits for a line again.
  unfoldable pub wait : Step W E Bool
  unfolding judge
  wait s =
      let (reading, w) = t.read s.world in
      judge reading (record s { world = w; trace = waited reading ∷ s.trace })

  -- `Approve`
  unfoldable pub approve : Request → Step W E Bool
  unfolding check check_stopped write_prompt wait
  approve request = do
    check t.acquire
    check t.context_err
    check_stopped
    write_prompt request
    wait

  -- Approvals one behind the other, as the gate lets them in.
  unfoldable pub approve_all : List Request → State W E → List (Outcome (Error E) Bool) × State W E
  unfolding approve
  approve_all [] s = ([], s)
  approve_all (request ∷ requests) s =
      let (o, s') = approve request s in let (os, s'') = approve_all requests s' in (o ∷ os, s'')
