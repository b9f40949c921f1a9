-- ===== src/Approval/Rules.antt =====
-- Triples for the actions of an approver.
use hot_take.Base.{
  Outcome, ok, err, map_err, Text, codes, ==_iff, ◌≡◌, refl, ◌⊎◌, Bool, true, Option, none, some,
  List, ◌∷◌, arith,
}
use hot_take.Base.Strings.{trim_space}
use hot_take.Permission.{Request}
use hot_take.Approval.{
  ReadError, Reading, cancelled, line, Terminal, Error, Effect, prompted, waited, State, Step,
  continue, ◌>>=◌, error_of, write_error, line_error, prompt, check, check_stopped, write_prompt,
  judge_line, judge, wait,
}

-- An assertion speaks of the field `stopped` and of the trace.
abbrev pub Assertion : Type 0 → Type 1
Assertion E = Option E → List (Effect E) → Type 0

module _ {W E : Type 0} where
  abbrev pub After :
      {A : Type 0} → (A → Assertion E) → Assertion E → Outcome (Error E) A × State W E → Type 0
  After Q R (ok a, s) = Q a s.stopped s.trace
  After Q R (err e, s) = R s.stopped s.trace

  -- From `P`, an action comes to `Q` with its value, or to `R` with an error.
  pub record Leads {A : Type 0} (P : Assertion E) (m : Step W E A) (Q : A → Assertion E)
      (R : Assertion E) : Type 0 where
    pub at : (s : State W E) → P s.stopped s.trace → After Q R (m s)

  continue-After :
      {A B : Type 0} {Q : A → Assertion E} {S : B → Assertion E} {R : Assertion E}
      (o : Outcome (Error E) A × State W E) (f : A → Step W E B)
      → After Q R o
      → ((a : A) → Leads (Q a) (f a) S R)
      → After S R (continue o.0 f o.1)
  continue-After (ok a, s) f h k = (k a).at s h
  continue-After (err e, s) f h k = h

  pub bind-Leads :
      {A B : Type 0} {P : Assertion E} {m : Step W E A} {f : A → Step W E B} {Q : A → Assertion E}
      {S : B → Assertion E} {R : Assertion E}
      → Leads P m Q R
      → ((a : A) → Leads (Q a) (f a) S R)
      → Leads P (m >>= f) S R
  bind-Leads {m} {f} h k = record { at = λ s g. continue-After (m s) f (h.at s g) k }

  check-After :
      {P R : Assertion E} (o : Option E × W) (s : State W E)
      → ((st : Option E) (tr : List (Effect E)) → P st tr → R st tr)
      → P s.stopped s.trace
      → After (λ (_ : Unit {0}). P) R (error_of o.0, record s { world = o.1 })
  unfolding error_of
  check-After (none, w) s r g = g
  check-After (some e, w) s r g = r s.stopped s.trace g

  pub check-Leads :
      {P R : Assertion E} (t : Terminal W E) (ask : W → Option E × W)
      → ((st : Option E) (tr : List (Effect E)) → P st tr → R st tr)
      → Leads P (check t ask) (λ _. P) R
  unfolding check
  check-Leads t ask r = record { at = λ s g. check-After (ask s.world) s r g }

  stopped-After :
      {P R : Assertion E} (o : Option E) (s : State W E)
      → s.stopped ≡ o
      → ((st : Option E) (tr : List (Effect E)) → P st tr → R st tr)
      → P s.stopped s.trace
      → After (λ (_ : Unit {0}) st tr. P st tr × (st ≡ none)) R (error_of o, s)
  unfolding error_of
  stopped-After none s e r g = (g, e)
  stopped-After (some e) s h r g = r s.stopped s.trace g

  pub check_stopped-Leads :
      {P R : Assertion E} (t : Terminal W E)
      → ((st : Option E) (tr : List (Effect E)) → P st tr → R st tr)
      → Leads P (check_stopped t) (λ _ st tr. P st tr × (st ≡ none)) R
  unfolding check_stopped
  check_stopped-Leads t r = record { at = λ s g. stopped-After s.stopped s refl r g }

  write-After :
      {P Q R : Assertion E} (text : Text) (o : Outcome E (Unit {0}) × W) (s : State W E)
      → ((st : Option E) (tr : List (Effect E)) (u : Outcome E (Unit {0}))
          → P st tr
          → Q st (prompted text u ∷ tr))
      → ((st : Option E) (tr : List (Effect E)) → Q st tr → R st tr)
      → P s.stopped s.trace
      → After
          (λ (_ : Unit {0}). Q)
          R
          (map_err write_error o.0, record s { world = o.1; trace = prompted text o.0 ∷ s.trace })
  write-After text (ok u, w) s q r g = q s.stopped s.trace (ok u) g
  write-After text (err e, w) s q r g = r s.stopped _ (q s.stopped s.trace (err e) g)

  pub write_prompt-Leads :
      {P Q R : Assertion E} (t : Terminal W E) (request : Request)
      → ((st : Option E) (tr : List (Effect E)) (u : Outcome E (Unit {0}))
          → P st tr
          → Q st (prompted (prompt request) u ∷ tr))
      → ((st : Option E) (tr : List (Effect E)) → Q st tr → R st tr)
      → Leads P (write_prompt t request) (λ _. Q) R
  unfolding write_prompt
  write_prompt-Leads t request q r = record {
    at = λ s g. write-After (prompt request) (t.write (prompt request) s.world) s q r g;
  }

  pub lift-Leads :
      {A : Type 0} {P R : Assertion E} (o : Outcome (Error E) A)
      → ((st : Option E) (tr : List (Effect E)) → P st tr → R st tr)
      → Leads P (λ s. (o, s)) (λ a st tr. P st tr × (o ≡ ok a)) R
  lift-Leads (ok a) r = record { at = λ s g. (g, refl) }
  lift-Leads (err e) r = record { at = λ s g. r s.stopped s.trace g }

  -- The answer to a line: a success with `true` has a line that says yes.
  abbrev pub IsYes : Terminal W E → Text → Bool → Type 0
  IsYes t text b =
      b ≡ true
      → (t.to_lower (trim_space text) ≡ codes "y") ⊎ (t.to_lower (trim_space text) ≡ codes "yes")

  pub judge_line-Leads :
      {P R : Assertion E} (t : Terminal W E) (text : Text) (error : Option (ReadError E))
      → ((st : Option E) (tr : List (Effect E)) → P st tr → R st tr)
      → Leads P (judge_line t text error) (λ b st tr. P st tr × IsYes t text b) R
  unfolding judge_line
  judge_line-Leads t text error r = bind-Leads (check-Leads t t.context_err r) λ _.
      bind-Leads (lift-Leads (line_error text error) r) λ u. record {
        at = λ s g. (
          g.0,
          λ e. ground (
            arith,
            ==_iff (t.to_lower (trim_space text)) (codes "y"),
            ==_iff (t.to_lower (trim_space text)) (codes "yes"),
          ),
        );
      }

  judge-After :
      {P R : Assertion E} {Q : Text → Option (ReadError E) → Assertion E} {S : Bool → Assertion E}
      (t : Terminal W E) (o : Reading E × W) (s : State W E)
      → ((text : Text) (error : Option (ReadError E)) (st : Option E) (tr : List (Effect E))
          → P st tr
          → Q text error st (waited (line text error) ∷ tr))
      → ((e : E) (st : Option E) (tr : List (Effect E))
          → P st tr
          → R (some e) (waited (cancelled e) ∷ tr))
      → ((text : Text) (error : Option (ReadError E))
          → Leads (Q text error) (judge_line t text error) S R)
      → P s.stopped s.trace
      → After S R (judge t o.0 (record s { world = o.1; trace = waited o.0 ∷ s.trace }))
  unfolding judge
  judge-After t (cancelled e, w) s q r k g = r e s.stopped s.trace g
  judge-After t (line text error, w) s q r k g =
      (k text error).at (record s { world = w; trace = waited (line text error) ∷ s.trace })
        (q text error s.stopped s.trace g)

  pub wait-Leads :
      {P R : Assertion E} {Q : Text → Option (ReadError E) → Assertion E} {S : Bool → Assertion E}
      (t : Terminal W E)
      → ((text : Text) (error : Option (ReadError E)) (st : Option E) (tr : List (Effect E))
          → P st tr
          → Q text error st (waited (line text error) ∷ tr))
      → ((e : E) (st : Option E) (tr : List (Effect E))
          → P st tr
          → R (some e) (waited (cancelled e) ∷ tr))
      → ((text : Text) (error : Option (ReadError E))
          → Leads (Q text error) (judge_line t text error) S R)
      → Leads P (wait t) S R
  unfolding wait
  wait-Leads t q r k = record { at = λ s g. judge-After t (t.read s.world) s q r k g }

  weaken-After :
      {A : Type 0} {Q Q' : A → Assertion E} (R : Assertion E) (o : Outcome (Error E) A × State W E)
      → ((a : A) (st : Option E) (tr : List (Effect E)) → Q a st tr → Q' a st tr)
      → After Q R o
      → After Q' R o
  weaken-After R (ok a, s) f h = f a s.stopped s.trace h
  weaken-After R (err e, s) f h = h

  pub weaken-Leads :
      {A : Type 0} {P R : Assertion E} {m : Step W E A} {Q Q' : A → Assertion E}
      → ((a : A) (st : Option E) (tr : List (Effect E)) → Q a st tr → Q' a st tr)
      → Leads P m Q R
      → Leads P m Q' R
  weaken-Leads {R} {m} f h = record { at = λ s g. weaken-After R (m s) f (h.at s g) }
