-- ===== src/Agent/Ensures.antt =====
-- Triples for what `Run` of agent/runtime.go does before its loop: an error there leaves a trace with
-- nothing but events.
use hot_take.Base.{
  Outcome, ok, err, map_err, Text, ℕ, ◌≡◌, refl, ◌≢◌, Bool, true, false, Option, none, some, [],
  ◌∷◌,
}
use hot_take.Event.{Event, Kind}
use hot_take.Agent.{Runtime}
use hot_take.Agent.Effects.{
  context_error, select_error, resolve_error, describe_error, Error, publish_error, empty_input,
  Effect, Trace, published, State, Platform, Run, continue, ◌>>=◌, pure, lift, perform, guard,
  check_context, context_result, observe,
}
use hot_take.Agent.Loop.{publish, next_sequence}
use hot_take.Agent.Announcements.{stage_of, broken}

-- Nothing but events was sent: no model was asked, no call authorised or executed.
abbrev pub IsSilent : {E : Type 0} → Trace E → Type 0
IsSilent [] = Unit
IsSilent (published event result ∷ t) = IsSilent t
IsSilent (_ ∷ t) = ⊥

-- And the events are in order.
abbrev pub IsQuiet : {E : Type 0} → Trace E → Type 0
IsQuiet t = IsSilent t × (stage_of t ≢ broken)

-- The errors that `Run` returns before its loop. A context or a sink may fail in the loop as well.
abbrev pub IsEarly : {E : Type 0} → Error E → Type 0
IsEarly (context_error e) = Unit
IsEarly empty_input = Unit
IsEarly (publish_error kind e) = Unit
IsEarly (select_error e) = Unit
IsEarly (resolve_error name e) = Unit
IsEarly (describe_error e) = Unit
IsEarly _ = ⊥

module _ {W E : Type 0} where
  -- What the trace of an action satisfies behind it, by its result; an error leaves a quiet trace.
  abbrev pub After :
      {A : Type 0} → (A → Trace E → Type 0) → Outcome (Error E) A × State W E → Type 0
  After Q (ok a, s) = Q a s.trace
  After Q (err e, s) = IsEarly e × IsQuiet s.trace

  pub record Ensures {A : Type 0} (P : Trace E → Type 0) (m : Run W E A) (Q : A → Trace E → Type 0)
      : Type 0 where
    pub at : (s : State W E) → P s.trace → After Q (m s)

  continue-After :
      {A B : Type 0} (o : Outcome (Error E) A × State W E) (f : A → Run W E B)
      {Q : A → Trace E → Type 0} {R : B → Trace E → Type 0}
      → After Q o
      → ((a : A) → Ensures (Q a) (f a) R)
      → After R (continue o.0 f o.1)
  continue-After (ok a, s) f h k = (k a).at s h
  continue-After (err e, s) f h k = h

  pub bind-Ensures :
      {A B : Type 0} {P : Trace E → Type 0} (m : Run W E A) (f : A → Run W E B)
      {Q : A → Trace E → Type 0} {R : B → Trace E → Type 0}
      → Ensures P m Q
      → ((a : A) → Ensures (Q a) (f a) R)
      → Ensures P (m >>= f) R
  bind-Ensures m f h k = record { at = λ s g. continue-After (m s) f (h.at s g) k }

  -- Behind a computed result its equation is known.
  pub lift-Ensures :
      {A F : Type 0} {P : Trace E → Type 0} (wrap : F → Error E) (o : Outcome F A)
      → ((f : F) → IsEarly (wrap f))
      → ((t : Trace E) → P t → IsQuiet t)
      → Ensures P (lift (map_err wrap o)) (λ a t. P t × (o ≡ ok a))
  unfolding lift
  lift-Ensures wrap (ok a) early q = record { at = λ s g. (g, refl) }
  lift-Ensures wrap (err f) early q = record { at = λ s g. (early f, q s.trace g) }

  pub guard-Ensures :
      {P : Trace E → Type 0} (b : Bool) (e : Error E)
      → IsEarly e
      → ((t : Trace E) → P t → IsQuiet t)
      → Ensures P (guard b e) (λ _ t. P t × (b ≡ false))
  unfolding guard
  guard-Ensures true e early q = record { at = λ s g. (early, q s.trace g) }
  guard-Ensures false e early q = record { at = λ s g. (g, refl) }

  pub given-Ensures :
      {A : Type 0} {F : Type 0} {P : Trace E → Type 0} {m : Run W E A} {Q : A → Trace E → Type 0}
      → (F → Ensures P m Q)
      → Ensures (λ t. P t × F) m Q
  given-Ensures h = record { at = λ s g. (h g.1).at s g.0 }

  pub pure-Ensures :
      {A : Type 0} {P : Trace E → Type 0} {Q : A → Trace E → Type 0} (a : A)
      → ((t : Trace E) → P t → Q a t)
      → Ensures P (pure a) Q
  unfolding pure
  pure-Ensures a h = record { at = λ s g. h s.trace g }

  pub observe-Ensures :
      {A : Type 0} {P : Trace E → Type 0} (act : W → A × W) → Ensures P (observe act) (λ _. P)
  unfolding observe
  observe-Ensures act = record { at = λ s g. g }

  context-After :
      {P : Trace E → Type 0} (o : Option E × W) (s : State W E)
      → ((t : Trace E) → P t → IsQuiet t)
      → P s.trace
      → After (λ (_ : Unit {0}). P) (context_result o.0, record s { world = o.1 })
  unfolding context_result
  context-After (none, w) s q g = g
  context-After (some e, w) s q g = (tt, q s.trace g)

  pub check_context-Ensures :
      {P : Trace E → Type 0} (platform : Platform W E)
      → ((t : Trace E) → P t → IsQuiet t)
      → Ensures P (check_context platform) (λ _. P)
  unfolding check_context
  check_context-Ensures platform q = record {
    at = λ s g. context-After (platform.context_err s.world) s q g;
  }

  publish-After :
      {P : Trace E → Type 0} (Q : Trace E → Type 0) (entry : Outcome E (Unit {0}) → Effect E)
      (kind : Kind) (o : Outcome E (Unit {0}) × W) (s : State W E)
      → ((e : E) (t : Trace E) → P t → IsQuiet (entry (err e) ∷ t))
      → ((t : Trace E) → P t → Q (entry (ok tt) ∷ t))
      → P s.trace
      → After
          (λ (_ : Unit {0}). Q)
          (map_err (publish_error kind) o.0, record s { world = o.1; trace = entry o.0 ∷ s.trace })
  publish-After Q entry kind (ok u, w) s q k g = k s.trace g
  publish-After Q entry kind (err e, w) s q k g = (tt, q e s.trace g)

  pub publish-Ensures :
      {P : Trace E → Type 0} {Q : Trace E → Type 0} (r : Runtime W E) (kind : Kind)
      (run_id name : Text) (n : ℕ)
      → ((t : Trace E) → P t → IsQuiet t)
      → ((now : ℕ) (t : Trace E)
          → P t
          → Q (
              published
                (record { kind = kind; occurred_at = now; run_id = run_id; name = name; step = n })
                (ok tt)
              ∷ t))
      → Ensures P (publish r kind run_id name n) (λ _. Q)
  unfolding publish observe perform
  publish-Ensures {Q} r kind run_id name n q k = record {
    at = λ s g.
        let (now, w) = r.clock s.world in
        let event : Event = record {
          kind = kind;
          occurred_at = now;
          run_id = run_id;
          name = name;
          step = n;
        } in
        publish-After Q (published event) kind (r.events event w) (record s { world = w })
          (λ e t p. q t p) (k now) g;
  }

  pub next_sequence-Ensures : {P : Trace E → Type 0} → Ensures P next_sequence (λ _. P)
  unfolding next_sequence
  next_sequence-Ensures = record { at = λ s g. g }
