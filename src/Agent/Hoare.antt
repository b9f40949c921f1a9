-- ===== src/Agent/Hoare.antt =====
-- Triples for the actions of a run: from a phase of the protocol to a phase that depends on the result,
-- or to an error that the protocol allows where the run stops.
use hot_take.Base.{
  Outcome, ok, err, map_err, Text, ℕ, ◌≡◌, refl, Bool, true, false, Option, none, some, ◌∷◌,
}
use hot_take.Event.{Kind}
use hot_take.Agent.{Runtime}
use hot_take.Agent.Effects.{
  Error, publish_error, Effect, Trace, published, State, Platform, Run, continue, ◌>>=◌, ◌>>◌, pure,
  lift, perform, guard, check_context, context_result, observe,
}
use hot_take.Agent.Loop.{Plan, publish}
use hot_take.Agent.Protocol.{Phase, halted, IsLive, event_of, Follows, unpublished, EndsWith}

module _ {W E : Type 0} (x : Plan) where
  -- A run of the plan has stopped with this error.
  abbrev pub Stopped : Error E → State W E → Type 0
  Stopped e s = (p : Phase) × Follows x s.trace p × EndsWith x p e

  abbrev pub Post : {A : Type 0} → (A → Phase) → Outcome (Error E) A × State W E → Type 0
  Post q (ok a, s) = Follows x s.trace (q a)
  Post q (err e, s) = Stopped e s

  pub record Leads {A : Type 0} (p : Phase) (m : Run W E A) (q : A → Phase) : Type 0 where
    pub at : (s : State W E) → Follows x s.trace p → Post q (m s)

  continue-Post :
      {A B : Type 0} (o : Outcome (Error E) A × State W E) (f : A → Run W E B) {q : A → Phase}
      {r : B → Phase}
      → Post q o
      → ((a : A) → Leads (q a) (f a) r)
      → Post r (continue o.0 f o.1)
  continue-Post (ok a, s) f h k = (k a).at s h
  continue-Post (err e, s) f h k = h

  pub bind-Leads :
      {A B : Type 0} {p : Phase} {m : Run W E A} {f : A → Run W E B} {q : A → Phase} {r : B → Phase}
      → Leads p m q
      → ((a : A) → Leads (q a) (f a) r)
      → Leads p (m >>= f) r
  bind-Leads {m} {f} h k = record { at = λ s g. continue-Post (m s) f (h.at s g) k }

  pub pure-Leads :
      {A : Type 0} {p : Phase} {q : A → Phase} (a : A)
      → ((t : Trace E) → Follows x t p → Follows x t (q a))
      → Leads p (pure a) q
  unfolding pure
  pure-Leads a h = record { at = λ s g. h s.trace g }

  pub lift-Leads :
      {A : Type 0} {p : Phase} {q : A → Phase} (o : Outcome (Error E) A)
      → ((a : A) → o ≡ ok a → (t : Trace E) → Follows x t p → Follows x t (q a))
      → ((e : Error E) → o ≡ err e → EndsWith x p e)
      → Leads p (lift o) q
  unfolding lift
  lift-Leads (ok a) h k = record { at = λ s g. h a refl s.trace g }
  lift-Leads {p} (err e) h k = record { at = λ s g. (p, g, k e refl) }

  -- The code behind a guard may use that the test failed.
  pub guard-Leads :
      {B : Type 0} {p : Phase} {q : B → Phase} (b : Bool) (e : Error E) (k : Run W E B)
      → (b ≡ true → EndsWith x p e)
      → (b ≡ false → Leads p k q)
      → Leads p (guard b e >> k) q
  unfolding guard
  guard-Leads {p} true e k h g = record { at = λ s f. (p, f, h refl) }
  guard-Leads false e k h g = record { at = λ s f. (g refl).at s f }

  perform-Post :
      {A : Type 0} {p : Phase} {q : A → Phase} (entry : Outcome E A → Effect E) (wrap : E → Error E)
      (o : Outcome E A × W) (s : State W E)
      → ((a : A) (t : Trace E) → Follows x t p → Follows x (entry (ok a) ∷ t) (q a))
      → ((e : E) (t : Trace E)
          → Follows x t p
          → (p' : Phase) × Follows x (entry (err e) ∷ t) p' × EndsWith x p' (wrap e))
      → Follows x s.trace p
      → Post q (map_err wrap o.0, record s { world = o.1; trace = entry o.0 ∷ s.trace })
  perform-Post entry wrap (ok a, w) s h k g = h a s.trace g
  perform-Post entry wrap (err e, w) s h k g = k e s.trace g

  pub perform-Leads :
      {A : Type 0} {p : Phase} {q : A → Phase} (act : W → Outcome E A × W)
      (entry : Outcome E A → Effect E) (wrap : E → Error E)
      → ((a : A) (t : Trace E) → Follows x t p → Follows x (entry (ok a) ∷ t) (q a))
      → ((e : E) (t : Trace E)
          → Follows x t p
          → (p' : Phase) × Follows x (entry (err e) ∷ t) p' × EndsWith x p' (wrap e))
      → Leads p (perform act entry wrap) q
  unfolding perform
  perform-Leads act entry wrap h k = record {
    at = λ s g. perform-Post entry wrap (act s.world) s h k g;
  }

  context-Post :
      {p : Phase} (o : Option E × W) (s : State W E)
      → IsLive p
      → Follows x s.trace p
      → Post (λ (_ : Unit {0}). p) (context_result o.0, record s { world = o.1 })
  unfolding context_result
  context-Post (none, w) s live g = g
  context-Post {p} (some e, w) s live g = (p, g, live)

  pub check_context-Leads :
      {p : Phase} (platform : Platform W E) → IsLive p → Leads p (check_context platform) (λ _. p)
  unfolding check_context
  check_context-Leads platform live = record {
    at = λ s g. context-Post (platform.context_err s.world) s live g;
  }

  pub publish-Leads :
      {p p' : Phase} (r : Runtime W E) (kind : Kind) (name : Text) (n : ℕ)
      → IsLive p
      → ((now : ℕ) (t : Trace E)
          → Follows x t p
          → Follows x (published (event_of x kind name n now) (ok tt) ∷ t) p')
      → Leads p (publish r kind x.run_id name n) (λ _. p')
  unfolding publish observe
  publish-Leads r kind name n live h = record {
    at = λ s g.
        let (now, w) = r.clock s.world in
        (perform-Leads (r.events (event_of x kind name n now))
            (published (event_of x kind name n now)) (publish_error kind) (λ a t f. h now t f)
            (λ e t f. (halted, unpublished (event_of x kind name n now) e f live, tt))).at
          (record s { world = w }) g;
  }
