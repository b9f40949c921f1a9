-- ===== src/Agent/Endings.antt =====
-- Where a run of the protocol stands when it stops: the latest calls behind each ending.
use hot_take.Base.{ok, err, Text, ◌≡◌, refl, ap, ◌≢◌, [], ◌∷◌}
use hot_take.Base.Strings.{trim_space}
use hot_take.Provider
use hot_take.Provider.{Turn}
use hot_take.Event.{Event, Kind}
use hot_take.Agent.Effects.{Trace, published, generated, authorized, executed}
use hot_take.Agent.Loop.{Plan, request_of}
use hot_take.Agent.Protocol.{
  Phase, replied, considered, finished, halted, Follows, begin, reply, no_reply, announce_reply,
  answer, accept, announce_call, permit, refuse, execute, crash, announce_result, go_on,
  unpublished, event_of,
}

module _ {E : Type 0} where
  -- The latest calls are the model's turn and the event that announces it.
  abbrev pub EndsInTurn : Trace E → Turn → Trace E → Type 0
  EndsInTurn t turn rest =
      (event : Event) × (request : Provider.Request) × (t
        ≡ published event (ok tt) ∷ generated request (ok turn) ∷ rest)
      × (event.kind ≡ Kind.model_completed)

  -- The run has just announced its end, right behind a turn without tool calls that has this answer.
  abbrev pub EndsInAnswer : Trace E → Text → Type 0
  EndsInAnswer t text =
      (event : Event) × (t' : Trace E) × (turn : Turn) × (rest : Trace E) × (t
        ≡ published event (ok tt) ∷ t')
      × (event.kind ≡ Kind.run_completed)
      × EndsInTurn t' turn rest
      × (turn.tool_calls ≡ [])
      × (text ≡ trim_space turn.text)
      × (text ≢ [])

  -- The latest call of a dependency has failed.
  abbrev pub EndsInFailure : Trace E → Type 0
  EndsInFailure (published event (err e) ∷ t) = Unit
  EndsInFailure (generated request (err e) ∷ t) = Unit
  EndsInFailure (authorized request (err e) ∷ t) = Unit
  EndsInFailure (executed call (err e) ∷ t) = Unit
  EndsInFailure _ = ⊥

  abbrev pub Ending : Phase → Trace E → Type 0
  Ending (replied n c turn) t =
      (request : Provider.Request) × (rest : Trace E) × (t ≡ generated request (ok turn) ∷ rest)
  Ending (considered n c turn) t = (rest : Trace E) × EndsInTurn t turn rest
  Ending (finished text) t = EndsInAnswer t text
  Ending halted t = EndsInFailure t
  Ending _ t = Unit

  pub Follows-Ending : (x : Plan) {t : Trace E} {p : Phase} → Follows x t p → Ending p t
  Follows-Ending x (begin t₀ t₁) = tt
  Follows-Ending x (reply {t} {c} turn f h) = (request_of x c, t, refl)
  Follows-Ending x (no_reply e f h) = tt
  Follows-Ending x (announce_reply {t} {n} now f) =
      let (request, rest, e) = Follows-Ending x f in
      (
        rest,
        (
          event_of x Kind.model_completed x.agent_name n now,
          request,
          ap
              (λ (u : Trace E).
                published (event_of x Kind.model_completed x.agent_name n now) (ok tt) ∷ u)
              e,
          refl,
        ),
      )
  Follows-Ending x (answer {t} {n} {turn} now f h k) =
      let (rest, ends) = Follows-Ending x f in
      (
        event_of x Kind.run_completed x.agent_name n now,
        t,
        turn,
        rest,
        refl,
        refl,
        ends,
        h,
        refl,
        k,
      )
  Follows-Ending x (accept f h k l) = tt
  Follows-Ending x (announce_call now f h k) = tt
  Follows-Ending x (permit f) = tt
  Follows-Ending x (refuse e f) = tt
  Follows-Ending x (execute content f) = tt
  Follows-Ending x (crash e f) = tt
  Follows-Ending x (announce_result now f) = tt
  Follows-Ending x (go_on f) = tt
  Follows-Ending x (unpublished event e f live) = tt
