-- ===== src/Agent/Transcript.antt =====
-- What a run sends to the model: the transcript, and the state that the model gave back.
use hot_take.Base.{
  Bool-cases, ok, err, Text, ◌≡◌, refl, sym, ap, ◌∙◌, subst, inl, inr, List, [], ◌∷◌, ◌++◌,
  append_assoc,
}
use hot_take.Base.Strings.{is_blank}
use hot_take.Tool.{Call}
use hot_take.Provider.{Item, Message, message_item, call_item, result_item}
use hot_take.Agent.Effects.{Trace, published, generated, authorized, executed}
use hot_take.Agent.Loop.{Plan, add_text}
use hot_take.Agent.Protocol.{
  Phase, ready, replied, considered, working, asking, permitted, performed, Follows, begin, reply,
  no_reply, announce_reply, answer, accept, announce_call, permit, refuse, execute, crash,
  announce_result, go_on, unpublished,
}

-- A transcript: messages, and calls each followed at once by a result with the identifier of the call.
pub data IsPaired : List Item → Type 0 where
  nil : IsPaired []
  message : {l : List Item} (m : Message) → IsPaired l → IsPaired (message_item m ∷ l)
  exchange :
      {l : List Item} (call : Call) (content : Text)
      → IsPaired l
      → IsPaired
          (call_item call ∷ result_item (record { call_id = call.id; content = content }) ∷ l)

pub IsPaired-append : {l m : List Item} → IsPaired l → IsPaired m → IsPaired (l ++ m)
IsPaired-append nil k = k
IsPaired-append (message m h) k = message m (IsPaired-append h k)
IsPaired-append (exchange call content h) k = exchange call content (IsPaired-append h k)

add_text-IsPaired : (text : Text) {l : List Item} → IsPaired l → IsPaired (add_text text l)
unfolding add_text
add_text-IsPaired text h = elim (Bool-cases (is_blank text)) [
  | inl e ↦ rw e h
  | inr e ↦ rw e (IsPaired-append h (message _ nil))
]

-- The state that the model returned last; none at first.
abbrev pub last_state : {E : Type 0} → Trace E → Text
last_state [] = []
last_state (generated request (ok turn) ∷ t) = turn.state
last_state (generated request (err e) ∷ t) = last_state t
last_state (published event result ∷ t) = last_state t
last_state (authorized request result ∷ t) = last_state t
last_state (executed call result ∷ t) = last_state t

-- Every request to the model has a transcript of this kind and the state that the model returned last.
abbrev pub SendsTranscripts : {E : Type 0} → Trace E → Type 0
SendsTranscripts [] = Unit
SendsTranscripts (generated request result ∷ t) =
    IsPaired request.items × (request.state ≡ last_state t) × SendsTranscripts t
SendsTranscripts (published event result ∷ t) = SendsTranscripts t
SendsTranscripts (authorized request result ∷ t) = SendsTranscripts t
SendsTranscripts (executed call result ∷ t) = SendsTranscripts t

-- An open transcript ends in a call that has no result yet.
abbrev pub IsOpen : Call → List Item → Type 0
IsOpen call l = (m : List Item) × IsPaired m × (l ≡ m ++ call_item call ∷ [])

close :
    (call : Call) (content : Text) (l : List Item)
    → IsOpen call l
    → IsPaired (l ++ result_item (record { call_id = call.id; content = content }) ∷ [])
close call content l (m, h, e) =
    subst IsPaired
      (sym (append_assoc m (call_item call ∷ []) _)
        ∙ ap (λ k. k ++ result_item (record { call_id = call.id; content = content }) ∷ []) (sym e))
      (IsPaired-append h (exchange call content nil))

module _ {E : Type 0} (x : Plan) where
  abbrev Kept : Phase → Trace E → Type 0
  Kept (ready n c) t = IsPaired c.items × (c.provider_state ≡ last_state t)
  Kept (replied n c turn) t = IsPaired c.items × (turn.state ≡ last_state t)
  Kept (considered n c turn) t = IsPaired c.items × (c.provider_state ≡ last_state t)
  Kept (working n c calls) t = IsPaired c.items × (c.provider_state ≡ last_state t)
  Kept (asking n c call calls) t = IsOpen call c.items × (c.provider_state ≡ last_state t)
  Kept (permitted n c call calls) t = IsOpen call c.items × (c.provider_state ≡ last_state t)
  Kept (performed n c call calls) t = IsPaired c.items × (c.provider_state ≡ last_state t)
  Kept _ t = Unit

  pub Follows-SendsTranscripts :
      {t : Trace E} {p : Phase} → Follows x t p → SendsTranscripts t × Kept p t
  Follows-SendsTranscripts (begin t₀ t₁) = (tt, (message _ nil, refl))
  Follows-SendsTranscripts (reply turn f h) =
      let (s, k) = Follows-SendsTranscripts f in ((k.0, k.1, s), (k.0, refl))
  Follows-SendsTranscripts (no_reply e f h) =
      let (s, k) = Follows-SendsTranscripts f in ((k.0, k.1, s), tt)
  Follows-SendsTranscripts (announce_reply now f) = Follows-SendsTranscripts f
  Follows-SendsTranscripts (answer now f h k) = ((Follows-SendsTranscripts f).0, tt)
  Follows-SendsTranscripts (accept {turn} f h k l) =
      let (s, q) = Follows-SendsTranscripts f in (s, (add_text-IsPaired turn.text q.0, q.1))
  Follows-SendsTranscripts (announce_call {c} now f h k) =
      let (s, q) = Follows-SendsTranscripts f in (s, ((c.items, q.0, refl), q.1))
  Follows-SendsTranscripts (permit f) = Follows-SendsTranscripts f
  Follows-SendsTranscripts (refuse e f) = ((Follows-SendsTranscripts f).0, tt)
  Follows-SendsTranscripts (execute {c} {call} content f) =
      let (s, q) = Follows-SendsTranscripts f in (s, (close call content c.items q.0, q.1))
  Follows-SendsTranscripts (crash e f) = ((Follows-SendsTranscripts f).0, tt)
  Follows-SendsTranscripts (announce_result now f) = Follows-SendsTranscripts f
  Follows-SendsTranscripts (go_on f) = Follows-SendsTranscripts f
  Follows-SendsTranscripts (unpublished event e f live) = ((Follows-SendsTranscripts f).0, tt)
