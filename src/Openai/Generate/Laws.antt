-- ===== src/Openai/Generate/Laws.antt =====
-- What `Generate` returns.
use hot_take.Base.{
  ltb, length, All, Outcome, ok, err, reject_if, >>=-eq-ok, map_err, Text, codes, ◌==◌, ℕ, ◌+◌, ◌≤◌,
  ◌≡◌, refl, ap, subst, false, [], ◌∷◌, arith, ok-injective, map_err-eq-ok,
}
use hot_take.Base.Strings.{is_blank, join}
use hot_take.Base.Int.{pos}
use hot_take.Provider
use hot_take.Provider.{Item, Turn}
use hot_take.Http.{Body, Response, read_limited, close_result, is_failure}
use hot_take.Openai.{Client, ResponseEnvelope}
use hot_take.Openai.Decode.{decode_turn}
use hot_take.Openai.Decode.Laws.{IsUsable, calls_of, all_texts, decode_turn-eq-ok}
use hot_take.Openai.Generate.{
  Error, decode_error, read_error, turn_error, state_marshal_error, too_large, Codec,
  max_response_body, read_body, request_body, http_request, read_turn, receive, send, generate,
}

reject_ltb-le : {F : Type 0} (n m : ℕ) (e : F) {u : Unit {0}} → reject_if (ltb n m) e ≡ ok u → m ≤ n
reject_ltb-le n m e h = ground arith

pub not_nil_of_blank : (s : Text) → is_blank s ≡ false → (s == []) ≡ false
unfolding is_blank ◌==◌
not_nil_of_blank [] h = cc
not_nil_of_blank (c ∷ s) h = refl

module _ {E : Type 0} (codec : Codec E) where
  -- A turn read from a response: the status is a success, the body of at most the bounded size decodes to an
  -- envelope with an identifier, the turn is that of the envelope, its calls can be used, and its state
  -- says that the conversation goes on from this response and that all items are consumed.
  abbrev pub IsRead : ℕ → Response E → Turn → Type 0
  IsRead item_count response turn =
      (payload : Text) × (envelope : ResponseEnvelope) × (read_body response.body ≡ ok payload)
      × (is_failure response.status ≡ false)
      × (length payload ≤ max_response_body)
      × (codec.unmarshal_response payload ≡ ok envelope)
      × (is_blank envelope.id ≡ false)
      × (turn.text ≡ join (all_texts envelope.output) (codes "\n"))
      × (turn.tool_calls ≡ calls_of envelope.output)
      × All (IsUsable codec.json_valid) turn.tool_calls
      × (codec.marshal_state
            (record { previous_response_id = envelope.id; consumed_items = pos item_count })
          ≡ ok turn.state)

  read_body-bounded :
      (body : Body E) (payload : Text)
      → read_body body ≡ ok payload
      → length payload ≤ max_response_body
  unfolding read_body
  read_body-bounded body payload h =
      let (read, _, h) =
        >>=-eq-ok (map_err read_error (read_limited (max_response_body + 1) body)) _ h in
      let (_, _, h) = >>=-eq-ok (map_err read_error (close_result body.close_error)) _ h in
      let (_, small, h) = >>=-eq-ok (reject_if (ltb max_response_body (length read)) _) _ h in
      subst (λ p. length p ≤ max_response_body) (ok-injective h)
        (reject_ltb-le max_response_body (length read) too_large small)

  read_turn-IsRead :
      (item_count : ℕ) (response : Response E) (turn : Turn)
      → read_turn codec item_count response ≡ ok turn
      → IsRead item_count response turn
  unfolding read_turn
  read_turn-IsRead item_count response turn h =
      let (payload, body_read, h) = >>=-eq-ok (read_body response.body) _ h in
      let (_, success, h) = >>=-eq-ok (reject_if (is_failure response.status) _) _ h in
      let (envelope, decoded, h) =
        >>=-eq-ok (map_err decode_error (codec.unmarshal_response payload)) _ h in
      let (_, named, h) = >>=-eq-ok (reject_if (is_blank envelope.id) _) _ h in
      let (turn', turned, h) =
        >>=-eq-ok (map_err turn_error (decode_turn codec.json_valid envelope)) _ h in
      let (state, marshalled, h) =
        >>=-eq-ok (map_err state_marshal_error (codec.marshal_state _)) _ h in
      let (t, c, a) =
        decode_turn-eq-ok codec.json_valid envelope turn' (map_err-eq-ok turn_error _ turned) in
      subst (IsRead item_count response) (ok-injective h) (
        payload,
        envelope,
        body_read,
        ground arith,
        read_body-bounded response.body payload body_read,
        map_err-eq-ok decode_error _ decoded,
        ground arith,
        t,
        c,
        a,
        map_err-eq-ok state_marshal_error _ marshalled,
      )

module _ {W E : Type 0} (codec : Codec E) (client : Client W E) where
  receive-IsRead :
      (item_count : ℕ) (o : Outcome E (Response E) × W) (turn : Turn) (w' : W)
      → receive codec item_count o ≡ (ok turn, w')
      → (response : Response E) × (o ≡ (ok response, w')) × IsRead codec item_count response turn
  unfolding receive
  receive-IsRead item_count (err e, w) turn w' h = cc
  receive-IsRead item_count (ok response, w) turn w' h = (
    response,
    ap (λ v. (ok response, v)) (ap (λ p. p.1) h),
    read_turn-IsRead codec item_count response turn (ap (λ p. p.0) h),
  )

  send-IsRead :
      (item_count : ℕ) (o : Outcome (Error E) Text) (w w' : W) (turn : Turn)
      → send codec client item_count o w ≡ (ok turn, w')
      → (payload : Text) × (response : Response E) × (o ≡ ok payload)
        × (client.http_client (http_request codec client payload) w ≡ (ok response, w'))
        × IsRead codec item_count response turn
  unfolding send
  send-IsRead item_count (err e) w w' turn h = cc
  send-IsRead item_count (ok payload) w w' turn h =
      let (response, e, r) =
        receive-IsRead item_count (client.http_client (http_request codec client payload) w) turn w'
          h in
      (payload, response, refl, e, r)

  -- A turn that `Generate` returns was read from the response to one request, whose body was made of the
  -- request of the provider: a response with the status of a success, of bounded size, with an identifier and
  -- with calls that can be used.
  pub generate-eq-ok :
      (request : Provider.Request) (w w' : W) (turn : Turn)
      → generate codec client request w ≡ (ok turn, w')
      → (payload : Text) × (response : Response E) × (request_body codec client request
          ≡ ok payload)
        × (client.http_client (http_request codec client payload) w ≡ (ok response, w'))
        × IsRead codec (length request.items) response turn
  unfolding generate
  generate-eq-ok request w w' turn h =
      send-IsRead (length request.items) (request_body codec client request) w w' turn h
