-- ===== src/Openai/Generate/Continues.antt =====
-- How a conversation continues: what `Generate` sends behind a turn that it returned.
use hot_take.Base.{
  length, length-append, All, ok, Text, ℕ, ◌≤◌, ◌≡◌, refl, ◌≢◌, true, false, List, [], ◌∷◌, ◌++◌,
  arith, drop-length_append,
}
use hot_take.Base.Strings.{is_blank}
use hot_take.Base.Int.{pos}
use hot_take.Provider
use hot_take.Provider.{Item, Turn}
use hot_take.Http.{Response}
use hot_take.Openai.{Client, InputItem, FunctionTool, ResponseRequest, ResponseEnvelope}
use hot_take.Openai.Encode.{encode_tools}
use hot_take.Openai.Encode.Laws.{IsAccepted, sent_items, encode_items_iff}
use hot_take.Openai.Decode.{decode_state}
use hot_take.Openai.Generate.{
  Codec, read_body, input_of, request_body, http_request, receive, send, generate,
}
use hot_take.Openai.Generate.Laws.{not_nil_of_blank, generate-eq-ok}

-- What encoding/json guarantees of a state with the identifier of a response that it decoded: the text of the
-- state is not empty, and decodes to the state. (A decoded string is valid UTF-8, so encoding it
-- replaces nothing.)
abbrev pub KeepsState : {E : Type 0} → Codec E → Type 0
KeepsState codec =
    (payload : Text) (envelope : ResponseEnvelope) (n : ℕ) (text : Text)
    → codec.unmarshal_response payload ≡ ok envelope
    → codec.marshal_state (record { previous_response_id = envelope.id; consumed_items = pos n })
      ≡ ok text
    → (text ≢ [])
      × (codec.unmarshal_state text
          ≡ ok (record { previous_response_id = envelope.id; consumed_items = pos n }))

module _ {W E : Type 0} (codec : Codec E) (client : Client W E) (next : Provider.Request) where
  -- The request to the service that continues the response with this identifier: the model of the client, the
  -- instructions of the request, and no items but these.
  abbrev pub continuing : List FunctionTool → Text → List InputItem → ResponseRequest
  continuing tools id input = record {
    model = client.model;
    instructions = next.instructions;
    input = input;
    tools = tools;
    previous_response_id = id;
  }

  generate-continuing :
      (tools : List FunctionTool) (id body : Text) (n : ℕ) (input : List InputItem) (v : W)
      → input_of codec next
        ≡ ok (record { previous_response_id = id; consumed_items = pos n }, input)
      → encode_tools codec.json_valid next.tools ≡ ok tools
      → codec.marshal_request (continuing tools id input) ≡ ok body
      → codec.new_request client.endpoint ≡ ok tt
      → generate codec client next v
        ≡ receive codec (length next.items) (client.http_client (http_request codec client body) v)
  unfolding generate request_body send
  generate-continuing tools id body n input v i t m r = rw (i, t, m, r) refl

module _ {E : Type 0} (codec : Codec E) where
  decode_own_state :
      (text id : Text) (n m : ℕ)
      → text ≢ []
      → is_blank id ≡ false
      → n ≤ m
      → codec.unmarshal_state text
        ≡ ok (record { previous_response_id = id; consumed_items = pos n })
      → decode_state codec.unmarshal_state text m
        ≡ ok (record { previous_response_id = id; consumed_items = pos n })
  unfolding decode_state
  decode_own_state [] id n m given named within e = absurd (given refl)
  decode_own_state (c ∷ text) id n m given named within e =
      rw e (ground (arith, not_nil_of_blank id named))

  input_of_continued :
      (request next : Provider.Request) (turn : Turn) (more : List Item) (id : Text)
      → is_blank id ≡ false
      → (turn.state ≢ [])
        × (codec.unmarshal_state turn.state
            ≡ ok
                (record { previous_response_id = id; consumed_items = pos (length request.items) }))
      → next.state ≡ turn.state
      → next.items ≡ request.items ++ more
      → All (IsAccepted codec.json_valid true) more
      → input_of codec next
        ≡ ok (
          record { previous_response_id = id; consumed_items = pos (length request.items) },
          sent_items true more,
        )
  unfolding input_of
  input_of_continued request next turn more id named (given, decoded) same_state same_items
        accepted =
      let known =
        decode_own_state turn.state id (length request.items) (length (request.items ++ more)) given
          named (omega (arith, length-append request.items more)) decoded in
      let encoded =
        (encode_items_iff codec.json_valid more true (sent_items true more)).1 (accepted, refl) in
      rw
        (
          same_state,
          same_items,
          known,
          drop-length_append request.items more,
          not_nil_of_blank id named,
          encoded,
        )
        refl

  -- The conversation goes on: behind a turn that `Generate` returned, a request that has its state and adds items
  -- that are accepted to those of the request before is sent to the network as one request, whose body is
  -- that of a continuation of the response that the turn was read from, with the identifier of that response, the
  -- instructions and the tools of the new request, and exactly the added items, less the assistant's messages
  -- and its calls; what is returned is read from the answer. It is assumed that the tools can be encoded,
  -- that encoding/json encodes requests with these tools and keeps the state, and that net/http accepts the
  -- endpoint.
  pub generate_continues :
      {W : Type 0} (client : Client W E) (request next : Provider.Request) (w w' v : W)
      (turn : Turn) (more : List Item) (tools : List FunctionTool)
      → KeepsState codec
      → ((id : Text) (input : List InputItem)
          → (body : Text) × (codec.marshal_request (continuing codec client next tools id input)
              ≡ ok body))
      → codec.new_request client.endpoint ≡ ok tt
      → encode_tools codec.json_valid next.tools ≡ ok tools
      → generate codec client request w ≡ (ok turn, w')
      → next.state ≡ turn.state
      → next.items ≡ request.items ++ more
      → All (IsAccepted codec.json_valid true) more
      → (sent answer body : Text) × (response : Response E) × (envelope : ResponseEnvelope)
        × (request_body codec client request ≡ ok sent)
        × (client.http_client (http_request codec client sent) w ≡ (ok response, w'))
        × (read_body response.body ≡ ok answer)
        × (codec.unmarshal_response answer ≡ ok envelope)
        × (is_blank envelope.id ≡ false)
        × (codec.marshal_request
              (continuing codec client next tools envelope.id (sent_items true more))
            ≡ ok body)
        × (generate codec client next v
            ≡ receive codec
                (length next.items)
                (client.http_client (http_request codec client body) v))
  generate_continues client request next w w' v turn more tools keeps marshals reachable encoded h
        same_state same_items accepted =
      let (sent, response, made, answered, r) = generate-eq-ok codec client request w w' turn h in
      let (answer, envelope, body_read, _, _, decoded, named, _, _, _, marshalled) = r in
      let input =
        input_of_continued request next turn more envelope.id named
          (keeps answer envelope (length request.items) turn.state decoded marshalled) same_state
          same_items accepted in
      let (body, m) = marshals envelope.id (sent_items true more) in
      (
        sent,
        answer,
        body,
        response,
        envelope,
        made,
        answered,
        body_read,
        decoded,
        named,
        m,
        generate-continuing codec client next tools envelope.id body (length request.items)
            (sent_items true more) v input encoded m reachable,
      )
