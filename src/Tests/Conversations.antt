-- ===== src/Tests/Conversations.antt =====
-- Two requests of a conversation through providers/openai/client.go, with a codec and a network of its own.
use hot_take.Base.{
  All, Outcome, ok, err, Text, codes, ◌==◌, ℕ, zero, suc, ◌≡◌, refl, subst, ◌≢◌, ◌↔◌, Bool, true,
  false, none, List, [], ◌∷◌, ◌++◌, ok-injective,
}
use hot_take.Base.Strings.{is_blank, join}
use hot_take.Base.Int.{ℤ, pos, negsuc}
use hot_take.Provider.{Item, Turn, user, assistant, message_item, call_item, result_item}
use hot_take.Provider
use hot_take.Http.{Response}
use hot_take.Openai.{Client, ClientState, InputItem, ResponseEnvelope}
use hot_take.Openai.Encode.{result_input, encode_items, encode_tools}
use hot_take.Openai.Encode.Laws.{IsAccepted, sent_items, encode_items_iff}
use hot_take.Openai.Decode.{decode_turn}
use hot_take.Openai.Decode.Laws.{IsUsable, all_texts, calls_of, decode_turn-eq-ok}
use hot_take.Openai.Generate.{
  Codec, input_of, request_body, http_request, read_body, receive, generate,
}
use hot_take.Openai.Generate.Laws.{IsRead, generate-eq-ok}
use hot_take.Openai.Generate.Continues.{KeepsState, continuing, generate_continues}

abbrev all_valid : Text → Bool
all_valid s = true

abbrev pub envelope : ResponseEnvelope
envelope = record {
  id = codes "r1";
  output =
      record {
        type = codes "message";
        call_id = [];
        name = [];
        arguments = [];
        content = record { type = codes "output_text"; text = codes "hi" } ∷ [];
      }
      ∷ record {
        type = codes "function_call";
        call_id = codes "c1";
        name = codes "clock";
        arguments = codes "{}";
        content = [];
      }
      ∷ [];
}

abbrev write_state : ℤ → Text → Text
write_state (pos n) id = 0 ∷ n ∷ id
write_state (negsuc n) id = 1 ∷ n ∷ id

abbrev read_state : Text → Outcome ℕ ClientState
read_state (zero ∷ n ∷ id) = ok (record { previous_response_id = id; consumed_items = pos n })
read_state (suc zero ∷ n ∷ id) =
    ok (record { previous_response_id = id; consumed_items = negsuc n })
read_state s = err 0

abbrev pub codec : Codec ℕ
codec = record {
  json_valid = all_valid;
  unmarshal_state = read_state;
  marshal_state = λ s. ok (write_state s.consumed_items s.previous_response_id);
  marshal_request = λ r. ok (codes "request " ++ r.previous_response_id);
  unmarshal_response = λ s. ok envelope;
  unmarshal_error = λ s. err 0;
  new_request = λ s. ok tt;
  status_text = λ n. codes "error";
  canonical = λ s. s;
}

-- The network counts the requests.
abbrev client : Client ℕ ℕ
client = record {
  api_key = codes "key";
  model = codes "m";
  endpoint = codes "https://example.com/responses";
  http_client = λ r w. (
    ok (record {
      status = 200;
      header = λ k. [];
      body = record { content = codes "body"; failure = none; close_error = none };
    }),
    suc w,
  );
}

abbrev first_items : List Item
first_items = message_item (record { role = user; content = codes "what time is it" }) ∷ []

abbrev first_request : Provider.Request
first_request = record { instructions = []; items = first_items; tools = []; state = [] }

abbrev first_turn : Turn
first_turn = record {
  text = codes "hi";
  tool_calls = record { id = codes "c1"; name = codes "clock"; arguments = codes "{}" } ∷ [];
  state = 0 ∷ 1 ∷ codes "r1";
}

abbrev added_items : List Item
added_items =
    message_item (record { role = assistant; content = codes "hi" })
    ∷ call_item (record { id = codes "c1"; name = codes "clock"; arguments = codes "{}" })
    ∷ result_item (record { call_id = codes "c1"; content = codes "12" })
    ∷ []

abbrev second_request : Provider.Request
second_request = record {
  instructions = [];
  items = first_items ++ added_items;
  tools = [];
  state = first_turn.state;
}

abbrev sent_result : List InputItem
sent_result = result_input (record { call_id = codes "c1"; content = codes "12" }) ∷ []

first_run : generate codec client first_request 5 ≡ (ok first_turn, 6)
unfolding generate is_blank join
first_run = refl

second_input :
    input_of codec second_request
    ≡ ok (record { previous_response_id = codes "r1"; consumed_items = pos 1 }, sent_result)
unfolding input_of ◌==◌ is_blank
second_input = refl

decoded_turn : decode_turn all_valid envelope ≡ ok (record first_turn { state = [] })
unfolding decode_turn ◌==◌ join hot_take.Base.Strings.is_blank
decoded_turn = refl

keeps : KeepsState codec
keeps payload envelope n text decoded h =
    subst
      (λ t.
        (t ≢ [])
        × (read_state t
            ≡ ok (record { previous_response_id = envelope.id; consumed_items = pos n })))
      (ok-injective h) (round_trip (pos n) envelope.id)
  where
    round_trip :
        (n : ℤ) (id : Text)
        → (write_state n id ≢ [])
          × (read_state (write_state n id)
              ≡ ok (record { previous_response_id = id; consumed_items = n }))
    round_trip (pos n) id = (λ h. cc, refl)
    round_trip (negsuc n) id = (λ h. cc, refl)

encode_items_iff_example :
    (encode_items all_valid added_items true ≡ ok sent_result)
    ↔ (All (IsAccepted all_valid true) added_items × (sent_result ≡ sent_items true added_items))
encode_items_iff_example = encode_items_iff all_valid added_items true sent_result

decode_turn-eq-ok_example :
    (codes "hi" ≡ join (all_texts envelope.output) (codes "\n"))
    × (first_turn.tool_calls ≡ calls_of envelope.output)
    × All (IsUsable all_valid) first_turn.tool_calls
decode_turn-eq-ok_example =
    decode_turn-eq-ok all_valid envelope (record first_turn { state = [] }) decoded_turn

generate-eq-ok_example :
    (payload : Text) × (response : Response ℕ) × (request_body codec client first_request
      ≡ ok payload)
    × (client.http_client (http_request codec client payload) 5 ≡ (ok response, 6))
    × IsRead codec 1 response first_turn
generate-eq-ok_example = generate-eq-ok codec client first_request 5 6 first_turn first_run

generate_continues_example :
    (sent answer body : Text) × (response : Response ℕ) × (envelope : ResponseEnvelope)
    × (request_body codec client first_request ≡ ok sent)
    × (client.http_client (http_request codec client sent) 5 ≡ (ok response, 6))
    × (read_body response.body ≡ ok answer)
    × (codec.unmarshal_response answer ≡ ok envelope)
    × (is_blank envelope.id ≡ false)
    × (codec.marshal_request
          (continuing codec client second_request [] envelope.id (sent_items true added_items))
        ≡ ok body)
    × (generate codec client second_request 6
        ≡ receive codec 4 (client.http_client (http_request codec client body) 6))
unfolding encode_tools is_blank
generate_continues_example =
    generate_continues codec client first_request second_request 5 6 6 first_turn added_items []
      keeps (λ id input. (codes "request " ++ id, refl)) refl refl first_run refl refl
      (refl, (tt, ((refl, refl), tt)))
