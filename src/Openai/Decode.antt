-- ===== src/Openai/Decode.antt =====
-- providers/openai/client.go: the state of a conversation, and what a response becomes.
pub mod Laws
use hot_take.Base.{
  if◌then◌else◌, ltb, Outcome, ok, ◌>>=◌, ◌>>◌, reject_if, map_err, Text, codes, ◌==◌, ℕ, ◌+◌, Bool,
  true, false, not, ◌&&◌, ◌||◌, List, [], ◌∷◌, ◌++◌,
}
use hot_take.Base.Strings.{is_blank, join}
use hot_take.Base.Int.{ℤ, pos, negsuc, pos_part, is_negative}
use hot_take.Tool.{Call}
use hot_take.Provider.{Turn}
use hot_take.Openai.{ClientState, ResponseContent, ResponseItem, ResponseEnvelope}

-- The texts of ErrInvalidState.
pub data StateError (E : Type 0) : Type 0 where
  undecodable : E → StateError E
  inconsistent : StateError E

-- `invalid function call`, with its index
pub data TurnError : Type 0 where
  invalid_call : ℕ → TurnError

abbrev pub no_state : ClientState
no_state = record { previous_response_id = []; consumed_items = pos 0 }

-- `decodeState`; `unmarshal` decodes a `clientState`.
unfoldable pub decode_state :
    {E : Type 0} → (Text → Outcome E ClientState) → Text → ℕ → Outcome (StateError E) ClientState
decode_state unmarshal [] item_count = ok no_state
decode_state unmarshal (c ∷ raw) item_count = do
  state ← map_err undecodable (unmarshal (c ∷ raw))
  reject_if
      (state.previous_response_id == []
        || is_negative state.consumed_items
        || ltb item_count (pos_part state.consumed_items))
      inconsistent
  ok state

-- The loop over the contents of a message.
unfoldable pub add_contents : List ResponseContent → List Text → List Text
add_contents [] text = text
add_contents (content ∷ contents) text = add_contents contents (
    if content.type == codes "output_text" && not (is_blank content.text)
    then text ++ content.text ∷ []
    else text)

module _ (json_valid : Text → Bool) where
  -- The loop of `decodeTurn`, from an index; what it has is the texts and the calls.
  unfoldable pub decode_outputs :
      ℕ → List ResponseItem → List Text → List Call → Outcome TurnError (List Text × List Call)
  unfolding add_contents
  decode_outputs index [] text calls = ok (text, calls)
  decode_outputs index (item ∷ items) text calls = elim (item.type == codes "message") [
    | true ↦ decode_outputs (index + 1) items (add_contents item.content text) calls
    | false ↦ elim (item.type == codes "function_call") [
      | true ↦
          reject_if (item.call_id == [] || item.name == [] || not (json_valid item.arguments))
            (invalid_call index)
          >> decode_outputs (index + 1) items text (
              calls
              ++ record { id = item.call_id; name = item.name; arguments = item.arguments } ∷ [])
      | false ↦ decode_outputs (index + 1) items text calls
    ]
  ]

  -- `decodeTurn`; the state is not set yet.
  unfoldable pub decode_turn : ResponseEnvelope → Outcome TurnError Turn
  unfolding decode_outputs
  decode_turn response = do
    found ← decode_outputs 0 response.output [] []
    ok (record { text = join found.0 (codes "\n"); tool_calls = found.1; state = [] })
