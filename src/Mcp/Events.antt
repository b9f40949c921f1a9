-- ===== src/Mcp/Events.antt =====
-- mcp/client.go: decodeResponse, decodeEventStream and decodeEventData, which read the answer to a request.
pub mod Laws
pub mod Stream
use hot_take.Base.{
  if◌then◌else◌, ltb, eqb, length, drop, Outcome, ok, err, ◌>>=◌, ◌>>◌, reject_if, map_err, Text,
  codes, ◌==◌, ℕ, Bool, true, false, not, ◌||◌, Option, none, some, List, [], ◌∷◌, ◌++◌,
}
use hot_take.Base.Strings.{has_prefix, join}
use hot_take.Base.Int.{ℤ, pos, negsuc}

pub record RpcError : Type 0 where
  pub code : ℤ
  pub message : Text
  pub error_data : Text
  pub status : ℕ

pub record RpcResponse : Type 0 where
  pub jsonrpc : Text
  pub id : Text
  pub result : Text
  pub error : Option RpcError

abbrev pub max_response_size : ℕ
max_response_size = 4194304

-- The errors of a response: those of the JSON-RPC peer, and those of the protocol.
pub data ResponseError (E : Type 0) : Type 0 where
  rpc_error : RpcError → ResponseError E
  undecodable undecodable_event : E → ResponseError E
  bad_version : Text → ResponseError E
  id_mismatch : ℤ → ResponseError E
  no_result line_too_long : ResponseError E
  ended_without_response : ℤ → ResponseError E

-- json.Unmarshal into a response, into an int64, and into a structure that has only the field `id`.
pub record Decoder (E : Type 0) : Type 0 where
  pub response : Text → Outcome E RpcResponse
  pub int64 : Text → Outcome E ℤ
  pub header_id : Text → Outcome E Text

abbrev pub same_int : ℤ → ℤ → Bool
same_int (pos n) (pos m) = eqb n m
same_int (negsuc n) (negsuc m) = eqb n m
same_int _ _ = false

abbrev pub matches : {E : Type 0} → Outcome E ℤ → ℤ → Bool
matches (err e) expected_id = false
matches (ok id) expected_id = same_int id expected_id

abbrev pub without_error : {E : Type 0} → ℕ → Option RpcError → Outcome (ResponseError E) (Unit {0})
without_error status none = ok tt
without_error status (some e) = err (rpc_error (record e { status = status }))

-- The lines of a text, without their ends.
unfoldable pub raw_lines : Text → List Text
raw_lines [] = []
raw_lines (c ∷ s) = if eqb c b'\n' then [] ∷ raw_lines s else attach c (raw_lines s)
  where
    attach : ℕ → List Text → List Text
    attach c [] = (c ∷ []) ∷ []
    attach c (line ∷ lines) = (c ∷ line) ∷ lines

-- A line without the carriage return at its end.
unfoldable pub drop_cr : Text → Text
drop_cr [] = []
drop_cr (c ∷ []) = if eqb c b'\r' then [] else c ∷ []
drop_cr (c ∷ d ∷ s) = c ∷ drop_cr (d ∷ s)

-- A value without one space in front.
abbrev pub skip_space : Text → Text
skip_space [] = []
skip_space (c ∷ s) = if eqb c b' ' then s else c ∷ s

-- The data of an event, with a line that is not empty.
unfoldable pub add_line : Text → List Text → List Text
unfolding has_prefix ◌==◌
add_line line event =
    if has_prefix line (codes ":")
    then event
    else if line == codes "data"
    then event ++ [] ∷ []
    else if has_prefix line (codes "data:")
    then event ++ skip_space (drop 5 line) ∷ []
    else event

module _ {E : Type 0} (decoder : Decoder E) where
  -- The checks of `decodeResponse`
  unfoldable pub judge_response : RpcResponse → ℤ → ℕ → Outcome (ResponseError E) Text
  unfolding ◌==◌
  judge_response response expected_id status = do
    reject_if (not (response.jsonrpc == codes "2.0")) (bad_version response.jsonrpc)
    reject_if (not (matches (decoder.int64 response.id) expected_id)) (id_mismatch expected_id)
    without_error status response.error
    reject_if (eqb (length response.result) 0 || response.result == codes "null") no_result
    ok response.result

  -- `decodeResponse`
  unfoldable pub decode_response : Text → ℤ → ℕ → Outcome (ResponseError E) Text
  unfolding judge_response
  decode_response payload expected_id status = do
    response ← map_err undecodable (decoder.response payload)
    judge_response response expected_id status

  -- `decodeEventData`; `none` is a message that is not matched.
  unfoldable pub decode_event_data : Text → ℤ → ℕ → Outcome (ResponseError E) (Option Text)
  unfolding decode_response
  decode_event_data event expected_id status = do
    id ← map_err undecodable_event (decoder.header_id event)
    elim (eqb (length id) 0) [
      | true ↦ ok none
      | false ↦ decode_response event expected_id status >>= λ result. ok (some result)
    ]

  -- The answer that the lines of an event carry, if any.
  unfoldable pub flush : List Text → ℤ → ℕ → Outcome (ResponseError E) (Option Text)
  unfolding decode_event_data join
  flush [] expected_id status = ok none
  flush (line ∷ event) expected_id status =
      decode_event_data (join (line ∷ event) (codes "\n")) expected_id status

  -- The loop of `decodeEventStream` over the lines that are left. The scanner has a buffer of the maximal
  -- size, which has to hold a whole line.
  unfoldable pub read_lines : List Text → List Text → ℤ → ℕ → Outcome (ResponseError E) Text
  unfolding drop_cr add_line flush ◌==◌
  read_lines [] event expected_id status = flush event expected_id status >>= λ answer.
      elim answer [ none ↦ err (ended_without_response expected_id) | some result ↦ ok result ]
  read_lines (raw ∷ lines) event expected_id status =
      reject_if (not (ltb (length raw) max_response_size)) line_too_long
      >> elim (drop_cr raw == []) [
        | true ↦ flush event expected_id status >>= λ answer. elim answer [
          | none ↦ read_lines lines [] expected_id status
          | some result ↦ ok result
        ]
        | false ↦ read_lines lines (add_line (drop_cr raw) event) expected_id status
      ]

  -- `decodeEventStream`
  unfoldable pub decode_event_stream : Text → ℤ → ℕ → Outcome (ResponseError E) Text
  unfolding raw_lines read_lines
  decode_event_stream payload expected_id status =
      read_lines (raw_lines payload) [] expected_id status
