-- ===== src/Mcp/Events/Laws.antt =====
-- Which responses `decodeResponse` accepts, and which event of a stream `decodeEventStream` returns.
use hot_take.Base.{
  eqb, length, Outcome, ok, err, >>=-eq-ok, map_err, Text, codes, ==_iff, ℕ, ◌≡◌, ◌≢◌, ◌↔◌, true,
  none, [], ◌∷◌, arith, map_err-eq-ok,
}
use hot_take.Base.Int.{ℤ, pos, negsuc}
use hot_take.Mcp.Events.{
  RpcResponse, undecodable, Decoder, matches, judge_response, decode_response,
}

-- A response that answers the request with the expected identifier, with a result.
abbrev pub IsAnswer : {E : Type 0} → Decoder E → ℤ → RpcResponse → Type 0
IsAnswer decoder expected_id response =
    (response.jsonrpc ≡ codes "2.0")
    × (decoder.int64 response.id ≡ ok expected_id)
    × (response.error ≡ none)
    × (response.result ≢ [])
    × (response.result ≢ codes "null")

matches_iff : {E : Type 0} (o : Outcome E ℤ) (n : ℤ) → (matches o n ≡ true) ↔ (o ≡ ok n)
matches_iff (err e) n = ground arith
matches_iff (ok (pos m)) (pos n) = ground arith
matches_iff (ok (pos m)) (negsuc n) = ground arith
matches_iff (ok (negsuc m)) (pos n) = ground arith
matches_iff (ok (negsuc m)) (negsuc n) = ground arith

nil_iff : (s : Text) → (eqb (length s) 0 ≡ true) ↔ (s ≡ [])
nil_iff [] = ground arith
nil_iff (c ∷ s) = ground arith

module _ {E : Type 0} (decoder : Decoder E) where
  judge_response_iff :
      (response : RpcResponse) (expected_id : ℤ) (status : ℕ) (result : Text)
      → (judge_response decoder response expected_id status ≡ ok result)
        ↔ (IsAnswer decoder expected_id response × (response.result ≡ result))
  unfolding judge_response
  judge_response_iff response expected_id status result = ground (
    arith,
    ==_iff response.jsonrpc (codes "2.0"),
    matches_iff (decoder.int64 response.id) expected_id,
    ==_iff response.result (codes "null"),
    nil_iff response.result,
  )

  -- `decodeResponse` returns a result exactly if the payload decodes to a response of version 2.0 that has the
  -- identifier of the request, no error, and this result, which is neither empty nor null.
  pub decode_response_iff :
      (payload : Text) (expected_id : ℤ) (status : ℕ) (result : Text)
      → (decode_response decoder payload expected_id status ≡ ok result) ↔ (
          (response : RpcResponse) × (decoder.response payload ≡ ok response)
          × IsAnswer decoder expected_id response
          × (response.result ≡ result))
  unfolding decode_response
  decode_response_iff payload expected_id status result = (
    λ h.
        let (response, decoded, h) =
          >>=-eq-ok (map_err undecodable (decoder.response payload)) _ h in
        let (answers, e) = (judge_response_iff response expected_id status result).0 h in
        (response, map_err-eq-ok undecodable _ decoded, answers, e),
    λ h.
        let (response, decoded, answers, e) = h in
        rw decoded ((judge_response_iff response expected_id status result).1 (answers, e)),
  )
