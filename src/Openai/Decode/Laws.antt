-- ===== src/Openai/Decode/Laws.antt =====
-- What `decodeTurn` makes of a response.
use hot_take.Base.{
  if◌then◌else◌, Bool-cases, All, ok, reject_if, >>=-eq-ok, Text, codes, ◌==◌, ==_iff, ℕ, ◌+◌, ◌≡◌,
  sym, ap, ◌∙◌, subst, ◌≢◌, inl, inr, Bool, true, not, ◌&&◌, ◌||◌, List, [], ◌∷◌, ◌++◌,
  append_assoc, append-nil, arith, ok-injective,
}
use hot_take.Base.Strings.{is_blank, join}
use hot_take.Tool.{Call}
use hot_take.Provider.{Turn}
use hot_take.Openai.{ResponseContent, ResponseItem, ResponseEnvelope}
use hot_take.Openai.Decode.{invalid_call, add_contents, decode_outputs, decode_turn}

-- The texts of a response: those of its messages that are not blank.
abbrev pub texts_of : List ResponseContent → List Text
texts_of [] = []
texts_of (content ∷ contents) =
    if content.type == codes "output_text" && not (is_blank content.text)
    then content.text ∷ texts_of contents
    else texts_of contents

abbrev pub is_message : ResponseItem → Bool
is_message item = item.type == codes "message"

abbrev pub is_call : ResponseItem → Bool
is_call item = not (is_message item) && item.type == codes "function_call"

abbrev pub all_texts : List ResponseItem → List Text
all_texts [] = []
all_texts (item ∷ items) =
    if is_message item then texts_of item.content ++ all_texts items else all_texts items

abbrev pub call_of : ResponseItem → Call
call_of item = record { id = item.call_id; name = item.name; arguments = item.arguments }

-- And its calls: its function calls, in their order.
abbrev pub calls_of : List ResponseItem → List Call
calls_of [] = []
calls_of (item ∷ items) = if is_call item then call_of item ∷ calls_of items else calls_of items

add_contents_lem :
    (contents : List ResponseContent) (text : List Text)
    → add_contents contents text ≡ text ++ texts_of contents
unfolding add_contents
add_contents_lem [] text = sym (append-nil text)
add_contents_lem (content ∷ contents) text =
    elim (Bool-cases (content.type == codes "output_text" && not (is_blank content.text))) [
      | inl e ↦ rw e (
          add_contents_lem contents (text ++ content.text ∷ [])
          ∙ append_assoc text (content.text ∷ []) (texts_of contents))
      | inr e ↦ rw e (add_contents_lem contents text)
    ]

module _ (json_valid : Text → Bool) where
  -- A call that the runtime may use: with an identifier, a name and valid arguments.
  abbrev pub IsUsable : Call → Type 0
  IsUsable c = (c.id ≢ []) × (c.name ≢ []) × (json_valid c.arguments ≡ true)

  decode_outputs-eq-ok :
      (index : ℕ) (items : List ResponseItem) (text : List Text) (calls : List Call)
      (out : List Text × List Call)
      → decode_outputs json_valid index items text calls ≡ ok out
      → (out.0 ≡ text ++ all_texts items)
        × (out.1 ≡ calls ++ calls_of items)
        × All IsUsable (calls_of items)
  unfolding decode_outputs
  decode_outputs-eq-ok index [] text calls out h = (
    ap (λ o. o.0) (sym (ok-injective h)) ∙ sym (append-nil text),
    ap (λ o. o.1) (sym (ok-injective h)) ∙ sym (append-nil calls),
    tt,
  )
  decode_outputs-eq-ok index (item ∷ items) text calls out h = elim (Bool-cases (is_message item)) [
    | inl e ↦
        (let (t, c, a) =
            decode_outputs-eq-ok (index + 1) items (add_contents item.content text) calls out
              (rw (e, decode_outputs) at h) in
          rw e (
            t
                ∙ ap (λ l. l ++ all_texts items) (add_contents_lem item.content text)
                ∙ append_assoc text (texts_of item.content) (all_texts items),
            c,
            a,
          ))
    | inr e ↦ elim (Bool-cases (item.type == codes "function_call")) [
      | inl f ↦
          (let (u, valid, rest) =
              >>=-eq-ok
                (reject_if
                  (item.call_id == [] || item.name == [] || not (json_valid item.arguments))
                  (invalid_call index))
                _ (rw (e, f, decode_outputs) at h) in
            let (t, c, a) =
              decode_outputs-eq-ok (index + 1) items text (calls ++ call_of item ∷ []) out rest in
            rw (e, f)
              (
                t,
                c ∙ append_assoc calls (call_of item ∷ []) (calls_of items),
                (
                  (
                    ground (arith, ==_iff item.call_id []),
                    ground (arith, ==_iff item.name []),
                    ground arith,
                  ),
                  a,
                ),
              ))
      | inr f ↦
          rw (e, f)
            (decode_outputs-eq-ok (index + 1) items text calls out (rw (e, f, decode_outputs) at h))
    ]
  ]

  -- The turn of a response has all its texts that are not blank, joined by line ends, and all its function
  -- calls in their order; a call without an identifier, a name or valid arguments is an error.
  pub decode_turn-eq-ok :
      (response : ResponseEnvelope) (turn : Turn)
      → decode_turn json_valid response ≡ ok turn
      → (turn.text ≡ join (all_texts response.output) (codes "\n"))
        × (turn.tool_calls ≡ calls_of response.output)
        × All IsUsable turn.tool_calls
  unfolding decode_turn
  decode_turn-eq-ok response turn h =
      let (found, decoded, e) = >>=-eq-ok (decode_outputs json_valid 0 response.output [] []) _ h in
      let (t, c, a) = decode_outputs-eq-ok 0 response.output [] [] found decoded in
      subst
        (λ (u : Turn).
          (u.text ≡ join (all_texts response.output) (codes "\n"))
          × (u.tool_calls ≡ calls_of response.output)
          × All IsUsable u.tool_calls)
        (ok-injective e) (ap (λ l. join l (codes "\n")) t, c, subst (All IsUsable) (sym c) a)
