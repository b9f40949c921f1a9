-- ===== src/Openai/Encode/Laws.antt =====
-- Which items `encodeItems` accepts, and what it makes of them.
use hot_take.Base.{
  if◌then◌else◌, All, ok, >>=-eq-ok, Text, ℕ, ◌+◌, ◌≡◌, refl, sym, ap, ◌∙◌, ◌↔◌, Bool, true, false,
  ◌&&◌, ◌||◌, Option, none, some, List, [], ◌∷◌, ◌++◌, append_assoc, append-nil, arith,
  ok-injective,
}
use hot_take.Base.Strings.{is_blank}
use hot_take.Tool.{Call, Result}
use hot_take.Provider.{Message, Item}
use hot_take.Openai.{InputItem}
use hot_take.Openai.Encode.{
  is_supported, is_assistant, message_input, call_input, result_input, encode_item, append_encoded,
  encode_from, encode_items,
}

-- What is sent of an item: of a continued conversation, neither the assistant's messages nor its calls.
abbrev pub sent_value : Bool → Option Message → Option Call → Option Result → Option InputItem
sent_value continuing (some m) call result =
    if continuing && is_assistant m.role then none else some (message_input m)
sent_value continuing none (some c) result = if continuing then none else some (call_input c)
sent_value continuing none none (some r) = some (result_input r)
sent_value continuing none none none = none

abbrev pub cons_some : Option InputItem → List InputItem → List InputItem
cons_some none l = l
cons_some (some i) l = i ∷ l

abbrev pub sent_items : Bool → List Item → List InputItem
sent_items continuing [] = []
sent_items continuing (item ∷ items) =
    cons_some (sent_value continuing item.message item.tool_call item.tool_result)
      (sent_items continuing items)

module _ (json_valid : Text → Bool) where
  -- An item has exactly one value: a message of the user or the assistant, a call with an identifier, a
  -- name and valid arguments (unless it is not sent), or a result with an identifier and valid content.
  abbrev pub IsAcceptedValue : Bool → Option Message → Option Call → Option Result → Type 0
  IsAcceptedValue continuing (some m) none none = is_supported m.role ≡ true
  IsAcceptedValue true none (some c) none = Unit
  IsAcceptedValue false none (some c) none =
      ((is_blank c.id || is_blank c.name) ≡ false) × (json_valid c.arguments ≡ true)
  IsAcceptedValue continuing none none (some r) =
      (is_blank r.call_id ≡ false) × (json_valid r.content ≡ true)
  IsAcceptedValue continuing _ _ _ = ⊥

  abbrev pub IsAccepted : Bool → Item → Type 0
  IsAccepted continuing item =
      IsAcceptedValue continuing item.message item.tool_call item.tool_result

  encode_value_iff :
      (continuing : Bool) (index : ℕ) (m : Option Message) (c : Option Call) (r : Option Result)
      (o : Option InputItem)
      → (encode_item json_valid continuing index
            (record { message = m; tool_call = c; tool_result = r })
          ≡ ok o)
        ↔ (IsAcceptedValue continuing m c r × (o ≡ sent_value continuing m c r))
  unfolding encode_item
  encode_value_iff continuing index (some m) none none o = ground arith
  encode_value_iff true index none (some c) none o = ground arith
  encode_value_iff false index none (some c) none o = ground arith
  encode_value_iff continuing index none none (some r) o = ground arith
  encode_value_iff continuing index none none none o = ground arith
  encode_value_iff continuing index (some m) (some c) none o = ground arith
  encode_value_iff continuing index (some m) (some c) (some r) o = ground arith
  encode_value_iff continuing index (some m) none (some r) o = ground arith
  encode_value_iff continuing index none (some c) (some r) o = ground arith

  append_encoded-cons_some :
      (encoded rest : List InputItem) (o : Option InputItem)
      → append_encoded encoded o ++ rest ≡ encoded ++ cons_some o rest
  unfolding append_encoded
  append_encoded-cons_some encoded rest none = refl
  append_encoded-cons_some encoded rest (some i) = append_assoc encoded (i ∷ []) rest

  encode_from-eq-ok :
      (continuing : Bool) (index : ℕ) (items : List Item) (encoded out : List InputItem)
      → encode_from json_valid continuing index items encoded ≡ ok out
      → All (IsAccepted continuing) items × (out ≡ encoded ++ sent_items continuing items)
  unfolding encode_from
  encode_from-eq-ok continuing index [] encoded out h =
      (tt, sym (ok-injective h) ∙ sym (append-nil encoded))
  encode_from-eq-ok continuing index (item ∷ items) encoded out h =
      let (o, found, rest) = >>=-eq-ok (encode_item json_valid continuing index item) _ h in
      let (accepted, sent) =
        (encode_value_iff continuing index item.message item.tool_call item.tool_result o).0
          found in
      let (later, e) =
        encode_from-eq-ok continuing (index + 1) items (append_encoded encoded o) out rest in
      (
        (accepted, later),
        e
            ∙ append_encoded-cons_some encoded (sent_items continuing items) o
            ∙ ap (λ p. encoded ++ cons_some p (sent_items continuing items)) sent,
      )

  encode_from-total :
      (continuing : Bool) (index : ℕ) (items : List Item) (encoded : List InputItem)
      → All (IsAccepted continuing) items
      → (out : List InputItem) × (encode_from json_valid continuing index items encoded ≡ ok out)
  unfolding encode_from
  encode_from-total continuing index [] encoded a = (encoded, refl)
  encode_from-total continuing index (item ∷ items) encoded a =
      let o = sent_value continuing item.message item.tool_call item.tool_result in
      let (out, rest) =
        encode_from-total continuing (index + 1) items (append_encoded encoded o) a.1 in
      (
        out,
        rw
            ((encode_value_iff continuing index item.message item.tool_call item.tool_result o).1
              (a.0, refl))
            rest,
      )

  -- `encodeItems` accepts exactly the lists of acceptable items, and then sends, in their order, all of a new
  -- conversation, and of a continued one all but the assistant's messages and its calls.
  pub encode_items_iff :
      (items : List Item) (continuing : Bool) (out : List InputItem)
      → (encode_items json_valid items continuing ≡ ok out)
        ↔ (All (IsAccepted continuing) items × (out ≡ sent_items continuing items))
  unfolding encode_items
  encode_items_iff items continuing out = (
    encode_from-eq-ok continuing 0 items [] out,
    λ h.
        let (out', e) = encode_from-total continuing 0 items [] h.0 in
        e ∙ ap ok ((encode_from-eq-ok continuing 0 items [] out' e).1 ∙ sym h.1),
  )
