-- ===== src/Mcp/Client/Calling/Results.antt =====
-- What `CallTool` returns for the answer to its request.
use hot_take.Base.{
  Bool-cases, Outcome, ok, err, ◌>>=◌, >>=-eq-ok, map_err, Text, codes, ◌==◌, ==_iff, ◌≡◌, refl,
  sym, ap, ◌∙◌, subst, ◌⊎◌, inl, inr, [], ok-injective, map_err-eq-ok, Outcome-cases,
}
use hot_take.Mcp.Client
use hot_take.Mcp.Client.Calling.{Error, call_failed, undecodable, Codec, judge_type, read_result}

pub not_ok : {E A : Type 0} {e : E} {a : A} → ◌≡◌ {A = Outcome E A} (err e) (ok a) → ⊥
not_ok h = cc

pub err-injective : {E A : Type 0} {e e' : E} → ◌≡◌ {A = Outcome E A} (err e) (err e') → e ≡ e'
err-injective h = cc

-- The result types of a call that is complete
abbrev pub IsComplete : {E : Type 0} → Outcome E Text → Type 0
IsComplete o = (o ≡ ok []) ⊎ (o ≡ ok (codes "complete"))

module _ {E : Type 0} (codec : Codec E) where
  -- What is returned for the answer to a request: its error, its payload if the type of the result is complete, or else
  -- an error.
  abbrev pub IsReturned : Outcome (Client.Error E) Text → Outcome (Error E) Text → Type 0
  IsReturned answer returned =
      ((e : Client.Error E) × (answer ≡ err e) × (returned ≡ err (call_failed e)))
      ⊎ ((payload : Text) × (answer ≡ ok payload)
          × IsComplete (codec.result_type payload)
          × (returned ≡ ok payload))
      ⊎ ((payload : Text) × (e : Error E) × (answer ≡ ok payload)
          × ¬ IsComplete (codec.result_type payload)
          × (returned ≡ err e))

  judge_type-eq-ok :
      (name answer type payload : Text)
      → judge_type codec name answer type ≡ ok payload
      → (answer ≡ payload) × IsComplete {E = E} (ok type)
  unfolding judge_type
  judge_type-eq-ok name answer type payload h = elim (Bool-cases (type == [])) [
    | inl e ↦ (ok-injective (rw (e, judge_type) at h), inl (ap ok ((==_iff type []).0 e)))
    | inr e ↦ elim (Bool-cases (type == codes "complete")) [
      | inl c ↦ (
        ok-injective (rw (e, c, judge_type) at h),
        inr (ap ok ((==_iff type (codes "complete")).0 c)),
      )
      | inr c ↦ elim (Bool-cases (type == codes "input_required")) [
        | inl i ↦ absurd (not_ok (rw (e, c, i, judge_type) at h))
        | inr i ↦ absurd (not_ok (rw (e, c, i, judge_type) at h))
      ]
    ]
  ]

  pub read_result-eq-ok :
      (name answer payload : Text)
      → read_result codec name answer ≡ ok payload
      → (answer ≡ payload) × IsComplete (codec.result_type answer)
  unfolding read_result
  read_result-eq-ok name answer payload h =
      let (type, typed, h) = >>=-eq-ok (map_err undecodable (codec.result_type answer)) _ h in
      rw (map_err-eq-ok undecodable _ typed) (judge_type-eq-ok name answer type payload h)

  judge_type-IsComplete :
      (name payload type : Text)
      → IsComplete {E = E} (ok type)
      → judge_type codec name payload type ≡ ok payload
  unfolding judge_type ◌==◌
  judge_type-IsComplete name payload type (inl e) =
      subst (λ t. judge_type codec name payload t ≡ ok payload) (sym (ok-injective e)) refl
  judge_type-IsComplete name payload type (inr e) =
      subst (λ t. judge_type codec name payload t ≡ ok payload) (sym (ok-injective e)) refl

  read_result-IsComplete :
      (name payload : Text)
      → IsComplete (codec.result_type payload)
      → read_result codec name payload ≡ ok payload
  unfolding read_result
  read_result-IsComplete name payload (inl e) =
      rw (e, read_result) (judge_type-IsComplete name payload [] (inl refl))
  read_result-IsComplete name payload (inr e) =
      rw (e, read_result) (judge_type-IsComplete name payload (codes "complete") (inr refl))

  pub read_result-IsReturned :
      (name : Text) (answer : Outcome (Client.Error E) Text)
      → IsReturned answer (map_err call_failed answer >>= read_result codec name)
  read_result-IsReturned name (err e) = inl (e, refl, refl)
  read_result-IsReturned name (ok payload) = elim (Outcome-cases (read_result codec name payload)) [
    | inl (p, f) ↦
        (let (same, complete) = read_result-eq-ok name payload p f in
          inr (inl (payload, refl, complete, f ∙ ap ok (sym same))))
    | inr (e, f) ↦ inr (
        inr (
          payload,
          e,
          refl,
          (λ complete. not_ok (sym f ∙ read_result-IsComplete name payload complete)),
          f,
        ))
  ]
