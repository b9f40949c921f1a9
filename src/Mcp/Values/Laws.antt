-- ===== src/Mcp/Values/Laws.antt =====
-- What `encodeHeaderValue` and `safeInteger` make of a value.
use hot_take.Base.{
  Bool-cases, all, Text, codes, ◌==◌, ℕ, ◌≡◌, refl, sym, ◌∙◌, subst, ◌≢◌, inl, inr, Bool, true,
  false, not, ◌&&◌, [], ◌∷◌, ◌++◌, arith,
}
use hot_take.Base.Strings.{trim_space, has_prefix}
use mathlib.Core.List.{append_cancel_left, append_cancel_right}
use hot_take.Mcp.Values.{is_printable, is_plain, encode_header_value}

-- What base64.StdEncoding guarantees: printable text, from which the value can be told.
abbrev pub IsEncoding : (Text → Text) → Type 0
IsEncoding base64 =
    ((v : Text) → all is_printable (base64 v) ≡ true) × ((v w : Text) → base64 v ≡ base64 w → v ≡ w)

all-append : (p : ℕ → Bool) (s t : Text) → all p (s ++ t) ≡ (all p s && all p t)
all-append p [] t = refl
all-append p (c ∷ s) t = ground (arith, all-append p s t)

has_prefix-append : (p s : Text) → has_prefix (p ++ s) p ≡ true
unfolding has_prefix
has_prefix-append [] s = refl
has_prefix-append (c ∷ p) s = ground (arith, has_prefix-append p s)

plain-prefix : (v w : Text) → is_plain v ≡ true → v ≢ codes "=?base64?" ++ w
unfolding is_plain
plain-prefix v w p e =
    let plain = subst (λ s. is_plain s ≡ true) e p in
    let prefixed = has_prefix-append (codes "=?base64?") w in absurd (ground arith)

last_true : (a b c d : Bool) → (a && b && c && d) ≡ true → d ≡ true
last_true a b c d h = ground arith

plain-printable : (v : Text) → is_plain v ≡ true → all is_printable v ≡ true
unfolding is_plain
plain-printable v h =
    last_true (not (v == [])) (trim_space v == v) (not (has_prefix v (codes "=?base64?")))
      (all is_printable v) h

module _ (base64 : Text → Text) where
  abbrev wrapped : Text → Text
  wrapped v = codes "=?base64?" ++ base64 v ++ codes "?="

  encode_header_value-plain : (v : Text) → is_plain v ≡ true → encode_header_value base64 v ≡ v
  unfolding encode_header_value
  encode_header_value-plain v h = rw h refl

  encode_header_value-wrapped :
      (v : Text) → is_plain v ≡ false → encode_header_value base64 v ≡ wrapped v
  unfolding encode_header_value
  encode_header_value-wrapped v h = rw h refl

  wrapped-printable :
      ((v : Text) → all is_printable (base64 v) ≡ true)
      → (v : Text) → all is_printable (wrapped v) ≡ true
  wrapped-printable printable v =
      rw
        (
          all-append is_printable (codes "=?base64?") (base64 v ++ codes "?="),
          all-append is_printable (base64 v) (codes "?="),
          printable v,
        )
        refl

  -- The value of a header is printable ASCII, whatever the value of the argument: it breaks no line of the
  -- request. Different values have different headers, so a server can tell the value. It is assumed that
  -- base64 text is printable and can be decoded.
  pub encode_header_value-injective :
      IsEncoding base64
      → ((v : Text) → all is_printable (encode_header_value base64 v) ≡ true)
        × ((v w : Text) → encode_header_value base64 v ≡ encode_header_value base64 w → v ≡ w)
  encode_header_value-injective (printable, injective) = (
    λ v. elim (Bool-cases (is_plain v)) [
      | inl p ↦ rw (encode_header_value-plain v p) (plain-printable v p)
      | inr p ↦ rw (encode_header_value-wrapped v p) (wrapped-printable printable v)
    ],
    λ v w h. elim (Bool-cases (is_plain v)) [
      | inl p ↦ elim (Bool-cases (is_plain w)) [
        | inl q ↦ sym (encode_header_value-plain v p) ∙ h ∙ encode_header_value-plain w q
        | inr q ↦ absurd (
            plain-prefix v (base64 w ++ codes "?=") p
              (sym (encode_header_value-plain v p) ∙ h ∙ encode_header_value-wrapped w q))
      ]
      | inr p ↦ elim (Bool-cases (is_plain w)) [
        | inl q ↦ absurd (
            plain-prefix w (base64 v ++ codes "?=") q
              (sym (encode_header_value-plain w q) ∙ sym h ∙ encode_header_value-wrapped v p))
        | inr q ↦ injective v w (
            append_cancel_right (base64 v) (base64 w) (codes "?=") (
              append_cancel_left (codes "=?base64?") (base64 v ++ codes "?=")
                (base64 w ++ codes "?=")
                (sym (encode_header_value-wrapped v p) ∙ h ∙ encode_header_value-wrapped w q)))
      ]
    ],
  )
