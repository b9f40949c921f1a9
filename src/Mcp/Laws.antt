-- ===== src/Mcp/Laws.antt =====
-- The local names of remote tools.
use hot_take.Base.{
  eqb, length, all, length-append, ok, Text, codes, ℕ, ◌+◌, ◌≡◌, refl, subst, Bool, true, ◌||◌, [],
  ◌∷◌, ◌++◌, arith,
}
use hot_take.Base.Strings.{is_lower, is_upper, is_digit}
use hot_take.Mcp.{
  is_name_byte, is_namespace_byte, valid_tool_name, valid_namespace, replace_all, normalize,
  local_tool_name,
}

-- The bytes that every function-calling provider accepts in a name.
abbrev pub is_word_byte : ℕ → Bool
is_word_byte c = is_lower c || is_upper c || is_digit c || eqb c b'_'

all-append : (p : ℕ → Bool) (s t : Text) → all p s ≡ true → all p t ≡ true → all p (s ++ t) ≡ true
all-append p [] t h k = k
all-append p (c ∷ s) t h k = ground (arith, all-append p s t (ground arith) k)

normalize-words : (s : Text) → all is_name_byte s ≡ true → all is_word_byte (normalize s) ≡ true
unfolding normalize replace_all
normalize-words [] h = refl
normalize-words (c ∷ s) h = ground (arith, normalize-words s)

normalize-namespace :
    (s : Text) → all is_namespace_byte s ≡ true → all is_word_byte (normalize s) ≡ true
unfolding normalize replace_all
normalize-namespace [] h = refl
normalize-namespace (c ∷ s) h = ground (arith, normalize-namespace s)

length-normalize : (s : Text) → length (normalize s) ≡ length s
unfolding normalize replace_all
length-normalize [] = refl
length-normalize (c ∷ s) = ground (arith, length-normalize s)

valid_namespace-bytes : (s : Text) → valid_namespace s ≡ true → all is_namespace_byte s ≡ true
unfolding valid_namespace
valid_namespace-bytes [] h = refl
valid_namespace-bytes (c ∷ s) h = ground arith

-- A success of `LocalToolName` has a valid namespace and a valid remote name; the local name has letters,
-- digits and underscores only, and is two bytes longer than the two together.
pub local_tool_name-eq-ok :
    (namespace remote_name out : Text)
    → local_tool_name namespace remote_name ≡ ok out
    → (valid_namespace namespace ≡ true)
      × (valid_tool_name remote_name ≡ true)
      × (all is_word_byte out ≡ true)
      × (length out ≡ length namespace + 2 + length remote_name)
unfolding local_tool_name valid_tool_name
local_tool_name-eq-ok namespace remote_name out h =
    let named : valid_namespace namespace ≡ true = ground arith in
    let a = normalize namespace in
    let b = normalize remote_name in
    let e : a ++ codes "__" ++ b ≡ out = ground arith in
    (
      named,
      ground arith,
      subst (λ o. all is_word_byte o ≡ true) e
          (all-append is_word_byte (a ++ codes "__") b
            (all-append is_word_byte a (codes "__")
              (normalize-namespace namespace (valid_namespace-bytes namespace named)) refl)
            (normalize-words remote_name (ground arith))),
      subst (λ o. length o ≡ length namespace + 2 + length remote_name) e
          (omega (
            arith,
            length-append (a ++ codes "__") b,
            length-append a (codes "__"),
            length-normalize namespace,
            length-normalize remote_name,
          )),
    )
