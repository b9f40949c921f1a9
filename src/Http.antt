-- ===== src/Http.antt =====
-- What the program uses of net/http, net/url and io. The network is a function on a world.
use hot_take.Base.{
  ltb, eqb, length, take, any, Outcome, ok, err, Text, ℕ, Bool, true, not, ◌||◌, Option, none, some,
  List, [], ◌∷◌, ◌++◌,
}
use hot_take.Base.Dict.{Dict, lookup, put}

-- A response body: the bytes that arrive, the error that then ends them if any, and that of `Close`.
pub record Body (E : Type 0) : Type 0 where
  pub content : Text
  pub failure : Option E
  pub close_error : Option E

abbrev pub read_end : {E : Type 0} → Bool → Option E → Text → Outcome E Text
read_end true (some e) content = err e
read_end _ _ content = ok content

-- io.ReadAll(io.LimitReader(body, limit)), which does not meet an error behind the limit.
unfoldable pub read_limited : {E : Type 0} → ℕ → Body E → Outcome E Text
read_limited limit body =
    read_end (ltb (length body.content) limit) body.failure (take limit body.content)

abbrev pub close_result : {E : Type 0} → Option E → Outcome E (Unit {0})
close_result none = ok tt
close_result (some e) = err e

-- http.Header: the values of each canonical key.
abbrev pub Header : Type 0
Header = Dict (List Text)

-- `canonical` is http.CanonicalHeaderKey.
unfoldable pub set : (Text → Text) → Text → Text → Header → Header
set canonical key value h = put (canonical key) (value ∷ []) h

abbrev values_of : Option (List Text) → List Text
values_of none = []
values_of (some values) = values

unfoldable pub add : (Text → Text) → Text → Text → Header → Header
add canonical key value h =
    put (canonical key) (values_of (lookup (canonical key) h) ++ value ∷ []) h

pub record Request : Type 0 where
  pub url : Text
  pub header : Header
  pub body : Text

-- A response; `header` is `Header.Get`.
pub record Response (E : Type 0) : Type 0 where
  pub status : ℕ
  pub header : Text → Text
  pub body : Body E

-- `status < http.StatusOK || status >= http.StatusMultipleChoices`
unfoldable pub is_failure : ℕ → Bool
is_failure status = ltb status 200 || not (ltb status 300)

-- `http.Client`, by its method `Do`
abbrev pub Transport : Type 0 → Type 0 → Type 0
Transport W E = Request → W → Outcome E (Response E) × W

-- What url.Parse tells of a URL.
pub record Url : Type 0 where
  pub scheme : Text
  pub host : Text
  pub hostname : Text
  pub has_user : Bool
  pub raw_query : Text
  pub fragment : Text

-- strings.ContainsAny(s, "\r\n")
abbrev pub has_line_break : Text → Bool
has_line_break s = any (λ c. eqb c b'\r' || eqb c b'\n') s
