-- ===== src/Mcp/Schema/Growth.antt =====
-- What `scanHeaderBindings` finds: how its bindings and the names that it has seen grow.
use hot_take.Base.{
  Bool-cases, All, All-append, ok, reject_if, >>=-eq-ok, reject_if-eq-ok, Text, codes, ◌==◌, ◌≡◌,
  refl, sym, ap, ◌∙◌, subst, ◌≢◌, inl, inr, Bool, true, false, ◌&&◌, Option, none, some, List, [],
  ◌∷◌, ◌++◌, map, append_assoc, append-nil, arith, ok-injective,
}
use hot_take.Base.Dict.{elem, IsDistinct, IsDistinct-concat}
use hot_take.Json.{
  Json, Elements, Fields, no_elements, element, no_fields, field, null, boolean, number, string,
  array, object, field_of, as_string,
}
use hot_take.Mcp.{HeaderBinding}
use hot_take.Mcp.Schema.{
  duplicate_name, fold, valid_header_token, is_bindable, checked_name, checked_type, append_path,
  scan_annotation, scan, scan_elements, scan_fields, scan_properties, scan_property_list,
}

-- A binding of a header to a place in the arguments: a token as its name, a type of one value, and a path
-- that is not empty.
abbrev pub IsBinding : HeaderBinding → Type 0
IsBinding b = (valid_header_token b.name ≡ true) × (is_bindable b.value_type ≡ true) × (b.path ≢ [])

abbrev pub folded : List HeaderBinding → List Text
folded bindings = map (λ b. fold b.name) bindings

abbrev pub Found : Type 0
Found = List HeaderBinding × List Text

-- What a scan may find: bindings, whose folded names it adds to those seen; none where they are not reachable.
abbrev Grows : Bool → List Text → Found → Type 0
Grows reachable names found =
    (found.1 ≡ names ++ folded found.0)
    × (IsDistinct names → IsDistinct found.1)
    × All IsBinding found.0
    × (reachable ≡ false → found.0 ≡ [])

map-append : {A B : Type 0} (f : A → B) (xs ys : List A) → map f (xs ++ ys) ≡ map f xs ++ map f ys
map-append f [] ys = refl
map-append f (x ∷ xs) ys = ap (λ l. f x ∷ l) (map-append f xs ys)

Grows-none : (reachable : Bool) (names : List Text) → Grows reachable names ([], names)
Grows-none reachable names = (sym (append-nil names), λ d. d, tt, λ h. refl)

Grows-both :
    (reachable : Bool) (names : List Text) (first : Found) (second : Found)
    → Grows reachable names first
    → Grows reachable first.1 second
    → Grows reachable names (first.0 ++ second.0, second.1)
Grows-both reachable names first second (n, d, b, u) (n', d', b', u') = (
  n'
      ∙ ap (λ l. l ++ folded second.0) n
      ∙ append_assoc names (folded first.0) (folded second.0)
      ∙ ap (λ l. names ++ l)
          (sym (map-append (λ (x : HeaderBinding). fold x.name) first.0 second.0)),
  λ h. d' (d h),
  All-append IsBinding first.0 second.0 b b',
  λ h. rw (u h, u' h) refl,
)

-- What is not reachable may stand where something is.
Grows-any :
    (reachable : Bool) (names : List Text) (found : Found)
    → Grows false names found
    → Grows reachable names found
Grows-any reachable names found (n, d, b, u) = (n, d, b, λ h. u refl)

checked_name-eq-ok :
    (reachable : Bool) (path : List Text) (given : Option Text) (name : Text)
    → checked_name reachable path given ≡ ok name
    → (reachable ≡ true) × (path ≢ []) × (valid_header_token name ≡ true)
checked_name-eq-ok reachable path none name h = cc
checked_name-eq-ok reachable [] (some given) name h = ground arith
checked_name-eq-ok reachable (p ∷ path) (some given) name h = (ground arith, λ e. cc, ground arith)

checked_type-eq-ok :
    (name : Text) (given : Option Text) (type : Text)
    → checked_type name given ≡ ok type
    → is_bindable type ≡ true
checked_type-eq-ok name none type h = cc
checked_type-eq-ok name (some given) type h = elim (Bool-cases (is_bindable given)) [
  | inl e ↦ subst (λ t. is_bindable t ≡ true) (ok-injective (rw e at h)) e
  | inr e ↦ absurd (ground arith)
]

scan_annotation-Grows :
    (raw_name type : Option Json) (path : List Text) (reachable : Bool) (names : List Text)
    (found : Found)
    → scan_annotation raw_name type path reachable names ≡ ok found
    → Grows reachable names found
unfolding scan_annotation
scan_annotation-Grows none type path reachable names found h =
    subst (Grows reachable names) (ok-injective h) (Grows-none reachable names)
scan_annotation-Grows (some raw_name) type path reachable names found h =
    let (name, named, h) =
      >>=-eq-ok (checked_name reachable path (as_string (some raw_name))) _ h in
    let (value_type, typed, h) = >>=-eq-ok (checked_type name (as_string type)) _ h in
    let (_, new, h) = >>=-eq-ok (reject_if (elem (fold name) names) (duplicate_name name)) _ h in
    let (reached, somewhere, token) =
      checked_name-eq-ok reachable path (as_string (some raw_name)) name named in
    subst (Grows reachable names) (ok-injective h) (
      refl,
      λ d. IsDistinct-concat (fold name) names d (reject_if-eq-ok _ _ new),
      ((token, checked_type-eq-ok name (as_string type) value_type typed, somewhere), tt),
      λ r. cc,
    )

mutual
  unfolding scan

  pub scan-Grows :
      (node : Json) (path : List Text) (reachable : Bool) (names : List Text) (found : Found)
      → scan node path reachable names ≡ ok found
      → Grows reachable names found
  scan-Grows (object fields) path reachable names found h =
      let (own, annotated, h) =
        >>=-eq-ok
          (scan_annotation (field_of (codes "x-mcp-header") fields) (field_of (codes "type") fields)
            path reachable names)
          _ h in
      let (rest, scanned, h) = >>=-eq-ok (scan_fields fields path reachable own.1) _ h in
      subst (Grows reachable names) (ok-injective h) (
        Grows-both reachable names own rest
          (scan_annotation-Grows _ _ path reachable names own annotated)
          (scan_fields-Grows fields path reachable own.1 rest scanned))
  scan-Grows (array elements) path reachable names found h =
      let (seen, scanned, h) = >>=-eq-ok (scan_elements elements path names) _ h in
      subst (Grows reachable names) (ok-injective h)
        (rw (scan_elements-same elements path names seen scanned) (Grows-none reachable names))
  scan-Grows null path reachable names found h =
      subst (Grows reachable names) (ok-injective h) (Grows-none reachable names)
  scan-Grows (boolean b) path reachable names found h =
      subst (Grows reachable names) (ok-injective h) (Grows-none reachable names)
  scan-Grows (number n) path reachable names found h =
      subst (Grows reachable names) (ok-injective h) (Grows-none reachable names)
  scan-Grows (string s) path reachable names found h =
      subst (Grows reachable names) (ok-injective h) (Grows-none reachable names)

  scan_elements-same :
      (elements : Elements) (path names seen : List Text)
      → scan_elements elements path names ≡ ok seen
      → seen ≡ names
  scan_elements-same no_elements path names seen h = sym (ok-injective h)
  scan_elements-same (element item items) path names seen h =
      let (found, scanned, h) = >>=-eq-ok (scan item path false names) _ h in
      let (n, _, _, u) = scan-Grows item path false names found scanned in
      scan_elements-same items path found.1 seen h
      ∙ n
      ∙ ap (λ l. names ++ folded l) (u refl)
      ∙ append-nil names

  scan_fields-Grows :
      (fields : Fields) (path : List Text) (reachable : Bool) (names : List Text) (found : Found)
      → scan_fields fields path reachable names ≡ ok found
      → Grows reachable names found
  scan_fields-Grows no_fields path reachable names found h =
      subst (Grows reachable names) (ok-injective h) (Grows-none reachable names)
  scan_fields-Grows (field key v fields) path reachable names found h =
      let (first, scanned, h) =
        >>=-eq-ok
          (elim (key == codes "x-mcp-header") [
            | true ↦ ok ([], names)
            | false ↦ elim (key == codes "properties" && reachable) [
              | true ↦ scan_properties v path names
              | false ↦ scan v path false names
            ]
          ])
          _ h in
      let (more, later, h) = >>=-eq-ok (scan_fields fields path reachable first.1) _ h in
      let grown : Grows reachable names first = elim (Bool-cases (key == codes "x-mcp-header")) [
        | inl e ↦
            subst (Grows reachable names) (ok-injective (rw e at scanned))
              (Grows-none reachable names)
        | inr e ↦ elim (Bool-cases (key == codes "properties" && reachable)) [
          | inl r ↦
              scan_properties-Grows v path reachable names first (ground arith)
                (rw (e, r) at scanned)
          | inr r ↦
              Grows-any reachable names first
                (scan-Grows v path false names first (rw (e, r) at scanned))
        ]
      ] in
      subst (Grows reachable names) (ok-injective h) (
        Grows-both reachable names first more grown
          (scan_fields-Grows fields path reachable first.1 more later))

  scan_properties-Grows :
      (v : Json) (path : List Text) (reachable : Bool) (names : List Text) (found : Found)
      → reachable ≡ true
      → scan_properties v path names ≡ ok found
      → Grows reachable names found
  scan_properties-Grows (object properties) path reachable names found r h =
      rw r (scan_property_list-Grows properties path names found h)
  scan_properties-Grows null path reachable names found r h = cc
  scan_properties-Grows (boolean b) path reachable names found r h = cc
  scan_properties-Grows (number n) path reachable names found r h = cc
  scan_properties-Grows (string s) path reachable names found r h = cc
  scan_properties-Grows (array a) path reachable names found r h = cc

  scan_property_list-Grows :
      (properties : Fields) (path names : List Text) (found : Found)
      → scan_property_list properties path names ≡ ok found
      → Grows true names found
  scan_property_list-Grows no_fields path names found h =
      subst (Grows true names) (ok-injective h) (Grows-none true names)
  scan_property_list-Grows (field property schema properties) path names found h =
      let (first, scanned, h) =
        >>=-eq-ok (scan schema (append_path path property) true names) _ h in
      let (more, later, h) = >>=-eq-ok (scan_property_list properties path first.1) _ h in
      subst (Grows true names) (ok-injective h) (
        Grows-both true names first more
          (scan-Grows schema (append_path path property) true names first scanned)
          (scan_property_list-Grows properties path first.1 more later))
