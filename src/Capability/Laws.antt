-- ===== src/Capability/Laws.antt =====
-- What a registry that capability.NewRegistry returns resolves.
use hot_take.Base.{
  Bool-cases, Option-cases, All, ok, err, >>=-eq-ok, Text, ◌==◌, ==_iff, ◌≡◌, refl, sym, ap, ◌∙◌,
  subst, ◌≢◌, ◌⊎◌, inl, inr, true, false, ◌||◌, none, some, List, [], ◌∷◌, map, Memᴰ, arith,
  ok-injective,
}
use hot_take.Base.Strings.{trim_space}
use hot_take.Base.Order.{text_ltb}
use hot_take.Base.Sort.{sort_insert, sort, IsSorted, mem-sort_insert_self, sort-IsSorted}
use hot_take.Base.Dict.{
  Dict, lookup, put, lookup-put, elem, elem-append, IsDistinct, IsDistinct-concat, keys,
  lookup-not_elem,
}
use hot_take.Base.SortByKey.{elem-sort_texts, IsDistinct-sort_texts, text_ltb-IsStrictOrder}
use hot_take.Base.SortedTexts.{HasSameElements}
use mathlib.Core.Path.{subst₂}
use hot_take.Capability.{
  Registry, validate_name, add_unique, unique_tools, providers_of, fill, new_registry, resolve,
  not_found,
}

-- The trimmed names of a list of tools.
abbrev pub trimmed : List Text → List Text
trimmed = map trim_space

add_unique_lem :
    (t : Text) (l : List Text)
    → IsDistinct l
    → IsDistinct (add_unique t l) × ((k : Text) → elem k (add_unique t l) ≡ (elem k l || t == k))
unfolding add_unique elem
add_unique_lem t l d = elim (Bool-cases (elem t l)) [
  | inl e ↦ rw (e) (d, λ k. ground (arith, ==_iff t k))
  | inr e ↦ rw (e) (IsDistinct-concat t l d e, λ k. ground (arith, elem-append k l (t ∷ [])))
]

pub unique_tools_lem :
    (c : Text) (tools unique : List Text) {out : List Text}
    → IsDistinct unique
    → unique_tools c tools unique ≡ ok out
    → IsDistinct out × ((k : Text) → elem k out ≡ (elem k unique || elem k (trimmed tools)))
unfolding unique_tools elem
unique_tools_lem c [] unique d h = (ground arith, λ k. ground arith)
unique_tools_lem c (t ∷ tools) unique d h =
    let (d', e) = add_unique_lem (trim_space t) unique d in
    let (done, f) = unique_tools_lem c tools (add_unique (trim_space t) unique) d' (ground arith) in
    (done, λ k. ground (arith, f k, e k))

unique_tools-not_blank :
    (c : Text) (tools unique : List Text) {out : List Text}
    → unique_tools c tools unique ≡ ok out
    → All (λ t. trim_space t ≢ []) tools
unfolding unique_tools
unique_tools-not_blank c [] unique h = tt
unique_tools-not_blank c (t ∷ tools) unique {out} h = (
  ground (arith, ==_iff (trim_space t) []),
  unique_tools-not_blank c tools (add_unique (trim_space t) unique) {out = out} (ground arith),
)

ne-nil_of_mem : {a : Text} {l : List Text} → Memᴰ a l → l ≢ []
ne-nil_of_mem (Memᴰ.head e) = cc
ne-nil_of_mem (Memᴰ.tail m) = cc

ne-nil_of_sort : (l : List Text) → l ≢ [] → sort text_ltb l ≢ []
unfolding sort sort_insert
ne-nil_of_sort [] h = absurd (h refl)
ne-nil_of_sort (a ∷ l) h = ne-nil_of_mem (mem-sort_insert_self text_ltb a (sort text_ltb l))

-- What ranging over a set guarantees: each of its elements is visited once, in any order.
abbrev pub IsVisit : (Text → List Text → List Text) → Type 0
IsVisit visit =
    (name : Text) (unique : List Text)
    → IsDistinct unique
    → IsDistinct (visit name unique) × HasSameElements (visit name unique) unique

ne-nil_of_same : (l m : List Text) → HasSameElements m l → l ≢ [] → m ≢ []
unfolding elem
ne-nil_of_same [] m same h = absurd (h refl)
ne-nil_of_same (a ∷ l) [] same h = absurd (clash (same a ∙ ground (arith, ==_iff a a)))
  where
    clash : false ≡ true → ⊥
    clash h = cc
ne-nil_of_same (a ∷ l) (b ∷ m) same h = cc

module _ (visit : Text → List Text → List Text) where
  providers_of-inversion :
      (name : Text) (tools : List Text) {out : List Text}
      → providers_of visit name tools ≡ ok out
      → (unique : List Text) × (validate_name name ≡ ok tt)
        × (unique_tools name tools [] ≡ ok unique)
        × (unique ≢ [])
        × (out ≡ sort text_ltb (visit name unique))
  unfolding providers_of
  providers_of-inversion name tools h =
      let (u, named, h1) = >>=-eq-ok (validate_name name) _ h in
      let (unique, found, h2) = >>=-eq-ok (unique_tools name tools []) _ h1 in
      (unique, ground arith, found, ground arith, ground arith)

  -- The providers of one capability are sorted, distinct, at least one, and the trimmed tool names given.
  pub providers_of_lem :
      IsVisit visit
      → (name : Text) (tools : List Text) {out : List Text} → providers_of visit name tools ≡ ok out
      → IsSorted text_ltb out
        × IsDistinct out
        × (out ≢ [])
        × ((k : Text) → elem k out ≡ elem k (trimmed tools))
  unfolding elem
  providers_of_lem documented name tools {out} h =
      let (unique, _, found, some_tool, e) = providers_of-inversion name tools h in
      let (distinct, same) = unique_tools_lem name tools [] tt found in
      let (visited, keeps) = documented name unique distinct in
      subst
        (λ o.
          IsSorted text_ltb o
          × IsDistinct o
          × (o ≢ [])
          × ((k : Text) → elem k o ≡ elem k (trimmed tools)))
        (sym e)
        (
          sort-IsSorted text_ltb text_ltb-IsStrictOrder (visit name unique),
          IsDistinct-sort_texts (visit name unique) visited,
          ne-nil_of_sort (visit name unique)
              (ne-nil_of_same unique (visit name unique) keeps some_tool),
          λ k. elem-sort_texts k (visit name unique) ∙ keeps k ∙ same k,
        )

  fill_cons :
      (name : Text) (tools : List Text) (rest ps : Dict (List Text)) {out : Dict (List Text)}
      → fill visit ((name, tools) ∷ rest) ps ≡ ok out
      → (found : List Text) × (providers_of visit name tools ≡ ok found)
        × (fill visit rest (put name found ps) ≡ ok out)
  unfolding fill
  fill_cons name tools rest ps h = >>=-eq-ok (providers_of visit name tools) _ h

  pub fill-lookup-none :
      (k : Text) (defs ps : Dict (List Text)) {out : Dict (List Text)}
      → lookup k defs ≡ none
      → fill visit defs ps ≡ ok out
      → lookup k out ≡ lookup k ps
  unfolding lookup
  fill-lookup-none k [] ps missing h = unfold fill in ap (lookup k) (sym (ok-injective h))
  fill-lookup-none k ((name, tools) ∷ rest) ps missing h =
      let (found, p, f) = fill_cons name tools rest ps h in
      ground (
        arith,
        fill-lookup-none k rest (put name found ps) (ground arith) f,
        lookup-put name k found ps,
      )

  pub fill-lookup-some :
      (k : Text) (defs ps : Dict (List Text)) {out : Dict (List Text)} {tools : List Text}
      → IsDistinct (keys defs)
      → lookup k defs ≡ some tools
      → fill visit defs ps ≡ ok out
      → (found : List Text) × (providers_of visit k tools ≡ ok found) × (lookup k out ≡ some found)
  unfolding lookup
  fill-lookup-some k [] ps d here h = cc
  fill-lookup-some k ((name, tools) ∷ rest) ps {out} {tools = given} d here h =
      let (found, p, f) = fill_cons name tools rest ps h in
      elim (Bool-cases (name == k)) [
        | inl e ↦ (
          found,
          subst₂ (λ n t. providers_of visit n t ≡ ok found) ((==_iff name k).0 e) (ground arith) p,
          ground (
            arith,
            fill-lookup-none k rest (put name found ps) {out = out}
                (lookup-not_elem k rest (ground (arith, ==_iff name k))) f,
            lookup-put name k found ps,
          ),
        )
        | inr e ↦ fill-lookup-some k rest (put name found ps) d.1 (ground arith) f
      ]

-- What `Resolve` gives for a name of a registry built from a map: not found if the map lacks the name,
-- or else its trimmed tool names, sorted, each once and at least one.
abbrev pub Resolves : Dict (List Text) → Registry → Text → Type 0
Resolves defs r name =
    ((lookup name defs ≡ none) × (resolve r name ≡ err (not_found name)))
    ⊎ ((tools out : List Text) × (lookup name defs ≡ some tools)
        × (resolve r name ≡ ok out)
        × IsSorted text_ltb out
        × IsDistinct out
        × (out ≢ [])
        × ((k : Text) → elem k out ≡ elem k (trimmed tools)))

-- In a registry that `NewRegistry` built from a map with distinct keys, in whatever order its sets are visited, a
-- capability of the map resolves to its trimmed tool names, sorted, each once and at least one; any other name
-- is not found.
pub resolve-new_registry :
    (visit : Text → List Text → List Text) (defs : Dict (List Text)) (r : Registry) (name : Text)
    → IsVisit visit
    → IsDistinct (keys defs)
    → new_registry visit defs ≡ ok r
    → Resolves defs r name
unfolding resolve new_registry
resolve-new_registry visit defs r name documented d h =
    let (ps, f, e) = >>=-eq-ok (fill visit defs []) _ h in
    elim (Option-cases (lookup name defs)) [
      | inl missing ↦
          inl (
            missing,
            unfold lookup in ground (arith, fill-lookup-none visit name defs [] missing f),
          )
      | inr (tools, here) ↦
          (let (out, p, l) = fill-lookup-some visit name defs [] d here f in
            let (sorted, distinct, some_tool, same) =
              providers_of_lem visit documented name tools p in
            inr (tools, out, here, ground arith, sorted, distinct, some_tool, same))
    ]
