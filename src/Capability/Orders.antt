-- ===== src/Capability/Orders.antt =====
-- capability/registry.go: NewRegistry does not depend on the order in which it visits the map and its sets.
use hot_take.Base.{
  Option-cases, ok, >>=-eq-ok, Text, ==_iff, ◌≡◌, refl, sym, ◌∙◌, inl, inr, false, some, List, [],
  ◌∷◌, arith, ok-injective, Outcome-cases,
}
use hot_take.Base.Order.{text_ltb}
use hot_take.Base.Sort.{sort}
use hot_take.Base.Dict.{Dict, lookup, put, elem, IsDistinct, keys, lookup-not_elem}
use hot_take.Base.SortedTexts.{sort_any_order}
use hot_take.Capability.{Registry, unique_tools, providers_of, fill, new_registry, resolve}
use hot_take.Capability.Laws.{IsVisit, unique_tools_lem, fill-lookup-none, fill-lookup-some}

module _ (visit visit' : Text → List Text → List Text) (documented : IsVisit visit)
    (documented' : IsVisit visit') where
  sort_visits :
      (name : Text) (unique : List Text)
      → IsDistinct unique
      → sort text_ltb (visit name unique) ≡ sort text_ltb (visit' name unique)
  sort_visits name unique d =
      let (l, same) = documented name unique d in
      let (l', same') = documented' name unique d in
      sort_any_order (visit name unique) (visit' name unique) l l' (λ k. same k ∙ sym (same' k))

  providers_of_any_visit :
      (name : Text) (tools : List Text)
      → providers_of visit name tools ≡ providers_of visit' name tools
  unfolding providers_of elem
  providers_of_any_visit name tools = elim (Outcome-cases (unique_tools name tools [])) [
    | inl (unique, f) ↦
        (let (d, _) = unique_tools_lem name tools [] tt f in rw (f, sort_visits name unique d) refl)
    | inr (e, f) ↦ rw f refl
  ]

-- A visit of a map that has providers for each of its capabilities fills the registry.
fill_total :
    (visit : Text → List Text → List Text) (defs ps : Dict (List Text))
    → IsDistinct (keys defs)
    → ((k : Text) (tools : List Text)
        → lookup k defs ≡ some tools
        → (found : List Text) × (providers_of visit k tools ≡ ok found))
    → (out : Dict (List Text)) × (fill visit defs ps ≡ ok out)
unfolding fill
fill_total visit [] ps d h = (ps, refl)
fill_total visit ((name, tools) ∷ rest) ps d h =
    let (found, p) = h name tools (lookup_head name tools rest) in
    let (out, f) =
      fill_total visit rest (put name found ps) d.1
        (λ k given here. h k given (lookup_tail name k tools rest d.0 here)) in
    (out, rw p f)
  where
    lookup_head : (k : Text) (v : List Text) (m : Dict (List Text)) → lookup k ((k, v) ∷ m) ≡ some v
    lookup_head k v m = unfold lookup in ground (arith, ==_iff k k)

    lookup_tail :
        (j k : Text) (v : List Text) (m : Dict (List Text)) {t : List Text}
        → elem j (keys m) ≡ false
        → lookup k m ≡ some t
        → lookup k ((j, v) ∷ m) ≡ some t
    lookup_tail j k v m fresh here =
        unfold lookup in ground (arith, ==_iff j k, lookup-not_elem j m)

-- The order of the visits does not matter: if `NewRegistry` builds a registry from a map with distinct keys,
-- visiting it and its sets in some order, then in any other order it builds one from the same map too, and
-- both resolve every name alike.
pub resolve_any_order :
    (visit visit' : Text → List Text → List Text) (defs defs' : Dict (List Text)) (r : Registry)
    → IsVisit visit
    → IsVisit visit'
    → IsDistinct (keys defs)
    → IsDistinct (keys defs')
    → ((k : Text) → lookup k defs ≡ lookup k defs')
    → new_registry visit defs ≡ ok r
    → (r' : Registry) × (new_registry visit' defs' ≡ ok r')
      × ((name : Text) → resolve r name ≡ resolve r' name)
unfolding resolve new_registry
resolve_any_order visit visit' defs defs' r documented documented' d d' same h =
    let (ps, f, e) = >>=-eq-ok (fill visit defs []) _ h in
    let (ps', f') = fill_total visit' defs' [] d' (λ k tools here.
      let (found, p, _) = fill-lookup-some visit k defs [] d (same k ∙ here) f in
      (found, sym (providers_of_any_visit visit visit' documented documented' k tools) ∙ p)) in
    (
      record { providers = ps' },
      rw f' refl,
      λ name. elim (Option-cases (lookup name defs)) [
        | inl missing ↦
            unfold lookup in
            ground (
              arith,
              fill-lookup-none visit name defs [] missing f,
              fill-lookup-none visit' name defs' [] (sym (same name) ∙ missing) f',
            )
        | inr (tools, here) ↦
            (let (out, p, l) = fill-lookup-some visit name defs [] d here f in
              let (out', p', l') =
                fill-lookup-some visit' name defs' [] d' (sym (same name) ∙ here) f' in
              let alike = ok-injective (
                sym p
                ∙ providers_of_any_visit visit visit' documented documented' name tools
                ∙ p') in
              ground (arith, alike))
      ],
    )
