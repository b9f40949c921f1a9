-- ===== src/Tool/Registry/Listing.antt =====
-- What `Definitions` of tool/registry.go returns.
use hot_take.Base.{
  Bool-cases, Option-cases, All, All-append, ok, >>=-eq-ok, Text, ==_iff, ==_refl, ◌≡◌, refl, sym,
  ap, ◌∙◌, subst, ◌⊎◌, inl, inr, true, false, ◌||◌, some, List, [], ◌∷◌, ◌++◌, map, arith,
  ok-injective,
}
use hot_take.Base.Sort.{sort, IsSorted, All-sort, sort-IsSorted}
use hot_take.Base.Dict.{lookup, elem, elem-append, IsDistinct, IsDistinct-concat}
use hot_take.Base.SortByKey.{by_key-IsStrictOrder, elem-sort, IsDistinct-sort}
use hot_take.Tool.{Definition, Tool}
use hot_take.Tool.Registry.{Registry, by_name, collect, definitions}

-- The names of a list of definitions.
abbrev pub names_of : List Definition → List Text
names_of = map (λ d. d.name)

names_of-append : (xs ys : List Definition) → names_of (xs ++ ys) ≡ names_of xs ++ names_of ys
names_of-append [] ys = refl
names_of-append (x ∷ xs) ys = ap (λ l. x.name ∷ l) (names_of-append xs ys)

module _ {W E : Type 0} (r : Registry W E) where
  -- A definition is that of the tool which the registry holds under its name.
  abbrev pub IsRegistered : Definition → Type 0
  IsRegistered d = (t : Tool W E) × (lookup d.name r.tools ≡ some t) × (t.definition ≡ d)

  -- The tools of a registry stand under their names.
  abbrev pub IsKeyed : Type 0
  IsKeyed = (key : Text) (t : Tool W E) → lookup key r.tools ≡ some t → t.definition.name ≡ key

  -- Definitions sorted by name, each name once, exactly these names, all registered.
  abbrev pub IsListing : List Text → List Definition → Type 0
  IsListing names out =
      IsSorted by_name out
      × IsDistinct (names_of out)
      × ((k : Text) → elem k (names_of out) ≡ elem k names)
      × All IsRegistered out

  collect_cons :
      (name : Text) (names : List Text) (ds : List Definition) (seen : List Text)
      {out : List Definition}
      → collect r (name ∷ names) ds seen ≡ ok out
      → ((elem name seen ≡ true) × (collect r names ds seen ≡ ok out))
        ⊎ ((t : Tool W E) × (elem name seen ≡ false)
            × (lookup name r.tools ≡ some t)
            × (collect r names (ds ++ t.definition ∷ []) (name ∷ seen) ≡ ok out))
  unfolding collect
  collect_cons name names ds seen h = elim (Bool-cases (elem name seen)) [
    | inl e ↦ inl (e, ground arith)
    | inr e ↦ elim (Option-cases (lookup name r.tools)) [
      | inl missing ↦ absurd (ground arith)
      | inr (t, found) ↦ inr (t, e, found, ground arith)
    ]
  ]

  module _ (keyed : IsKeyed) where
    -- What holds of `definitions` in the loop: it has the names of `seen`, each once, all registered.
    record Invariant (ds : List Definition) (seen : List Text) : Type 0 where
      same : (k : Text) → elem k (names_of ds) ≡ elem k seen
      distinct : IsDistinct (names_of ds)
      registered : All IsRegistered ds

    step-Invariant :
        (name : Text) (ds : List Definition) (seen : List Text) (t : Tool W E)
        → Invariant ds seen
        → elem name seen ≡ false
        → lookup name r.tools ≡ some t
        → Invariant (ds ++ t.definition ∷ []) (name ∷ seen)
    unfolding elem
    step-Invariant name ds seen t v new found =
        let e : t.definition.name ≡ name = keyed name t found in
        record {
          same = λ k.
              rw (names_of-append ds (t.definition ∷ []))
                (ground (arith, e, elem-append k (names_of ds) (t.definition.name ∷ []), v.same k));
          distinct = rw (names_of-append ds (t.definition ∷ [])) (
              IsDistinct-concat t.definition.name (names_of ds) v.distinct
                (rw e (ground (arith, v.same name))));
          registered =
              All-append IsRegistered ds (t.definition ∷ []) v.registered
                ((t, subst (λ n. lookup n r.tools ≡ some t) (sym e) found, refl), tt);
        }

    collect-Invariant :
        (names : List Text) (ds : List Definition) (seen : List Text) (out : List Definition)
        → Invariant ds seen
        → collect r names ds seen ≡ ok out
        → (later : List Text) × Invariant out later
          × ((k : Text) → elem k later ≡ (elem k seen || elem k names))
    unfolding collect elem
    collect-Invariant [] ds seen out v h =
        (seen, subst (λ o. Invariant o seen) (ground arith) v, λ k. ground arith)
    collect-Invariant (name ∷ names) ds seen out v h = elim (collect_cons name names ds seen h) [
      | inl (old, rest) ↦
          (let (later, w, e) = collect-Invariant names ds seen out v rest in
            (later, w, λ k. ground (arith, e k, ==_iff name k)))
      | inr (t, new, found, rest) ↦
          (let (later, w, e) =
              collect-Invariant names (ds ++ t.definition ∷ []) (name ∷ seen) out
                (step-Invariant name ds seen t v new found) rest in
            (later, w, λ k. ground (arith, e k)))
    ]

    -- In a registry whose tools stand under their names, a successful `Definitions` returns
    -- definitions sorted by name, each name once, exactly the names asked for, and each the definition
    -- of the tool registered under its name.
    pub definitions_lem :
        (names : List Text) (out : List Definition)
        → definitions r names ≡ ok out
        → IsListing names out
    unfolding definitions elem
    definitions_lem names out h =
        let (found, c, e) = >>=-eq-ok (collect r names [] []) _ h in
        let (later, v, same) =
          collect-Invariant names [] [] found
            (record { same = λ k. refl; distinct = tt; registered = tt }) c in
        subst (IsListing names) (ok-injective e) (
          sort-IsSorted by_name (by_key-IsStrictOrder (λ (d : Definition). d.name)) found,
          IsDistinct-sort (λ (d : Definition). d.name) found v.distinct,
          λ k. elem-sort (λ (d : Definition). d.name) k found ∙ v.same k ∙ same k,
          All-sort by_name IsRegistered found v.registered,
        )

  collect_total :
      (names : List Text) (ds : List Definition) (seen : List Text)
      → ((k : Text) → elem k names ≡ true → (t : Tool W E) × (lookup k r.tools ≡ some t))
      → (out : List Definition) × (collect r names ds seen ≡ ok out)
  unfolding collect elem
  collect_total [] ds seen h = (ds, refl)
  collect_total (name ∷ names) ds seen h =
      let (t, found) = h name (ground (arith, ==_refl name)) in
      elim (Bool-cases (elem name seen)) [
        | inl e ↦
            (let (out, done) = collect_total names ds seen (λ k m. h k (ground arith)) in
              (out, ground arith))
        | inr e ↦
            (let (out, done) =
                collect_total names (ds ++ t.definition ∷ []) (name ∷ seen)
                  (λ k m. h k (ground arith)) in
              (out, ground arith))
      ]

  -- If every name asked for is registered then `Definitions` succeeds.
  pub definitions_total :
      (names : List Text)
      → ((k : Text) → elem k names ≡ true → (t : Tool W E) × (lookup k r.tools ≡ some t))
      → (out : List Definition) × (definitions r names ≡ ok out)
  unfolding definitions elem
  definitions_total names h =
      let (found, c) = collect_total names [] [] h in (sort by_name found, ground arith)
