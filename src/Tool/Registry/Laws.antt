-- ===== src/Tool/Registry/Laws.antt =====
-- What the tool registry keeps, and what `Definitions` returns.
use hot_take.Base.{
  if◌then◌else◌, Bool-cases, ok, Text, ◌==◌, ==_iff, ◌≡◌, refl, ◌≢◌, ◌⊎◌, inl, inr, Bool, true,
  false, none, some, arith,
}
use hot_take.Base.Strings.{is_blank}
use hot_take.Base.Dict.{lookup, put, lookup-put}
use mathlib.Core.Path.{subst₂}
use hot_take.Tool.{Tool}
use hot_take.Tool.Registry.{Registry, get, register}

module _ (json_valid : Text → Bool) {W E : Type 0} where
  -- What `Register` has checked of every stored tool, under the key of the map.
  pub record IsChecked (key : Text) (t : Tool W E) : Type 0 where
    pub named : t.definition.name ≡ key
    pub name_given : is_blank t.definition.name ≡ false
    pub description_given : is_blank t.definition.description ≡ false
    pub schema : json_valid t.definition.input_schema ≡ true

  pub record IsValid (r : Registry W E) : Type 0 where
    pub checked : (key : Text) (t : Tool W E) → lookup key r.tools ≡ some t → IsChecked key t

  -- A success of `Register`: the checks passed, the name is new, and the map has the tool under it.
  pub register-eq-ok :
      (r r' : Registry W E) (t : Tool W E)
      → register json_valid r (some t) ≡ ok r'
      → IsChecked t.definition.name t
        × (lookup t.definition.name r.tools ≡ none)
        × (r'.tools ≡ put t.definition.name t r.tools)
  unfolding register
  register-eq-ok r r' t h = (
    record {
      named = refl;
      name_given = ground arith;
      description_given = ground arith;
      schema = ground arith;
    },
    ground arith,
    ground arith,
  )

  -- A registry of checked tools stays one, whatever tool is registered.
  pub register-IsValid :
      (r r' : Registry W E) (t : Tool W E)
      → IsValid r
      → register json_valid r (some t) ≡ ok r'
      → IsValid r'
  register-IsValid r r' t v h = record {
    checked = λ key u found. go key u found (Bool-cases (t.definition.name == key));
  }
    where
      added :
          IsChecked t.definition.name t
          × (lookup t.definition.name r.tools ≡ none)
          × (r'.tools ≡ put t.definition.name t r.tools)
      added = register-eq-ok r r' t h

      go :
          (key : Text) (u : Tool W E)
          → lookup key r'.tools ≡ some u
          → ((t.definition.name == key) ≡ true) ⊎ ((t.definition.name == key) ≡ false)
          → IsChecked key u
      go key u found (inl same) =
          let e : t ≡ u = ground (arith, added.2, lookup-put t.definition.name key t r.tools) in
          subst₂ IsChecked ((==_iff _ key).0 same) e added.0
      go key u found (inr other) =
          v.checked key u (ground (arith, added.2, lookup-put t.definition.name key t r.tools))

  -- Behind a registration that succeeds the new tool is found under its name, and every other name finds
  -- what it found before.
  pub get-register :
      (r r' : Registry W E) (t : Tool W E) (key : Text)
      → register json_valid r (some t) ≡ ok r'
      → get r' key ≡ (if t.definition.name == key then ok t else get r key)
  unfolding get
  get-register r r' t key h =
      let (c, fresh, e) = register-eq-ok r r' t h in
      ground (arith, e, lookup-put t.definition.name key t r.tools)

  -- Behind a registration that succeeds, no tool of the same name can be registered.
  pub register_twice :
      (r r' : Registry W E) (t u : Tool W E)
      → register json_valid r (some t) ≡ ok r'
      → u.definition.name ≡ t.definition.name
      → (r'' : Registry W E) → register json_valid r' (some u) ≢ ok r''
  register_twice r r' t u h same r'' k =
      let (c, fresh, e) = register-eq-ok r r' t h in
      let (c', fresh', e') = register-eq-ok r' r'' u k in
      ground (
        arith,
        e,
        lookup-put t.definition.name u.definition.name t r.tools,
        ==_iff t.definition.name u.definition.name,
      )
