-- ===== src/Project/Load/Plugins.antt =====
-- The plugins that `loadPlugins` returns.
use hot_take.Base.{
  Bool-cases, All, All-append, ok, reject_if, >>=-eq-ok, map_err, reject_if-eq-ok, Text, codes,
  ◌==◌, ◌≡◌, refl, sym, ap, ◌∙◌, subst, inl, inr, not, List, [], ◌∷◌, ◌++◌, map, ok-injective,
  map_err-eq-ok,
}
use hot_take.Base.Strings.{is_blank}
use hot_take.Base.Dict.{elem, IsDistinct, IsDistinct-concat}
use hot_take.Project.{Plugin, validate_plugin}
use hot_take.Project.Files.{Entry, Platform, resolve_within}
use hot_take.Project.Files.Laws.{IsWithin, IsResolved, IsFilepath, resolve_within-IsWithin}
use hot_take.Project.Load.{
  invalid, name_differs, duplicate_plugin, plugins_path, plugins_directory_failed, read_entry,
  load_plugin, add_plugins, load_plugins,
}
use hot_take.Project.Load.Entries.{IsReadFrom, read_entry-IsWithin}

abbrev pub names_of : List Plugin → List Text
names_of plugins = map (λ p. p.name) plugins

map-append : {A B : Type 0} (f : A → B) (xs ys : List A) → map f (xs ++ ys) ≡ map f xs ++ map f ys
map-append f [] ys = refl
map-append f (x ∷ xs) ys = ap (λ l. f x ∷ l) (map-append f xs ys)

module _ {E : Type 0} (platform : Platform E) where
  -- A plugin from a file below the root, which the loader validated.
  abbrev pub IsPlugin : Text → Plugin → Type 0
  IsPlugin root p = IsReadFrom platform root platform.decode_plugin p × (validate_plugin p ≡ ok tt)

module _ {E : Type 0} (platform : Platform E) (documented : IsFilepath platform) where
  load_plugin-IsPlugin :
      (root directory name : Text) (p : Plugin)
      → IsResolved platform directory
      → IsWithin platform.separator root directory
      → load_plugin platform directory name ≡ ok p
      → IsPlugin platform root p
  unfolding load_plugin
  load_plugin-IsPlugin root directory name p r w h =
      let (found, f, h) =
        >>=-eq-ok (read_entry platform platform.decode_plugin (codes "plugin.json") directory name)
          _ h in
      let (_, _, _, from) =
        read_entry-IsWithin platform documented platform.decode_plugin (codes "plugin.json") root
          directory name found r w f in
      let (_, _, h) =
        >>=-eq-ok (reject_if (not ((found.1).name == name)) (name_differs name (found.1).name)) _
          h in
      let (_, valid, h) = >>=-eq-ok (map_err invalid (validate_plugin found.1)) _ h in
      subst (IsPlugin platform root) (ok-injective h) (from, map_err-eq-ok invalid _ valid)

  add_plugins-IsPlugin :
      (root directory : Text) (entries : List Entry) (seen : List Text) (plugins out : List Plugin)
      → IsResolved platform directory
      → IsWithin platform.separator root directory
      → seen ≡ names_of plugins
      → IsDistinct seen
      → All (IsPlugin platform root) plugins
      → add_plugins platform directory entries seen plugins ≡ ok out
      → IsDistinct (names_of out) × All (IsPlugin platform root) out
  unfolding add_plugins
  add_plugins-IsPlugin root directory [] seen plugins out r w s d a h =
      subst (λ o. IsDistinct (names_of o) × All (IsPlugin platform root) o) (ok-injective h)
        (subst IsDistinct s d, a)
  add_plugins-IsPlugin root directory (e ∷ entries) seen plugins out r w s d a h =
      elim (Bool-cases e.is_dir) [
        | inr f ↦
            add_plugins-IsPlugin root directory entries seen plugins out r w s d a
              (rw (f, add_plugins) at h)
        | inl f ↦
            (let (p, loaded, h) =
                >>=-eq-ok (load_plugin platform directory e.name) _ (rw (f, add_plugins) at h) in
              let (_, new, h) =
                >>=-eq-ok (reject_if (elem p.name seen) (duplicate_plugin p.name)) _ h in
              add_plugins-IsPlugin root directory entries (seen ++ p.name ∷ []) (plugins ++ p ∷ [])
                out r w
                (ap (λ l. l ++ p.name ∷ []) s
                  ∙ sym (map-append (λ (q : Plugin). q.name) plugins (p ∷ [])))
                (IsDistinct-concat p.name seen d (reject_if-eq-ok _ _ new))
                (All-append (IsPlugin platform root) plugins (p ∷ []) a
                  (load_plugin-IsPlugin root directory e.name p r w loaded, tt))
                h)
      ]

  pub load_plugins-IsPlugin :
      (root relative : Text) (out : List Plugin)
      → IsResolved platform root
      → load_plugins platform root relative ≡ ok out
      → IsDistinct (names_of out) × All (IsPlugin platform root) out
  unfolding load_plugins
  load_plugins-IsPlugin root relative out r h = elim (Bool-cases (is_blank relative)) [
    | inl e ↦
        subst (λ o. IsDistinct (names_of o) × All (IsPlugin platform root) o)
          (ok-injective (rw (e, load_plugins) at h)) (tt, tt)
    | inr e ↦
        (let (directory, d, h) =
            >>=-eq-ok (map_err plugins_path (resolve_within platform root relative)) _
              (rw (e, load_plugins) at h) in
          let (entries, _, h) =
            >>=-eq-ok (map_err plugins_directory_failed (platform.read_dir directory)) _ h in
          let (_, r', w) =
            resolve_within-IsWithin platform root relative directory documented r
              (map_err-eq-ok plugins_path _ d) in
          add_plugins-IsPlugin root directory entries [] [] out r' w refl tt tt h)
  ]
