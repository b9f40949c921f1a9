-- ===== src/Project/Load/Laws.antt =====
-- What `Load` returns: validated data, all of it from files below the root of the project.
use hot_take.Base.{
  All, ok, reject_if, >>=-eq-ok, map_err, reject_if-eq-ok, Text, codes, ◌≡◌, refl, subst, false,
  List, ok-injective, map_err-eq-ok,
}
use hot_take.Base.Strings.{trim_space, is_blank}
use hot_take.Base.Dict.{IsDistinct}
use hot_take.Skill
use hot_take.Skill.{Skill}
use hot_take.Project.{Manifest, validate_manifest}
use hot_take.Project.Files.{Platform, resolve_within, read_project_file, read_json}
use hot_take.Project.Files.Laws.{IsResolved, IsFilepath, resolve_within-IsWithin}
use hot_take.Project.Load.{
  Definition, root_failed, root_links_failed, manifest_path, manifest_failed, invalid,
  instructions_path, instructions_failed, instructions_empty, skills_path, bad_skills, load_skills,
  load_plugins, load_root, load_manifest, load_instructions, load_registry, load,
}
use hot_take.Project.Load.Entries.{IsReadFrom, IsTextFrom}
use hot_take.Project.Load.Plugins.{names_of, IsPlugin, load_plugins-IsPlugin}
use hot_take.Project.Load.Skills.{IsSkill, load_skills-IsSkill}

module _ {E : Type 0} (platform : Platform E) where
  -- A project loaded from below a root: its manifest is valid, its instructions are those that the manifest names,
  -- trimmed and not blank, its skills make up the registry with the manifest's default, and its plugins have
  -- distinct names.
  abbrev pub IsLoadedFrom : Text → Definition → Type 0
  IsLoadedFrom root d =
      (m : Manifest) × (text : Text) × (skills : List Skill) × IsReadFrom platform root
        platform.decode_manifest m
      × (validate_manifest m ≡ ok tt)
      × (d.name ≡ m.name)
      × (d.max_steps ≡ m.max_steps)
      × (d.provider ≡ m.provider)
      × IsTextFrom platform root text
      × (is_blank text ≡ false)
      × (d.instructions ≡ trim_space text)
      × All (IsSkill platform root) skills
      × (Skill.new_registry m.default_skill skills ≡ ok d.skills)
      × IsDistinct (names_of d.plugins)
      × All (IsPlugin platform root) d.plugins

  -- The root that a directory resolves to
  abbrev pub IsRoot : Text → Text → Type 0
  IsRoot directory root =
      (absolute : Text) × (platform.abs (trim_space directory) ≡ ok absolute)
      × (platform.eval_symlinks absolute ≡ ok root)

  load_root-IsRoot :
      (directory root : Text)
      → IsFilepath platform
      → load_root platform directory ≡ ok root
      → IsRoot directory root × IsResolved platform root
  unfolding load_root
  load_root-IsRoot directory root (abs_of, _, resolves, _) h =
      let (absolute, a, h) =
        >>=-eq-ok (map_err root_failed (platform.abs (trim_space directory))) _ h in
      let a' = map_err-eq-ok root_failed _ a in
      let e = map_err-eq-ok root_links_failed _ h in
      ((absolute, a', e), resolves absolute root (abs_of (trim_space directory) absolute a') e)

module _ {E : Type 0} (platform : Platform E) (documented : IsFilepath platform) (root : Text)
    (resolved : IsResolved platform root) where
  load_manifest-eq-ok :
      (m : Manifest)
      → load_manifest platform root ≡ ok m
      → IsReadFrom platform root platform.decode_manifest m × (validate_manifest m ≡ ok tt)
  unfolding load_manifest
  load_manifest-eq-ok m h =
      let (path, p, h) =
        >>=-eq-ok (map_err manifest_path (resolve_within platform root (codes "agent.json"))) _ h in
      let (m', read, h) =
        >>=-eq-ok (map_err manifest_failed (read_json platform platform.decode_manifest path)) _
          h in
      let (_, valid, h) = >>=-eq-ok (map_err invalid (validate_manifest m')) _ h in
      let (_, _, w) =
        resolve_within-IsWithin platform root (codes "agent.json") path documented resolved
          (map_err-eq-ok manifest_path _ p) in
      subst
        (λ (n : Manifest).
          IsReadFrom platform root platform.decode_manifest n × (validate_manifest n ≡ ok tt))
        (ok-injective h)
        ((path, w, map_err-eq-ok manifest_failed _ read), map_err-eq-ok invalid _ valid)

  load_instructions-eq-ok :
      (relative text : Text)
      → load_instructions platform root relative ≡ ok text
      → IsTextFrom platform root text × (is_blank text ≡ false)
  unfolding load_instructions
  load_instructions-eq-ok relative text h =
      let (path, p, h) =
        >>=-eq-ok (map_err instructions_path (resolve_within platform root relative)) _ h in
      let (text', t, h) =
        >>=-eq-ok (map_err instructions_failed (read_project_file platform path)) _ h in
      let (_, given, h) = >>=-eq-ok (reject_if (is_blank text') instructions_empty) _ h in
      let (_, _, w) =
        resolve_within-IsWithin platform root relative path documented resolved
          (map_err-eq-ok instructions_path _ p) in
      subst (λ s. IsTextFrom platform root s × (is_blank s ≡ false)) (ok-injective h)
        ((path, w, map_err-eq-ok instructions_failed _ t), reject_if-eq-ok _ _ given)

  load_registry-eq-ok :
      (m : Manifest) (registry : Skill.Registry)
      → load_registry platform root m ≡ ok registry
      → (skills : List Skill) × All (IsSkill platform root) skills
        × (Skill.new_registry m.default_skill skills ≡ ok registry)
  unfolding load_registry
  load_registry-eq-ok m registry h =
      let (directory, p, h) =
        >>=-eq-ok (map_err skills_path (resolve_within platform root m.skills_directory)) _ h in
      let (skills, s, h) = >>=-eq-ok (load_skills platform directory) _ h in
      let (_, r, w) =
        resolve_within-IsWithin platform root m.skills_directory directory documented resolved
          (map_err-eq-ok skills_path _ p) in
      (
        skills,
        load_skills-IsSkill platform documented root directory skills r w s,
        map_err-eq-ok bad_skills _ h,
      )

module _ {E : Type 0} (platform : Platform E) where
  -- A project that `Load` returns comes from one root, the directory given with its symbolic links resolved. Its
  -- manifest, its instructions, and the manifests of its skills and plugins and the skills' instructions are
  -- all read from files below this root, wherever symbolic links lead. The manifest and the plugins are
  -- valid, the instructions are not blank, the skills form a registry with the default skill, and the plugins'
  -- names are distinct. It is assumed that path/filepath is as documented.
  pub load-eq-ok :
      (directory : Text) (d : Definition)
      → IsFilepath platform
      → load platform directory ≡ ok d
      → (root : Text) × IsRoot platform directory root × IsLoadedFrom platform root d
  unfolding load
  load-eq-ok directory d documented h =
      let (root, at, h) = >>=-eq-ok (load_root platform directory) _ h in
      let (m, read, h) = >>=-eq-ok (load_manifest platform root) _ h in
      let (text, t, h) = >>=-eq-ok (load_instructions platform root m.instructions) _ h in
      let (registry, g, h) = >>=-eq-ok (load_registry platform root m) _ h in
      let (plugins, pl, h) = >>=-eq-ok (load_plugins platform root m.plugins_directory) _ h in
      let (is_root, r) = load_root-IsRoot platform directory root documented at in
      let (from, valid) = load_manifest-eq-ok platform documented root r m read in
      let (text_from, given) =
        load_instructions-eq-ok platform documented root r m.instructions text t in
      let (skills, all_skills, registered) =
        load_registry-eq-ok platform documented root r m registry g in
      let (distinct, all_plugins) =
        load_plugins-IsPlugin platform documented root m.plugins_directory plugins r pl in
      (
        root,
        is_root,
        subst (IsLoadedFrom platform root) (ok-injective h) (
          m, text, skills, from, valid, refl, refl, refl, text_from, given, refl, all_skills,
          registered, distinct, all_plugins,
        ),
      )
