-- ===== src/Project/Load.antt =====
-- project/loader.go: `Load`, `loadPlugins` and `loadSkills`.
pub mod Entries
pub mod Plugins
pub mod Skills
pub mod Laws
use hot_take.Base.{
  eqb, length, Outcome, ok, ◌>>=◌, ◌>>◌, reject_if, map_err, Text, codes, ◌==◌, true, false, not,
  List, [], ◌∷◌, ◌++◌,
}
use hot_take.Base.Strings.{trim_space, is_blank}
use hot_take.Base.Dict.{elem}
use hot_take.Base.Int.{ℤ}
use hot_take.Skill
use hot_take.Skill.{Skill}
use hot_take.Project
use hot_take.Project.{Provider, Plugin, Manifest, valid_id, validate_manifest, validate_plugin}
use hot_take.Project.Files.{
  SkillManifest, Entry, Platform, PathError, FileError, resolve_within, read_project_file,
  read_json,
}

pub record Definition : Type 0 where
  pub name : Text
  pub instructions : Text
  pub max_steps : ℤ
  pub provider : Provider
  pub skills : Skill.Registry
  pub plugins : List Plugin

pub data Error (E : Type 0) : Type 0 where
  root_failed root_links_failed skills_directory_failed plugins_directory_failed : E → Error E
  manifest_path instructions_path skills_path plugins_path : PathError E → Error E
  manifest_failed instructions_failed : FileError E → Error E
  invalid : Project.Error → Error E
  instructions_empty no_skills : Error E
  bad_skills : Skill.Error → Error E
  bad_directory duplicate_plugin : Text → Error E
  entry_path : Text → PathError E → Error E
  entry_failed : Text → FileError E → Error E
  name_differs : Text → Text → Error E

abbrev pub skill_of : SkillManifest → Text → Skill
skill_of m instructions = record {
  name = m.name;
  description = m.description;
  instructions = trim_space instructions;
  examples = m.examples;
  required_capabilities = m.required_capabilities;
}

module _ {E : Type 0} (platform : Platform E) where
  -- The file of a directory entry: `resolveWithin` twice, and `readJSON`.
  unfoldable pub read_entry :
      {A : Type 0}
      → (Text → Outcome E (A × Text))
      → Text
      → Text
      → Text
      → Outcome (Error E) (Text × A)
  unfolding resolve_within read_json valid_id
  read_entry decode file directory name = do
    reject_if (not (valid_id name)) (bad_directory name)
    own ← map_err (entry_path name) (resolve_within platform directory name)
    path ← map_err (entry_path name) (resolve_within platform own file)
    found ← map_err (entry_failed name) (read_json platform decode path)
    ok (own, found)

  -- The body of the loop of `loadPlugins` up to the check of the names seen.
  unfoldable pub load_plugin : Text → Text → Outcome (Error E) Plugin
  unfolding read_entry validate_plugin ◌==◌
  load_plugin directory name = do
    found ← read_entry platform.decode_plugin (codes "plugin.json") directory name
    reject_if (not ((found.1).name == name)) (name_differs name (found.1).name)
    map_err invalid (validate_plugin found.1)
    ok found.1

  -- The loop of `loadPlugins`; `plugins` has the names of `seen`.
  unfoldable pub add_plugins :
      Text → List Entry → List Text → List Plugin → Outcome (Error E) (List Plugin)
  unfolding load_plugin elem
  add_plugins directory [] seen plugins = ok plugins
  add_plugins directory (e ∷ entries) seen plugins = elim e.is_dir [
    | false ↦ add_plugins directory entries seen plugins
    | true ↦ load_plugin directory e.name >>= λ plugin.
        reject_if (elem plugin.name seen) (duplicate_plugin plugin.name)
        >> add_plugins directory entries (seen ++ plugin.name ∷ []) (plugins ++ plugin ∷ [])
  ]

  -- `loadPlugins`
  unfoldable pub load_plugins : Text → Text → Outcome (Error E) (List Plugin)
  unfolding add_plugins resolve_within is_blank
  load_plugins root relative = elim (is_blank relative) [
    | true ↦ ok []
    | false ↦ do
      directory ← map_err plugins_path (resolve_within platform root relative)
      entries ← map_err plugins_directory_failed (platform.read_dir directory)
      add_plugins directory entries [] []
  ]

  -- The body of the loop of `loadSkills`
  unfoldable pub load_skill : Text → Text → Outcome (Error E) Skill
  unfolding read_entry resolve_within read_project_file ◌==◌
  load_skill directory name = do
    found ← read_entry platform.decode_skill (codes "skill.json") directory name
    reject_if (not ((found.1).name == name)) (name_differs name (found.1).name)
    path ← map_err (entry_path name) (resolve_within platform found.0 (found.1).instructions)
    instructions ← map_err (entry_failed name) (read_project_file platform path)
    ok (skill_of found.1 instructions)

  -- The loop of `loadSkills`
  unfoldable pub add_skills : Text → List Entry → List Skill → Outcome (Error E) (List Skill)
  unfolding load_skill
  add_skills directory [] loaded = ok loaded
  add_skills directory (e ∷ entries) loaded = elim e.is_dir [
    | false ↦ add_skills directory entries loaded
    | true ↦
        load_skill directory e.name >>= λ skill. add_skills directory entries (loaded ++ skill ∷ [])
  ]

  -- `loadSkills`
  unfoldable pub load_skills : Text → Outcome (Error E) (List Skill)
  unfolding add_skills
  load_skills directory = do
    entries ← map_err skills_directory_failed (platform.read_dir directory)
    loaded ← add_skills directory entries []
    reject_if (eqb (length loaded) 0) no_skills
    ok loaded

  -- The parts of `Load` below the root: the manifest, the instructions and the skills.
  unfoldable pub load_manifest : Text → Outcome (Error E) Manifest
  unfolding resolve_within read_json validate_manifest
  load_manifest root = do
    path ← map_err manifest_path (resolve_within platform root (codes "agent.json"))
    manifest ← map_err manifest_failed (read_json platform platform.decode_manifest path)
    map_err invalid (validate_manifest manifest)
    ok manifest

  unfoldable pub load_instructions : Text → Text → Outcome (Error E) Text
  unfolding resolve_within read_project_file is_blank
  load_instructions root relative = do
    path ← map_err instructions_path (resolve_within platform root relative)
    instructions ← map_err instructions_failed (read_project_file platform path)
    reject_if (is_blank instructions) instructions_empty
    ok instructions

  unfoldable pub load_registry : Text → Manifest → Outcome (Error E) Skill.Registry
  unfolding resolve_within load_skills Skill.new_registry
  load_registry root manifest = do
    directory ← map_err skills_path (resolve_within platform root manifest.skills_directory)
    skills ← load_skills directory
    map_err bad_skills (Skill.new_registry manifest.default_skill skills)

  unfoldable pub load_root : Text → Outcome (Error E) Text
  unfolding trim_space
  load_root directory = do
    absolute ← map_err root_failed (platform.abs (trim_space directory))
    map_err root_links_failed (platform.eval_symlinks absolute)

  -- `Load`
  unfoldable pub load : Text → Outcome (Error E) Definition
  unfolding trim_space load_root load_manifest load_instructions load_registry load_plugins
  load directory = do
    root ← load_root directory
    manifest ← load_manifest root
    instructions ← load_instructions root manifest.instructions
    skills ← load_registry root manifest
    plugins ← load_plugins root manifest.plugins_directory
    ok (record {
      name = manifest.name;
      instructions = trim_space instructions;
      max_steps = manifest.max_steps;
      provider = manifest.provider;
      skills = skills;
      plugins = plugins;
    })
