-- ===== src/Project/Files.antt =====
-- project/loader.go: `resolveWithin`, `readProjectFile` and `readJSON`. The file system, encoding/json and
-- path/filepath are parameters, and the files do not change while a project is loaded.
pub mod Laws
use hot_take.Base.{
  ltb, length, Outcome, ok, err, ◌>>=◌, ◌>>◌, reject_if, map_err, Text, codes, ◌==◌, ℕ, ◌+◌, Bool,
  ◌||◌, List, [], ◌∷◌, ◌++◌,
}
use hot_take.Base.Strings.{is_blank, has_prefix}
use hot_take.Json.{Decoded, end_of_input, failed, value}
use hot_take.Http.{Body, read_limited, close_result}
use hot_take.Project.{Plugin, Manifest}

abbrev pub max_project_file_size : ℕ
max_project_file_size = 1048576

pub record SkillManifest : Type 0 where
  pub name : Text
  pub description : Text
  pub instructions : Text
  pub examples : List Text
  pub required_capabilities : List Text

-- os.DirEntry
pub record Entry : Type 0 where
  pub name : Text
  pub is_dir : Bool

-- What the loader takes from os and path/filepath, and the decoders of encoding/json that refuse unknown
-- fields; a decoder returns the input behind the value. `any` is the second call of `Decode`.
pub record Platform (E : Type 0) : Type 0 where
  pub separator : ℕ
  pub abs : Text → Outcome E Text
  pub eval_symlinks : Text → Outcome E Text
  pub is_abs : Text → Bool
  pub clean : Text → Text
  pub join_path : Text → Text → Text
  pub rel : Text → Text → Outcome E Text
  pub read_dir : Text → Outcome E (List Entry)
  pub open_file : Text → Outcome E (Body E)
  pub decode_manifest : Text → Outcome E (Manifest × Text)
  pub decode_plugin : Text → Outcome E (Plugin × Text)
  pub decode_skill : Text → Outcome E (SkillManifest × Text)
  pub any : Text → Decoded

pub data PathError (E : Type 0) : Type 0 where
  path_escape : Text → PathError E
  links_failed rel_failed : E → PathError E

pub data FileError (E : Type 0) : Type 0 where
  open_failed read_failed close_failed decode_failed : E → FileError E
  too_large multiple_values trailing_data : FileError E

-- The end of the input behind a value, or an error.
abbrev pub check_end : {E : Type 0} → Decoded → Outcome (FileError E) (Unit {0})
check_end end_of_input = ok tt
check_end failed = err trailing_data
check_end (value v rest) = err multiple_values

-- The test of `resolveWithin` on a relative path, with filepath.Separator
unfoldable pub escapes : ℕ → Text → Bool
unfolding has_prefix ◌==◌
escapes separator path = path == codes ".." || has_prefix path (codes ".." ++ separator ∷ [])

module _ {E : Type 0} (platform : Platform E) where
  -- `resolveWithin`
  unfoldable pub resolve_within : Text → Text → Outcome (PathError E) Text
  unfolding is_blank escapes
  resolve_within root relative = do
    reject_if (is_blank relative || platform.is_abs relative) (path_escape relative)
    resolved ←
        map_err links_failed
          (platform.eval_symlinks (platform.join_path root (platform.clean relative)))
    relative_to_root ← map_err rel_failed (platform.rel root resolved)
    reject_if (escapes platform.separator relative_to_root) (path_escape relative)
    ok resolved

  -- `readProjectFile`
  unfoldable pub read_project_file : Text → Outcome (FileError E) Text
  unfolding read_limited
  read_project_file path = do
    file ← map_err open_failed (platform.open_file path)
    payload ← map_err read_failed (read_limited (max_project_file_size + 1) file)
    map_err close_failed (close_result file.close_error)
    reject_if (ltb max_project_file_size (length payload)) too_large
    ok payload

  -- `readJSON`, with the decoder of its destination
  unfoldable pub read_json :
      {A : Type 0} → (Text → Outcome E (A × Text)) → Text → Outcome (FileError E) A
  unfolding read_project_file
  read_json decode path = do
    payload ← read_project_file path
    found ← map_err decode_failed (decode payload)
    check_end (platform.any found.1)
    ok found.0
