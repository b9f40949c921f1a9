-- ===== src/Project/Load/Entries.antt =====
-- What is read for an entry of a directory lies below the root of the project.
use hot_take.Base.{
  Outcome, ok, reject_if, >>=-eq-ok, map_err, Text, ◌≡◌, subst, true, not, arith, ok-injective,
  map_err-eq-ok,
}
use hot_take.Project.{valid_id}
use hot_take.Project.Files.{Platform, resolve_within, read_project_file, read_json}
use hot_take.Project.Files.Laws.{
  IsWithin, IsWithin-trans, IsResolved, IsFilepath, resolve_within-IsWithin,
}
use hot_take.Project.Load.{entry_path, entry_failed, read_entry}

module _ {E : Type 0} (platform : Platform E) where
  -- A value read from a JSON file below the root.
  abbrev pub IsReadFrom : {A : Type 0} → Text → (Text → Outcome E (A × Text)) → A → Type 0
  IsReadFrom root decode a =
      (path : Text) × IsWithin platform.separator root path
      × (read_json platform decode path ≡ ok a)

  -- A text read from a file below the root.
  abbrev pub IsTextFrom : Text → Text → Type 0
  IsTextFrom root text =
      (path : Text) × IsWithin platform.separator root path
      × (read_project_file platform path ≡ ok text)

module _ {E : Type 0} (platform : Platform E) (documented : IsFilepath platform) where
  pub read_entry-IsWithin :
      {A : Type 0} (decode : Text → Outcome E (A × Text)) (file root directory name : Text)
      (found : Text × A)
      → IsResolved platform directory
      → IsWithin platform.separator root directory
      → read_entry platform decode file directory name ≡ ok found
      → (valid_id name ≡ true)
        × IsResolved platform found.0
        × IsWithin platform.separator root found.0
        × IsReadFrom platform root decode found.1
  unfolding read_entry
  read_entry-IsWithin decode file root directory name found r w h =
      let (_, named, h) = >>=-eq-ok (reject_if (not (valid_id name)) _) _ h in
      let (own, o, h) =
        >>=-eq-ok (map_err (entry_path name) (resolve_within platform directory name)) _ h in
      let (_, r', w') =
        resolve_within-IsWithin platform directory name own documented r
          (map_err-eq-ok (entry_path name) _ o) in
      let (path, p, h) =
        >>=-eq-ok (map_err (entry_path name) (resolve_within platform own file)) _ h in
      let (_, _, w'') =
        resolve_within-IsWithin platform own file path documented r'
          (map_err-eq-ok (entry_path name) _ p) in
      let (a, read, h) =
        >>=-eq-ok (map_err (entry_failed name) (read_json platform decode path)) _ h in
      let below = IsWithin-trans platform.separator root directory own w w' in
      subst
        (λ f.
          (valid_id name ≡ true)
          × IsResolved platform f.0
          × IsWithin platform.separator root f.0
          × IsReadFrom platform root decode f.1)
        (ok-injective h)
        (
          ground arith,
          r',
          below,
          (
            path,
            IsWithin-trans platform.separator root own path below w'',
            map_err-eq-ok (entry_failed name) _ read,
          ),
        )
