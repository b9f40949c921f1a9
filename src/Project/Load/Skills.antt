-- ===== src/Project/Load/Skills.antt =====
-- The skills that `loadSkills` returns.
use hot_take.Base.{
  eqb, Bool-cases, length, All, All-append, ok, reject_if, >>=-eq-ok, map_err, Text, codes, ◌==◌,
  ==_iff, ◌≡◌, refl, sym, subst, inl, inr, true, not, List, [], ◌∷◌, ◌++◌, arith, ok-injective,
  map_err-eq-ok,
}
use hot_take.Skill.{Skill}
use hot_take.Project.{valid_id}
use hot_take.Project.Files.{SkillManifest, Entry, Platform, resolve_within, read_project_file}
use hot_take.Project.Files.Laws.{
  IsWithin, IsWithin-trans, IsResolved, IsFilepath, resolve_within-IsWithin,
}
use hot_take.Project.Load.{
  entry_path, entry_failed, name_differs, skills_directory_failed, skill_of, read_entry, load_skill,
  add_skills, load_skills,
}
use hot_take.Project.Load.Entries.{IsReadFrom, IsTextFrom, read_entry-IsWithin}

module _ {E : Type 0} (platform : Platform E) where
  -- A skill from a manifest below the root, with instructions from a file below the root.
  abbrev pub IsSkill : Text → Skill → Type 0
  IsSkill root s =
      (m : SkillManifest) × (text : Text) × IsReadFrom platform root platform.decode_skill m
      × IsTextFrom platform root text
      × (valid_id m.name ≡ true)
      × (s ≡ skill_of m text)

module _ {E : Type 0} (platform : Platform E) (documented : IsFilepath platform) where
  load_skill-IsSkill :
      (root directory name : Text) (s : Skill)
      → IsResolved platform directory
      → IsWithin platform.separator root directory
      → load_skill platform directory name ≡ ok s
      → IsSkill platform root s
  unfolding load_skill
  load_skill-IsSkill root directory name s r w h =
      let (found, f, h) =
        >>=-eq-ok (read_entry platform platform.decode_skill (codes "skill.json") directory name) _
          h in
      let (named, r', w', from) =
        read_entry-IsWithin platform documented platform.decode_skill (codes "skill.json") root
          directory name found r w f in
      let (_, same, h) =
        >>=-eq-ok (reject_if (not ((found.1).name == name)) (name_differs name (found.1).name)) _
          h in
      let (path, p, h) =
        >>=-eq-ok
          (map_err (entry_path name) (resolve_within platform found.0 (found.1).instructions)) _
          h in
      let (_, _, w'') =
        resolve_within-IsWithin platform found.0 (found.1).instructions path documented r'
          (map_err-eq-ok (entry_path name) _ p) in
      let (text, t, h) =
        >>=-eq-ok (map_err (entry_failed name) (read_project_file platform path)) _ h in
      let e : (found.1).name ≡ name = ground (arith, ==_iff ((found.1).name) name) in
      subst (IsSkill platform root) (ok-injective h) (
        found.1,
        text,
        from,
        (
          path,
          IsWithin-trans platform.separator root found.0 path w' w'',
          map_err-eq-ok (entry_failed name) _ t,
        ),
        subst (λ n. valid_id n ≡ true) (sym e) named,
        refl,
      )

  add_skills-IsSkill :
      (root directory : Text) (entries : List Entry) (loaded out : List Skill)
      → IsResolved platform directory
      → IsWithin platform.separator root directory
      → All (IsSkill platform root) loaded
      → add_skills platform directory entries loaded ≡ ok out
      → All (IsSkill platform root) out
  unfolding add_skills
  add_skills-IsSkill root directory [] loaded out r w a h =
      subst (All (IsSkill platform root)) (ok-injective h) a
  add_skills-IsSkill root directory (e ∷ entries) loaded out r w a h = elim (Bool-cases e.is_dir) [
    | inr f ↦ add_skills-IsSkill root directory entries loaded out r w a (rw (f, add_skills) at h)
    | inl f ↦
        (let (s, found, h) =
            >>=-eq-ok (load_skill platform directory e.name) _ (rw (f, add_skills) at h) in
          add_skills-IsSkill root directory entries (loaded ++ s ∷ []) out r w
            (All-append (IsSkill platform root) loaded (s ∷ []) a
              (load_skill-IsSkill root directory e.name s r w found, tt))
            h)
  ]

  pub load_skills-IsSkill :
      (root directory : Text) (out : List Skill)
      → IsResolved platform directory
      → IsWithin platform.separator root directory
      → load_skills platform directory ≡ ok out
      → All (IsSkill platform root) out
  unfolding load_skills
  load_skills-IsSkill root directory out r w h =
      let (entries, _, h) =
        >>=-eq-ok (map_err skills_directory_failed (platform.read_dir directory)) _ h in
      let (loaded, added, h) = >>=-eq-ok (add_skills platform directory entries []) _ h in
      let (_, _, h) = >>=-eq-ok (reject_if (eqb (length loaded) 0) _) _ h in
      subst (All (IsSkill platform root)) (ok-injective h)
        (add_skills-IsSkill root directory entries [] loaded r w tt added)
