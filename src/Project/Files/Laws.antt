-- ===== src/Project/Files/Laws.antt =====
-- Where the files of a project lie.
use hot_take.Base.{
  if◌then◌else◌, eqb, Bool-cases, ok, reject_if, >>=-eq-ok, map_err, reject_if-eq-ok, Text, ℕ, ◌≡◌,
  refl, ap, ◌∙◌, subst, ◌≢◌, ◌⊎◌, inl, inr, true, false, ◌||◌, [], ◌∷◌, ◌++◌, append_assoc, arith,
  ok-injective, map_err-eq-ok,
}
use hot_take.Base.Strings.{is_blank}
use hot_take.Project.Files.{Platform, links_failed, rel_failed, escapes, resolve_within}

module _ (separator : ℕ) where
  -- A path with a separator at its end.
  abbrev pub as_directory : Text → Text
  as_directory [] = separator ∷ []
  as_directory (c ∷ []) = if eqb c separator then c ∷ [] else c ∷ separator ∷ []
  as_directory (c ∷ d ∷ s) = c ∷ as_directory (d ∷ s)

  -- A path that is the root or lies below it.
  abbrev pub IsWithin : Text → Text → Type 0
  IsWithin root path = (path ≡ root) ⊎ ((s : Text) × (path ≡ as_directory root ++ s))

  as_directory-cons : (c : ℕ) (s : Text) → s ≢ [] → as_directory (c ∷ s) ≡ c ∷ as_directory s
  as_directory-cons c [] h = absurd (h refl)
  as_directory-cons c (d ∷ s) h = refl

  as_directory-ne_nil : (s t : Text) → as_directory s ++ t ≢ []
  as_directory-ne_nil [] t = λ e. cc
  as_directory-ne_nil (c ∷ []) t = elim (Bool-cases (eqb c separator)) [
    | inl e ↦ rw e (λ f. cc)
    | inr e ↦ rw e (λ f. cc)
  ]
  as_directory-ne_nil (c ∷ d ∷ s) t = λ e. cc

  -- What is below a directory below a root is below the root.
  as_directory-append :
      (root s : Text)
      → (t : Text) × (as_directory (as_directory root ++ s) ≡ as_directory root ++ t)
  as_directory-append [] [] = ([], ground arith)
  as_directory-append [] (c ∷ s) = (as_directory (c ∷ s), refl)
  as_directory-append (c ∷ []) [] = elim (Bool-cases (eqb c separator)) [
    | inl e ↦ rw e ([], ground arith)
    | inr e ↦ rw e ([], ground arith)
  ]
  as_directory-append (c ∷ []) (d ∷ s) = elim (Bool-cases (eqb c separator)) [
    | inl e ↦ rw e (as_directory (d ∷ s), refl)
    | inr e ↦ rw e (as_directory (d ∷ s), refl)
  ]
  as_directory-append (c ∷ d ∷ root) s =
      let (t, e) = as_directory-append (d ∷ root) s in
      (
        t,
        as_directory-cons c (as_directory (d ∷ root) ++ s) (as_directory-ne_nil (d ∷ root) s)
            ∙ ap (λ l. c ∷ l) e,
      )

  pub IsWithin-trans :
      (root directory path : Text)
      → IsWithin root directory
      → IsWithin directory path
      → IsWithin root path
  IsWithin-trans root directory path (inl e) w = subst (λ d. IsWithin d path) e w
  IsWithin-trans root directory path (inr (s, e)) (inl f) = inr (s, f ∙ e)
  IsWithin-trans root directory path (inr (s, e)) (inr (t, f)) =
      let (u, g) = as_directory-append root s in
      inr (
        u ++ t,
        f
            ∙ ap (λ d. as_directory d ++ t) e
            ∙ ap (λ d. d ++ t) g
            ∙ append_assoc (as_directory root) u t,
      )

module _ {E : Type 0} (platform : Platform E) where
  -- An absolute path without `..`, doubled slashes or symbolic links.
  abbrev pub IsResolved : Text → Type 0
  IsResolved path = (platform.is_abs path ≡ true) × (platform.clean path ≡ path)

  -- What path/filepath documents: Abs and Join give absolute paths, EvalSymlinks a clean one, and a relative path
  -- that does not go up leads to a path below.
  abbrev pub IsFilepath : Type 0
  IsFilepath =
      ((p q : Text) → platform.abs p ≡ ok q → platform.is_abs q ≡ true)
      × ((p q : Text) → platform.is_abs p ≡ true → platform.is_abs (platform.join_path p q) ≡ true)
      × ((p q : Text) → platform.is_abs p ≡ true → platform.eval_symlinks p ≡ ok q → IsResolved q)
      × ((p q r : Text)
          → IsResolved p
          → IsResolved q
          → platform.rel p q ≡ ok r
          → escapes platform.separator r ≡ false
          → IsWithin platform.separator p q)

  -- A path that `resolveWithin` returns is the given one below the root with its symbolic links resolved, and it lies
  -- within the root wherever these links lead. The root is resolved, and path/filepath is as documented.
  pub resolve_within-IsWithin :
      (root relative path : Text)
      → IsFilepath
      → IsResolved root
      → resolve_within platform root relative ≡ ok path
      → (platform.eval_symlinks (platform.join_path root (platform.clean relative)) ≡ ok path)
        × IsResolved path
        × IsWithin platform.separator root path
  unfolding resolve_within
  resolve_within-IsWithin root relative path (_, joins, resolves, relates) r h =
      let (_, _, h) = >>=-eq-ok (reject_if (is_blank relative || platform.is_abs relative) _) _ h in
      let (resolved, e, h) =
        >>=-eq-ok
          (map_err links_failed
            (platform.eval_symlinks (platform.join_path root (platform.clean relative))))
          _ h in
      let (relative_to_root, f, h) =
        >>=-eq-ok (map_err rel_failed (platform.rel root resolved)) _ h in
      let (_, stays, h) =
        >>=-eq-ok (reject_if (escapes platform.separator relative_to_root) _) _ h in
      let e' = map_err-eq-ok links_failed _ e in
      let r' =
        resolves (platform.join_path root (platform.clean relative)) resolved
          (joins root (platform.clean relative) r.0) e' in
      subst
        (λ p.
          (platform.eval_symlinks (platform.join_path root (platform.clean relative)) ≡ ok p)
          × IsResolved p
          × IsWithin platform.separator root p)
        (ok-injective h)
        (
          e',
          r',
          relates root resolved relative_to_root r r' (map_err-eq-ok rel_failed _ f)
              (reject_if-eq-ok _ _ stays),
        )
