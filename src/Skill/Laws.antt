-- ===== src/Skill/Laws.antt =====
-- What `Select` of skill/skill.go selects.
use hot_take.Base.{
  ltb, Bool-cases, All-mem, ok, err, Text, ◌==◌, ==_iff, ℕ, ◌<◌, ◌≡◌, refl, sym, ap, ◌∙◌, subst,
  ◌≢◌, ◌↔◌, ◌⊎◌, inl, inr, false, List, [], ◌∷◌, Memᴰ, arith,
}
use hot_take.Base.Strings.{trim_space}
use hot_take.Base.Order.{
  text_ltb, text_ltb_irrefl, text_ltb_total, text_ltb_asym, not_text_ltb_trans,
}
use hot_take.Base.Sort.{sort, IsSorted, mem-sort, IsStrictOrder, sort-IsSorted}
use hot_take.Base.Dict.{lookup}
use hot_take.Skill.{
  empty_input, Skill, Registry, ScoredSkill, ranks_before, score_examples, score_all, get_or_zero,
  choose, select,
}

ranks_before-IsStrictOrder : IsStrictOrder ranks_before
unfolding ranks_before
ranks_before-IsStrictOrder = record {
  asym = λ a b h. ground (arith, text_ltb_asym a.skill.name b.skill.name);
  not_trans =
      λ a b c h k. ground (arith, not_text_ltb_trans a.skill.name b.skill.name c.skill.name);
}

-- The default of a registry, as `Select` reads it.
abbrev pub default_of : Registry → Skill
default_of r = get_or_zero (lookup r.default_name r.skills)

module _ (lower : Text → Text) (normalised : Text) where
  abbrev pub score : Skill → ℕ
  score s = score_examples lower normalised s.examples

  abbrev scored : Skill → ScoredSkill
  scored s = record { skill = s; score = score s }

  mem-score_all :
      (y : ScoredSkill) (l : List Skill)
      → Memᴰ y (score_all lower normalised l)
      → (k : Skill) × Memᴰ k l × (y ≡ scored k)
  unfolding score_all
  mem-score_all y [] m = elim m [ ]
  mem-score_all y (s ∷ l) (Memᴰ.head e) = (s, Memᴰ.head refl, e)
  mem-score_all y (s ∷ l) (Memᴰ.tail m) = let (k, n, e) = mem-score_all y l m in (k, Memᴰ.tail n, e)

  mem-scored :
      (k : Skill) (l : List Skill) → Memᴰ k l → Memᴰ (scored k) (score_all lower normalised l)
  unfolding score_all
  mem-scored k [] m = elim m [ ]
  mem-scored k (s ∷ l) (Memᴰ.head e) = Memᴰ.head (ap scored e)
  mem-scored k (s ∷ l) (Memᴰ.tail m) = Memᴰ.tail (mem-scored k l m)

  -- A skill is at least as good as another: its score is higher, or equal and its name is not behind.
  abbrev pub IsAtLeast : Skill → Skill → Type 0
  IsAtLeast s k = (score k < score s) ⊎ ((score k ≡ score s) × (text_ltb k.name s.name ≡ false))

  -- The choice of a skill among those visited: the best of them if its score is positive, or else, where
  -- no skill scores, the default.
  abbrev pub IsChoice : Registry → List Skill → Skill → Type 0
  IsChoice r visited s =
      (((k : Skill) → Memᴰ k visited → score k ≡ 0) × (s ≡ default_of r))
      ⊎ (Memᴰ s visited × (0 < score s) × ((k : Skill) → Memᴰ k visited → IsAtLeast s k))

  -- Nothing in a sorted list ranks before its first element.
  first-best :
      (best : ScoredSkill) (rest : List ScoredSkill) (y : ScoredSkill)
      → IsSorted ranks_before (best ∷ rest)
      → Memᴰ y (best ∷ rest)
      → ranks_before y best ≡ false
  first-best best rest y o (Memᴰ.head e) =
      subst (λ z. ranks_before z best ≡ false) (sym e)
        (unfold ranks_before in ground (arith, text_ltb_irrefl best.skill.name))
  first-best best rest y o (Memᴰ.tail m) = All-mem (λ b. ranks_before b best ≡ false) rest o.0 m

  ranks-IsAtLeast : (s k : Skill) → ranks_before (scored k) (scored s) ≡ false → IsAtLeast s k
  unfolding ranks_before
  ranks-IsAtLeast s k h = ground arith

  choice :
      (r : Registry) (visited : List Skill) (best : ScoredSkill) (s : Skill)
      → best ≡ scored s
      → Memᴰ s visited
      → ((k : Skill) → Memᴰ k visited → IsAtLeast s k)
      → (rest : List ScoredSkill) → IsChoice r visited (choose r (best ∷ rest))
  unfolding choose
  choice r visited best s e m atleast rest =
      subst (λ b. IsChoice r visited (choose r (b ∷ rest))) (sym e)
        (elim (Bool-cases (ltb 0 (score s))) [
          | inl h ↦ rw h (inr (m, ground arith, atleast))
          | inr h ↦ rw h (inl (λ k n. ground (arith, atleast k n), refl))
        ])

  choose-IsChoice :
      (r : Registry) (visited : List Skill) (l : List ScoredSkill)
      → IsSorted ranks_before l
      → ((k : Skill) → Memᴰ k visited → Memᴰ (scored k) l)
      → ((y : ScoredSkill) → Memᴰ y l → (k : Skill) × Memᴰ k visited × (y ≡ scored k))
      → IsChoice r visited (choose r l)
  unfolding choose
  choose-IsChoice r visited [] o into back = inl ((λ k m. elim (into k m) [ ]), refl)
  choose-IsChoice r visited (best ∷ rest) o into back =
      let (s, m, e) = back best (Memᴰ.head refl) in
      choice r visited best s e m
        (λ k n. ranks-IsAtLeast s k (
          subst (λ b. ranks_before (scored k) b ≡ false) e
            (first-best best rest (scored k) o (into k n))))
        rest

  sorted-IsChoice :
      (r : Registry) (visited : List Skill)
      → IsChoice r visited (choose r (sort ranks_before (score_all lower normalised visited)))
  sorted-IsChoice r visited =
      choose-IsChoice r visited (sort ranks_before (score_all lower normalised visited))
        (sort-IsSorted ranks_before ranks_before-IsStrictOrder _)
        (λ k m. (mem-sort ranks_before (scored k) _).1 (mem-scored k visited m))
        (λ y m. mem-score_all y visited ((mem-sort ranks_before y _).0 m))

-- What `Select` gives: an error for an input that is blank or becomes empty in lower case, a choice of
-- the visited skills for any other.
abbrev pub IsSelected : (Text → Text) → Registry → List Skill → Text → Type 0
IsSelected lower r visited input =
    ((lower (trim_space input) ≡ []) × (select lower r visited input ≡ err empty_input))
    ⊎ ((lower (trim_space input) ≢ [])
        × ((s : Skill) × (select lower r visited input ≡ ok s)
            × IsChoice lower (lower (trim_space input)) r visited s))

-- `Select` rejects exactly an input that is blank or becomes empty in lower case. Otherwise it selects
-- the skill with the highest score of those visited, the first by name among equals, if its score is
-- positive, and the default if no skill scores.
pub select_lem :
    (lower : Text → Text) (r : Registry) (visited : List Skill) (input : Text)
    → IsSelected lower r visited input
unfolding select
select_lem lower r visited input =
    let n = lower (trim_space input) in
    elim (Bool-cases (n == [])) [
      | inl e ↦ inl ((==_iff n []).0 e, ground arith)
      | inr e ↦ inr (
        ground (arith, ==_iff n []),
        (
          choose r (sort ranks_before (score_all lower n visited)),
          ground arith,
          sorted-IsChoice lower n r visited,
        ),
      )
    ]

IsChoice-unique :
    (lower : Text → Text) (n : Text) (r : Registry) (visited visited' : List Skill) (s s' : Skill)
    → ((a b : Skill) → Memᴰ a visited → Memᴰ b visited → a.name ≡ b.name → a ≡ b)
    → ((k : Skill) → Memᴰ k visited ↔ Memᴰ k visited')
    → IsChoice lower n r visited s
    → IsChoice lower n r visited' s'
    → s ≡ s'
IsChoice-unique lower n r visited visited' s s' distinct same (inl (z, e)) (inl (z', e')) =
    e ∙ sym e'
IsChoice-unique lower n r visited visited' s s' distinct same (inl (z, e)) (inr (m', p', a')) =
    absurd (omega (arith, z s' ((same s').1 m')))
IsChoice-unique lower n r visited visited' s s' distinct same (inr (m, p, a)) (inl (z', e')) =
    absurd (omega (arith, z' s ((same s).0 m)))
IsChoice-unique lower n r visited visited' s s' distinct same (inr (m, p, a)) (inr (m', p', a')) =
    distinct s s' m ((same s').1 m') (
      text_ltb_total s.name s'.name (ground (arith, a s' ((same s').1 m'), a' s ((same s).0 m)))
        (ground (arith, a s' ((same s').1 m'), a' s ((same s).0 m))))

-- `Select` does not depend on the order in which the map is visited: two lists of the same skills, no two
-- of one name, give the same result.
pub select_any_order :
    (lower : Text → Text) (r : Registry) (visited visited' : List Skill) (input : Text)
    → ((a b : Skill) → Memᴰ a visited → Memᴰ b visited → a.name ≡ b.name → a ≡ b)
    → ((k : Skill) → Memᴰ k visited ↔ Memᴰ k visited')
    → select lower r visited input ≡ select lower r visited' input
select_any_order lower r visited visited' input distinct same =
    elim (select_lem lower r visited input) [
      | inl (blank, e) ↦ elim (select_lem lower r visited' input) [
        | inl (_, e') ↦ e ∙ sym e'
        | inr (given, _) ↦ absurd (given blank)
      ]
      | inr (given, (s, e, c)) ↦ elim (select_lem lower r visited' input) [
        | inl (blank, _) ↦ absurd (given blank)
        | inr (_, (s', e', c')) ↦
            e
            ∙ ap ok (
                IsChoice-unique lower (lower (trim_space input)) r visited visited' s s' distinct
                  same c c')
            ∙ sym e'
      ]
    ]
