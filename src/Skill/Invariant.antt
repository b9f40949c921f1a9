-- ===== src/Skill/Invariant.antt =====
-- What a registry that NewRegistry of skill/skill.go built holds.
use hot_take.Base.{
  Bool-cases, Option-cases, ok, reject_if, >>=-eq-ok, Text, ◌==◌, ==_iff, ◌≡◌, sym, ◌∙◌, subst, inl,
  inr, not, some, List, [], ◌∷◌, Memᴰ, arith, ok-injective,
}
use hot_take.Base.Dict.{Dict, lookup, put, lookup-put, elem, keys, lookup-elem-keys}
use hot_take.Skill.{Skill, Registry, validate, register_all, new_registry, get_or_zero, select}
use hot_take.Skill.Laws.{select_lem, default_of}

-- A skill that was validated stands under its own name.
abbrev pub IsStored : Text → Skill → Type 0
IsStored key s = (s.name ≡ key) × (validate s ≡ ok tt)

abbrev pub IsValid : Dict Skill → Type 0
IsValid registered = (key : Text) (s : Skill) → lookup key registered ≡ some s → IsStored key s

register_all_cons :
    (s : Skill) (skills : List Skill) (registered : Dict Skill) {out : Dict Skill}
    → register_all (s ∷ skills) registered ≡ ok out
    → (validate s ≡ ok tt) × (register_all skills (put s.name s registered) ≡ ok out)
unfolding register_all
register_all_cons s skills registered h =
    let (u, valid, h1) = >>=-eq-ok (validate s) _ h in
    let (v, new, h2) = >>=-eq-ok (reject_if (elem s.name (keys registered)) _) _ h1 in
    (ground arith, h2)

put-IsValid :
    (s : Skill) (registered : Dict Skill)
    → IsValid registered
    → validate s ≡ ok tt
    → IsValid (put s.name s registered)
put-IsValid s registered v valid key t found = elim (Bool-cases (s.name == key)) [
  | inl e ↦
      (let same : s ≡ t = ground (arith, lookup-put s.name key s registered) in
        subst (IsStored key) same ((==_iff s.name key).0 e, valid))
  | inr e ↦ v key t (ground (arith, lookup-put s.name key s registered))
]

register_all-IsValid :
    (skills : List Skill) (registered out : Dict Skill)
    → IsValid registered
    → register_all skills registered ≡ ok out
    → IsValid out
register_all-IsValid [] registered out v h = unfold register_all in subst IsValid (ok-injective h) v
register_all-IsValid (s ∷ skills) registered out v h =
    let (valid, rest) = register_all_cons s skills registered h in
    register_all-IsValid skills (put s.name s registered) out (put-IsValid s registered v valid)
      rest

new_registry-parts :
    (default_name : Text) (skills : List Skill) (r : Registry)
    → new_registry default_name skills ≡ ok r
    → IsValid r.skills × ((s : Skill) × (lookup r.default_name r.skills ≡ some s))
unfolding new_registry
new_registry-parts default_name skills r h =
    let (registered, filled, h1) = >>=-eq-ok (register_all skills []) _ h in
    let (u, present, h2) =
      >>=-eq-ok (reject_if (not (elem default_name (keys registered))) _) _ h1 in
    subst
      (λ (q : Registry).
        IsValid q.skills × ((s : Skill) × (lookup q.default_name q.skills ≡ some s)))
      (ok-injective h2)
      (
        register_all-IsValid skills [] registered (λ key s found. unfold lookup in cc) filled,
        elim (Option-cases (lookup default_name registered)) [
          | inl missing ↦ absurd (ground (arith, lookup-elem-keys default_name registered missing))
          | inr found ↦ found
        ],
      )

-- A skill of a registry: validated, and found under its name.
abbrev pub IsRegistered : Registry → Skill → Type 0
IsRegistered r s = (validate s ≡ ok tt) × (lookup s.name r.skills ≡ some s)

IsStored-IsRegistered :
    (r : Registry) (key : Text) (s : Skill)
    → IsStored key s
    → lookup key r.skills ≡ some s
    → IsRegistered r s
IsStored-IsRegistered r key s (named, valid) found =
    (valid, subst (λ k. lookup k r.skills ≡ some s) (sym named) found)

default_of-IsRegistered :
    (r : Registry) (s : Skill)
    → IsValid r.skills
    → lookup r.default_name r.skills ≡ some s
    → IsRegistered r (default_of r)
unfolding get_or_zero
default_of-IsRegistered r s v found =
    rw found (IsStored-IsRegistered r r.default_name s (v r.default_name s found) found)

-- From a registry that `NewRegistry` built, `Select` over skills of the map returns a validated skill that
-- the registry holds under its name; never the empty skill, even where no skill scores.
pub select-IsRegistered :
    (lower : Text → Text) (default_name : Text) (skills visited : List Skill) (r : Registry)
    (input : Text) (s : Skill)
    → new_registry default_name skills ≡ ok r
    → ((k : Skill) → Memᴰ k visited → (key : Text) × (lookup key r.skills ≡ some k))
    → select lower r visited input ≡ ok s
    → IsRegistered r s
select-IsRegistered lower default_name skills visited r input s built held h =
    let (valid, (d, found)) = new_registry-parts default_name skills r built in
    elim (select_lem lower r visited input) [
      | inl (_, e) ↦ cc
      | inr (_, (s', e, c)) ↦ subst (IsRegistered r) (ok-injective (sym e ∙ h)) (elim c [
        | inl (_, default) ↦
            subst (IsRegistered r) (sym default) (default_of-IsRegistered r d valid found)
        | inr (m, _, _) ↦
            (let (key, at) = held s' m in IsStored-IsRegistered r key s' (valid key s' at) at)
      ])
    ]
