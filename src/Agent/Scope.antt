-- ===== src/Agent/Scope.antt =====
-- What `resolveTools` of agent/runtime.go returns: the tools that the capabilities provide, each once.
use hot_take.Base.{
  Bool-cases, ok, >>=-eq-ok, Text, ==_iff, ==_refl, ◌≡◌, subst, ◌⊎◌, inl, inr, true, ◌||◌, List, [],
  ◌∷◌, ◌++◌, arith, ok-injective,
}
use hot_take.Base.Dict.{elem, elem-append, IsDistinct, IsDistinct-concat}
use hot_take.Capability
use hot_take.Capability.{resolve}
use hot_take.Agent.Selection.{add_providers, resolve_tools}

add_providers_lem :
    (providers names : List Text)
    → IsDistinct names
    → IsDistinct (add_providers providers names)
      × ((k : Text) → elem k (add_providers providers names) ≡ (elem k names || elem k providers))
unfolding add_providers elem
add_providers_lem [] names d = (d, λ k. ground arith)
add_providers_lem (name ∷ providers) names d = elim (Bool-cases (elem name names)) [
  | inl e ↦
      (let (d', same) = add_providers_lem providers names d in
        rw e (d', λ k. ground (arith, same k, ==_iff name k)))
  | inr e ↦
      (let (d', same) =
          add_providers_lem providers (names ++ name ∷ []) (IsDistinct-concat name names d e) in
        rw e (d', λ k. ground (arith, same k, elem-append k names (name ∷ []))))
]

-- Some capability of the list resolves to tools with this one among them.
abbrev pub IsProvided : Capability.Registry → List Text → Text → Type 0
IsProvided r required k =
    (capability : Text) × (providers : List Text) × (elem capability required ≡ true)
    × (resolve r capability ≡ ok providers)
    × (elem k providers ≡ true)

IsProvided-cons :
    (r : Capability.Registry) (c : Text) (required : List Text) (k : Text)
    → IsProvided r required k
    → IsProvided r (c ∷ required) k
unfolding elem
IsProvided-cons r c required k (capability, providers, m, e, p) =
    (capability, providers, ground arith, e, p)

resolve_tools-inversion :
    (r : Capability.Registry) (required names out : List Text)
    → IsDistinct names
    → resolve_tools r required names ≡ ok out
    → IsDistinct out
      × ((k : Text) → elem k out ≡ true → (elem k names ≡ true) ⊎ IsProvided r required k)
unfolding resolve_tools elem
resolve_tools-inversion r [] names out d h =
    subst
      (λ o.
        IsDistinct o × ((k : Text) → elem k o ≡ true → (elem k names ≡ true) ⊎ IsProvided r [] k))
      (ok-injective h) (d, λ k m. inl m)
resolve_tools-inversion r (c ∷ required) names out d h =
    let (providers, found, rest) = >>=-eq-ok (resolve r c) _ h in
    let (d', same) = add_providers_lem providers names d in
    let (d'', back) =
      resolve_tools-inversion r required (add_providers providers names) out d' rest in
    (
      d'',
      λ k m. elim (back k m) [
        | inl old ↦ elim (Bool-cases (elem k names)) [
          | inl e ↦ inl e
          | inr e ↦ inr (c, providers, ground (arith, ==_refl c), found, ground (arith, same k))
        ]
        | inr p ↦ inr (IsProvided-cons r c required k p)
      ],
    )

-- A success of `resolveTools` names no tool twice, and only tools that a capability of the list provides.
pub resolve_tools_lem :
    (r : Capability.Registry) (required out : List Text)
    → resolve_tools r required [] ≡ ok out
    → IsDistinct out × ((k : Text) → elem k out ≡ true → IsProvided r required k)
unfolding elem
resolve_tools_lem r required out h =
    let (d, back) = resolve_tools-inversion r required [] out tt h in
    (d, λ k m. elim (back k m) [ inl old ↦ cc | inr p ↦ p ])
