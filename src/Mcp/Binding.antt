-- ===== src/Mcp/Binding.antt =====
-- The tools that NewRemoteTool of mcp/tool.go binds.
use hot_take.Base.{
  eqb, Bool-cases, length, ok, reject_if, >>=-eq-ok, Text, ==_iff, ◌≡◌, refl, subst, ◌≢◌, inl, inr,
  false, ◌||◌, some, List, [], ◌∷◌, ◌++◌, map, arith, ok-injective,
}
use hot_take.Base.Strings.{trim_space}
use hot_take.Base.Dict.{elem, elem-append, IsDistinct, IsDistinct-concat}
use hot_take.Tool.{Tool}
use hot_take.Mcp.{
  Error, no_capabilities, ToolDefinition, RemoteTool, ToolCaller, local_tool_name,
  validate_capabilities, new_remote_tool, as_tool,
}

-- A list of capabilities that a remote tool may have: distinct, and none of them blank.
abbrev pub IsClean : List Text → Type 0
IsClean l = IsDistinct l × (elem [] l ≡ false)

validate_capabilities-IsClean :
    (name : Text) (given validated out : List Text)
    → IsClean validated
    → validate_capabilities name given validated ≡ ok out
    → IsClean out × ((k : Text) → elem k out ≡ (elem k validated || elem k (map trim_space given)))
unfolding validate_capabilities elem
validate_capabilities-IsClean name [] validated out c h =
    subst (λ o. IsClean o × ((k : Text) → elem k o ≡ (elem k validated || false))) (ok-injective h)
      (c, λ k. ground arith)
validate_capabilities-IsClean name (g ∷ given) validated out c h =
    elim (Bool-cases (elem (trim_space g) validated)) [
      | inl e ↦
          (let (c', same) =
              validate_capabilities-IsClean name given validated out c (ground arith) in
            (c', λ k. ground (arith, same k, ==_iff (trim_space g) k)))
      | inr e ↦
          (let (c', same) =
              validate_capabilities-IsClean name given (validated ++ trim_space g ∷ []) out
                (
                  IsDistinct-concat (trim_space g) validated c.0 e,
                  ground (
                    arith,
                    elem-append [] validated (trim_space g ∷ []),
                    ==_iff (trim_space g) [],
                  ),
                )
                (ground arith) in
            (c', λ k. ground (arith, same k, elem-append k validated (trim_space g ∷ []))))
    ]

module _ {W E : Type 0} where
  -- A tool that calls the client by the remote name, under the local name, with the trimmed capabilities
  -- given, which are some; those of the tool are distinct and none of them is blank.
  abbrev pub IsBound : ToolCaller W E → Text → ToolDefinition → List Text → Tool W E → Type 0
  IsBound client namespace remote capabilities t =
      (local_tool_name namespace remote.name ≡ ok t.definition.name)
      × ((arguments : Text) (w : W) → t.execute arguments w ≡ client remote.name arguments w)
      × IsClean t.definition.capabilities
      × (capabilities ≢ [])
      × ((k : Text) → elem k t.definition.capabilities ≡ elem k (map trim_space capabilities))

  -- A remote tool that `NewRemoteTool` bound calls the given client by the remote name, under the local name,
  -- and its capabilities are the trimmed ones given, at least one, distinct, none of them blank.
  pub new_remote_tool-eq-ok :
      (client : ToolCaller W E) (namespace : Text) (remote : ToolDefinition)
      (capabilities : List Text) (t : RemoteTool W E)
      → new_remote_tool (some client) namespace remote capabilities ≡ ok t
      → IsBound client namespace remote capabilities (as_tool t)
  unfolding new_remote_tool as_tool elem
  new_remote_tool-eq-ok client namespace remote capabilities t h =
      let (name, named, h1) = >>=-eq-ok (local_tool_name namespace remote.name) _ h in
      let (u, some_given, h2) = >>=-eq-ok (reject_if (eqb (length capabilities) 0) _) _ h1 in
      let (validated, valid, h3) =
        >>=-eq-ok (validate_capabilities remote.name capabilities []) _ h2 in
      let (clean, same) =
        validate_capabilities-IsClean remote.name capabilities [] validated (tt, refl) valid in
      subst (λ (t' : RemoteTool W E). IsBound client namespace remote capabilities (as_tool t'))
        (ok-injective h3)
        (
          named,
          λ arguments w. refl,
          clean,
          ne-nil capabilities (no_capabilities remote.name) u some_given,
          same,
        )
    where
      ne-nil :
          (l : List Text) (e : Error) (u : Unit {0})
          → reject_if (eqb (length l) 0) e ≡ ok u
          → l ≢ []
      ne-nil [] e u h = cc
      ne-nil (a ∷ l) e u h = cc
