-- ===== src/Command/Wiring/Laws.antt =====
-- What wiring the tools of a plugin keeps: every tool has its rule, and capabilities lead to registered tools only.
use hot_take.Base.{
  Bool-cases, All, All-append, Outcome, ok, >>=-eq-ok, map_err, Text, codes, ◌==◌, ==_refl, ◌≡◌,
  refl, sym, ap, ◌∙◌, subst, ◌⊎◌, inl, inr, Bool, true, Option, none, some, List, [], ◌∷◌, ◌++◌,
  map, Memᴰ, arith, ok-injective, map_err-eq-ok,
}
use hot_take.Base.Order.{text_ltb}
use hot_take.Base.Sort.{sort}
use hot_take.Base.Dict.{Dict, lookup, lookup-put, elem, elem-append, keys, keys-put_new}
use hot_take.Tool.{Tool}
use hot_take.Tool.Registry.{register}
use hot_take.Tool.Registry.Laws.{register-eq-ok}
use hot_take.Mcp.Binding.{new_remote_tool-eq-ok}
use hot_take.Mcp.Client.Listing.{tools_of}
use hot_take.Command.{Error, register_failed, bind_failed}
use hot_take.Permission.{Rule, allow}
use hot_take.Project.{Plugin}
use hot_take.Mcp.{ToolDefinition, ToolCaller, local_tool_name, new_remote_tool, as_tool}
use hot_take.Command.Wiring.{
  Wiring, mode_of, or_none, or_zero, append_to, add_local, add_tool, add_mappings, bind_tool,
  bind_tools, wire_plugin,
}

abbrev pub rule_names : List Rule → List Text
rule_names rules = map (λ r. r.tool) rules

-- A map whose lists have only names of a list.
abbrev pub IsInto : List Text → Dict (List Text) → Type 0
IsInto names m =
    (c : Text) (found : List Text) → lookup c m ≡ some found → All (λ n. elem n names ≡ true) found

-- The rule of the clock, or that of a plugin's tool, with the mode that the plugin's approval names.
abbrev pub IsRule : List Plugin → Rule → Type 0
IsRule plugins r =
    ((r.tool ≡ codes "clock_now") × (r.mode ≡ allow))
    ⊎ ((p : Plugin) × (remote : Text) × Memᴰ p plugins
        × (local_tool_name p.name remote ≡ ok r.tool)
        × (r.mode ≡ mode_of p.approval))

IsInto-append_to :
    (names : List Text) (c n : Text) (m : Dict (List Text))
    → IsInto names m
    → elem n names ≡ true
    → IsInto names (append_to c n m)
unfolding append_to lookup
IsInto-append_to names c n m i here d found h = elim (Bool-cases (c == d)) [
  | inr e ↦ i d found (sym (lookup-put c d (or_none (lookup c m) ++ n ∷ []) m ∙ rw e refl) ∙ h)
  | inl e ↦
      subst (All (λ k. elem k names ≡ true))
        (some-injective (sym (lookup-put c d (or_none (lookup c m) ++ n ∷ []) m ∙ rw e refl) ∙ h))
        (All-append (λ k. elem k names ≡ true) (or_none (lookup c m)) (n ∷ [])
          (before (lookup c m) refl) (here, tt))
]
  where
    some-injective : {a b : List Text} → ◌≡◌ {A = Option (List Text)} (some a) (some b) → a ≡ b
    some-injective e = cc

    before : (o : Option (List Text)) → lookup c m ≡ o → All (λ k. elem k names ≡ true) (or_none o)
    before none e = tt
    before (some l) e = i c l e

IsInto-add_local :
    (names : List Text) (n : Text) (cs : List Text) (m : Dict (List Text))
    → IsInto names m
    → elem n names ≡ true
    → IsInto names (add_local n cs m)
unfolding add_local
IsInto-add_local names n [] m i here = i
IsInto-add_local names n (c ∷ cs) m i here =
    IsInto-add_local names n cs (append_to c n m) (IsInto-append_to names c n m i here) here

All-weaken :
    (names : List Text) (n : Text) (l : List Text)
    → All (λ k. elem k names ≡ true) l
    → All (λ k. elem k (names ++ n ∷ []) ≡ true) l
All-weaken names n [] a = tt
All-weaken names n (k ∷ l) a =
    (ground (arith, elem-append k names (n ∷ [])), All-weaken names n l a.1)

keys-concat :
    {V : Type 0} (m : Dict V) (k : Text) (v : V) → keys (m ++ (k, v) ∷ []) ≡ keys m ++ k ∷ []
keys-concat [] k v = refl
keys-concat ((j, w) ∷ m) k v = ap (λ l. j ∷ l) (keys-concat m k v)

elem-last : (names : List Text) (n : Text) → elem n (names ++ n ∷ []) ≡ true
unfolding elem
elem-last names n = ground (arith, elem-append n names (n ∷ []), ==_refl n)

rule_names-concat :
    (rules : List Rule) (r : Rule) → rule_names (rules ++ r ∷ []) ≡ rule_names rules ++ r.tool ∷ []
rule_names-concat [] r = refl
rule_names-concat (q ∷ rules) r = ap (λ l. q.tool ∷ l) (rule_names-concat rules r)

module _ {W F : Type 0} (plugins : List Plugin) where
  -- The rules are for the registered tools, in their order, each with the mode of its plugin; and capabilities lead
  -- to registered tools only.
  abbrev pub IsWired : Wiring W F → Type 0
  IsWired x =
      (rule_names x.rules ≡ keys x.tools.tools)
      × IsInto (keys x.tools.tools) x.capabilities
      × All (IsRule plugins) x.rules

  module _ {E : Type 0} (json_valid : Text → Bool) (plugin : Plugin)
      (here : Memᴰ plugin plugins) where
    add_tool-IsWired :
        (remote_name remote : Text) (names : List Text) (bound : Tool W F) (x out : Wiring W F)
        → IsWired x
        → local_tool_name plugin.name remote ≡ ok bound.definition.name
        → ◌≡◌ {A = Outcome (Error E) (Wiring W F)}
            (add_tool json_valid plugin remote_name names bound x)
            (ok out)
        → IsWired out
    unfolding add_tool
    add_tool-IsWired remote_name remote names bound x out (r, i, a) named h =
        let (tools, registered, h) =
          >>=-eq-ok
            (map_err (register_failed plugin.name remote_name)
              (register json_valid x.tools (some bound)))
            _ h in
        let (_, fresh, e) =
          register-eq-ok json_valid x.tools tools bound
            (map_err-eq-ok (register_failed plugin.name remote_name) _ registered) in
        let name = bound.definition.name in
        let known : keys tools.tools ≡ keys x.tools.tools ++ name ∷ [] =
          ap keys (e ∙ keys-put_new name bound x.tools.tools fresh)
          ∙ keys-concat x.tools.tools name bound in
        let rule : Rule = record { tool = name; mode = mode_of plugin.approval } in
        subst IsWired (ok-injective h) (
          rule_names-concat x.rules rule ∙ ap (λ l. l ++ name ∷ []) r ∙ sym known,
          subst (λ l. IsInto l (add_local name names x.capabilities)) (sym known)
              (IsInto-add_local (keys x.tools.tools ++ name ∷ []) name names x.capabilities
                (λ c found l. All-weaken (keys x.tools.tools) name found (i c found l))
                (elem-last (keys x.tools.tools) name)),
          All-append (IsRule plugins) x.rules (rule ∷ []) a
              (inr (plugin, remote, here, named, refl), tt),
        )

    bind_tool-IsWired :
        (call : ToolCaller W F) (definitions : Dict ToolDefinition) (remote : Dict (List Text))
        (name : Text) (x out : Wiring W F)
        → IsWired x
        → ◌≡◌ {A = Outcome (Error E) (Wiring W F)}
            (bind_tool json_valid plugin call definitions remote name x)
            (ok out)
        → IsWired out
    unfolding bind_tool as_tool
    bind_tool-IsWired call definitions remote name x out v h =
        let names = or_none (lookup name remote) in
        let d = or_zero (lookup name definitions) in
        let (bound, b, h) =
          >>=-eq-ok
            (map_err (bind_failed plugin.name name)
              (new_remote_tool (some call) plugin.name d names))
            _ h in
        let (named, _, _, _, _) =
          new_remote_tool-eq-ok call plugin.name d names bound
            (map_err-eq-ok (bind_failed plugin.name name) _ b) in
        add_tool-IsWired name d.name names (as_tool bound) x out v named h

    bind_tools-IsWired :
        (call : ToolCaller W F) (definitions : Dict ToolDefinition) (remote : Dict (List Text))
        (names : List Text) (x out : Wiring W F)
        → IsWired x
        → ◌≡◌ {A = Outcome (Error E) (Wiring W F)}
            (bind_tools json_valid plugin call definitions remote names x)
            (ok out)
        → IsWired out
    unfolding bind_tools
    bind_tools-IsWired call definitions remote [] x out v h = subst IsWired (ok-injective h) v
    bind_tools-IsWired call definitions remote (name ∷ names) x out v h =
        let (y, b, h) =
          >>=-eq-ok (bind_tool json_valid plugin call definitions remote name x) _ h in
        bind_tools-IsWired call definitions remote names y out
          (bind_tool-IsWired call definitions remote name x y v b) h

    pub wire_plugin-IsWired :
        (call : ToolCaller W F) (advertised : List ToolDefinition) (x out : Wiring W F)
        → IsWired x
        → ◌≡◌ {A = Outcome (Error E) (Wiring W F)}
            (wire_plugin json_valid plugin call advertised x)
            (ok out)
        → IsWired out
    unfolding wire_plugin
    wire_plugin-IsWired call advertised x out v h =
        let (remote, _, h) =
          >>=-eq-ok (add_mappings plugin.name (tools_of [] advertised) plugin.capabilities []) _
            h in
        bind_tools-IsWired call (tools_of [] advertised) remote (sort text_ltb (keys remote)) x out
          v h
