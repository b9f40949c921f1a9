-- ===== src/Command/ProjectTools/Laws.antt =====
-- The tools, the capabilities and the policy of a project.
use hot_take.Base.{
  Bool-cases, All, Outcome, ok, err, >>=-eq-ok, map_err, Text, codes, ◌==◌, ◌≡◌, refl, sym, ap,
  subst, inl, inr, true, Option, none, some, List, [], ◌∷◌, Memᴰ, ok-injective, map_err-eq-ok,
  Outcome-cases,
}
use hot_take.Base.Dict.{lookup, put, elem, keys}
use hot_take.Tool.Registry.{register, new_registry}
use hot_take.Tool.Registry.Laws.{register-eq-ok}
use hot_take.Capability
use hot_take.Permission.{deny, new_policy}
use hot_take.Project.{Plugin}
use hot_take.Mcp.Client.{Client}
use hot_take.Command.{
  World, Error, clock_failed, capabilities_failed, policy_failed, caller, discover,
}
use hot_take.Command.Wiring.{Wiring, wire_plugin}
use hot_take.Command.Wiring.Laws.{IsInto, IsWired, wire_plugin-IsWired}
use hot_take.Command.ProjectTools.{
  Setting, ToolSet, clock_tool, clock_capabilities, client_of, connect_client, connect_plugins,
  clock_wiring, finish, connect_all, project_tools,
}

clock_capabilities-IsInto : IsInto (codes "clock_now" ∷ []) clock_capabilities
unfolding lookup elem ◌==◌
clock_capabilities-IsInto c found h = elim (Bool-cases (codes "clock.read" == c)) [
  | inl e ↦
      subst (All (λ n. elem n (codes "clock_now" ∷ []) ≡ true))
        (some-injective (rw (e, lookup) at h)) (refl, tt)
  | inr e ↦ absurd (not_some (rw (e, lookup) at h))
]
  where
    some-injective : {a b : List Text} → ◌≡◌ {A = Option (List Text)} (some a) (some b) → a ≡ b
    some-injective e = cc

    not_some : {a : List Text} → ◌≡◌ {A = Option (List Text)} none (some a) → ⊥
    not_some e = cc

module _ {W E F : Type 0} (setting : Setting W E F) (plugins : List Plugin) where
  clock_wiring-IsWired : (x : Wiring (World W) F) → clock_wiring setting ≡ ok x → IsWired plugins x
  unfolding clock_wiring new_registry put lookup elem
  clock_wiring-IsWired x h =
      let (tools, r, h) =
        >>=-eq-ok
          (map_err clock_failed
            (register setting.json_valid new_registry (some (clock_tool setting))))
          _ h in
      let (_, _, e) =
        register-eq-ok setting.json_valid new_registry tools (clock_tool setting)
          (map_err-eq-ok clock_failed _ r) in
      let known : keys tools.tools ≡ codes "clock_now" ∷ [] = ap keys e in
      subst (IsWired plugins) (ok-injective h) (
        sym known,
        subst (λ l. IsInto l clock_capabilities) (sym known) clock_capabilities-IsInto,
        (inl (refl, refl), tt),
      )

  connect_client-IsWired :
      (plugin : Plugin) (c : Outcome (Error E) (Client W E)) (x out : Wiring (World W) F)
      (w : World W)
      → Memᴰ plugin plugins
      → IsWired plugins x
      → (connect_client setting plugin c x w).0 ≡ ok out
      → IsWired plugins out
  unfolding connect_client
  connect_client-IsWired plugin (err e) x out w here v h = cc
  connect_client-IsWired plugin (ok client) x out w here v h =
      let (advertised, _, h) =
        >>=-eq-ok ((discover setting.platform setting.listing plugin.name client w).0)
          (λ definitions.
            wire_plugin setting.json_valid plugin
              (caller setting.platform setting.calling setting.wrap plugin.name client) definitions
              x)
          h in
      wire_plugin-IsWired plugins setting.json_valid plugin here
        (caller setting.platform setting.calling setting.wrap plugin.name client) advertised x out v
        h

  connect_plugins-IsWired :
      (some_plugins : List Plugin) (x out : Wiring (World W) F) (w : World W)
      → ((p : Plugin) → Memᴰ p some_plugins → Memᴰ p plugins)
      → IsWired plugins x
      → (connect_plugins setting some_plugins x w).0 ≡ ok out
      → IsWired plugins out
  unfolding connect_plugins
  connect_plugins-IsWired [] x out w sub v h = subst (IsWired plugins) (ok-injective h) v
  connect_plugins-IsWired (p ∷ ps) x out w sub v h =
      elim (Outcome-cases ((connect_client setting p (client_of setting p) x w).0)) [
        | inr (e, f) ↦ absurd (not_ok (rw (f, connect_plugins) at h))
        | inl (y, f) ↦
            connect_plugins-IsWired ps y out (connect_client setting p (client_of setting p) x w).1
              (λ q m. sub q (Memᴰ.tail m))
              (connect_client-IsWired p (client_of setting p) x y w (sub p (Memᴰ.head refl)) v f)
              (rw (f, connect_plugins) at h)
      ]
    where
      not_ok : {e : Error E} → ◌≡◌ {A = Outcome (Error E) (Wiring (World W) F)} (err e) (ok out) → ⊥
      not_ok h = cc

  -- The tools of a project with these plugins: those of a wiring, whose capabilities make up the registry and whose
  -- rules the policy, which denies by default.
  abbrev pub IsToolSet : ToolSet W F → Type 0
  IsToolSet t =
      (x : Wiring (World W) F) × IsWired plugins x
      × (t.tools ≡ x.tools)
      × (Capability.new_registry setting.visit x.capabilities ≡ ok t.capabilities)
      × (new_policy deny x.rules (some setting.approver) ≡ ok t.policy)

  connect_all-IsToolSet :
      (o : Outcome (Error E) (Wiring (World W) F)) (t : ToolSet W F) (w w' : World W)
      → clock_wiring setting ≡ o
      → connect_all setting o plugins w ≡ (ok t, w')
      → IsToolSet t
  unfolding connect_all finish
  connect_all-IsToolSet (err e) t w w' started h = cc
  connect_all-IsToolSet (ok x) t w w' started h =
      let (y, connected, h) =
        >>=-eq-ok ((connect_plugins setting plugins x w).0) (finish setting) (ap (λ p. p.0) h) in
      let (capabilities, c, h) =
        >>=-eq-ok
          (map_err capabilities_failed (Capability.new_registry setting.visit y.capabilities)) _
          h in
      let (policy, p, h) =
        >>=-eq-ok (map_err policy_failed (new_policy deny y.rules (some setting.approver))) _ h in
      subst IsToolSet (ok-injective h) (
        y,
        connect_plugins-IsWired plugins x y w (λ q m. m) (clock_wiring-IsWired x started) connected,
        refl,
        map_err-eq-ok capabilities_failed _ c,
        map_err-eq-ok policy_failed _ p,
      )

  -- The tools that projectTools registers have one rule each, in the order of their registration, and the policy
  -- denies by default: the clock's rule allows it, and that of a plugin's tool has the mode of that plugin's
  -- approval, where the tool's name is a local name in the plugin's namespace. The capabilities lead to
  -- registered tools only.
  pub project_tools-IsToolSet :
      (t : ToolSet W F) (w w' : World W)
      → project_tools setting plugins w ≡ (ok t, w')
      → IsToolSet t
  unfolding project_tools
  project_tools-IsToolSet t w w' h = connect_all-IsToolSet (clock_wiring setting) t w w' refl h
