-- ===== src/Tests/Selection.antt =====
-- Selections of the small agent: capabilities, skills and tools.
use hot_take.Base.{
  ok, Text, codes, ◌==◌, ==_iff, ℕ, ◌≡◌, refl, sym, ap, ◌∙◌, ◌↔◌, true, some, List, [], ◌∷◌, ◌++◌,
  Memᴰ, arith,
}
use hot_take.Base.Strings.{trim_space, is_blank, contains, split, lower_byte}
use hot_take.Base.Order.{text_ltb}
use hot_take.Base.Sort.{sort}
use hot_take.Base.Dict.{Dict, lookup, put, elem, elem-append, IsDistinct, IsDistinct-concat, keys}
use hot_take.Tests.Fixture.{
  lower, clock_name, tools, capabilities, providers, day, night, skills, question, clock_tool,
}
use hot_take.Capability
use hot_take.Capability.{new_registry, resolve}
use hot_take.Capability.Laws.{resolve-new_registry, Resolves, IsVisit}
use hot_take.Capability.Orders.{resolve_any_order}
use hot_take.Skill.{Skill, select}
use hot_take.Skill
use hot_take.Skill.Invariant.{IsRegistered, select-IsRegistered}
use hot_take.Skill.Laws.{IsSelected, select_lem, select_any_order}
use hot_take.Tool.{Definition, Tool}
use hot_take.Tool.Registry.{definitions}
use hot_take.Tool.Registry.Listing.{IsKeyed, IsListing, definitions_lem, definitions_total}
use hot_take.Agent.Selection.{resolve_tools}
use hot_take.Agent.Scope.{IsProvided, resolve_tools_lem}

-- Two orders of a visit
abbrev in_order : Text → List Text → List Text
in_order name unique = unique

abbrev rotated : Text → List Text → List Text
rotated name [] = []
rotated name (t ∷ unique) = unique ++ t ∷ []

in_order-IsVisit : IsVisit in_order
in_order-IsVisit name unique d = (d, λ k. refl)

rotated-IsVisit : IsVisit rotated
unfolding elem
rotated-IsVisit name [] d = (tt, λ k. refl)
rotated-IsVisit name (t ∷ unique) d =
    (IsDistinct-concat t unique d.1 d.0, λ k. ground (arith, elem-append k unique (t ∷ [])))

providers_test : new_registry in_order providers ≡ ok capabilities
unfolding new_registry hot_take.Base.Strings.split ◌==◌ hot_take.Base.Strings.trim_space elem
    hot_take.Base.Dict.put hot_take.Base.Sort.sort
providers_test = refl

-- Two capabilities, in the two orders of a visit.
abbrev forth : Dict (List Text)
forth = (codes "a.b", codes "y" ∷ codes " x" ∷ codes "y" ∷ []) ∷ (codes "c.d", codes "z" ∷ []) ∷ []

abbrev back : Dict (List Text)
back = (codes "c.d", codes "z" ∷ []) ∷ (codes "a.b", codes "y" ∷ codes " x" ∷ codes "y" ∷ []) ∷ []

abbrev forth_registry : Capability.Registry
forth_registry = record {
  providers = (codes "a.b", codes "x" ∷ codes "y" ∷ []) ∷ (codes "c.d", codes "z" ∷ []) ∷ [];
}

forth_test : new_registry in_order forth ≡ ok forth_registry
unfolding new_registry hot_take.Base.Strings.split ◌==◌ hot_take.Base.Strings.trim_space elem
    hot_take.Base.Dict.put hot_take.Base.Sort.sort hot_take.Base.Order.text_ltb
forth_test = refl

select_test : select lower skills (day ∷ night ∷ []) question ≡ ok day
unfolding select ◌==◌ hot_take.Base.Strings.trim_space hot_take.Base.Sort.sort
    hot_take.Base.Strings.contains hot_take.Base.Strings.lower_byte
select_test = refl

resolve_test : resolve_tools capabilities (codes "clock.read" ∷ []) [] ≡ ok (clock_name ∷ [])
unfolding resolve_tools resolve lookup ◌==◌ elem
resolve_test = refl

definitions_test : definitions tools (clock_name ∷ []) ≡ ok (clock_tool.definition ∷ [])
unfolding definitions elem lookup ◌==◌ hot_take.Base.Sort.sort
definitions_test = refl

back_test :
    new_registry rotated back
    ≡ ok (record {
      providers = (codes "c.d", codes "z" ∷ []) ∷ (codes "a.b", codes "x" ∷ codes "y" ∷ []) ∷ [];
    })
unfolding new_registry hot_take.Base.Strings.split ◌==◌ hot_take.Base.Strings.trim_space elem
    hot_take.Base.Dict.put hot_take.Base.Sort.sort hot_take.Base.Order.text_ltb
back_test = refl

IsDistinct-test : IsDistinct (keys providers) × IsDistinct (keys forth) × IsDistinct (keys back)
unfolding elem ◌==◌
IsDistinct-test = ((refl, tt), (refl, (refl, tt)), (refl, (refl, tt)))

same_test : (k : Text) → lookup k forth ≡ lookup k back
unfolding lookup
same_test k = ground (arith, ==_iff (codes "a.b") k, ==_iff (codes "c.d") k)

resolve-new_registry_example : Resolves providers capabilities (codes "clock.read")
resolve-new_registry_example =
    resolve-new_registry in_order providers capabilities (codes "clock.read") in_order-IsVisit
      IsDistinct-test.0 providers_test

resolve_any_order_example :
    (r' : Capability.Registry) × (new_registry rotated back ≡ ok r')
    × ((name : Text) → resolve forth_registry name ≡ resolve r' name)
resolve_any_order_example =
    resolve_any_order in_order rotated forth back forth_registry in_order-IsVisit rotated-IsVisit
      IsDistinct-test.1 IsDistinct-test.2 same_test forth_test

select_lem_example : IsSelected lower skills (day ∷ night ∷ []) question
select_lem_example = select_lem lower skills (day ∷ night ∷ []) question

distinct_skills_test :
    (a b : Skill) → Memᴰ a (day ∷ night ∷ []) → Memᴰ b (day ∷ night ∷ []) → a.name ≡ b.name → a ≡ b
distinct_skills_test a b (Memᴰ.head p) (Memᴰ.head q) e = p ∙ sym q
distinct_skills_test a b (Memᴰ.head p) (Memᴰ.tail (Memᴰ.head q)) e = ground arith
distinct_skills_test a b (Memᴰ.tail (Memᴰ.head p)) (Memᴰ.head q) e = ground arith
distinct_skills_test a b (Memᴰ.tail (Memᴰ.head p)) (Memᴰ.tail (Memᴰ.head q)) e = p ∙ sym q
distinct_skills_test a b (Memᴰ.tail (Memᴰ.tail m)) n e = elim m [ ]
distinct_skills_test a b (Memᴰ.head p) (Memᴰ.tail (Memᴰ.tail n)) e = elim n [ ]
distinct_skills_test a b (Memᴰ.tail (Memᴰ.head p)) (Memᴰ.tail (Memᴰ.tail n)) e = elim n [ ]

same_skills_test : (k : Skill) → Memᴰ k (day ∷ night ∷ []) ↔ Memᴰ k (night ∷ day ∷ [])
same_skills_test k = (swap day night, swap night day)
  where
    swap : (s t : Skill) → Memᴰ k (s ∷ t ∷ []) → Memᴰ k (t ∷ s ∷ [])
    swap s t (Memᴰ.head e) = Memᴰ.tail (Memᴰ.head e)
    swap s t (Memᴰ.tail (Memᴰ.head e)) = Memᴰ.head e
    swap s t (Memᴰ.tail (Memᴰ.tail m)) = elim m [ ]

select_any_order_example :
    select lower skills (day ∷ night ∷ []) question
    ≡ select lower skills (night ∷ day ∷ []) question
select_any_order_example =
    select_any_order lower skills (day ∷ night ∷ []) (night ∷ day ∷ []) question
      distinct_skills_test same_skills_test

resolve_tools_lem_example :
    IsDistinct (clock_name ∷ [])
    × ((k : Text)
        → elem k (clock_name ∷ []) ≡ true
        → IsProvided capabilities (codes "clock.read" ∷ []) k)
resolve_tools_lem_example =
    resolve_tools_lem capabilities (codes "clock.read" ∷ []) (clock_name ∷ []) resolve_test

keyed_test : IsKeyed tools
unfolding lookup
keyed_test key t h = ground (arith, ==_iff clock_name key)

definitions_lem_example : IsListing tools (clock_name ∷ []) (clock_tool.definition ∷ [])
definitions_lem_example =
    definitions_lem tools keyed_test (clock_name ∷ []) (clock_tool.definition ∷ []) definitions_test

registered_test :
    (k : Text)
    → elem k (clock_name ∷ []) ≡ true
    → (t : Tool ℕ Text) × (lookup k tools.tools ≡ some t)
unfolding elem lookup
registered_test k h = (clock_tool, ground arith)

definitions_total_example : (out : List Definition) × (definitions tools (clock_name ∷ []) ≡ ok out)
definitions_total_example = definitions_total tools (clock_name ∷ []) registered_test

skills_test : Skill.new_registry (codes "night") (day ∷ night ∷ []) ≡ ok skills
unfolding Skill.new_registry hot_take.Base.Strings.is_blank elem put
skills_test = refl

held_test :
    (k : Skill) → Memᴰ k (day ∷ night ∷ []) → (key : Text) × (lookup key skills.skills ≡ some k)
unfolding lookup ◌==◌
held_test k (Memᴰ.head e) = (codes "day", ap some (sym e))
held_test k (Memᴰ.tail (Memᴰ.head e)) = (codes "night", ap some (sym e))
held_test k (Memᴰ.tail (Memᴰ.tail m)) = elim m [ ]

select-IsRegistered_example : IsRegistered skills day
select-IsRegistered_example =
    select-IsRegistered lower (codes "night") (day ∷ night ∷ []) (day ∷ night ∷ []) skills question
      day skills_test held_test select_test
