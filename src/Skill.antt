-- ===== src/Skill.antt =====
-- skill/skill.go. `lower` is strings.ToLower, whose Unicode tables are not modelled: everything here
-- holds for every such function. A Go map is visited in any order: `select` takes the skills in the
-- order of one such visit.
pub mod Laws
pub mod Invariant
use hot_take.Base.{
  if◌then◌else◌, ltb, eqb, length, any, Outcome, ok, ◌>>=◌, ◌>>◌, reject_if, Text, ◌==◌, ℕ, ◌+◌,
  Bool, not, ◌||◌, Option, none, some, List, [], ◌∷◌,
}
use hot_take.Base.Strings.{trim_space, is_blank, contains}
use hot_take.Base.Order.{text_ltb}
use hot_take.Base.Sort.{sort}
use hot_take.Base.Dict.{Dict, lookup, put, elem, keys}

pub record Skill : Type 0 where
  pub name : Text
  pub description : Text
  pub instructions : Text
  pub examples : List Text
  pub required_capabilities : List Text

pub data Error : Type 0 where
  missing_text : Error
  empty_capability empty_example duplicate_name default_missing : Text → Error
  empty_input : Error

pub record Registry : Type 0 where
  pub default_name : Text
  pub skills : Dict Skill

-- `validate`
unfoldable pub validate : Skill → Outcome Error (Unit {0})
validate s = do
  reject_if (is_blank s.name || is_blank s.description || is_blank s.instructions) missing_text
  reject_if (any is_blank s.required_capabilities) (empty_capability s.name)
  reject_if (any is_blank s.examples) (empty_example s.name)

-- The loop of `NewRegistry`.
unfoldable pub register_all : List Skill → Dict Skill → Outcome Error (Dict Skill)
unfolding validate
register_all [] registered = ok registered
register_all (s ∷ skills) registered = do
  validate s
  reject_if (elem s.name (keys registered)) (duplicate_name s.name)
  register_all skills (put s.name s registered)

unfoldable pub new_registry : Text → List Skill → Outcome Error Registry
unfolding register_all
new_registry default_name skills = do
  registered ← register_all skills []
  reject_if (not (elem default_name (keys registered))) (default_missing default_name)
  ok (record { default_name = default_name; skills = registered })

pub record ScoredSkill : Type 0 where
  pub skill : Skill
  pub score : ℕ

-- The order of sort.Slice in `Select`: by score, the highest first, then by name.
unfoldable pub ranks_before : ScoredSkill → ScoredSkill → Bool
ranks_before a b =
    if eqb a.score b.score then text_ltb a.skill.name b.skill.name else ltb b.score a.score

module _ (lower : Text → Text) where
  -- The loop over the examples of a skill: len(example) for each that the input contains.
  unfoldable pub score_examples : Text → List Text → ℕ
  score_examples normalised [] = 0
  score_examples normalised (example ∷ examples) =
      (if contains normalised (lower example) then length example else 0)
      + score_examples normalised examples

  unfoldable pub score_all : Text → List Skill → List ScoredSkill
  unfolding score_examples
  score_all normalised [] = []
  score_all normalised (s ∷ skills) =
      record { skill = s; score = score_examples normalised s.examples }
      ∷ score_all normalised skills

-- A value of the map, or the zero value of the type.
unfoldable pub get_or_zero : Option Skill → Skill
get_or_zero (some s) = s
get_or_zero none = record {
  name = [];
  description = [];
  instructions = [];
  examples = [];
  required_capabilities = [];
}

unfoldable pub choose : Registry → List ScoredSkill → Skill
unfolding get_or_zero
choose r [] = get_or_zero (lookup r.default_name r.skills)
choose r (best ∷ rest) =
    if ltb 0 best.score then best.skill else get_or_zero (lookup r.default_name r.skills)

-- `Select`, with the skills of the map in the order in which it is visited.
unfoldable pub select : (Text → Text) → Registry → List Skill → Text → Outcome Error Skill
unfolding choose score_all ranks_before
select lower r visited input = do
  let normalised = lower (trim_space input)
  reject_if (normalised == []) empty_input
  ok (choose r (sort ranks_before (score_all lower normalised visited)))
