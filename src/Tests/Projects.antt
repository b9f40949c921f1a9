-- ===== src/Tests/Projects.antt =====
-- A project of one skill and one plugin, loaded through project/loader.go from a file system without links.
use hot_take.Base.{
  if◌then◌else◌, eqb, Bool-cases, any, Outcome, ok, Text, codes, ◌==◌, ℕ, ◌≡◌, refl, sym, subst,
  inl, inr, Bool, true, false, none, [], ◌∷◌, ◌++◌, arith, ok-injective,
}
use hot_take.Base.Strings.{has_prefix, split}
use hot_take.Base.Dict.{Dict, put}
use hot_take.Base.Int.{pos}
use hot_take.Json.{end_of_input}
use hot_take.Skill.{Skill}
use hot_take.Project.{Plugin, Manifest}
use hot_take.Project.Files.{Platform, SkillManifest, escapes}
use hot_take.Project.Files.Laws.{as_directory, IsWithin, IsResolved, IsFilepath}
use hot_take.Project.Load.{Definition, load}
use hot_take.Project.Load.Laws.{IsRoot, IsLoadedFrom, load-eq-ok}

abbrev clock : SkillManifest
clock = record {
  name = codes "clock";
  description = codes "Tells the time.";
  instructions = codes "clock.md";
  examples = codes "time" ∷ [];
  required_capabilities = codes "clock.read" ∷ [];
}

abbrev plugin : Plugin
plugin = record {
  name = codes "github";
  transport = codes "mcp_streamable_http";
  endpoint = codes "https://example.com";
  token_environment = [];
  approval = codes "ask";
  capabilities = record { name = codes "code.read"; tools = codes "get" ∷ [] } ∷ [];
}

abbrev manifest : Manifest
manifest = record {
  name = codes "demo";
  instructions = codes "agent.md";
  default_skill = codes "clock";
  skills_directory = codes "skills";
  plugins_directory = codes "plugins";
  max_steps = pos 4;
  provider = record { name = codes "openai"; model = codes "m" };
}

abbrev is_absolute : Text → Bool
is_absolute s = has_prefix s (codes "/")

abbrev relative_to : Text → Text → Text
relative_to p q = if has_prefix q (as_directory b'/' p) then codes "below" else codes ".."

abbrev pub platform : Platform ℕ
platform = record {
  separator = b'/';
  abs = λ p. ok (b'/' ∷ p);
  eval_symlinks = λ p. ok p;
  is_abs = is_absolute;
  clean = λ p. p;
  join_path = λ p q. as_directory b'/' p ++ q;
  rel = λ p q. ok (relative_to p q);
  read_dir = λ p. ok (
      record {
        name = if p == codes "/p/plugins" then codes "github" else codes "clock";
        is_dir = true;
      }
      ∷ record { name = codes "README"; is_dir = false }
      ∷ []);
  open_file = λ p. ok (record { content = codes "Be brief. "; failure = none; close_error = none });
  decode_manifest = λ s. ok (manifest, []);
  decode_plugin = λ s. ok (plugin, []);
  decode_skill = λ s. ok (clock, []);
  any = λ s. end_of_input;
}

prefix_split : (q p : Text) → has_prefix q p ≡ true → (s : Text) × (q ≡ p ++ s)
unfolding has_prefix
prefix_split q [] h = (q, refl)
prefix_split [] (d ∷ p) h = cc
prefix_split (c ∷ q) (d ∷ p) h =
    let (s, e) = prefix_split q p (ground arith) in
    let f : c ≡ d = ground arith in (s, rw (f, e) refl)

join-absolute : (p q : Text) → is_absolute p ≡ true → is_absolute (as_directory b'/' p ++ q) ≡ true
unfolding has_prefix
join-absolute [] q h = cc
join-absolute (c ∷ []) q h = elim (Bool-cases (eqb c b'/')) [
  | inl e ↦ rw e (rw e refl)
  | inr e ↦ absurd (ground arith)
]
join-absolute (c ∷ d ∷ p) q h = h

relative-IsWithin :
    (p q r : Text)
    → ◌≡◌ {A = Outcome ℕ Text} (ok (relative_to p q)) (ok r)
    → escapes b'/' r ≡ false
    → IsWithin b'/' p q
unfolding escapes ◌==◌
relative-IsWithin p q r h stays = elim (Bool-cases (has_prefix q (as_directory b'/' p))) [
  | inl e ↦ inr (prefix_split q (as_directory b'/' p) e)
  | inr e ↦
      (let s = subst (λ t. escapes b'/' t ≡ false) (sym (ok-injective h)) stays in
        let f : true ≡ false = rw e at s in cc)
]

pub documented : IsFilepath platform
unfolding has_prefix
documented = (
  λ p q h. subst (λ s. is_absolute s ≡ true) (ok-injective h) refl,
  join-absolute,
  λ p q a h. subst (IsResolved platform) (ok-injective h) (a, refl),
  λ p q r a b h stays. relative-IsWithin p q r h stays,
)

abbrev pub loaded_skill : Skill
loaded_skill = record {
  name = clock.name;
  description = clock.description;
  instructions = codes "Be brief.";
  examples = clock.examples;
  required_capabilities = clock.required_capabilities;
}

abbrev loaded : Definition
loaded = record {
  name = codes "demo";
  instructions = codes "Be brief.";
  max_steps = pos 4;
  provider = manifest.provider;
  skills = record { default_name = codes "clock"; skills = (codes "clock", loaded_skill) ∷ [] };
  plugins = plugin ∷ [];
}

loading_test : load platform (codes "p ") ≡ ok loaded
unfolding load hot_take.Base.Dict.put hot_take.Base.Strings.split
loading_test = refl

load-eq-ok_example :
    (root : Text) × IsRoot platform (codes "p ") root × IsLoadedFrom platform root loaded
load-eq-ok_example = load-eq-ok platform (codes "p ") loaded documented loading_test
