-- ===== src/Base/Strings.antt =====
-- Go strings as lists of bytes, with the functions of package strings that the program calls.
-- Where the source ranges over the runes of a string its tests accept ASCII characters only. A byte
-- from 128 up belongs to a rune from 128 up, so a walk over the bytes gives the same answer.
use Prim.Native.Char.{code}
use Prim.Native.Nat.{ℕ, zero, suc}
use Prim.Native.String.{String}
use mathlib.Core.Path.{◌≡◌, refl}
use mathlib.Core.Logic.{◌↔◌}
use mathlib.Core.Bool.{Bool, true, false, ◌&&◌, ◌||◌}
use mathlib.Core.List.{List, [], ◌∷◌, ◌++◌, reverse}
use native.Mathlib.Omega.{arith}
use hot_take.Base.Tests.{leb, eqb, if◌then◌else◌}
use Prim.Native.Nat.{◌+◌}

abbrev pub Text : Type 0
Text = List ℕ

-- The code points of a literal: its bytes, since every literal of the model is ASCII.
abbrev pub codes : String → Text
codes String.[] = []
codes (String.◌∷◌ c s) = code c ∷ codes s

infix 50 ◌==◌
unfoldable pub ◌==◌ : Text → Text → Bool
[] == [] = true
[] == (d ∷ t) = false
(c ∷ s) == [] = false
(c ∷ s) == (d ∷ t) = eqb c d && s == t

pub ==_iff : (s t : Text) → ((s == t) ≡ true) ↔ (s ≡ t)
unfolding ◌==◌
==_iff [] [] = ground arith
==_iff [] (d ∷ t) = ground arith
==_iff (c ∷ s) [] = ground arith
==_iff (c ∷ s) (d ∷ t) = ground (arith, ==_iff s t)

pub ==_refl : (s : Text) → (s == s) ≡ true
==_refl s = (==_iff s s).1 refl

-- The number of bytes of the white-space character that a text begins with, 0 if there is none:
-- the characters of unicode.IsSpace in UTF-8.
unfoldable pub space_width : Text → ℕ
space_width [] = 0
space_width (a ∷ []) = if leb 9 a && leb a 13 || eqb a 32 then 1 else 0
space_width (a ∷ b ∷ []) =
    if leb 9 a && leb a 13 || eqb a 32
    then 1
    else if eqb a 0xc2 && (eqb b 0x85 || eqb b 0xa0)
    then 2
    else 0
space_width (a ∷ b ∷ c ∷ s) =
    if leb 9 a && leb a 13 || eqb a 32
    then 1
    else if eqb a 0xc2 && (eqb b 0x85 || eqb b 0xa0)
    then 2
    else if eqb a 0xe1 && eqb b 0x9a && eqb c 0x80
        || eqb a 0xe2
          && eqb b 0x80
          && (leb 0x80 c && leb c 0x8a || eqb c 0xa8 || eqb c 0xa9 || eqb c 0xaf)
        || eqb a 0xe2 && eqb b 0x81 && eqb c 0x9f
        || eqb a 0xe3 && eqb b 0x80 && eqb c 0x80
    then 3
    else 0

-- The same character at the end of a text, which is given backwards.
unfoldable pub space_width_back : Text → ℕ
unfolding space_width
space_width_back [] = 0
space_width_back (c ∷ []) = space_width (c ∷ [])
space_width_back (c ∷ b ∷ []) =
    if leb 9 c && leb c 13 || eqb c 32 then 1 else if eqb (space_width (b ∷ c ∷ [])) 2 then 2 else 0
space_width_back (c ∷ b ∷ a ∷ s) =
    if leb 9 c && leb c 13 || eqb c 32
    then 1
    else if eqb (space_width (b ∷ c ∷ [])) 2
    then 2
    else if eqb (space_width (a ∷ b ∷ c ∷ [])) 3
    then 3
    else 0

-- Drops bytes: those of the current character, and then every white space, by its width.
unfoldable pub skip_spaces : (Text → ℕ) → ℕ → Text → Text
skip_spaces width k [] = []
skip_spaces width (suc k) (c ∷ s) = skip_spaces width k s
skip_spaces width zero (c ∷ s) = elim (width (c ∷ s)) [
  | zero ↦ c ∷ s
  | suc k ↦ skip_spaces width k s
]

-- strings.TrimSpace
unfoldable pub trim_space : Text → Text
unfolding skip_spaces space_width space_width_back
trim_space s = reverse (skip_spaces space_width_back 0 (reverse (skip_spaces space_width 0 s)))

-- strings.TrimSpace(s) == ""
unfoldable pub is_blank : Text → Bool
unfolding trim_space ◌==◌
is_blank s = trim_space s == []

-- strings.HasPrefix(s, p)
unfoldable pub has_prefix : Text → Text → Bool
has_prefix s [] = true
has_prefix [] (d ∷ p) = false
has_prefix (c ∷ s) (d ∷ p) = eqb c d && has_prefix s p

-- strings.Contains(s, p)
unfoldable pub contains : Text → Text → Bool
unfolding has_prefix
contains [] p = has_prefix [] p
contains (c ∷ s) p = has_prefix (c ∷ s) p || contains s p

-- strings.Split(s, sep) at a separator of one byte, which has at least one part.
unfoldable pub split_from : ℕ → Text → Text → List Text
split_from sep cur [] = cur ∷ []
split_from sep cur (c ∷ s) =
    let rest = split_from sep [] s in
    let longer = split_from sep (cur ++ c ∷ []) s in if eqb c sep then cur ∷ rest else longer

unfoldable pub split : Text → ℕ → List Text
unfolding split_from
split s sep = split_from sep [] s

-- strings.Join(parts, sep)
unfoldable pub join : List Text → Text → Text
join [] sep = []
join (p ∷ []) sep = p
join (p ∷ q ∷ ps) sep = p ++ sep ++ join (q ∷ ps) sep

abbrev pub is_lower : ℕ → Bool
is_lower c = leb b'a' c && leb c b'z'

abbrev pub is_upper : ℕ → Bool
is_upper c = leb b'A' c && leb c b'Z'

abbrev pub is_digit : ℕ → Bool
is_digit c = leb b'0' c && leb c b'9'

-- strings.ToLower on ASCII text
unfoldable pub lower_byte : ℕ → ℕ
lower_byte c = if is_upper c then c + 32 else c
