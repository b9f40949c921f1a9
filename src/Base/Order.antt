-- ===== src/Base/Order.antt =====
-- The order of Go strings: by bytes, from the left.
use mathlib.Core.Path.{◌≡◌, refl}
use mathlib.Core.Bool.{Bool, true, false, ◌&&◌, ◌||◌}
use mathlib.Core.List.{[], ◌∷◌}
use native.Mathlib.Omega.{arith}
use hot_take.Base.Tests.{ltb, eqb}
use hot_take.Base.Strings.{Text}

-- s < t
unfoldable pub text_ltb : Text → Text → Bool
text_ltb s [] = false
text_ltb [] (d ∷ t) = true
text_ltb (c ∷ s) (d ∷ t) = ltb c d || eqb c d && text_ltb s t

pub text_ltb_irrefl : (s : Text) → text_ltb s s ≡ false
unfolding text_ltb
text_ltb_irrefl [] = refl
text_ltb_irrefl (c ∷ s) = ground (arith, text_ltb_irrefl s)

pub text_ltb_trans :
    (r s t : Text) → text_ltb r s ≡ true → text_ltb s t ≡ true → text_ltb r t ≡ true
unfolding text_ltb
text_ltb_trans r s [] h k = cc
text_ltb_trans r [] (d ∷ t) h k = cc
text_ltb_trans [] (c ∷ s) (d ∷ t) h k = refl
text_ltb_trans (b ∷ r) (c ∷ s) (d ∷ t) h k = ground (arith, text_ltb_trans r s t)

pub text_ltb_total : (s t : Text) → text_ltb s t ≡ false → text_ltb t s ≡ false → s ≡ t
unfolding text_ltb
text_ltb_total [] [] h k = refl
text_ltb_total [] (d ∷ t) h k = cc
text_ltb_total (c ∷ s) [] h k = cc
text_ltb_total (c ∷ s) (d ∷ t) h k = ground (arith, text_ltb_total s t)

pub text_ltb_asym : (s t : Text) → text_ltb s t ≡ true → text_ltb t s ≡ false
unfolding text_ltb
text_ltb_asym s [] h = cc
text_ltb_asym [] (d ∷ t) h = refl
text_ltb_asym (c ∷ s) (d ∷ t) h = ground (arith, text_ltb_asym s t)

-- The order is total, in the form in which a sort uses it.
pub not_text_ltb_trans :
    (r s t : Text) → text_ltb s r ≡ false → text_ltb t s ≡ false → text_ltb t r ≡ false
unfolding text_ltb
not_text_ltb_trans [] s t h k = refl
not_text_ltb_trans (b ∷ r) [] t h k = cc
not_text_ltb_trans (b ∷ r) (c ∷ s) [] h k = cc
not_text_ltb_trans (b ∷ r) (c ∷ s) (d ∷ t) h k = ground (arith, not_text_ltb_trans r s t)
