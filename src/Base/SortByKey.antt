-- ===== src/Base/SortByKey.antt =====
-- Sorting by a key that is a text: sort.Strings, and sort.Slice by a name.
use mathlib.Core.Path.{◌≡◌, refl, ap, sym, subst}
use mathlib.Core.Logic.{inl, inr}
use mathlib.Core.Bool.{Bool, false, ◌||◌}
use mathlib.Core.List.{List, [], ◌∷◌, map}
use native.Mathlib.Omega.{arith}
use hot_take.Base.Tests.{Bool-cases}
use hot_take.Base.Strings.{Text, ◌==◌, ==_iff}
use hot_take.Base.Order.{text_ltb, text_ltb_asym, not_text_ltb_trans}
use hot_take.Base.Sort.{sort_insert, sort, IsStrictOrder}
use hot_take.Base.Dict.{elem, IsDistinct}

module _ {ℓ} {A : Type ℓ} (key : A → Text) where
  abbrev pub by_key : A → A → Bool
  by_key a b = text_ltb (key a) (key b)

  pub by_key-IsStrictOrder : IsStrictOrder by_key
  by_key-IsStrictOrder = record {
    asym = λ a b h. text_ltb_asym (key a) (key b) h;
    not_trans = λ a b c h k. not_text_ltb_trans (key a) (key b) (key c) h k;
  }

  elem-sort_insert :
      (k : Text) (a : A) (l : List A)
      → elem k (map key (sort_insert by_key a l)) ≡ ((key a == k) || elem k (map key l))
  unfolding sort_insert elem
  elem-sort_insert k a [] = refl
  elem-sort_insert k a (b ∷ l) = ground (arith, elem-sort_insert k a l)

  -- A sort keeps the set of keys.
  pub elem-sort : (k : Text) (l : List A) → elem k (map key (sort by_key l)) ≡ elem k (map key l)
  unfolding sort elem
  elem-sort k [] = refl
  elem-sort k (a ∷ l) = rw (elem-sort_insert k a (sort by_key l)) (rw (elem-sort k l))

  IsDistinct-sort_insert :
      (a : A) (l : List A)
      → elem (key a) (map key l) ≡ false
      → IsDistinct (map key l)
      → IsDistinct (map key (sort_insert by_key a l))
  unfolding sort_insert elem
  IsDistinct-sort_insert a [] h k = (refl, tt)
  IsDistinct-sort_insert a (b ∷ l) h k = elim (Bool-cases (by_key b a)) [
    | inl e ↦
        rw (e, sort_insert)
          (
            ground (
              arith,
              elem-sort_insert (key b) a l,
              ==_iff (key a) (key b),
              ==_iff (key b) (key a),
            ),
            IsDistinct-sort_insert a l (ground arith) k.1,
          )
    | inr e ↦ rw (e, sort_insert) (h, k)
  ]

  pub IsDistinct-sort : (l : List A) → IsDistinct (map key l) → IsDistinct (map key (sort by_key l))
  unfolding sort
  IsDistinct-sort [] h = tt
  IsDistinct-sort (a ∷ l) h =
      IsDistinct-sort_insert a (sort by_key l) (rw (elem-sort (key a) l) h.0)
        (IsDistinct-sort l h.1)

map-id : (l : List Text) → map (λ t. t) l ≡ l
map-id [] = refl
map-id (t ∷ l) = ap (λ m. t ∷ m) (map-id l)

pub elem-sort_texts : (k : Text) (l : List Text) → elem k (sort text_ltb l) ≡ elem k l
elem-sort_texts k l = cc (elem-sort (λ t. t) k l, map-id l, map-id (sort text_ltb l))

pub IsDistinct-sort_texts : (l : List Text) → IsDistinct l → IsDistinct (sort text_ltb l)
IsDistinct-sort_texts l d =
    subst IsDistinct (map-id (sort text_ltb l))
      (IsDistinct-sort (λ t. t) l (subst IsDistinct (sym (map-id l)) d))

pub text_ltb-IsStrictOrder : IsStrictOrder text_ltb
text_ltb-IsStrictOrder = by_key-IsStrictOrder (λ t. t)
