-- ===== src/Base/SortedTexts.antt =====
-- A set of texts has one sorted list, in whatever order it is visited.
use mathlib.Core.Path.{◌≡◌, refl, ap, ap₂, sym, ◌∙◌}
use mathlib.Core.Logic.{◌⊎◌, inl, inr}
use mathlib.Core.Bool.{true, false}
use mathlib.Core.List.{List, [], ◌∷◌}
use native.Mathlib.Omega.{arith}
use hot_take.Base.Tests.{Bool-cases}
use hot_take.Base.Lists.{All-mem}
use hot_take.Base.Strings.{Text, ◌==◌, ==_iff}
use hot_take.Base.Order.{text_ltb, text_ltb_total}
use hot_take.Base.Sort.{sort, IsSorted, sort-IsSorted}
use hot_take.Base.Dict.{elem, elem-mem, IsDistinct}
use hot_take.Base.SortByKey.{elem-sort_texts, IsDistinct-sort_texts, text_ltb-IsStrictOrder}

-- The lists have the same elements.
abbrev pub HasSameElements : List Text → List Text → Type 0
HasSameElements l m = (k : Text) → elem k l ≡ elem k m

below_head :
    (a b : Text) (m : List Text)
    → IsSorted text_ltb (b ∷ m)
    → elem a (b ∷ m) ≡ true
    → (a ≡ b) ⊎ (text_ltb a b ≡ false)
unfolding elem
below_head a b m h e = elim (Bool-cases (b == a)) [
  | inl f ↦ inl (sym ((==_iff b a).0 f))
  | inr f ↦ inr (All-mem (λ c. text_ltb c b ≡ false) m h.0 (elem-mem a m (ground arith)))
]

elem_head : (a : Text) (l : List Text) → elem a (a ∷ l) ≡ true
unfolding elem
elem_head a l = ground (arith, ==_iff a a)

heads_eq :
    (a b : Text) (l m : List Text)
    → IsSorted text_ltb (a ∷ l)
    → IsSorted text_ltb (b ∷ m)
    → HasSameElements (a ∷ l) (b ∷ m)
    → a ≡ b
heads_eq a b l m s s' same = elim (below_head a b m s' (sym (same a) ∙ elem_head a l)) [
  | inl e ↦ e
  | inr h ↦ elim (below_head b a l s (same b ∙ elem_head b m)) [
    | inl e ↦ sym e
    | inr k ↦ text_ltb_total a b h k
  ]
]

tails_same :
    (a b : Text) (l m : List Text)
    → a ≡ b
    → elem a l ≡ false
    → elem b m ≡ false
    → HasSameElements (a ∷ l) (b ∷ m)
    → HasSameElements l m
unfolding elem
tails_same a b l m e d d' same k = elim (Bool-cases (a == k)) [
  | inl f ↦
      ap (λ t. elem t l) (sym ((==_iff a k).0 f))
      ∙ d
      ∙ sym d'
      ∙ ap (λ t. elem t m) (sym e ∙ (==_iff a k).0 f)
  | inr f ↦ ground (arith, same k, ==_iff a k, ==_iff b k)
]

elem_absurd : (a : Text) (l : List Text) → HasSameElements [] (a ∷ l) → ⊥
unfolding elem
elem_absurd a l same = clash (same a ∙ elem_head a l)
  where
    clash : false ≡ true → ⊥
    clash h = cc

pub IsSorted-unique :
    (l m : List Text)
    → IsSorted text_ltb l
    → IsSorted text_ltb m
    → IsDistinct l
    → IsDistinct m
    → HasSameElements l m
    → l ≡ m
IsSorted-unique [] [] s s' d d' same = refl
IsSorted-unique [] (b ∷ m) s s' d d' same = absurd (elem_absurd b m same)
IsSorted-unique (a ∷ l) [] s s' d d' same = absurd (elem_absurd a l (λ k. sym (same k)))
IsSorted-unique (a ∷ l) (b ∷ m) s s' d d' same =
    let e = heads_eq a b l m s s' same in
    ap₂ ◌∷◌ e (IsSorted-unique l m s.1 s'.1 d.1 d'.1 (tails_same a b l m e d.0 d'.0 same))

-- The sort of a set of texts does not depend on the order in which it is visited.
pub sort_any_order :
    (l m : List Text)
    → IsDistinct l
    → IsDistinct m
    → HasSameElements l m
    → sort text_ltb l ≡ sort text_ltb m
sort_any_order l m d d' same =
    IsSorted-unique (sort text_ltb l) (sort text_ltb m)
      (sort-IsSorted text_ltb text_ltb-IsStrictOrder l)
      (sort-IsSorted text_ltb text_ltb-IsStrictOrder m) (IsDistinct-sort_texts l d)
      (IsDistinct-sort_texts m d') (λ k. elem-sort_texts k l ∙ same k ∙ sym (elem-sort_texts k m))
