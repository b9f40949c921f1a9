-- ===== src/Base/Dict.antt =====
-- Go maps with string keys, as association lists, and maps to `struct{}` as lists of texts.
use mathlib.Core.Path.{◌≡◌, refl, sym}
use mathlib.Core.Bool.{Bool, true, false, ◌||◌}
use mathlib.Core.Option.{Option, none, some}
use mathlib.Core.List.{List, [], ◌∷◌, ◌++◌, Memᴰ}
use mathlib.Core.Logic.{inl, inr}
use native.Mathlib.Omega.{arith}
use hot_take.Base.Tests.{if◌then◌else◌, Bool-cases}
use hot_take.Base.Strings.{Text, ◌==◌, ==_iff}

abbrev pub Dict {ℓ} : Type ℓ → Type ℓ
Dict V = List (Text × V)

module _ {ℓ} {V : Type ℓ} where
  -- `v, exists := m[k]`
  unfoldable pub lookup : Text → Dict V → Option V
  lookup k [] = none
  lookup k ((j, v) ∷ m) = if j == k then some v else lookup k m

  -- `m[k] = v`
  unfoldable pub put : Text → V → Dict V → Dict V
  put k v [] = (k, v) ∷ []
  put k v ((j, w) ∷ m) = if j == k then (k, v) ∷ m else (j, w) ∷ put k v m

  pub lookup-put :
      (k j : Text) (v : V) (m : Dict V)
      → lookup j (put k v m) ≡ (if k == j then some v else lookup j m)
  unfolding lookup put
  lookup-put k j v [] = refl
  lookup-put k j v ((i, w) ∷ m) =
      ground (arith, ==_iff k j, ==_iff i k, ==_iff i j, lookup-put k j v m)

-- `_, exists := seen[k]`, and slices.Contains
unfoldable pub elem : Text → List Text → Bool
elem k [] = false
elem k (j ∷ l) = j == k || elem k l

pub elem-mem : (k : Text) (l : List Text) → elem k l ≡ true → Memᴰ k l
unfolding elem
elem-mem k [] h = cc
elem-mem k (j ∷ l) h = elim (Bool-cases (j == k)) [
  | inl e ↦ Memᴰ.head (sym ((==_iff j k).0 e))
  | inr e ↦ Memᴰ.tail (elem-mem k l (ground arith))
]

pub mem-elem : (k : Text) (l : List Text) → Memᴰ k l → elem k l ≡ true
unfolding elem
mem-elem k [] m = elim m [ ]
mem-elem k (j ∷ l) (Memᴰ.head e) = ground (arith, ==_iff j k)
mem-elem k (j ∷ l) (Memᴰ.tail m) = ground (arith, mem-elem k l m)

pub elem-append : (k : Text) (l m : List Text) → elem k (l ++ m) ≡ (elem k l || elem k m)
unfolding elem
elem-append k [] m = refl
elem-append k (j ∷ l) m = ground (arith, elem-append k l m)

-- No text stands twice.
abbrev pub IsDistinct : List Text → Type 0
IsDistinct [] = Unit
IsDistinct (k ∷ l) = (elem k l ≡ false) × IsDistinct l

pub IsDistinct-concat :
    (k : Text) (l : List Text) → IsDistinct l → elem k l ≡ false → IsDistinct (l ++ k ∷ [])
unfolding elem
IsDistinct-concat k [] d h = (refl, tt)
IsDistinct-concat k (j ∷ l) d h = (
  ground (arith, elem-append j l (k ∷ []), ==_iff j k, ==_iff k j),
  IsDistinct-concat k l d.1 (ground arith),
)

module _ {ℓ} {V : Type ℓ} where
  abbrev pub keys : Dict V → List Text
  keys [] = []
  keys ((k, v) ∷ m) = k ∷ keys m

  pub lookup-mem : (k : Text) (v : V) (m : Dict V) → lookup k m ≡ some v → Memᴰ (k, v) m
  unfolding lookup
  lookup-mem k v [] h = cc
  lookup-mem k v ((j, w) ∷ m) h = elim (Bool-cases (j == k)) [
    | inl e ↦ Memᴰ.head (ground (arith, ==_iff j k))
    | inr e ↦ Memᴰ.tail (lookup-mem k v m (ground arith))
  ]

  pub lookup-elem-keys : (k : Text) (m : Dict V) → lookup k m ≡ none → elem k (keys m) ≡ false
  unfolding lookup elem
  lookup-elem-keys k [] h = refl
  lookup-elem-keys k ((j, w) ∷ m) h = ground (arith, lookup-elem-keys k m)

  pub lookup-not_elem : (k : Text) (m : Dict V) → elem k (keys m) ≡ false → lookup k m ≡ none
  unfolding lookup elem
  lookup-not_elem k [] h = refl
  lookup-not_elem k ((j, w) ∷ m) h = ground (arith, lookup-not_elem k m)

  -- A new key goes to the end, so `put` keeps the keys distinct.
  pub keys-put_new :
      (k : Text) (v : V) (m : Dict V) → lookup k m ≡ none → put k v m ≡ m ++ (k, v) ∷ []
  unfolding lookup put
  keys-put_new k v [] h = refl
  keys-put_new k v ((j, w) ∷ m) h = ground (arith, keys-put_new k v m)
