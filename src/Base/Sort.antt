-- ===== src/Base/Sort.antt =====
-- sort.Strings and sort.Slice: insertion by a strict order. Where no two elements are alike in the
-- order, every sorting algorithm gives this list.
use mathlib.Core.Path.{◌≡◌, refl, sym, subst}
use mathlib.Core.Logic.{◌⊎◌, ◌↔◌, inl, inr}
use mathlib.Core.Bool.{Bool, true, false}
use mathlib.Core.List.{List, [], ◌∷◌, Memᴰ}
use hot_take.Base.Tests.{if◌then◌else◌, Bool-cases}
use hot_take.Base.Lists.{All}

module _ {ℓ} {A : Type ℓ} (lt : A → A → Bool) where
  unfoldable pub sort_insert : A → List A → List A
  sort_insert a [] = a ∷ []
  sort_insert a (b ∷ l) = if lt b a then b ∷ sort_insert a l else a ∷ b ∷ l

  unfoldable pub sort : List A → List A
  unfolding sort_insert
  sort [] = []
  sort (a ∷ l) = sort_insert a (sort l)

  -- Nothing behind an element comes before it in the order.
  abbrev pub IsSorted : List A → Type 0
  IsSorted [] = Unit
  IsSorted (a ∷ l) = All (λ b. lt b a ≡ false) l × IsSorted l

  pub mem-sort_insert : (a x : A) (l : List A) → Memᴰ x (sort_insert a l) → (x ≡ a) ⊎ Memᴰ x l
  unfolding sort_insert
  mem-sort_insert a x [] (Memᴰ.head e) = inl e
  mem-sort_insert a x [] (Memᴰ.tail m) = inr m
  mem-sort_insert a x (b ∷ l) m = go (mem-sort_insert a x l) (lt b a) m
    where
      later : (x ≡ a) ⊎ Memᴰ x l → (x ≡ a) ⊎ Memᴰ x (b ∷ l)
      later (inl e) = inl e
      later (inr n) = inr (Memᴰ.tail n)

      go :
          (Memᴰ x (sort_insert a l) → (x ≡ a) ⊎ Memᴰ x l)
          → (t : Bool) → Memᴰ x (if t then b ∷ sort_insert a l else a ∷ b ∷ l)
          → (x ≡ a) ⊎ Memᴰ x (b ∷ l)
      go ih true (Memᴰ.head e) = inr (Memᴰ.head e)
      go ih true (Memᴰ.tail n) = later (ih n)
      go ih false (Memᴰ.head e) = inl e
      go ih false (Memᴰ.tail n) = inr n

  pub mem-sort_insert_self : (a : A) (l : List A) → Memᴰ a (sort_insert a l)
  unfolding sort_insert
  mem-sort_insert_self a [] = Memᴰ.head refl
  mem-sort_insert_self a (b ∷ l) = elim (Bool-cases (lt b a)) [
    | inl e ↦ rw (e, sort_insert) (Memᴰ.tail (mem-sort_insert_self a l))
    | inr e ↦ rw (e, sort_insert) (Memᴰ.head refl)
  ]

  pub mem-sort_insert_of_mem : (a x : A) (l : List A) → Memᴰ x l → Memᴰ x (sort_insert a l)
  unfolding sort_insert
  mem-sort_insert_of_mem a x [] m = elim m [ ]
  mem-sort_insert_of_mem a x (b ∷ l) m = elim (Bool-cases (lt b a)) [
    | inl e ↦ rw (e, sort_insert) (go m (mem-sort_insert_of_mem a x l))
    | inr e ↦ rw (e, sort_insert) (Memᴰ.tail m)
  ]
    where
      go : Memᴰ x (b ∷ l) → (Memᴰ x l → Memᴰ x (sort_insert a l)) → Memᴰ x (b ∷ sort_insert a l)
      go (Memᴰ.head e) ih = Memᴰ.head e
      go (Memᴰ.tail n) ih = Memᴰ.tail (ih n)

  pub mem-sort : (x : A) (l : List A) → Memᴰ x (sort l) ↔ Memᴰ x l
  unfolding sort
  mem-sort x [] = (λ m. m, λ m. m)
  mem-sort x (a ∷ l) =
      (λ m. back (mem-sort x l).0 (mem-sort_insert a x (sort l) m), forth (mem-sort x l).1)
    where
      back : (Memᴰ x (sort l) → Memᴰ x l) → (x ≡ a) ⊎ Memᴰ x (sort l) → Memᴰ x (a ∷ l)
      back f (inl e) = Memᴰ.head e
      back f (inr m) = Memᴰ.tail (f m)

      forth : (Memᴰ x l → Memᴰ x (sort l)) → Memᴰ x (a ∷ l) → Memᴰ x (sort_insert a (sort l))
      forth f (Memᴰ.head e) =
          subst (λ y. Memᴰ y (sort_insert a (sort l))) (sym e) (mem-sort_insert_self a (sort l))
      forth f (Memᴰ.tail m) = mem-sort_insert_of_mem a x (sort l) (f m)

  pub All-sort_insert {κ} :
      (P : A → Type κ) (a : A) (l : List A) → P a → All P l → All P (sort_insert a l)
  unfolding sort_insert
  All-sort_insert P a [] p h = (p, tt)
  All-sort_insert P a (b ∷ l) p h = elim (Bool-cases (lt b a)) [
    | inl e ↦ rw (e, sort_insert) (h.0, All-sort_insert P a l p h.1)
    | inr e ↦ rw (e, sort_insert) (p, h)
  ]

  pub All-sort {κ} : (P : A → Type κ) (l : List A) → All P l → All P (sort l)
  unfolding sort
  All-sort P [] h = tt
  All-sort P (a ∷ l) h = All-sort_insert P a (sort l) h.0 (All-sort P l h.1)

-- What a strict order needs for its sort to be sorted.
pub record IsStrictOrder {ℓ} {A : Type ℓ} (lt : A → A → Bool) : Type ℓ where
  pub asym : (a b : A) → lt a b ≡ true → lt b a ≡ false
  pub not_trans : (a b c : A) → lt b a ≡ false → lt c b ≡ false → lt c a ≡ false

module _ {ℓ} {A : Type ℓ} (lt : A → A → Bool) (o : IsStrictOrder lt) where
  All-not_lt :
      (a b : A) (l : List A)
      → lt b a ≡ false
      → All (λ c. lt c b ≡ false) l
      → All (λ c. lt c a ≡ false) l
  All-not_lt a b [] h k = tt
  All-not_lt a b (c ∷ l) h k = (o.not_trans a b c h k.0, All-not_lt a b l h k.1)

  sort_insert-IsSorted : (a : A) (l : List A) → IsSorted lt l → IsSorted lt (sort_insert lt a l)
  unfolding sort_insert
  sort_insert-IsSorted a [] h = (tt, tt)
  sort_insert-IsSorted a (b ∷ l) h = elim (Bool-cases (lt b a)) [
    | inl e ↦
        rw (e, sort_insert)
          (
            All-sort_insert lt (λ c. lt c b ≡ false) a l (o.asym b a e) h.0,
            sort_insert-IsSorted a l h.1,
          )
    | inr e ↦ rw (e, sort_insert) ((e, All-not_lt a b l e h.0), h)
  ]

  pub sort-IsSorted : (l : List A) → IsSorted lt (sort lt l)
  unfolding sort
  sort-IsSorted [] = tt
  sort-IsSorted (a ∷ l) = sort_insert-IsSorted a (sort lt l) (sort-IsSorted l)
