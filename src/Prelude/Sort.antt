-- ===== src/Prelude/Sort.antt =====
-- `sort.Strings` and the byte order of Go strings.
use siembox_endpoint.Prelude.Tests.{ltb, ◌==◌, if◌then◌else◌, Bool-cases}
use siembox_endpoint.Prelude.Text.{Bytes}
use siembox_endpoint.Prelude.Lists.{In, All}
use mathlib.Core.Path.{◌≡◌, refl}
use mathlib.Core.Logic.{◌↔◌, ◌⊎◌, inl, inr}
use mathlib.Core.Bool.{Bool, true, false, ◌&&◌, ◌||◌}
use mathlib.Core.List.{List, [], ◌∷◌}
use native.Mathlib.Omega.{arith}

-- `s <= t`, byte by byte.
abbrev pub str_le : Bytes → Bytes → Bool
str_le [] t = true
str_le (x ∷ s) [] = false
str_le (x ∷ s) (y ∷ t) = ltb x y || (x == y && str_le s t)

pub str_le_refl : (s : Bytes) → str_le s s ≡ true
str_le_refl [] = refl
str_le_refl (x ∷ s) = ground (arith, str_le_refl s)

pub str_le_total : (s t : Bytes) → str_le s t ≡ false → str_le t s ≡ true
str_le_total [] t h = cc
str_le_total (x ∷ s) [] h = refl
str_le_total (x ∷ s) (y ∷ t) h = ground (arith, str_le_total s t)

pub str_le_trans : (s t u : Bytes) → str_le s t ≡ true → str_le t u ≡ true → str_le s u ≡ true
str_le_trans [] t u h k = refl
str_le_trans (x ∷ s) [] u h k = cc
str_le_trans (x ∷ s) (y ∷ t) [] h k = cc
str_le_trans (x ∷ s) (y ∷ t) (z ∷ u) h k = ground (arith, str_le_trans s t u)

pub str_le_antisymm : (s t : Bytes) → str_le s t ≡ true → str_le t s ≡ true → s ≡ t
str_le_antisymm [] [] h k = refl
str_le_antisymm [] (y ∷ t) h k = cc
str_le_antisymm (x ∷ s) [] h k = cc
str_le_antisymm (x ∷ s) (y ∷ t) h k = ground (arith, str_le_antisymm s t)

-- Insertion sort by an order given as a test: `sort.Strings`, `sort.Slice`, `sort.SliceStable`.
module _ {A : Type 0} (le : A → A → Bool) where
  abbrev pub insert_sorted : A → List A → List A
  insert_sorted x [] = x ∷ []
  insert_sorted x (y ∷ ys) =
      let rest = insert_sorted x ys in if le x y then x ∷ y ∷ ys else y ∷ rest

  unfoldable pub sort_by : List A → List A
  sort_by [] = []
  sort_by (x ∷ xs) = insert_sorted x (sort_by xs)

  -- every item is below all that follow it
  abbrev pub IsSorted : List A → Type 0
  IsSorted [] = Unit
  IsSorted (x ∷ xs) = All (λ y. le x y ≡ true) xs × IsSorted xs

  pub In-insert_sorted : (a x : A) (ys : List A) → In a (insert_sorted x ys) ↔ ((x ≡ a) ⊎ In a ys)
  In-insert_sorted a x [] = (λ h. h, λ h. h)
  In-insert_sorted a x (y ∷ ys) = elim (Bool-cases (le x y)) [
    | inl e ↦ rw e (λ h. h, λ h. h)
    | inr e ↦ rw e (ground (arith, In-insert_sorted a x ys))
  ]

  pub In-sort_by : (a : A) (xs : List A) → In a (sort_by xs) ↔ In a xs
  unfolding sort_by
  In-sort_by a [] = (λ h. h, λ h. h)
  In-sort_by a (x ∷ xs) = ground (arith, In-sort_by a xs, In-insert_sorted a x (sort_by xs))

  pub All-insert_sorted :
      (P : A → Type 0) (x : A) (ys : List A) → P x → All P ys → All P (insert_sorted x ys)
  All-insert_sorted P x [] px h = (px, tt)
  All-insert_sorted P x (y ∷ ys) px (py, h) = elim (Bool-cases (le x y)) [
    | inl e ↦ rw e (px, (py, h))
    | inr e ↦ rw e (py, All-insert_sorted P x ys px h)
  ]

  -- The order as a parameter's laws.
  module _ (total : (a b : A) → le a b ≡ false → le b a ≡ true)
      (trans : (a b c : A) → le a b ≡ true → le b c ≡ true → le a c ≡ true) where
    All-le :
        (a b : A) (ys : List A)
        → le a b ≡ true
        → All (λ y. le b y ≡ true) ys
        → All (λ y. le a y ≡ true) ys
    All-le a b [] e h = tt
    All-le a b (y ∷ ys) e (p, h) = (trans a b y e p, All-le a b ys e h)

    insert_sorted-IsSorted : (x : A) (ys : List A) → IsSorted ys → IsSorted (insert_sorted x ys)
    insert_sorted-IsSorted x [] h = (tt, tt)
    insert_sorted-IsSorted x (y ∷ ys) (hy, h) = elim (Bool-cases (le x y)) [
      | inl e ↦ rw e ((e, All-le x y ys e hy), (hy, h))
      | inr e ↦ rw e (
        All-insert_sorted (λ z. le y z ≡ true) x ys (total x y e) hy,
        insert_sorted-IsSorted x ys h,
      )
    ]

    pub sort_by-IsSorted : (xs : List A) → IsSorted (sort_by xs)
    unfolding sort_by
    sort_by-IsSorted [] = tt
    sort_by-IsSorted (x ∷ xs) = insert_sorted-IsSorted x (sort_by xs) (sort_by-IsSorted xs)
