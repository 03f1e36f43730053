-- ===== src/Prelude/Strict.antt =====
-- Strictly sorted lists: what sorting makes of different items, and that the items determine them.
use siembox_endpoint.Prelude.Tests.{Bool-cases}
use siembox_endpoint.Prelude.Lists.{In, All}
use siembox_endpoint.Prelude.Sort.{insert_sorted, sort_by, In-sort_by, All-insert_sorted}
use mathlib.Core.Path.{◌≡◌, refl, sym, subst}
use mathlib.Core.Logic.{◌↔◌, ◌⊎◌, inl, inr}
use mathlib.Core.Bool.{Bool, true, false, not}
use mathlib.Core.List.{List, [], ◌∷◌}

module _ {A : Type 0} where
  abbrev pub IsDistinct : List A → Type 0
  IsDistinct [] = Unit
  IsDistinct (x ∷ xs) = (In x xs → ⊥) × IsDistinct xs

  pub In-All : (P : A → Type 0) (a : A) (xs : List A) → In a xs → All P xs → P a
  In-All P a (x ∷ xs) (inl e) (h, hs) = subst P e h
  In-All P a (x ∷ xs) (inr m) (h, hs) = In-All P a xs m hs
  In-All P a [] m h = absurd m

module _ {A : Type 0} (lt : A → A → Bool) where
  -- the test that `sort.Slice` makes of a strict comparison
  abbrev pub le_of : A → A → Bool
  le_of a b = not (lt b a)

  abbrev pub IsStrict : List A → Type 0
  IsStrict [] = Unit
  IsStrict (x ∷ xs) = All (λ y. lt x y ≡ true) xs × IsStrict xs

  module _ (irrefl : (a : A) → lt a a ≡ false)
      (trans : (a b c : A) → lt a b ≡ true → lt b c ≡ true → lt a c ≡ true)
      (total : (a b : A) → (lt a b ≡ true) ⊎ (lt b a ≡ true) ⊎ (a ≡ b)) where
    All-lt :
        (a b : A) (ys : List A)
        → lt a b ≡ true
        → All (λ y. lt b y ≡ true) ys
        → All (λ y. lt a y ≡ true) ys
    All-lt a b [] e h = tt
    All-lt a b (y ∷ ys) e (p, h) = (trans a b y e p, All-lt a b ys e h)

    before : (x y : A) (ys : List A) → lt y x ≡ false → (In x (y ∷ ys) → ⊥) → lt x y ≡ true
    before x y ys e n = elim (total x y) [
      | inl l ↦ l
      | inr (inl l) ↦ cc (e, l)
      | inr (inr q) ↦ absurd (n (inl (sym q)))
    ]

    insert_sorted-IsStrict :
        (x : A) (ys : List A) → (In x ys → ⊥) → IsStrict ys → IsStrict (insert_sorted le_of x ys)
    insert_sorted-IsStrict x [] n h = (tt, tt)
    insert_sorted-IsStrict x (y ∷ ys) n (hy, h) = elim (Bool-cases (lt y x)) [
      | inl e ↦ rw e (
        All-insert_sorted le_of (λ z. lt y z ≡ true) x ys e hy,
        insert_sorted-IsStrict x ys (λ m. n (inr m)) h,
      )
      | inr e ↦ rw e ((before x y ys e n, All-lt x y ys (before x y ys e n) hy), (hy, h))
    ]

    pub sort_by-IsStrict : (xs : List A) → IsDistinct xs → IsStrict (sort_by le_of xs)
    unfolding sort_by
    sort_by-IsStrict [] h = tt
    sort_by-IsStrict (x ∷ xs) (n, h) =
        insert_sorted-IsStrict x (sort_by le_of xs) (λ m. n ((In-sort_by le_of x xs).0 m))
          (sort_by-IsStrict xs h)

    not_after : (x : A) (xs : List A) → All (λ y. lt x y ≡ true) xs → In x xs → ⊥
    not_after x xs h m = cc (In-All (λ y. lt x y ≡ true) x xs m h, irrefl x)

    same_head :
        (x y : A) (xs ys : List A)
        → All (λ z. lt x z ≡ true) xs
        → All (λ z. lt y z ≡ true) ys
        → In x (y ∷ ys)
        → In y (x ∷ xs)
        → x ≡ y
    same_head x y xs ys hx hy (inl e) n = sym e
    same_head x y xs ys hx hy (inr m) (inl e) = e
    same_head x y xs ys hx hy (inr m) (inr n) =
        let yx = In-All (λ z. lt y z ≡ true) x ys m hy in
        let xy = In-All (λ z. lt x z ≡ true) y xs n hx in cc (trans x y x xy yx, irrefl x)

    in_tail :
        (x a : A) (xs ys : List A) → All (λ y. lt x y ≡ true) xs → In a xs → In a (x ∷ ys) → In a ys
    in_tail x a xs ys h m (inr n) = n
    in_tail x a xs ys h m (inl e) = absurd (not_after x xs h (subst (λ z. In z xs) (sym e) m))

    -- Two strictly sorted lists of the same items are one list.
    pub strict_unique :
        (xs ys : List A) → IsStrict xs → IsStrict ys → ((a : A) → In a xs ↔ In a ys) → xs ≡ ys
    strict_unique [] [] h k same = refl
    strict_unique [] (y ∷ ys) h k same = absurd ((same y).1 (inl refl))
    strict_unique (x ∷ xs) [] h k same = absurd ((same x).0 (inl refl))
    strict_unique (x ∷ xs) (y ∷ ys) (hx, h) (hy, k) same =
        let e = same_head x y xs ys hx hy ((same x).0 (inl refl)) ((same y).1 (inl refl)) in
        let hx' = subst (λ z. All (λ w. lt z w ≡ true) xs) e hx in
        let tails = strict_unique xs ys h k (λ a. (
          λ m. in_tail y a xs ys hx' m ((same a).0 (inr m)),
          λ m.
              in_tail x a ys xs (subst (λ z. All (λ w. lt z w ≡ true) ys) (sym e) hy) m
                ((same a).1 (inr m)),
        )) in
        cc (e, tails)
