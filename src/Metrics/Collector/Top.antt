-- ===== src/Metrics/Collector/Top.antt =====
-- The list of the processes with the most memory.
use siembox_endpoint.Prelude.{
  ℕ, zero, suc, min, Bool, true, false, not, List, [], ◌∷◌, length, length-take, take, drop, All,
  In, In-append, In-append_left, In-append_right, take-append-drop, sort_by, insert_sorted,
  IsSorted, In-sort_by, sort_by-IsSorted, ◌≡◌, refl, sym, ◌∙◌, ap, subst, ◌↔◌, ◌⊎◌, inl, inr, arith,
  Bool-cases, ltb, ◌<◌, ◌≤◌,
}
use siembox_endpoint.Metrics.Collector.{ProcessInfo, ranks_before, by_mem, top}

module _ {A : Type 0} where
  All-take : (P : A → Type 0) (n : ℕ) (xs : List A) → All P xs → All P (take n xs)
  All-take P zero xs h = tt
  All-take P (suc n) [] h = tt
  All-take P (suc n) (x ∷ xs) (p, h) = (p, All-take P n xs h)

  All-drop : (P : A → Type 0) (n : ℕ) (xs : List A) → All P xs → All P (drop n xs)
  All-drop P zero xs h = h
  All-drop P (suc n) [] h = tt
  All-drop P (suc n) (x ∷ xs) (p, h) = All-drop P n xs h

  -- The first items of a sorted list are sorted, and none comes after one that is left.
  IsSorted-take :
      (le : A → A → Bool) (n : ℕ) (xs : List A)
      → IsSorted le xs
      → IsSorted le (take n xs) × All (λ a. All (λ b. le a b ≡ true) (drop n xs)) (take n xs)
  IsSorted-take le zero xs h = (tt, tt)
  IsSorted-take le (suc n) [] h = (tt, tt)
  IsSorted-take le (suc n) (x ∷ xs) (p, h) =
      let (s, r) = IsSorted-take le n xs h in
      ((All-take (λ b. le x b ≡ true) n xs p, s), (All-drop (λ b. le x b ≡ true) n xs p, r))

  length-insert_sorted :
      (le : A → A → Bool) (x : A) (ys : List A) → length (insert_sorted le x ys) ≡ suc (length ys)
  length-insert_sorted le x [] = refl
  length-insert_sorted le x (y ∷ ys) = ground (arith, length-insert_sorted le x ys)

  length-sort_by : (le : A → A → Bool) (xs : List A) → length (sort_by le xs) ≡ length xs
  unfolding sort_by
  length-sort_by le [] = refl
  length-sort_by le (x ∷ xs) =
      length-insert_sorted le x (sort_by le xs) ∙ ap (λ n. suc n) (length-sort_by le xs)

module _ {F : Type 0} where
  -- no less memory, and of those with as much no greater pid
  abbrev pub mem_le : ProcessInfo F → ProcessInfo F → Bool
  mem_le a b = not (ranks_before by_mem b a)

  mem_le_total : (a b : ProcessInfo F) → mem_le a b ≡ false → mem_le b a ≡ true
  unfolding ranks_before
  mem_le_total a b h = ground arith

  mem_le_trans : (a b c : ProcessInfo F) → mem_le a b ≡ true → mem_le b c ≡ true → mem_le a c ≡ true
  unfolding ranks_before
  mem_le_trans a b c h k = ground arith

  -- More memory comes first, and of two with as much the one with the smaller pid.
  abbrev pub Precedes : ProcessInfo F → ProcessInfo F → Type 0
  Precedes a b = (b.mem_rss < a.mem_rss) ⊎ ((a.mem_rss ≡ b.mem_rss) × (a.pid ≤ b.pid))

  abbrev pub IsRanked : List (ProcessInfo F) → Type 0
  IsRanked [] = Unit
  IsRanked (p ∷ ps) = All (Precedes p) ps × IsRanked ps

  mem_le_sound : (a b : ProcessInfo F) → mem_le a b ≡ true → Precedes a b
  unfolding ranks_before
  mem_le_sound a b h = elim (Bool-cases (ltb b.mem_rss a.mem_rss)) [
    | inl l ↦ inl (ground arith)
    | inr l ↦ inr (ground arith, ground arith)
  ]

  All-Precedes :
      (a : ProcessInfo F) (bs : List (ProcessInfo F))
      → All (λ b. mem_le a b ≡ true) bs
      → All (Precedes a) bs
  All-Precedes a [] h = tt
  All-Precedes a (b ∷ bs) (p, h) = (mem_le_sound a b p, All-Precedes a bs h)

  IsSorted-IsRanked : (ps : List (ProcessInfo F)) → IsSorted mem_le ps → IsRanked ps
  IsSorted-IsRanked [] h = tt
  IsSorted-IsRanked (p ∷ ps) (a, h) = (All-Precedes p ps a, IsSorted-IsRanked ps h)

  All-mem_le :
      (left out : List (ProcessInfo F))
      → All (λ a. All (λ b. mem_le a b ≡ true) left) out
      → All (λ a. All (Precedes a) left) out
  All-mem_le left [] h = tt
  All-mem_le left (a ∷ out) (p, h) = (All-Precedes a left p, All-mem_le left out h)

  -- What the list leaves out.
  abbrev pub IsTop : List (ProcessInfo F) → ℕ → List (ProcessInfo F) → Type 0
  IsTop list n out =
      (left : List (ProcessInfo F)) × (length out ≡ min n (length list))
      × IsRanked out
      × All (λ a. All (Precedes a) left) out
      × ((q : ProcessInfo F) → In q list ↔ (In q out ⊎ In q left))

  -- The list of the processes with the most memory has as many as it can, at most n, from the
  -- greatest memory down and, for the same memory, from the smallest pid up. Every process of the
  -- host is in it or among those left out; each that is listed has more memory than each that is
  -- left out, or as much and no greater pid.
  pub top-IsTop : (list : List (ProcessInfo F)) (n : ℕ) → IsTop list n (top list n by_mem)
  unfolding top
  top-IsTop list n =
      let sorted = sort_by mem_le list in
      let (s, r) =
        IsSorted-take mem_le n sorted (sort_by-IsSorted mem_le mem_le_total mem_le_trans list) in
      (
        drop n sorted,
        length-take n sorted ∙ ap (min n) (length-sort_by mem_le list),
        IsSorted-IsRanked (take n sorted) s,
        All-mem_le (drop n sorted) (take n sorted) r,
        λ q. (
          λ m.
              In-append q (take n sorted) (drop n sorted)
                (subst (In q) (sym (take-append-drop n sorted)) ((In-sort_by mem_le q list).1 m)),
          λ m. (In-sort_by mem_le q list).0 (
              subst (In q) (take-append-drop n sorted) (elim m [
                | inl i ↦ In-append_left q (take n sorted) (drop n sorted) i
                | inr i ↦ In-append_right q (take n sorted) (drop n sorted) i
              ])),
        ),
      )
