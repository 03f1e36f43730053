-- ===== src/Packages/Collect.antt =====
-- internal/packages/packages.go: `CollectFrom`. What a source answers, and whether the context had
-- ended when its turn came, is part of the source.
use siembox_endpoint.Prelude.{
  ℕ, false, Option, none, some, List, [], ◌∷◌, ◌++◌, Bytes, is_empty, length, map, insert, In,
  IsStrict, sym, subst, ◌≡◌, refl, ◌⊎◌, ◌↔◌, inl, inr, Option-cases,
}
use siembox_endpoint.Packages.{Package}
use siembox_endpoint.Packages.Normalize.{clean, pkg_less, normalize}
use siembox_endpoint.Packages.Normalize.Canonical.{IsListed, normalize_iff}

-- `([]models.Package, error)`; `not_present` is `ErrNotPresent`.
pub data Answer : Type 0 where
  listed : List Package → Answer
  not_present : Answer
  failed : Bytes → Answer

pub record Source : Type 0 where
  pub name : Bytes
  -- `ctx.Err()`
  pub ended : Option Bytes
  pub collect : Answer

-- `Result`, and `all` before it is normalised.
pub record Found : Type 0 where
  pub packages : List Package
  pub sources : List (Bytes × ℕ)
  pub errors : List (Bytes × Bytes)

-- The rest of the loop's body.
unfoldable pub add_answer : Bytes → Answer → Found → Found
add_answer name (listed ps) res = record res {
  packages = res.packages ++ ps;
  sources = insert name (length ps) res.sources;
}
add_answer name not_present res = res
add_answer name (failed e) res = record res { errors = insert name e res.errors }

unfoldable pub gather : List Source → Found → Found
gather [] res = res
gather (s ∷ ss) res = elim s.ended [
  | some e ↦ record res { errors = insert s.name e res.errors }
  | none ↦ gather ss (add_answer s.name s.collect res)
]

unfoldable pub collect_from : List Source → Found
collect_from ss =
    let res = gather ss (record { packages = []; sources = []; errors = [] }) in
    record res { packages = normalize res.packages }

-- The package is one that the answer lists.
abbrev pub IsAnswered : Package → Answer → Type 0
IsAnswered q (listed ps) = IsListed q ps
IsAnswered q not_present = ⊥
IsAnswered q (failed e) = ⊥

-- A source that was asked before the context ended lists the package.
abbrev pub IsCollected : Package → List Source → Type 0
IsCollected q [] = ⊥
IsCollected q (s ∷ ss) = (s.ended ≡ none) × (IsAnswered q s.collect ⊎ IsCollected q ss)

IsListed-append :
    (q : Package) (xs ys : List Package) → IsListed q (xs ++ ys) ↔ (IsListed q xs ⊎ IsListed q ys)
IsListed-append q xs ys = (
  λ h. split xs h.0 h.1,
  λ h. elim h [ inl k ↦ (left xs k.0, k.1) | inr k ↦ (right xs k.0, k.1) ],
)
  where
    left : (xs : List Package) → In q (map clean xs) → In q (map clean (xs ++ ys))
    left [] m = absurd m
    left (x ∷ xs) (inl e) = inl e
    left (x ∷ xs) (inr m) = inr (left xs m)

    right : (xs : List Package) → In q (map clean ys) → In q (map clean (xs ++ ys))
    right [] m = m
    right (x ∷ xs) m = inr (right xs m)

    split :
        (xs : List Package)
        → In q (map clean (xs ++ ys))
        → is_empty q.name ≡ false
        → IsListed q xs ⊎ IsListed q ys
    split [] m n = inr (m, n)
    split (x ∷ xs) (inl e) n = inl (inl e, n)
    split (x ∷ xs) (inr m) n = elim (split xs m n) [ inl k ↦ inl (inr k.0, k.1) | inr k ↦ inr k ]

IsAnswered-add_answer :
    (q : Package) (name : Bytes) (a : Answer) (res : Found)
    → IsListed q (add_answer name a res).packages ↔ (IsListed q res.packages ⊎ IsAnswered q a)
unfolding add_answer
IsAnswered-add_answer q name (listed ps) res = IsListed-append q res.packages ps
IsAnswered-add_answer q name not_present res =
    (λ h. inl h, λ h. elim h [ inl k ↦ k | inr k ↦ absurd k ])
IsAnswered-add_answer q name (failed e) res =
    (λ h. inl h, λ h. elim h [ inl k ↦ k | inr k ↦ absurd k ])

gather_stop :
    (s : Source) (ss : List Source) (res : Found) {e : Bytes}
    → s.ended ≡ some e
    → (gather (s ∷ ss) res).packages ≡ res.packages
unfolding gather
gather_stop s ss res h = rw (h, gather) refl

gather_go :
    (s : Source) (ss : List Source) (res : Found)
    → s.ended ≡ none
    → gather (s ∷ ss) res ≡ gather ss (add_answer s.name s.collect res)
unfolding gather
gather_go s ss res h = rw (h, gather) refl

gather_iff :
    (q : Package) (ss : List Source) (res : Found)
    → IsListed q (gather ss res).packages ↔ (IsListed q res.packages ⊎ IsCollected q ss)
unfolding gather
gather_iff q [] res = (λ h. inl h, λ h. elim h [ inl k ↦ k | inr k ↦ absurd k ])
gather_iff q (s ∷ ss) res = elim (Option-cases s.ended) [
  | inl go ↦
      subst (λ r. IsListed q r.packages ↔ (IsListed q res.packages ⊎ IsCollected q (s ∷ ss)))
        (sym (gather_go s ss res go))
        (step go (gather_iff q ss (add_answer s.name s.collect res))
          (IsAnswered-add_answer q s.name s.collect res))
  | inr (e, stop) ↦
      subst (λ ps. IsListed q ps ↔ (IsListed q res.packages ⊎ IsCollected q (s ∷ ss)))
        (sym (gather_stop s ss res stop))
        (λ h. inl h, λ h. elim h [ inl k ↦ k | inr k ↦ cc (k.0, stop) ])
]
  where
    step :
        {X Y : Type 0}
        → s.ended ≡ none
        → X ↔ (Y ⊎ IsCollected q ss)
        → Y ↔ (IsListed q res.packages ⊎ IsAnswered q s.collect)
        → X ↔ (IsListed q res.packages ⊎ IsCollected q (s ∷ ss))
    step go (f, g) (h, k) = (
      λ x. elim (f x) [
        | inl y ↦ elim (h y) [ inl l ↦ inl l | inr a ↦ inr (go, inl a) ]
        | inr c ↦ inr (go, inr c)
      ],
      λ z. g (elim z [
        | inl l ↦ inl (k (inl l))
        | inr c ↦ elim c.1 [ inl a ↦ inl (k (inr a)) | inr d ↦ inr d ]
      ]),
    )

-- The collected inventory is the normal form of what the sources list: strictly increasing by
-- type, name and version, with exactly the named packages of the sources asked before the context
-- ended. Sources that are absent or that fail take nothing from it.
pub collect_from_iff :
    (ss : List Source)
    → IsStrict pkg_less (collect_from ss).packages
      × ((q : Package) → In q (collect_from ss).packages ↔ IsCollected q ss)
unfolding collect_from
collect_from_iff ss =
    let start : Found = record { packages = []; sources = []; errors = [] } in
    let h =
      (normalize_iff (gather ss start).packages (normalize (gather ss start).packages)).0 refl in
    (
      h.0,
      λ q. (
        λ m. elim ((gather_iff q ss start).0 ((h.1 q).0 m)) [ inl k ↦ absurd k.0 | inr c ↦ c ],
        λ c. (h.1 q).1 ((gather_iff q ss start).1 (inr c)),
      ),
    )
