-- ===== src/Update/Assets/Choice.antt =====
-- The choice of an asset and the order of the names.
use siembox_endpoint.Prelude.{
  Bool, true, false, List, [], ◌∷◌, ◌++◌, Bytes, str_eq, str_le, sort_by, codes, keep, ◌≡◌, refl,
  sym, ◌∙◌, ◌↔◌, ◌⊎◌, inl, inr, arith, In, In-sort_by, sort_by-IsSorted, IsSorted, All,
  str_le_total, str_le_trans, str_le_antisymm, str_le_refl, str_eq_sound, str_eq_refl, Bool-cases,
  ok, err, >>=-congr, subst, ap,
}
use siembox_endpoint.Update.Assets.{
  Method, deb, rpm, linux_archive, pkg, darwin_archive, msi, windows_zip, unknown, no_asset,
  no_match, deb_arch, windows_arch, rpm_arch, rpm_re, pick_match, first_or, find_name, select_asset,
  deb_name, zip_name, msi_name, pkg_name, linux_archive_name, darwin_archive_name,
}

-- Two lists of the same names: the order in which Go ranges over a map is not fixed.
abbrev pub SameNames : List Bytes → List Bytes → Type 0
SameNames l m = (a : Bytes) → In a l ↔ In a m

In-keep :
    (p : Bytes → Bool) (a : Bytes) (l : List Bytes) → In a (keep p l) ↔ (In a l × (p a ≡ true))
In-keep p a [] = (λ h. absurd h, λ h. absurd h.0)
In-keep p a (x ∷ l) = elim (Bool-cases (p x)) [
  | inl e ↦ rw e (ground (arith, In-keep p a l, e))
  | inr e ↦ rw e (ground (arith, In-keep p a l, e))
]

-- The loop finds the wanted name exactly if the release lists it.
pub find_name-cases :
    (w : Bytes) (l : List Bytes)
    → (In w l × (find_name w l ≡ ok w)) ⊎ (¬ (In w l) × (find_name w l ≡ err (no_asset w)))
unfolding find_name
find_name-cases w [] = inr ((λ h. h), refl)
find_name-cases w (x ∷ l) = elim (Bool-cases (str_eq x w)) [
  | inl e ↦ let p = str_eq_sound x w e in inl (inl p, rw e (ap ok p))
  | inr e ↦ elim (find_name-cases w l) [
    | inl f ↦ inl (inr f.0, rw e (f.1))
    | inr f ↦ inr ((λ h. elim h [ inl p ↦ differs x w e p | inr m ↦ f.0 m ]), rw e (f.1))
  ]
]
  where
    differs : (x w : Bytes) → str_eq x w ≡ false → x ≡ w → ⊥
    differs x w e p = cc (str_eq_refl w, rw p at e)

find_name-same : (w : Bytes) (l m : List Bytes) → SameNames l m → find_name w l ≡ find_name w m
find_name-same w l m same = elim (find_name-cases w l) [
  | inl f ↦ elim (find_name-cases w m) [
    | inl g ↦ f.1 ∙ sym (g.1)
    | inr g ↦ absurd (g.0 ((same w).0 (f.0)))
  ]
  | inr f ↦ elim (find_name-cases w m) [
    | inl g ↦ absurd (f.0 ((same w).1 (g.0)))
    | inr g ↦ f.1 ∙ sym (g.1)
  ]
]

-- The least of the matching names.
abbrev pub IsLeast : (Bytes → Bool) → List Bytes → Bytes → Type 0
IsLeast re l h = In h l × (re h ≡ true) × ((a : Bytes) → In a l → re a ≡ true → str_le h a ≡ true)

In-All : (P : Bytes → Type 0) (a : Bytes) (l : List Bytes) → In a l → All P l → P a
In-All P a (x ∷ l) (inl e) (p, h) = subst P e p
In-All P a (x ∷ l) (inr m) (p, h) = In-All P a l m h
In-All P a [] m h = absurd m

first_or-cases :
    (what : Bytes) (l : List Bytes)
    → IsSorted str_le l
    → ((l ≡ []) × (first_or what l ≡ err (no_match what)))
      ⊎ ((h : Bytes) × (first_or what l ≡ ok h)
          × In h l
          × ((a : Bytes) → In a l → str_le h a ≡ true))
unfolding first_or
first_or-cases what [] s = inl (refl, refl)
first_or-cases what (x ∷ l) (hx, s) = inr (
  x,
  refl,
  inl refl,
  λ a m. elim m [ inl e ↦ rw e (str_le_refl a) | inr k ↦ In-All (λ y. str_le x y ≡ true) a l k hx ],
)

In-hits :
    (re : Bytes → Bool) (l : List Bytes) (a : Bytes)
    → In a (sort_by str_le (keep re l)) ↔ (In a l × (re a ≡ true))
In-hits re l a =
    let p = In-sort_by str_le a (keep re l) in
    let q = In-keep re a l in ((λ h. q.0 (p.0 h)), (λ h. p.1 (q.1 h)))

pub pick_match-cases :
    (re : Bytes → Bool) (l : List Bytes) (what : Bytes)
    → (((a : Bytes) → In a l → re a ≡ true → ⊥) × (pick_match re l what ≡ err (no_match what)))
      ⊎ ((h : Bytes) × (pick_match re l what ≡ ok h) × IsLeast re l h)
unfolding pick_match
pick_match-cases re l what =
    let hits = In-hits re l in
    elim (first_or-cases what (sort_by str_le (keep re l))
      (sort_by-IsSorted str_le str_le_total str_le_trans (keep re l))) [
        | inl n ↦ inl ((λ a m r. subst (λ k. In a k) (n.0) ((hits a).1 (m, r))), n.1)
        | inr f ↦ inr (
          f.0,
          f.1,
          (((hits (f.0)).0 (f.2)).0, ((hits (f.0)).0 (f.2)).1, λ a m r. f.3 a ((hits a).1 (m, r))),
        )
      ]

pick_match-same :
    (re : Bytes → Bool) (l m : List Bytes) (what : Bytes)
    → SameNames l m
    → pick_match re l what ≡ pick_match re m what
pick_match-same re l m what same = elim (pick_match-cases re l what) [
  | inl f ↦ elim (pick_match-cases re m what) [
    | inl g ↦ f.1 ∙ sym (g.1)
    | inr g ↦ absurd (f.0 (g.0) ((same (g.0)).1 (g.2.0)) (g.2.1))
  ]
  | inr f ↦ elim (pick_match-cases re m what) [
    | inl g ↦ absurd (g.0 (f.0) ((same (f.0)).0 (f.2.0)) (f.2.1))
    | inr g ↦
        let here = (same (f.0)).0 (f.2.0) in
        let there = (same (g.0)).1 (g.2.0) in
        let e =
          str_le_antisymm (f.0) (g.0) (f.2.2 (g.0) there (g.2.1)) (g.2.2 (f.0) here (f.2.1)) in
        f.1 ∙ ap ok e ∙ sym (g.1)
  ]
]

-- The choice does not depend on the order in which the names of the release are visited, errors
-- included.
pub select_asset-same :
    (k : Method) (version goarch : Bytes) (l m : List Bytes)
    → SameNames l m
    → select_asset k version goarch l ≡ select_asset k version goarch m
unfolding select_asset
select_asset-same deb v g l m same =
    >>=-congr (deb_arch g) _ _ λ a. find_name-same (deb_name v a) l m same
select_asset-same rpm v g l m same =
    >>=-congr (rpm_arch g) _ _ λ a. pick_match-same (rpm_re v a) l m (codes "rpm for " ++ a) same
select_asset-same linux_archive v g l m same =
    >>=-congr (deb_arch g) _ _ λ a. find_name-same (linux_archive_name v g) l m same
select_asset-same pkg v g l m same = find_name-same (pkg_name v) l m same
select_asset-same darwin_archive v g l m same =
    >>=-congr (deb_arch g) _ _ λ a. find_name-same (darwin_archive_name v g) l m same
select_asset-same msi v g l m same =
    >>=-congr (windows_arch g) _ _ λ a. find_name-same (msi_name v) l m same
select_asset-same windows_zip v g l m same =
    >>=-congr (windows_arch g) _ _ λ a. find_name-same (zip_name v) l m same
select_asset-same (unknown k) v g l m same = refl
