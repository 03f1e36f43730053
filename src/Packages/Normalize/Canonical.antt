-- ===== src/Packages/Normalize/Canonical.antt =====
-- The normal form of a package list.
use siembox_endpoint.Prelude.{
  Bool, true, false, ◌||◌, List, [], ◌∷◌, is_empty, map, In, In-sort_by, IsStrict, IsDistinct,
  sort_by-IsStrict, strict_unique, ◌≡◌, refl, sym, subst, ◌⊎◌, ◌↔◌, inl, inr, arith, Bool-cases,
}
use siembox_endpoint.Packages.{Package}
use siembox_endpoint.Packages.Normalize.{
  clean, pkg_eq, is_member, select, pkg_less, pkg_le, normalize,
}
use siembox_endpoint.Packages.Normalize.Order.{
  pkg_less_irrefl, pkg_less_trans, pkg_less_total, pkg_eq_iff,
}

-- A package that has to be in the list: one of those given, cleaned, with a name.
abbrev pub IsListed : Package → List Package → Type 0
IsListed q ps = In q (map clean ps) × (is_empty q.name ≡ false)

is_member_iff : (p : Package) (seen : List Package) → (is_member p seen ≡ true) ↔ In p seen
is_member_iff p [] = (λ e. cc, λ m. absurd m)
is_member_iff p (q ∷ seen) = ground (arith, pkg_eq_iff q p, is_member_iff p seen)

or_right : (a b : Bool) → (a || b) ≡ false → b ≡ false
or_right a b h = ground arith

select_skip :
    (p : Package) (ps seen : List Package)
    → (is_empty (clean p).name || is_member (clean p) seen) ≡ true
    → select (p ∷ ps) seen ≡ select ps seen
unfolding select
select_skip p ps seen e = rw (e, select) refl

select_take :
    (p : Package) (ps seen : List Package)
    → (is_empty (clean p).name || is_member (clean p) seen) ≡ false
    → select (p ∷ ps) seen ≡ clean p ∷ select ps (clean p ∷ seen)
unfolding select clean
select_take p ps seen e = rw (e, select) refl

abbrev pub IsSelected : List Package → List Package → List Package → Type 0
IsSelected ps seen out =
    IsDistinct out × ((q : Package) → In q out ↔ (IsListed q ps × (In q seen → ⊥)))

select_nil : (seen : List Package) → IsSelected [] seen (select [] seen)
unfolding select
select_nil seen = (tt, λ q. (λ m. absurd m, λ h. absurd h.0.0))

-- A package that is skipped adds nothing.
skipped-IsSelected :
    (p : Package) (ps seen out : List Package)
    → (is_empty (clean p).name ≡ true) ⊎ In (clean p) seen
    → IsSelected ps seen out
    → IsSelected (p ∷ ps) seen out
skipped-IsSelected p ps seen out why (d, h) = (
  d,
  λ q. (
    λ m. ((inr ((h q).0 m).0.0, ((h q).0 m).0.1), ((h q).0 m).1),
    λ k. (h q).1 ((later q why k.0.0 k.0.1 k.1, k.0.1), k.1),
  ),
)
  where
    later :
        (q : Package)
        → (is_empty (clean p).name ≡ true) ⊎ In (clean p) seen
        → In q (map clean (p ∷ ps))
        → is_empty q.name ≡ false
        → (In q seen → ⊥)
        → In q (map clean ps)
    later q why (inr m) ne ns = m
    later q (inl e) (inl x) ne ns = cc
    later q (inr m) (inl x) ne ns = absurd (ns (subst (λ z. In z seen) x m))

taken-IsSelected :
    (p : Package) (ps seen out : List Package)
    → is_empty (clean p).name ≡ false
    → (In (clean p) seen → ⊥)
    → IsSelected ps (clean p ∷ seen) out
    → IsSelected (p ∷ ps) seen (clean p ∷ out)
taken-IsSelected p ps seen out ne ns (d, h) =
    ((λ m. ((h (clean p)).0 m).1 (inl refl), d), λ q. (forth q, back q))
  where
    forth : (q : Package) → In q (clean p ∷ out) → IsListed q (p ∷ ps) × (In q seen → ⊥)
    forth q (inl e) = subst (λ z. IsListed z (p ∷ ps) × (In z seen → ⊥)) e ((inl refl, ne), ns)
    forth q (inr m) = ((inr ((h q).0 m).0.0, ((h q).0 m).0.1), λ k. ((h q).0 m).1 (inr k))

    back : (q : Package) → IsListed q (p ∷ ps) × (In q seen → ⊥) → In q (clean p ∷ out)
    back q ((inl e, nq), k) = inl e
    back q ((inr m, nq), k) = elim (Bool-cases (pkg_eq (clean p) q)) [
      | inl e ↦ inl ((pkg_eq_iff (clean p) q).0 e)
      | inr e ↦ inr (
          (h q).1
            ((m, nq), λ i. elim i [ inl x ↦ cc ((pkg_eq_iff (clean p) q).1 x, e) | inr x ↦ k x ]))
    ]

select-IsSelected : (ps seen : List Package) → IsSelected ps seen (select ps seen)
select-IsSelected [] seen = select_nil seen
select-IsSelected (p ∷ ps) seen =
    elim (Bool-cases (is_empty (clean p).name || is_member (clean p) seen)) [
      | inl e ↦ subst (IsSelected (p ∷ ps) seen) (sym (select_skip p ps seen e)) (
          skipped-IsSelected p ps seen (select ps seen)
            (ground (arith, is_member_iff (clean p) seen)) (select-IsSelected ps seen))
      | inr e ↦ subst (IsSelected (p ∷ ps) seen) (sym (select_take p ps seen e)) (
          taken-IsSelected p ps seen (select ps (clean p ∷ seen)) (ground arith)
            (λ m. cc (
              (is_member_iff (clean p) seen).1 m,
              or_right (is_empty (clean p).name) (is_member (clean p) seen) e,
            ))
            (select-IsSelected ps (clean p ∷ seen)))
    ]

-- Strictly increasing by type, name and version, and exactly the listed packages.
abbrev pub IsNormalForm : List Package → List Package → Type 0
IsNormalForm ps out = IsStrict pkg_less out × ((q : Package) → In q out ↔ IsListed q ps)

normalize-IsNormalForm : (ps : List Package) → IsNormalForm ps (normalize ps)
unfolding normalize
normalize-IsNormalForm ps =
    let s = select-IsSelected ps [] in
    (
      sort_by-IsStrict pkg_less pkg_less_irrefl pkg_less_trans pkg_less_total (select ps []) s.0,
      λ q. (
        λ m. ((s.1 q).0 ((In-sort_by pkg_le q (select ps [])).0 m)).0,
        λ k. (In-sort_by pkg_le q (select ps [])).1 ((s.1 q).1 (k, λ n. n)),
      ),
    )

-- `Normalize` gives the one list that is strictly increasing by type, name and version and holds
-- exactly the given packages that have a name, trimmed and cut: the order and the repetitions of
-- the input do not matter.
pub normalize_iff : (ps out : List Package) → (out ≡ normalize ps) ↔ IsNormalForm ps out
normalize_iff ps out = (
  λ e. subst (IsNormalForm ps) (sym e) (normalize-IsNormalForm ps),
  λ h.
      strict_unique pkg_less pkg_less_irrefl pkg_less_trans pkg_less_total out (normalize ps) h.0
        (normalize-IsNormalForm ps).0
        (λ q. (
          λ m. ((normalize-IsNormalForm ps).1 q).1 ((h.1 q).0 m),
          λ m. (h.1 q).1 (((normalize-IsNormalForm ps).1 q).0 m),
        )),
)
