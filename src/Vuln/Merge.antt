-- ===== src/Vuln/Merge.antt =====
-- The findings of several targets, merged.
use siembox_endpoint.Prelude.{
  true, false, List, [], ◌∷◌, ◌++◌, Bytes, str_eq, str_eq_iff, any, map, In, IsDistinct, In-append,
  In-append_left, In-append_right, All, All-append, ◌≡◌, refl, sym, ap, subst, ◌⊎◌, ◌↔◌, inl, inr,
  arith, Bool-cases,
}
use siembox_endpoint.Vuln.{Vulnerability, key_of, merge_findings}

seen_iff : (k : Bytes) (seen : List Bytes) → (any (λ j. str_eq j k) seen ≡ true) ↔ In k seen
seen_iff k [] = (λ e. cc, λ m. absurd m)
seen_iff k (j ∷ seen) = ground (arith, str_eq_iff j k, seen_iff k seen)

IsDistinct-snoc :
    (k : Bytes) (ks : List Bytes) → IsDistinct ks → (In k ks → ⊥) → IsDistinct (ks ++ (k ∷ []))
IsDistinct-snoc k [] d n = (λ m. m, tt)
IsDistinct-snoc k (j ∷ ks) (h, d) n = (
  λ m. elim (In-append j ks (k ∷ []) m) [
    | inl i ↦ h i
    | inr i ↦ elim i [ inl e ↦ n (inl (sym e)) | inr x ↦ absurd x ]
  ],
  IsDistinct-snoc k ks d (λ i. n (inr i)),
)

or_absurd : {X : Type 0} → X ↔ (X ⊎ ⊥)
or_absurd = (λ x. inl x, λ y. elim y [ inl x ↦ x | inr z ↦ absurd z ])

module _ {F : Type 0} where
  abbrev pub keys : List (Vulnerability F) → List Bytes
  keys = map key_of

  keys-snoc :
      (vs : List (Vulnerability F)) (v : Vulnerability F)
      → keys (vs ++ (v ∷ [])) ≡ keys vs ++ (key_of v ∷ [])
  keys-snoc [] v = refl
  keys-snoc (x ∷ vs) v = ap (λ ks. key_of x ∷ ks) (keys-snoc vs v)

  snoc_iff :
      (k : Bytes) (vs : List (Vulnerability F)) (v : Vulnerability F)
      → In k (keys (vs ++ (v ∷ []))) ↔ (In k (keys vs) ⊎ (key_of v ≡ k))
  snoc_iff k vs v =
      subst (λ ks. In k ks ↔ (In k (keys vs) ⊎ (key_of v ≡ k))) (sym (keys-snoc vs v))
        (
          λ m. elim (In-append k (keys vs) (key_of v ∷ []) m) [
            | inl i ↦ inl i
            | inr i ↦ elim i [ inl e ↦ inr e | inr x ↦ absurd x ]
          ],
          λ m. elim m [
            | inl i ↦ In-append_left k (keys vs) (key_of v ∷ []) i
            | inr e ↦ In-append_right k (keys vs) (key_of v ∷ []) (inl e)
          ],
        )

  -- The keys seen are those of the list, which are different.
  abbrev pub IsTracked : List Bytes → List (Vulnerability F) → Type 0
  IsTracked seen merged = IsDistinct (keys merged) × ((k : Bytes) → In k seen ↔ In k (keys merged))

  abbrev pub IsMerged :
      List (Vulnerability F) → List (Vulnerability F) → List Bytes × List (Vulnerability F) → Type 0
  IsMerged vs merged (seen, out) =
      IsTracked seen out × ((k : Bytes) → In k (keys out) ↔ (In k (keys merged) ⊎ In k (keys vs)))

  merge_skip :
      (v : Vulnerability F) (vs : List (Vulnerability F)) (seen : List Bytes)
      (merged : List (Vulnerability F))
      → any (λ j. str_eq j (key_of v)) seen ≡ true
      → merge_findings (v ∷ vs) seen merged ≡ merge_findings vs seen merged
  unfolding merge_findings
  merge_skip v vs seen merged h = rw (h, merge_findings) refl

  merge_take :
      (v : Vulnerability F) (vs : List (Vulnerability F)) (seen : List Bytes)
      (merged : List (Vulnerability F))
      → any (λ j. str_eq j (key_of v)) seen ≡ false
      → merge_findings (v ∷ vs) seen merged
        ≡ merge_findings vs (key_of v ∷ seen) (merged ++ (v ∷ []))
  unfolding merge_findings
  merge_take v vs seen merged h = rw (h, merge_findings) refl

  skipped-IsMerged :
      (v : Vulnerability F) (vs merged : List (Vulnerability F))
      (r : List Bytes × List (Vulnerability F))
      → In (key_of v) (keys merged)
      → IsMerged vs merged r
      → IsMerged (v ∷ vs) merged r
  skipped-IsMerged v vs merged (seen, out) known (t, h) = (
    t,
    λ k. (
      λ m. elim ((h k).0 m) [ inl i ↦ inl i | inr i ↦ inr (inr i) ],
      λ m. elim m [
        | inl i ↦ (h k).1 (inl i)
        | inr i ↦ elim i [
          | inl e ↦ (h k).1 (inl (subst (λ j. In j (keys merged)) e known))
          | inr j ↦ (h k).1 (inr j)
        ]
      ],
    ),
  )

  taken-IsMerged :
      (v : Vulnerability F) (vs merged : List (Vulnerability F))
      (r : List Bytes × List (Vulnerability F))
      → IsMerged vs (merged ++ (v ∷ [])) r
      → IsMerged (v ∷ vs) merged r
  taken-IsMerged v vs merged (seen, out) (t, h) = (
    t,
    λ k. (
      λ m. elim ((h k).0 m) [
        | inl i ↦ elim ((snoc_iff k merged v).0 i) [ inl j ↦ inl j | inr e ↦ inr (inl e) ]
        | inr i ↦ inr (inr i)
      ],
      λ m. elim m [
        | inl i ↦ (h k).1 (inl ((snoc_iff k merged v).1 (inl i)))
        | inr i ↦ elim i [
          | inl e ↦ (h k).1 (inl ((snoc_iff k merged v).1 (inr e)))
          | inr j ↦ (h k).1 (inr j)
        ]
      ],
    ),
  )

  IsTracked-snoc :
      (v : Vulnerability F) (seen : List Bytes) (merged : List (Vulnerability F))
      → IsTracked seen merged
      → any (λ j. str_eq j (key_of v)) seen ≡ false
      → IsTracked (key_of v ∷ seen) (merged ++ (v ∷ []))
  IsTracked-snoc v seen merged (d, h) new = (
    subst IsDistinct (sym (keys-snoc merged v)) (
        IsDistinct-snoc (key_of v) (keys merged) d
          (λ m. cc (new, (seen_iff (key_of v) seen).1 ((h (key_of v)).1 m)))),
    λ k. (
      λ m. elim m [
        | inl e ↦ (snoc_iff k merged v).1 (inr e)
        | inr i ↦ (snoc_iff k merged v).1 (inl ((h k).0 i))
      ],
      λ m. elim ((snoc_iff k merged v).0 m) [ inl i ↦ inr ((h k).1 i) | inr e ↦ inl e ],
    ),
  )

  pub merge-IsMerged :
      (vs : List (Vulnerability F)) (seen : List Bytes) (merged : List (Vulnerability F))
      → IsTracked seen merged
      → IsMerged vs merged (merge_findings vs seen merged)
  unfolding merge_findings
  merge-IsMerged [] seen merged t = (t, λ k. or_absurd)
  merge-IsMerged (v ∷ vs) seen merged t = elim (Bool-cases (any (λ j. str_eq j (key_of v)) seen)) [
    | inl e ↦ subst (IsMerged (v ∷ vs) merged) (sym (merge_skip v vs seen merged e)) (
        skipped-IsMerged v vs merged (merge_findings vs seen merged)
          ((t.1 (key_of v)).0 ((seen_iff (key_of v) seen).0 e)) (merge-IsMerged vs seen merged t))
    | inr e ↦ subst (IsMerged (v ∷ vs) merged) (sym (merge_take v vs seen merged e)) (
        taken-IsMerged v vs merged (merge_findings vs (key_of v ∷ seen) (merged ++ (v ∷ []))) (
          merge-IsMerged vs (key_of v ∷ seen) (merged ++ (v ∷ []))
            (IsTracked-snoc v seen merged t e)))
  ]

  pub merge-All :
      (P : Vulnerability F → Type 0) (vs : List (Vulnerability F)) (seen : List Bytes)
      (merged : List (Vulnerability F))
      → All P vs
      → All P merged
      → All P (merge_findings vs seen merged).1
  unfolding merge_findings
  merge-All P [] seen merged h m = m
  merge-All P (v ∷ vs) seen merged (p, h) m =
      elim (Bool-cases (any (λ j. str_eq j (key_of v)) seen)) [
        | inl e ↦
            subst (λ r. All P r.1) (sym (merge_skip v vs seen merged e))
              (merge-All P vs seen merged h m)
        | inr e ↦
            subst (λ r. All P r.1) (sym (merge_take v vs seen merged e))
              (merge-All P vs (key_of v ∷ seen) (merged ++ (v ∷ [])) h
                (All-append P merged (v ∷ []) m (p, tt)))
      ]
