-- ===== src/Vuln/Complete.antt =====
-- What a scan of several targets reports.
use siembox_endpoint.Prelude.{
  Bool, Option, List, [], ◌∷◌, Bytes, In, IsDistinct, All, Result, ok, err, ok_injective, ◌≡◌, refl,
  sym, ◌∙◌, ap, subst, ◌⊎◌, ◌↔◌, inl, inr,
}
use siembox_endpoint.Vuln.{
  Vulnerability, ScanError, key_of, merge_findings, findings_of, scan_targets, existing_targets,
  scan, no_targets,
}
use siembox_endpoint.Vuln.Merge.{keys, IsTracked, merge-IsMerged, merge-All}

module _ {F : Type 0} (run : List Bytes → Result Bytes Bytes)
    (parse : Bytes → Option (List (Vulnerability F))) where
  -- grype reported the finding for one of the targets.
  abbrev pub IsReported : List Bytes → Vulnerability F → Type 0
  IsReported [] v = ⊥
  IsReported (t ∷ ts) v =
      ((vs : List (Vulnerability F)) × (findings_of run parse t ≡ ok vs) × In v vs)
      ⊎ IsReported ts v

  -- The list has every reported finding, up to its key, and no key twice.
  abbrev pub IsComplete : List Bytes → List (Vulnerability F) → Type 0
  IsComplete ts out =
      IsDistinct (keys out)
      × All (IsReported ts) out
      × ((k : Bytes) → In k (keys out) ↔ ((v : Vulnerability F) × IsReported ts v × (key_of v ≡ k)))

  in_keys :
      (k : Bytes) (vs : List (Vulnerability F))
      → In k (keys vs)
      → (v : Vulnerability F) × In v vs × (key_of v ≡ k)
  in_keys k (v ∷ vs) (inl e) = (v, inl refl, e)
  in_keys k (v ∷ vs) (inr i) = let (x, m, e) = in_keys k vs i in (x, inr m, e)
  in_keys k [] m = absurd m

  keys_in : (v : Vulnerability F) (vs : List (Vulnerability F)) → In v vs → In (key_of v) (keys vs)
  keys_in v (x ∷ vs) (inl e) = inl (ap key_of e)
  keys_in v (x ∷ vs) (inr m) = inr (keys_in v vs m)
  keys_in v [] m = absurd m

  -- What each target adds to a list of which the reported findings satisfy `P`.
  abbrev pub IsExtended :
      (Vulnerability F → Type 0)
      → List Bytes
      → List (Vulnerability F)
      → List (Vulnerability F)
      → Type 0
  IsExtended P ts merged out =
      IsDistinct (keys out)
      × All P out
      × ((k : Bytes)
          → In k (keys out)
            ↔ (In k (keys merged) ⊎ ((v : Vulnerability F) × IsReported ts v × (key_of v ≡ k))))

  In→All :
      (P : Vulnerability F → Type 0) (vs : List (Vulnerability F))
      → ((v : Vulnerability F) → In v vs → P v)
      → All P vs
  In→All P [] h = tt
  In→All P (v ∷ vs) h = (h v (inl refl), In→All P vs (λ x m. h x (inr m)))

  targets_next :
      (t : Bytes) (ts : List Bytes) (seen : List Bytes) (merged out : List (Vulnerability F))
      → scan_targets run parse (t ∷ ts) seen merged ≡ ok out
      → (vs : List (Vulnerability F)) × (findings_of run parse t ≡ ok vs)
        × (scan_targets run parse ts
              (merge_findings vs seen merged).0
              (merge_findings vs seen merged).1
            ≡ ok out)
  unfolding scan_targets
  targets_next t ts seen merged out h = answered (findings_of run parse t) refl h
    where
      answered :
          (r : Result ScanError (List (Vulnerability F)))
          → findings_of run parse t ≡ r
          → ◌≡◌ {A = Result ScanError (List (Vulnerability F))}
              (elim r [
                | err e ↦ err e
                | ok vs ↦
                    scan_targets run parse ts
                      (merge_findings vs seen merged).0
                      (merge_findings vs seen merged).1
              ])
              (ok out)
          → (vs : List (Vulnerability F)) × (findings_of run parse t ≡ ok vs)
            × (scan_targets run parse ts
                  (merge_findings vs seen merged).0
                  (merge_findings vs seen merged).1
                ≡ ok out)
      answered (ok vs) e k = (vs, e, k)
      answered (err x) e k = cc k

  targets-IsExtended :
      (P : Vulnerability F → Type 0) (ts : List Bytes) (seen : List Bytes)
      (merged out : List (Vulnerability F))
      → IsTracked seen merged
      → All P merged
      → ((v : Vulnerability F) → IsReported ts v → P v)
      → scan_targets run parse ts seen merged ≡ ok out
      → IsExtended P ts merged out
  unfolding scan_targets
  targets-IsExtended P [] seen merged out (d, h) m f e =
      subst (IsExtended P [] merged) (ok_injective e)
        (d, m, λ k. (λ i. inl i, λ y. elim y [ inl i ↦ i | inr z ↦ absurd z.1 ]))
  targets-IsExtended P (t ∷ ts) seen merged out tracked m f e =
      let (vs, found, rest) = targets_next t ts seen merged out e in
      let next = merge_findings vs seen merged in
      let step = merge-IsMerged vs seen merged tracked in
      let all_p = merge-All P vs seen merged (In→All P vs (λ v i. f v (inl (vs, found, i)))) m in
      let (d, a, h) =
        targets-IsExtended P ts next.0 next.1 out step.0 all_p (λ v r. f v (inr r)) rest in
      (
        d,
        a,
        λ k. (
          λ i. elim ((h k).0 i) [
            | inl j ↦ elim ((step.1 k).0 j) [
              | inl l ↦ inl l
              | inr l ↦ let (v, n, w) = in_keys k vs l in inr (v, inl (vs, found, n), w)
            ]
            | inr (v, r, w) ↦ inr (v, inr r, w)
          ],
          λ y. elim y [
            | inl l ↦ (h k).1 (inl ((step.1 k).1 (inl l)))
            | inr (v, inl (us, g, n), w) ↦ (h k).1 (
                inl (
                  (step.1 k).1 (
                    inr (
                      subst (λ j. In j (keys vs)) w
                        (keys_in v vs (subst (λ l. In v l) (ok_injective (sym g ∙ found)) n))))))
            | inr (v, inr r, w) ↦ (h k).1 (inr (v, r, w))
          ],
        ),
      )

  -- A scan that succeeds gives a list without two findings of one key (the CVE, the package and
  -- the installed version, joined), in which every finding was reported for a target that
  -- exists, and whose keys are exactly those of the findings reported for these targets.
  pub scan-IsComplete :
      (is_dir : Bytes → Bool) (targets : List Bytes) (out : List (Vulnerability F))
      → scan run parse is_dir targets ≡ ok out
      → IsComplete (existing_targets is_dir targets) out
  unfolding scan
  scan-IsComplete is_dir targets out h = found (existing_targets is_dir targets) h
    where
      found :
          (ts : List Bytes)
          → ◌≡◌ {A = Result ScanError (List (Vulnerability F))}
              (elim ts [ [] ↦ err no_targets | t ∷ ts ↦ scan_targets run parse (t ∷ ts) [] [] ])
              (ok out)
          → IsComplete ts out
      found [] e = cc e
      found (t ∷ ts) e =
          let (d, a, k) =
            targets-IsExtended (IsReported (t ∷ ts)) (t ∷ ts) [] [] out (tt, λ j. (λ m. m, λ m. m))
              tt (λ v r. r) e in
          (
            d,
            a,
            λ j. (λ i. elim ((k j).0 i) [ inl z ↦ absurd z | inr y ↦ y ], λ y. (k j).1 (inr y)),
          )
