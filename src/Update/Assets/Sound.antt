-- ===== src/Update/Assets/Sound.antt =====
-- The names of chosen assets.
use siembox_endpoint.Prelude.{
  Bool, ◌||◌, List, ◌++◌, Bytes, str_eq, codes, ◌≡◌, ◌∙◌, ◌⊎◌, inl, inr, In, str_eq_sound,
  Bool-cases, Result, ok, ◌>>=◌, ||-eq-true, if-eq-ok, >>=-eq-ok, subst, ap,
}
use siembox_endpoint.Update.Assets.{
  Method, deb, rpm, linux_archive, pkg, darwin_archive, msi, windows_zip, unknown, AssetError,
  deb_arch, windows_arch, rpm_arch, rpm_re, pick_match, find_name, select_asset, deb_name, zip_name,
  msi_name, pkg_name, linux_archive_name, darwin_archive_name,
}
use siembox_endpoint.Update.Assets.Choice.{IsLeast, find_name-cases, pick_match-cases}

-- What the chosen name has to be: for an rpm the least name with the pattern, for every other
-- method the one file name that the release pipeline gives the version and architecture.
abbrev pub Chosen : Method → Bytes → Bytes → List Bytes → Bytes → Type 0
Chosen deb v g l n = (n ≡ deb_name v g) × ((g ≡ codes "amd64") ⊎ (g ≡ codes "arm64"))
Chosen rpm v g l n =
    (IsLeast (rpm_re v (codes "x86_64")) l n × (g ≡ codes "amd64"))
    ⊎ (IsLeast (rpm_re v (codes "aarch64")) l n × (g ≡ codes "arm64"))
Chosen linux_archive v g l n =
    (n ≡ linux_archive_name v g) × ((g ≡ codes "amd64") ⊎ (g ≡ codes "arm64"))
Chosen pkg v g l n = n ≡ pkg_name v
Chosen darwin_archive v g l n =
    (n ≡ darwin_archive_name v g) × ((g ≡ codes "amd64") ⊎ (g ≡ codes "arm64"))
Chosen msi v g l n = (n ≡ msi_name v) × (g ≡ codes "amd64")
Chosen windows_zip v g l n = (n ≡ zip_name v) × (g ≡ codes "amd64")
Chosen (unknown k) v g l n = ⊥

find_name_sound : (w : Bytes) (l : List Bytes) (n : Bytes) → find_name w l ≡ ok n → (n ≡ w) × In n l
find_name_sound w l n h = elim (find_name-cases w l) [
  | inl f ↦ let e : n ≡ w = cc (f.1) in (e, rw e (f.0))
  | inr f ↦ cc (f.1)
]

abbrev Portable : Bytes → Bytes → Type 0
Portable g a = (a ≡ g) × ((g ≡ codes "amd64") ⊎ (g ≡ codes "arm64"))

deb_arch_sound : (g a : Bytes) → deb_arch g ≡ ok a → Portable g a
unfolding deb_arch
deb_arch_sound g a h =
    let (t, e) = if-eq-ok (str_eq g (codes "amd64") || str_eq g (codes "arm64")) g _ h in
    (
      e,
      elim (||-eq-true (str_eq g (codes "amd64")) (str_eq g (codes "arm64")) t) [
        | inl p ↦ inl (str_eq_sound g (codes "amd64") p)
        | inr p ↦ inr (str_eq_sound g (codes "arm64") p)
      ],
    )

windows_arch_sound : (g a : Bytes) → windows_arch g ≡ ok a → g ≡ codes "amd64"
unfolding windows_arch
windows_arch_sound g a h =
    str_eq_sound g (codes "amd64") (if-eq-ok (str_eq g (codes "amd64")) g _ h).0

rpm_arch_sound :
    (g a : Bytes)
    → rpm_arch g ≡ ok a
    → ((g ≡ codes "amd64") × (a ≡ codes "x86_64")) ⊎ ((g ≡ codes "arm64") × (a ≡ codes "aarch64"))
unfolding rpm_arch
rpm_arch_sound g a h = elim (Bool-cases (str_eq g (codes "amd64"))) [
  | inl e ↦ inl (str_eq_sound g (codes "amd64") e, cc (rw e at h))
  | inr e ↦
      let (t, d) = if-eq-ok (str_eq g (codes "arm64")) (codes "aarch64") _ (rw e at h) in
      inr (str_eq_sound g (codes "arm64") t, d)
]

-- an asset found by name after its architecture has passed
named :
    (P : Bytes → Type 0) (r : Result AssetError Bytes) (w : Bytes → Bytes) (l : List Bytes)
    (n : Bytes)
    → ((a : Bytes) → r ≡ ok a → P a)
    → (r >>= λ a. find_name (w a) l) ≡ ok n
    → (a : Bytes) × (r ≡ ok a) × (n ≡ w a) × In n l × P a
named P r w l n sound h =
    let (a, ra, f) = >>=-eq-ok r (λ a. find_name (w a) l) h in
    let (e, m) = find_name_sound (w a) l n f in (a, ra, e, m, sound a ra)

pick_match_sound :
    (re : Bytes → Bool) (l : List Bytes) (what n : Bytes)
    → pick_match re l what ≡ ok n
    → IsLeast re l n
pick_match_sound re l what n h = elim (pick_match-cases re l what) [
  | inl f ↦ cc (f.1)
  | inr f ↦ let e : f.0 ≡ n = cc (f.1) in subst (λ k. IsLeast re l k) e (f.2)
]

-- A chosen asset is listed by the release and has the name that method, version and architecture
-- ask for.
pub select_asset_sound :
    (k : Method) (version goarch : Bytes) (l : List Bytes) (n : Bytes)
    → select_asset k version goarch l ≡ ok n
    → In n l × Chosen k version goarch l n
unfolding select_asset
select_asset_sound deb v g l n h =
    let (a, ra, e, m, s) = named (Portable g) (deb_arch g) (deb_name v) l n (deb_arch_sound g) h in
    (m, (e ∙ ap (deb_name v) (s.0), s.1))
select_asset_sound rpm v g l n h =
    let (a, ra, f) = >>=-eq-ok (rpm_arch g) _ h in
    let least = pick_match_sound (rpm_re v a) l (codes "rpm for " ++ a) n f in
    elim (rpm_arch_sound g a ra) [
      | inl e ↦ (least.0, inl (subst (λ k. IsLeast (rpm_re v k) l n) (e.1) least, e.0))
      | inr e ↦ (least.0, inr (subst (λ k. IsLeast (rpm_re v k) l n) (e.1) least, e.0))
    ]
select_asset_sound linux_archive v g l n h =
    let (a, ra, e, m, s) =
      named (Portable g) (deb_arch g) (λ _. linux_archive_name v g) l n (deb_arch_sound g) h in
    (m, (e, s.1))
select_asset_sound pkg v g l n h = let (e, m) = find_name_sound (pkg_name v) l n h in (m, e)
select_asset_sound darwin_archive v g l n h =
    let (a, ra, e, m, s) =
      named (Portable g) (deb_arch g) (λ _. darwin_archive_name v g) l n (deb_arch_sound g) h in
    (m, (e, s.1))
select_asset_sound msi v g l n h =
    let (a, ra, e, m, s) =
      named (λ _. g ≡ codes "amd64") (windows_arch g) (λ _. msi_name v) l n (windows_arch_sound g)
        h in
    (m, (e, s))
select_asset_sound windows_zip v g l n h =
    let (a, ra, e, m, s) =
      named (λ _. g ≡ codes "amd64") (windows_arch g) (λ _. zip_name v) l n (windows_arch_sound g)
        h in
    (m, (e, s))
select_asset_sound (unknown k) v g l n h = cc
