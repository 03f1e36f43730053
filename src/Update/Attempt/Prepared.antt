-- ===== src/Update/Attempt/Prepared.antt =====
-- What stands behind an asset that is ready to be installed.
use siembox_endpoint.Prelude.{
  lookup, In, Bool-cases, ap, str_eq_refl, inl, inr, [], ◌∷◌, true, not, Option, none, some, Bytes,
  is_empty, Result, ok, err, guard, >>=-eq-ok, ok_injective, ◌≡◌, refl, sym, ◌∙◌, subst, ◌⊎◌, ◌≤◌,
  length, str_eq, equal_fold,
}
use siembox_endpoint.Update.Version.{TargetError, check_target, invalid_version}
use siembox_endpoint.Update.Assets.{Method, select_asset}
use siembox_endpoint.Update.Assets.Sound.{select_asset_sound}
use siembox_endpoint.Update.Method.{detect_method}
use siembox_endpoint.Update.Sums.{Sums}
use siembox_endpoint.Update.Disk.{Disk}
use siembox_endpoint.Update.Download.{DownloadError, fetch_sums, limit_of, part_of}
use siembox_endpoint.Update.Download.Safe.{IsSafe, IsAccepted, fetch_asset-IsSafe}
use siembox_endpoint.Update.Attempt.{
  Env, Ready, RunError, target, outside, lift, check, names_of, sum_of, prepare, asset, method,
  download, download_dir, fetched,
}

pub lift-eq-ok :
    {E A : Type 0} (f : E → RunError) (r : Result E A) {a : A} → lift f r ≡ ok a → r ≡ ok a
lift-eq-ok f (ok a) h = cc
lift-eq-ok f (err e) h = cc

check-eq-ok : (o : Option TargetError) {t : Unit {0}} → check o ≡ ok t → o ≡ none
check-eq-ok none h = refl
check-eq-ok (some e) h = cc

-- The checks that a version passed before anything was installed: it is newer, the checksum file
-- of that version was read, the asset is the one chosen from it, and the file on disk is within
-- the size limit and has the digest that the checksum file gives for the asset. Apart from it and
-- its partial file, the files are as before.
abbrev pub IsVerified : Env → Bytes → Ready → Type 0
IsVerified env ver r =
    (sums : Sums) × (name sum content : Bytes) × (check_target env.current_version ver ≡ none)
    × (env.exe ≡ ok r.exe)
    × (detect_method env.clean env.runner env.goos r.exe env.program_files ≡ ok r.how)
    × (fetch_sums env.downloader ver ≡ ok sums)
    × (select_asset r.how ver env.goarch (names_of sums) ≡ ok name)
    × (lookup name sums ≡ some sum)
    × (r.path ≡ env.join (download_dir env) name)
    × (r.files r.path ≡ some content)
    × (length content ≤ limit_of env.downloader)
    × (equal_fold (env.downloader.digest content) sum ≡ true)
    × ((q : Bytes)
        → (str_eq r.path q ≡ true)
          ⊎ ((str_eq (part_of r.path) q ≡ true) ⊎ (r.files q ≡ env.files q)))

-- A name of the checksum file has a sum.
lookup-listed :
    (name : Bytes) (sums : Sums)
    → In name (names_of sums)
    → (sum : Bytes) × (lookup name sums ≡ some sum)
unfolding lookup
lookup-listed name [] m = absurd m
lookup-listed name ((j, s) ∷ sums) m = elim (Bool-cases (str_eq j name)) [
  | inl e ↦ (s, rw (e, lookup) refl)
  | inr e ↦ elim m [
    | inl same ↦ cc (sym e ∙ ap (λ k. str_eq k name) same ∙ str_eq_refl name)
    | inr later ↦ let (t, h) = lookup-listed name sums later in (t, rw (e, lookup) h)
  ]
]

sum_of_lem : (name sum : Bytes) (sums : Sums) → lookup name sums ≡ some sum → sum_of name sums ≡ sum
sum_of_lem name sum sums h = rw (h, sum_of) refl

-- What the checked download leaves.
accepted :
    (env : Env) (ver name want path : Bytes)
    → (fetched env ver name want).1 ≡ ok path
    → (path ≡ env.join (download_dir env) name)
      × IsAccepted env.downloader want path env.files (fetched env ver name want).0
accepted env ver name want path h =
    by_answer (fetched env ver name want)
      (fetch_asset-IsSafe env.downloader env.join env.download_fs ver name want (download_dir env)
        env.files)
      h
  where
    by_answer :
        (r : Disk × Result DownloadError Bytes)
        → IsSafe env.downloader env.download_fs want (env.join (download_dir env) name) env.files r
        → r.1 ≡ ok path
        → (path ≡ env.join (download_dir env) name)
          × IsAccepted env.downloader want path env.files r.0
    by_answer (after, err e) safe k = cc k
    by_answer (after, ok p) (e, safe) k =
        let same : env.join (download_dir env) name ≡ path = sym e ∙ ok_injective k in
        (sym same, subst (λ f. IsAccepted env.downloader want f env.files after) same safe)

pub prepare-IsVerified :
    (env : Env) (ver : Bytes) (r : Ready) → prepare env ver ≡ ok r → IsVerified env ver r
unfolding prepare
prepare-IsVerified env ver r h =
    let (_, _, h1) = >>=-eq-ok (guard (not (is_empty ver)) (target invalid_version)) _ h in
    let (_, c, h2) = >>=-eq-ok (check (check_target env.current_version ver)) _ h1 in
    let (exe, x, h3) = >>=-eq-ok (lift outside env.exe) _ h2 in
    let (how, d, h4) =
      >>=-eq-ok (lift method (detect_method env.clean env.runner env.goos exe env.program_files)) _
        h3 in
    let (sums, e, h5) = >>=-eq-ok (lift download (fetch_sums env.downloader ver)) _ h4 in
    let (name, f, h6) =
      >>=-eq-ok (lift asset (select_asset how ver env.goarch (names_of sums))) _ h5 in
    let (path, g, h7) =
      >>=-eq-ok (lift download (fetched env ver name (sum_of name sums)).1) _ h6 in
    built sums name exe how path (check-eq-ok _ c) (lift-eq-ok outside _ x) (lift-eq-ok method _ d)
      (lift-eq-ok download _ e) (lift-eq-ok asset _ f)
      (accepted env ver name (sum_of name sums) path (lift-eq-ok download _ g)) h7
  where
    built :
        (sums : Sums) (name exe : Bytes) (how : Method) (path : Bytes)
        → check_target env.current_version ver ≡ none
        → env.exe ≡ ok exe
        → detect_method env.clean env.runner env.goos exe env.program_files ≡ ok how
        → fetch_sums env.downloader ver ≡ ok sums
        → select_asset how ver env.goarch (names_of sums) ≡ ok name
        → (path ≡ env.join (download_dir env) name)
          × IsAccepted env.downloader
              (sum_of name sums)
              path
              env.files
              (fetched env ver name (sum_of name sums)).0
        → ◌≡◌ {A = Result RunError Ready}
            (ok (record {
              files = (fetched env ver name (sum_of name sums)).0;
              how = how;
              path = path;
              exe = exe;
            }))
            (ok r)
        → IsVerified env ver r
    built sums name exe how path c x d e f (p, (content, there, small, same, gone, rest)) h =
        let (listed, chosen) = select_asset_sound how ver env.goarch (names_of sums) name f in
        let (sum, l) = lookup-listed name sums listed in
        let matches : equal_fold (env.downloader.digest content) sum ≡ true =
          ap (equal_fold (env.downloader.digest content)) (sym (sum_of_lem name sum sums l))
          ∙ same in
        subst (λ r. IsVerified env ver r) (ok_injective h)
          (sums, name, sum, content, c, x, d, e, f, l, p, there, small, matches, rest)
