-- ===== src/Update/Method/Probe.antt =====
-- What the probes of the package tools decide.
use siembox_endpoint.Prelude.{
  Bool, true, false, ◌&&◌, Bytes, if◌then◌else◌, Result, ok, ◌≡◌, ◌⊎◌, inl, inr, refl, subst,
  &&-eq-true,
}
use siembox_endpoint.Update.Assets.{
  Method, deb, rpm, linux_archive, pkg, darwin_archive, msi, windows_zip, unknown,
}
use siembox_endpoint.Update.Method.{
  Goos, linux, darwin, windows, other, Runner, has_output, owned_by_rpm, owned_by_pkg, is_msi_path,
  msi_registered, detect_method, dpkg_query, rpm_query, pkgutil_query, MethodError,
}
use siembox_endpoint.Update.Method.Claims.{
  DebClaims, RpmClaims, PkgClaims, MsiClaims, refuted, deb_sound, deb_complete, rpm_sound,
  rpm_complete, pkg_sound, pkg_complete, msi_registered_sound, msi_registered_complete,
}

module _ (clean : Bytes → Bytes) (run : Runner) (exe program_files : Bytes) where
  -- The evidence behind a method: the system it belongs to, and what its package tools answered.
  abbrev pub Evidence : Goos → Method → Type 0
  Evidence goos deb = (goos ≡ linux) × DebClaims run exe
  Evidence goos rpm = (goos ≡ linux) × (¬ DebClaims run exe) × RpmClaims run exe
  Evidence goos linux_archive = (goos ≡ linux) × (¬ DebClaims run exe) × (¬ RpmClaims run exe)
  Evidence goos pkg = (goos ≡ darwin) × PkgClaims run exe
  Evidence goos darwin_archive = (goos ≡ darwin) × (¬ PkgClaims run exe)
  Evidence goos msi = (goos ≡ windows) × MsiClaims clean run exe program_files
  Evidence goos windows_zip = (goos ≡ windows) × (¬ MsiClaims clean run exe program_files)
  Evidence goos (unknown m) = ⊥

-- One test decides between two methods.
decided :
    (b : Bool) (x : Method) (r : Result MethodError Method) {m : Method}
    → (if b then ok x else r) ≡ ok m
    → ((b ≡ true) × (x ≡ m)) ⊎ ((b ≡ false) × (r ≡ ok m))
decided true x r h = inl (refl, cc)
decided false x r h = inr (refl, h)

ok_injective : {x m : Method} (r : Result MethodError Method) → r ≡ ok x → r ≡ ok m → x ≡ m
ok_injective r e h = cc

-- A method that is chosen has the evidence of the package tools behind it. On Linux deb means that
-- dpkg answered for the executable with some output; rpm, that dpkg did not and rpm did, with some
-- output that does not deny it; the archive, that neither did. On macOS pkg means that pkgutil gave
-- a package identifier, and the archive that it gave none. On Windows msi means that the executable
-- is at the path that the MSI installs and that a registry key of the local machine, found for the
-- product, says that Windows Installer put it there; the zip means that one of these fails. No
-- method belongs to another system, and on an unsupported system none is chosen.
pub detect_method_sound :
    (clean : Bytes → Bytes) (run : Runner) (goos : Goos) (exe program_files : Bytes) {m : Method}
    → detect_method clean run goos exe program_files ≡ ok m
    → Evidence clean run exe program_files goos m
unfolding detect_method
detect_method_sound clean run linux exe pf h =
    let P = Evidence clean run exe pf linux in
    elim (decided (has_output (run (dpkg_query exe))) deb _ h) [
      | inl d ↦ subst P (d.1) (refl, deb_sound run exe (d.0))
      | inr d ↦
          let no_deb : ¬ DebClaims run exe = refuted _ (deb_complete run exe) (d.0) in
          elim (decided (owned_by_rpm (run (rpm_query exe))) rpm (ok linux_archive) (d.1)) [
            | inl r ↦ subst P (r.1) (refl, no_deb, rpm_sound run exe (r.0))
            | inr r ↦
                subst P (ok_injective _ refl (r.1))
                  (refl, no_deb, refuted _ (rpm_complete run exe) (r.0))
          ]
    ]
detect_method_sound clean run darwin exe pf h =
    let P = Evidence clean run exe pf darwin in
    elim (decided (owned_by_pkg clean run (run (pkgutil_query exe))) pkg (ok darwin_archive) h) [
      | inl r ↦ subst P (r.1) (refl, pkg_sound clean run exe (r.0))
      | inr r ↦
          subst P (ok_injective _ refl (r.1)) (refl, refuted _ (pkg_complete clean run exe) (r.0))
    ]
detect_method_sound clean run windows exe pf h =
    let P = Evidence clean run exe pf windows in
    let path = is_msi_path clean run exe pf in
    let there = msi_registered clean run in
    elim (decided (path && there) msi (ok windows_zip) h) [
      | inl r ↦
          let (p, q) = &&-eq-true path there (r.0) in
          subst P (r.1) (refl, (p, msi_registered_sound clean run q))
      | inr r ↦ subst P (ok_injective _ refl (r.1)) (refl, refuted _ both (r.0))
    ]
  where
    both :
        MsiClaims clean run exe pf
        → (is_msi_path clean run exe pf && msi_registered clean run) ≡ true
    both (p, q) = rw (p, msi_registered_complete clean run q) refl
detect_method_sound clean run (other g) exe pf h = cc
