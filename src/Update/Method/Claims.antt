-- ===== src/Update/Method/Claims.antt =====
-- What the answers of the package tools claim, and the tests of internal/update/method.go on them.
use siembox_endpoint.Prelude.{
  Bool, true, false, not, List, [], ◌∷◌, any, In, split_at, has_prefix, to_upper, trim_space,
  is_empty, Bool-cases, Option-cases, cut_prefix, ◌∙◌, ap, ◌&&◌, Option, none, some, Bytes, ◌≡◌,
  inl, inr, refl, arith, &&-eq-true, contains, codes,
}
use siembox_endpoint.Update.Method.{
  Runner, has_output, has_pkg_id, owned_by_rpm, owned_by_pkg, is_msi_path, msi_registered,
  dpkg_query, rpm_query, pkgutil_query, uninstall_query, installer_query, msi_key, says_installer,
  pkg_id_line,
}

-- The registry search answered with a line that is a key of the local machine, and the query of
-- that key says that Windows Installer installed it.
abbrev pub IsRegistered : Runner → Type 0
IsRegistered run =
    (found line said : Bytes) × (run uninstall_query ≡ some found)
    × In line (split_at b'\n' found)
    × (has_prefix (codes "HKEY_LOCAL_MACHINE\\") (to_upper (trim_space line)) ≡ true)
    × (run (installer_query (trim_space line)) ≡ some said)
    × (contains (codes "0x1") said ≡ true)

-- dpkg answers for the executable with some output.
abbrev pub DebClaims : Runner → Bytes → Type 0
DebClaims run exe =
    (out : Bytes) × (run (dpkg_query exe) ≡ some out) × (is_empty (trim_space out) ≡ false)

-- rpm answers with some output that does not deny it.
abbrev pub RpmClaims : Runner → Bytes → Type 0
RpmClaims run exe =
    (out : Bytes) × (run (rpm_query exe) ≡ some out)
    × (is_empty (trim_space out) ≡ false)
    × (contains (codes "not owned by any package") out ≡ false)

-- pkgutil answers with a line that gives a package identifier.
abbrev pub PkgClaims : Runner → Bytes → Type 0
PkgClaims run exe =
    (out line id : Bytes) × (run (pkgutil_query exe) ≡ some out)
    × In line (split_at b'\n' out)
    × (cut_prefix (codes "pkgid:") (trim_space line) ≡ some id)
    × (is_empty (trim_space id) ≡ false)

-- The executable is at the path that the MSI installs, and the registry knows the product.
abbrev pub MsiClaims : (Bytes → Bytes) → Runner → Bytes → Bytes → Type 0
MsiClaims clean run exe program_files =
    (is_msi_path clean run exe program_files ≡ true) × IsRegistered run

any_sound :
    {A : Type 0} (f : A → Bool) (xs : List A) → any f xs ≡ true → (x : A) × In x xs × (f x ≡ true)
any_sound f [] h = cc
any_sound f (x ∷ xs) h = elim (Bool-cases (f x)) [
  | inl e ↦ (x, inl refl, e)
  | inr e ↦ let (y, m, k) = any_sound f xs (ground arith) in (y, inr m, k)
]

any_complete :
    {A : Type 0} (f : A → Bool) (x : A) (xs : List A) → In x xs → f x ≡ true → any f xs ≡ true
any_complete f x [] m h = absurd m
any_complete f x (y ∷ ys) (inl e) h = let k : f y ≡ true = ap f e ∙ h in ground arith
any_complete f x (y ∷ ys) (inr m) h =
    let k : any f ys ≡ true = any_complete f x ys m h in ground arith

-- A test that fails refutes what implies it.
pub refuted : {P : Type 0} (b : Bool) → (P → b ≡ true) → b ≡ false → ¬ P
refuted b f h p = cc (f p, h)

pub deb_sound :
    (run : Runner) (exe : Bytes) → has_output (run (dpkg_query exe)) ≡ true → DebClaims run exe
unfolding has_output
deb_sound run exe h = elim (Option-cases (run (dpkg_query exe))) [
  | inl e ↦ cc (rw (e, has_output) at h)
  | inr (out, e) ↦
      let k : not (is_empty (trim_space out)) ≡ true = rw (e, has_output) at h in
      (out, e, ground arith)
]

pub deb_complete :
    (run : Runner) (exe : Bytes) → DebClaims run exe → has_output (run (dpkg_query exe)) ≡ true
unfolding has_output
deb_complete run exe (out, e, n) = rw (e, n, has_output) refl

pub rpm_sound :
    (run : Runner) (exe : Bytes) → owned_by_rpm (run (rpm_query exe)) ≡ true → RpmClaims run exe
unfolding owned_by_rpm
rpm_sound run exe h = elim (Option-cases (run (rpm_query exe))) [
  | inl e ↦ cc (rw (e, owned_by_rpm) at h)
  | inr (out, e) ↦
      let k : (not (is_empty (trim_space out))
            && not (contains (codes "not owned by any package") out))
          ≡ true =
        rw (e, owned_by_rpm) at h in
      (out, e, ground arith, ground arith)
]

pub rpm_complete :
    (run : Runner) (exe : Bytes) → RpmClaims run exe → owned_by_rpm (run (rpm_query exe)) ≡ true
unfolding owned_by_rpm
rpm_complete run exe (out, e, n, o) = rw (e, n, o, owned_by_rpm) refl

pkg_id_sound :
    (line : Bytes)
    → pkg_id_line line ≡ true
    → (id : Bytes) × (cut_prefix (codes "pkgid:") (trim_space line) ≡ some id)
      × (is_empty (trim_space id) ≡ false)
unfolding pkg_id_line
pkg_id_sound line h = elim (Option-cases (cut_prefix (codes "pkgid:") (trim_space line))) [
  | inl e ↦ cc (rw (e, pkg_id_line) at h)
  | inr (id, e) ↦
      let k : not (is_empty (trim_space id)) ≡ true = rw (e, pkg_id_line) at h in
      (id, e, ground arith)
]

pkg_id_complete :
    (line id : Bytes)
    → cut_prefix (codes "pkgid:") (trim_space line) ≡ some id
    → is_empty (trim_space id) ≡ false
    → pkg_id_line line ≡ true
unfolding pkg_id_line
pkg_id_complete line id e n = rw (e, n, pkg_id_line) refl

module _ (clean : Bytes → Bytes) (run : Runner) where
  pub pkg_sound :
      (exe : Bytes) → owned_by_pkg clean run (run (pkgutil_query exe)) ≡ true → PkgClaims run exe
  unfolding owned_by_pkg has_pkg_id
  pkg_sound exe h = elim (Option-cases (run (pkgutil_query exe))) [
    | inl e ↦ cc (rw (e, owned_by_pkg) at h)
    | inr (out, e) ↦
        let k : any pkg_id_line (split_at b'\n' out) ≡ true = rw (e, owned_by_pkg) at h in
        let (line, m, f) = any_sound pkg_id_line (split_at b'\n' out) k in
        let (id, p, q) = pkg_id_sound line f in (out, line, id, e, m, p, q)
  ]

  pub pkg_complete :
      (exe : Bytes) → PkgClaims run exe → owned_by_pkg clean run (run (pkgutil_query exe)) ≡ true
  unfolding owned_by_pkg has_pkg_id
  pkg_complete exe (out, line, id, e, m, p, q) =
      rw (e, owned_by_pkg)
        (any_complete pkg_id_line line (split_at b'\n' out) m (pkg_id_complete line id p q))

says_installer_sound :
    (clean : Bytes → Bytes) (run : Runner) (o : Option Bytes)
    → says_installer clean run o ≡ true
    → (said : Bytes) × (o ≡ some said) × (contains (codes "0x1") said ≡ true)
unfolding says_installer
says_installer_sound clean run none h = cc
says_installer_sound clean run (some said) h = (said, refl, h)

pub msi_registered_sound :
    (clean : Bytes → Bytes) (run : Runner) → msi_registered clean run ≡ true → IsRegistered run
unfolding msi_registered msi_key
msi_registered_sound clean run h = elim (Option-cases (run uninstall_query)) [
  | inl e ↦ cc (rw (e, msi_registered) at h)
  | inr (found, e) ↦
      let k : any (msi_key clean run) (split_at b'\n' found) ≡ true = rw (e, msi_registered) at h in
      let (line, m, f) = any_sound (msi_key clean run) (split_at b'\n' found) k in
      let (p, q) =
        &&-eq-true (has_prefix (codes "HKEY_LOCAL_MACHINE\\") (to_upper (trim_space line))) _ f in
      let (said, a, b) =
        says_installer_sound clean run (run (installer_query (trim_space line))) q in
      (found, line, said, e, m, p, a, b)
]

msi_key_complete :
    (clean : Bytes → Bytes) (run : Runner) (line said : Bytes)
    → has_prefix (codes "HKEY_LOCAL_MACHINE\\") (to_upper (trim_space line)) ≡ true
    → run (installer_query (trim_space line)) ≡ some said
    → contains (codes "0x1") said ≡ true
    → msi_key clean run line ≡ true
unfolding msi_key says_installer
msi_key_complete clean run line said p a b = rw (p, a, b, msi_key, says_installer) refl

pub msi_registered_complete :
    (clean : Bytes → Bytes) (run : Runner) → IsRegistered run → msi_registered clean run ≡ true
unfolding msi_registered
msi_registered_complete clean run (found, line, said, e, m, p, a, b) =
    rw (e, msi_registered)
      (any_complete (msi_key clean run) line (split_at b'\n' found) m
        (msi_key_complete clean run line said p a b))
