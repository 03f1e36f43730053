-- ===== src/Update/Method.antt =====
-- internal/update/method.go: how the running agent was installed.
-- A `Runner` is a function of the command line: the output, or `none` for any error.
pub mod Claims
pub mod Probe
use siembox_endpoint.Prelude.{
  ℕ, Bool, true, false, not, ◌&&◌, ◌||◌, Option, none, some, List, [], ◌∷◌, ◌++◌, Bytes, ◌==◌, any,
  if◌then◌else◌, is_empty, trim_space, cut_prefix, has_prefix, contains, split_at, to_lower,
  to_upper, map, str_eq, codes, Result, ok, err,
}
use siembox_endpoint.Update.Assets.{
  Method, deb, rpm, linux_archive, pkg, darwin_archive, msi, windows_zip,
}

pub data Goos : Type 0 where
  linux darwin windows : Goos
  other : Bytes → Goos

abbrev pub Runner : Type 0
Runner = List Bytes → Option Bytes

-- the error of an unsupported system
pub data MethodError : Type 0 where
  unsupported_os : Bytes → MethodError

-- `err == nil && strings.TrimSpace(out) != ""`
unfoldable pub has_output : Option Bytes → Bool
has_output none = false
has_output (some out) = not (is_empty (trim_space out))

-- The closure's test on one line of `pkgutil --file-info`.
pkg_id_line : Bytes → Bool
pkg_id_line line = elim (cut_prefix (codes "pkgid:") (trim_space line)) [
  | none ↦ false
  | some v ↦ not (is_empty (trim_space v))
]

unfoldable pub has_pkg_id : Bytes → Bool
unfolding pkg_id_line
has_pkg_id out = any pkg_id_line (split_at b'\n' out)

-- `strings.ReplaceAll(p, "\", "/")`
slashes : Bytes → Bytes
slashes = map (λ c. if c == b'\\' then b'/' else c)

-- The last guard of the rpm probe.
pub owned_by_rpm : Option Bytes → Bool
owned_by_rpm none = false
owned_by_rpm (some out) =
    not (is_empty (trim_space out)) && not (contains (codes "not owned by any package") out)

abbrev pub uninstall_key : Bytes
uninstall_key = codes "HKLM\\SOFTWARE\\Microsoft\\Windows\\CurrentVersion\\Uninstall"

abbrev pub msi_product : Bytes
msi_product = codes "SIEMBox Endpoint Agent"

abbrev pub dpkg_query : Bytes → List Bytes
dpkg_query exe = codes "dpkg-query" ∷ codes "-S" ∷ exe ∷ []

abbrev pub rpm_query : Bytes → List Bytes
rpm_query exe = codes "rpm" ∷ codes "-qf" ∷ exe ∷ []

abbrev pub pkgutil_query : Bytes → List Bytes
pkgutil_query exe = codes "pkgutil" ∷ codes "--file-info" ∷ exe ∷ []

abbrev pub uninstall_query : List Bytes
uninstall_query =
    codes "reg"
    ∷ codes "query"
    ∷ uninstall_key
    ∷ codes "/s"
    ∷ codes "/f"
    ∷ msi_product
    ∷ codes "/d"
    ∷ codes "/e"
    ∷ []

abbrev pub installer_query : Bytes → List Bytes
installer_query key = codes "reg" ∷ codes "query" ∷ key ∷ codes "/v" ∷ codes "WindowsInstaller" ∷ []

-- `path.Clean` is the standard library's, a parameter of what follows.
module _ (clean : Bytes → Bytes) (run : Runner) where
  norm : Bytes → Bytes
  unfolding slashes
  norm p = to_lower (clean (slashes p))

  unfoldable pub is_msi_path : Bytes → Bytes → Bool
  unfolding norm
  is_msi_path exe program_files =
      let root = if is_empty program_files then codes "C:\\Program Files" else program_files in
      str_eq (norm exe) (norm root ++ codes "/siembox/siembox-agent.exe")

  -- `err == nil && strings.Contains(v, "0x1")`
  says_installer : Option Bytes → Bool
  says_installer none = false
  says_installer (some v) = contains (codes "0x1") v

  -- one line of the registry search: a key under HKEY_LOCAL_MACHINE is asked for its installer
  msi_key : Bytes → Bool
  unfolding says_installer
  msi_key line =
      has_prefix (codes "HKEY_LOCAL_MACHINE\\") (to_upper (trim_space line))
      && says_installer (run (installer_query (trim_space line)))

  unfoldable pub msi_registered : Bool
  unfolding msi_key
  msi_registered = elim (run uninstall_query) [
    | none ↦ false
    | some out ↦ any msi_key (split_at b'\n' out)
  ]

  -- `err == nil && hasPkgID(out)`
  pub owned_by_pkg : Option Bytes → Bool
  unfolding has_pkg_id
  owned_by_pkg none = false
  owned_by_pkg (some out) = has_pkg_id out

  unfoldable pub detect_method : Goos → Bytes → Bytes → Result MethodError Method
  unfolding owned_by_rpm owned_by_pkg
  detect_method linux exe program_files =
      if has_output (run (dpkg_query exe))
      then ok deb
      else if owned_by_rpm (run (rpm_query exe))
      then ok rpm
      else ok linux_archive
  detect_method darwin exe program_files =
      if owned_by_pkg (run (pkgutil_query exe)) then ok pkg else ok darwin_archive
  detect_method windows exe program_files =
      if is_msi_path exe program_files && msi_registered then ok msi else ok windows_zip
  detect_method (other goos) exe program_files = err (unsupported_os goos)
