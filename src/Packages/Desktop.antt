-- ===== src/Packages/Desktop.antt =====
-- internal/packages/windowsdb.go and macosdb.go: the mapping of a Windows uninstall entry, the
-- receipts of pkgutil and the application bundles. The base name of a path is a parameter.
use siembox_endpoint.Prelude.{
  ℕ, Bool, true, false, not, ◌||◌, ◌-◌, Option, none, some, List, [], ◌∷◌, Bytes, ◌==◌,
  if◌then◌else◌, is_empty, trim_space, to_lower, str_eq, has_prefix, cut_at, trim_suffix,
  scan_lines, codes, lookup,
}
use siembox_endpoint.Packages.{Package}

pub record UninstallEntry : Type 0 where
  pub display_name : Bytes
  pub display_version : Bytes
  pub parent_key_name : Bytes
  pub release_type : Bytes
  pub system_component : ℕ
  pub windows_installer : ℕ

-- the `switch` on the release type
unfoldable pub is_patch : Bytes → Bool
is_patch release_type =
    let t = to_lower (trim_space release_type) in
    str_eq t (codes "update")
    || str_eq t (codes "hotfix")
    || str_eq t (codes "security update")
    || str_eq t (codes "service pack")

unfoldable pub uninstall_package : UninstallEntry → Option Package
uninstall_package e =
    let name = trim_space e.display_name in
    if is_empty name || e.system_component == 1 || not (is_empty e.parent_key_name)
    then none
    else if is_patch e.release_type
    then none
    else some (record {
      name = name;
      version = trim_space e.display_version;
      kind = if e.windows_installer == 1 then codes "msi" else codes "win";
    })

-- The scanner's default buffer holds 64 KiB.
abbrev pub default_line : ℕ
default_line = 65536

abbrev pub max_receipts : ℕ
max_receipts = 1000

-- a line that is no receipt of another vendor
unfoldable pub is_skipped : Bytes → Bool
is_skipped id = is_empty id || has_prefix (codes "com.apple.") id

-- The loop of `ParsePkgutilList`, with the number of receipts still to take.
unfoldable pub read_receipts : List Bytes → ℕ → List Bytes
read_receipts [] n = []
read_receipts (line ∷ lines) n = elim (is_skipped (trim_space line)) [
  | true ↦ read_receipts lines n
  | false ↦ elim (n == 1) [
    | true ↦ trim_space line ∷ []
    | false ↦ trim_space line ∷ read_receipts lines (n - 1)
  ]
]

unfoldable pub parse_pkgutil_list : Bytes → List Bytes
parse_pkgutil_list raw = read_receipts (scan_lines default_line raw).0 max_receipts

unfoldable pub read_version : List Bytes → Bytes
read_version [] = []
read_version (line ∷ lines) = elim (cut_at b':' line) [
  | none ↦ read_version lines
  | some cut ↦ elim (str_eq (trim_space cut.0) (codes "version")) [
    | true ↦ trim_space cut.1
    | false ↦ read_version lines
  ]
]

unfoldable pub parse_pkgutil_info : Bytes → Bytes
parse_pkgutil_info raw = read_version (scan_lines default_line raw).0

-- `info[key]`
abbrev pub value_of : Bytes → List (Bytes × Bytes) → Bytes
value_of key info = elim (lookup key info) [ none ↦ [] | some v ↦ v ]

unfoldable pub app_package : (Bytes → Bytes) → Bytes → List (Bytes × Bytes) → Package
app_package base bundle info =
    let short = value_of (codes "CFBundleShortVersionString") info in
    record {
      name = trim_suffix (codes ".app") (base bundle);
      version = if is_empty short then value_of (codes "CFBundleVersion") info else short;
      kind = codes "app";
    }
