-- ===== src/Packages/Linux.antt =====
-- internal/packages/linuxdb.go: the readers of dpkg's status file, of Alpine's installed database
-- and of the output of rpm.
pub mod Dpkg
pub mod Status
use siembox_endpoint.Prelude.{
  ℕ, Bool, true, false, not, ◌&&◌, ◌||◌, Option, none, some, List, [], ◌∷◌, ◌++◌, Bytes, ◌==◌,
  if◌then◌else◌, is_empty, trim_space, str_eq, has_prefix, has_suffix, cut_at, split_at, scan_lines,
  codes, drop,
}
use siembox_endpoint.Packages.{Package}

-- 4 MiB
abbrev pub max_line : ℕ
max_line = 4_194_304

-- the variables of the loop of `ParseDpkgStatus`
pub record Stanza : Type 0 where
  pub name : Bytes
  pub version : Bytes
  pub status : Bytes

abbrev pub no_stanza : Stanza
no_stanza = record { name = []; version = []; status = [] }

-- the closure `flush`
unfoldable pub flush_stanza : Stanza → List Package
flush_stanza st =
    if not (is_empty st.name) && has_suffix (codes " installed") (trim_space st.status)
    then record { name = st.name; version = st.version; kind = codes "deb" } ∷ []
    else []

-- the `switch` on the key
unfoldable pub set_field : Bytes → Bytes → Stanza → Stanza
set_field key value st =
    if str_eq key (codes "Package")
    then record st { name = value }
    else if str_eq key (codes "Version")
    then record st { version = value }
    else if str_eq key (codes "Status")
    then record st { status = value }
    else st

-- `line[0] == ' ' || line[0] == '\t'`
abbrev pub is_continuation : Bytes → Bool
is_continuation [] = false
is_continuation (c ∷ line) = c == 32 || c == 9

-- A line that is not blank.
unfoldable pub read_field : Bytes → Stanza → Stanza
read_field line st = if is_continuation line then st else elim (cut_at b':' line) [
  | none ↦ st
  | some field ↦ set_field field.0 (trim_space field.1) st
]

unfoldable pub read_stanzas : List Bytes → Stanza → List Package
read_stanzas [] st = flush_stanza st
read_stanzas (line ∷ lines) st = elim (is_empty (trim_space line)) [
  | true ↦ flush_stanza st ++ read_stanzas lines no_stanza
  | false ↦ read_stanzas lines (read_field line st)
]

-- The packages, and whether the scanner failed.
unfoldable pub parse_dpkg_status : Bytes → List Package × Bool
parse_dpkg_status raw =
    let scanned = scan_lines max_line raw in (read_stanzas scanned.0 no_stanza, scanned.1)

-- The closure `flush` of `ParseApkInstalled`.
unfoldable pub flush_apk : Bytes → Bytes → List Package
flush_apk name version =
    if not (is_empty name)
    then record { name = name; version = version; kind = codes "apk" } ∷ []
    else []

unfoldable pub read_apk : List Bytes → Bytes → Bytes → List Package
read_apk [] name version = flush_apk name version
read_apk (line ∷ lines) name version = elim (is_empty (trim_space line)) [
  | true ↦ flush_apk name version ++ read_apk lines [] []
  | false ↦ elim (has_prefix (codes "P:") line) [
    | true ↦ read_apk lines (trim_space (drop 2 line)) version
    | false ↦ elim (has_prefix (codes "V:") line) [
      | true ↦ read_apk lines name (trim_space (drop 2 line))
      | false ↦ read_apk lines name version
    ]
  ]
]

unfoldable pub parse_apk_installed : Bytes → List Package × Bool
parse_apk_installed raw =
    let scanned = scan_lines max_line raw in (read_apk scanned.0 [] [], scanned.1)

-- One line of the output of rpm.
unfoldable pub rpm_package : Bytes → List Package
rpm_package line = elim (cut_at b'\t' (trim_space line)) [
  | none ↦ []
  | some cut ↦
      if is_empty cut.0 || str_eq cut.0 (codes "gpg-pubkey")
      then []
      else record { name = cut.0; version = trim_space cut.1; kind = codes "rpm" } ∷ []
]

unfoldable pub read_rpm : List Bytes → List Package
read_rpm [] = []
read_rpm (line ∷ lines) = rpm_package line ++ read_rpm lines

unfoldable pub parse_rpm_query : Bytes → List Package
parse_rpm_query raw = read_rpm (split_at b'\n' raw)
