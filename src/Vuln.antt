-- ===== src/Vuln.antt =====
-- internal/vuln/grype.go: the vulnerability scanner. The runner of grype, the JSON decoder, the
-- file system's answer and the scores (`F`, float64) are parameters.
pub mod Merge
pub mod Complete
use siembox_endpoint.Prelude.{
  ℕ, Bool, true, false, not, ◌&&◌, ◌||◌, Option, none, some, List, [], ◌∷◌, ◌++◌, Bytes,
  if◌then◌else◌, is_empty, to_lower, str_eq, cut_prefix, codes, map, any, Result, ok, err, ◌>>=◌,
}

pub data Severity : Type 0 where
  critical high medium low : Severity

unfoldable pub normalize_severity : Bytes → Severity
normalize_severity s =
    let t = to_lower s in
    if str_eq t (codes "critical")
    then critical
    else if str_eq t (codes "high")
    then high
    else if str_eq t (codes "medium")
    then medium
    else low

-- `grypeMatch`, its parts in one record.
pub record GrypeMatch (F : Type 0) : Type 0 where
  pub id : Bytes
  pub severity : Bytes
  pub description : Bytes
  pub fix_versions : List Bytes
  pub fix_state : Bytes
  pub cvss : List F
  pub name : Bytes
  pub version : Bytes

-- `models.Vulnerability`, less the constant source.
pub record Vulnerability (F : Type 0) : Type 0 where
  pub cve : Bytes
  pub package_name : Bytes
  pub installed_version : Bytes
  pub fixed_version : Bytes
  pub severity : Severity
  pub cvss : F
  pub description : Bytes

-- `defaultGrypeTargets`
unfoldable pub default_grype_targets : Bytes → List Bytes
default_grype_targets goos =
    if str_eq goos (codes "darwin")
    then codes "dir:/Applications"
      ∷ codes "dir:/System/Applications"
      ∷ codes "dir:/Library"
      ∷ codes "dir:/usr/local"
      ∷ codes "dir:/opt"
      ∷ []
    else if str_eq goos (codes "windows")
    then codes "dir:C:\\Program Files" ∷ codes "dir:C:\\Program Files (x86)" ∷ []
    else codes "dir:/" ∷ []

-- The binary and the targets of `NewGrypeScanner`.
unfoldable pub new_grype_scanner : Bytes → Bytes → Bytes → Bytes × List Bytes
new_grype_scanner goos binary target = (
  if is_empty binary then codes "grype" else binary,
  if is_empty target then default_grype_targets goos else target ∷ [],
)

-- `is_dir` is `os.Stat` of a path that is a directory.
unfoldable pub existing_targets : (Bytes → Bool) → List Bytes → List Bytes
existing_targets is_dir [] = []
existing_targets is_dir (t ∷ ts) =
    let rest = existing_targets is_dir ts in
    elim (cut_prefix (codes "dir:") t) [
      | none ↦ t ∷ rest
      | some path ↦ if is_dir path then t ∷ rest else rest
    ]

unfoldable pub grype_self_excludes : List Bytes
grype_self_excludes =
    codes "**/siembox-endpoint/**"
    ∷ codes "**/siembox-edr/**"
    ∷ codes "**/SIEMBox/**"
    ∷ codes "**/siembox-agent"
    ∷ codes "**/siembox-agent.exe"
    ∷ codes "**/siembox-tray"
    ∷ codes "**/siembox-uninstall"
    ∷ codes "**/grype"
    ∷ codes "**/grype.exe"
    ∷ codes "**/syft"
    ∷ codes "**/syft.exe"
    ∷ codes "**/osqueryd"
    ∷ codes "**/osqueryd.exe"
    ∷ codes "**/osqueryi"
    ∷ codes "**/osqueryi.exe"
    ∷ []

-- the loop over the excludes
unfoldable pub exclude_args : List Bytes → List Bytes
exclude_args [] = []
exclude_args (e ∷ es) = codes "--exclude" ∷ e ∷ exclude_args es

unfoldable pub grype_args : Bytes → List Bytes
grype_args t = t ∷ codes "-o" ∷ codes "json" ∷ exclude_args grype_self_excludes

-- The errors of a scan.
pub data ScanError : Type 0 where
  no_targets parse_failed : ScanError
  run_failed : Bytes → ScanError

module _ {F : Type 0} (nought : F) (above : F → F → Bool) where
  -- the loop of `maxBaseScore`
  unfoldable pub max_base_score : List F → F → F
  max_base_score [] best = best
  max_base_score (c ∷ cs) best = max_base_score cs (if above c best then c else best)

  unfoldable pub fixed_version_of : Bytes → List Bytes → Bytes
  fixed_version_of state [] = []
  fixed_version_of state (v ∷ vs) = if str_eq state (codes "fixed") then v else []

  unfoldable pub vulnerability_of : GrypeMatch F → Vulnerability F
  vulnerability_of m = record {
    cve = m.id;
    package_name = m.name;
    installed_version = m.version;
    fixed_version = fixed_version_of m.fix_state m.fix_versions;
    severity = normalize_severity m.severity;
    cvss = max_base_score m.cvss nought;
    description = m.description;
  }

-- `v.CVE + "|" + v.Package + "|" + v.InstalledVersion`
unfoldable pub key_of : {F : Type 0} → Vulnerability F → Bytes
key_of v = v.cve ++ (b'|' ∷ (v.package_name ++ (b'|' ∷ v.installed_version)))

-- The inner loop of `Scan`: the keys seen and the findings so far. The keys stand before the list.
unfoldable pub merge_findings :
    {F : Type 0}
    → List (Vulnerability F)
    → List Bytes
    → List (Vulnerability F)
    → List Bytes × List (Vulnerability F)
merge_findings [] seen merged = (seen, merged)
merge_findings (v ∷ vs) seen merged = elim (any (λ k. str_eq k (key_of v)) seen) [
  | true ↦ merge_findings vs seen merged
  | false ↦ merge_findings vs (key_of v ∷ seen) (merged ++ (v ∷ []))
]

module _ {F : Type 0} (run : List Bytes → Result Bytes Bytes)
    (parse : Bytes → Option (List (Vulnerability F))) where
  -- What grype answers for one target.
  unfoldable pub findings_of : Bytes → Result ScanError (List (Vulnerability F))
  findings_of t = elim (run (grype_args t)) [
    | err e ↦ err (run_failed t)
    | ok out ↦ elim (parse out) [ none ↦ err parse_failed | some vs ↦ ok vs ]
  ]

  -- The outer loop of `Scan`.
  unfoldable pub scan_targets :
      List Bytes → List Bytes → List (Vulnerability F) → Result ScanError (List (Vulnerability F))
  scan_targets [] seen merged = ok merged
  scan_targets (t ∷ ts) seen merged = elim (findings_of t) [
    | err e ↦ err e
    | ok vs ↦ scan_targets ts (merge_findings vs seen merged).0 (merge_findings vs seen merged).1
  ]

  unfoldable pub scan : (Bytes → Bool) → List Bytes → Result ScanError (List (Vulnerability F))
  scan is_dir targets = elim (existing_targets is_dir targets) [
    | [] ↦ err no_targets
    | t ∷ ts ↦ scan_targets (t ∷ ts) [] []
  ]

-- `parseGrypeJSON`; `decode` is `json.Unmarshal`.
unfoldable pub parse_grype_json :
    {F : Type 0}
    → F
    → (F → F → Bool)
    → (Bytes → Option (List (GrypeMatch F)))
    → Bytes
    → Option (List (Vulnerability F))
parse_grype_json nought above decode raw = elim (decode raw) [
  | none ↦ none
  | some ms ↦ some (map (vulnerability_of nought above) ms)
]
