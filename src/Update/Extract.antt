-- ===== src/Update/Extract.antt =====
-- internal/update/extract.go, and `swapBinary` and `exe` of updater.go: the agent's executable out
-- of a release archive, its check and its place on the disk. The readers of gzip, tar and zip are
-- parameters of the model: an archive is the list of the entries that they give.
pub mod Written
pub mod Replaced
pub mod Safe
use siembox_endpoint.Prelude.{
  ℕ, ◌+◌, Bool, true, false, not, ◌&&◌, ◌||◌, Option, none, some, List, [], ◌∷◌, ◌++◌, Bytes, ltb,
  if◌then◌else◌, length, take, str_eq, trim_space, codes, Result, ok, err,
}
use siembox_endpoint.Update.Assets.{Method, windows_zip}
use siembox_endpoint.Update.Plan.{Command, restart_command}
use siembox_endpoint.Update.Disk.{Disk, put, remove, move}
use siembox_endpoint.Update.Download.{Body, limited_error, max_download_bytes}

pub data ExtractError : Type 0 where
  no_entry too_large self_check : ExtractError
  outside place_failed restore_failed : Bytes → ExtractError

-- An entry; `regular` is the test of the type flag, or that it is no directory. A zip entry has to
-- be opened first.
pub record Entry : Type 0 where
  pub name : Bytes
  pub regular : Bool
  pub opened : Option Bytes
  pub body : Body

-- The entries up to the end of the archive or up to an error.
pub record Archive : Type 0 where
  pub open_error : Option Bytes
  pub entries : List Entry
  pub read_error : Option Bytes

-- What the file system answers to `writeLimited`, in order; a write that fails leaves some
-- content behind. `removes` says whether `os.Remove` works.
pub record Fs : Type 0 where
  pub create : Option Bytes
  pub write : Option (Bytes × Bytes)
  pub close : Option Bytes
  pub chmod : Option Bytes
  pub removes : Bool

unfoldable pub copied : Fs → ℕ → Body → Bytes × Option Bytes
copied fs limit body = elim fs.write [
  | some failed ↦ (failed.0, some failed.1)
  | none ↦ (take (limit + 1) body.content, limited_error limit body)
]

-- `err` before the test of the size: of the copy, else of `Close`.
abbrev pub first_error : Option Bytes → Option Bytes → Option Bytes
first_error (some e) closed = some e
first_error none closed = closed

unfoldable pub write_limited : Fs → Bytes → Body → ℕ → Disk → Disk × Option ExtractError
write_limited fs dest body limit disk =
    let got = (copied fs limit body).0 in
    let written = put dest got disk in
    elim fs.create [
      | some e ↦ (disk, some (outside e))
      | none ↦ elim (first_error (copied fs limit body).1 fs.close) [
        | some e ↦ (remove fs.removes dest written, some (outside e))
        | none ↦
            if ltb limit (length got)
            then (remove fs.removes dest written, some too_large)
            else (written, elim fs.chmod [ none ↦ none | some e ↦ some (outside e) ])
      ]
    ]

-- The loops of `extractTarGz` and `extractZip`; `base` is `path.Base`.
unfoldable pub find_entry : (Bytes → Bytes) → Bytes → List Entry → Option Entry
find_entry base want [] = none
find_entry base want (e ∷ es) =
    let rest = find_entry base want es in
    if not e.regular || not (str_eq (base e.name) want) then rest else some e

-- What follows a loop that found nothing.
abbrev pub end_error : Option Bytes → ExtractError
end_error none = no_entry
end_error (some e) = outside e

unfoldable pub extract :
    (Bytes → Bytes) → Fs → Archive → Bytes → Bytes → ℕ → Disk → Disk × Option ExtractError
extract base fs archive dest want limit disk = elim archive.open_error [
  | some e ↦ (disk, some (outside e))
  | none ↦ elim (find_entry base want archive.entries) [
    | none ↦ (disk, some (end_error archive.read_error))
    | some entry ↦ elim entry.opened [
      | some e ↦ (disk, some (outside e))
      | none ↦ write_limited fs dest entry.body limit disk
    ]
  ]
]

-- the argument `want` of `ExtractBinary`
unfoldable pub binary_name : Bool → Bytes
binary_name true = codes "siembox-agent.exe"
binary_name false = codes "siembox-agent"

unfoldable pub extract_binary :
    (Bytes → Bytes) → Fs → Archive → Bytes → Bool → ℕ → Disk → Disk × Option ExtractError
extract_binary base fs archive dest windows limit disk =
    extract base fs archive dest (binary_name windows) limit disk

-- `os.Rename`: it fails when the file system says so or when there is no such file.
unfoldable pub rename : Option Bytes → Bytes → Bytes → Disk → Disk × Option Bytes
rename (some e) from to disk = (disk, some e)
rename none from to disk = elim (disk from) [
  | none ↦ (disk, some (codes "no such file"))
  | some content ↦ (move content from to disk, none)
]

-- The answers to the three renames of `ReplaceExecutable`: aside, into place, back. `removes` is
-- that of the old file.
pub record Renames : Type 0 where
  pub removes : Bool
  pub aside : Option Bytes
  pub place : Option Bytes
  pub restore : Option Bytes

abbrev pub old_of : Bytes → Bytes
old_of exe = exe ++ codes ".old"

abbrev pub new_of : Bytes → Bytes
new_of exe = exe ++ codes ".new"

-- After the second rename of the Windows branch failed: the answer of the third.
abbrev pub restored : Bytes → Disk × Option Bytes → Disk × Option ExtractError
restored why (disk, none) = (disk, some (place_failed why))
restored why (disk, some e) = (disk, some (restore_failed why))

unfoldable pub put_back : Renames → Bytes → Bytes → Disk → Disk × Option ExtractError
put_back r exe why disk = restored why (rename r.restore (old_of exe) exe disk)

abbrev pub placed : Renames → Bytes → Disk × Option Bytes → Disk × Option ExtractError
placed r exe (disk, none) = (disk, none)
placed r exe (disk, some e) = put_back r exe e disk

abbrev pub set_aside : Renames → Bytes → Bytes → Disk × Option Bytes → Disk × Option ExtractError
set_aside r exe new (disk, none) = placed r exe (rename r.place new exe disk)
set_aside r exe new (disk, some e) = (disk, some (outside e))

unfoldable pub replace_windows : Renames → Bytes → Bytes → Disk → Disk × Option ExtractError
replace_windows r exe new disk =
    set_aside r exe new (rename r.aside exe (old_of exe) (remove r.removes (old_of exe) disk))

unfoldable pub replace_unix : Renames → Bytes → Bytes → Disk → Disk × Option ExtractError
replace_unix r exe new disk = (
  (rename r.place new exe disk).0,
  elim (rename r.place new exe disk).1 [ none ↦ none | some e ↦ some (outside e) ],
)

unfoldable pub replace_executable :
    Renames → Bytes → Bytes → Bool → Disk → Disk × Option ExtractError
replace_executable r exe new windows disk =
    if windows then replace_windows r exe new disk else replace_unix r exe new disk

-- What `swapBinary` asks of the outside. A file that is run with `version` answers, or fails.
pub record Swap : Type 0 where
  pub base : Bytes → Bytes
  pub join : Bytes → Bytes → Bytes
  pub fs : Fs
  pub renames : Renames
  pub run_version : Option Bytes → Bytes × Bool
  pub removes_new : Bool
  pub state_dir : Bytes

abbrev pub is_windows_zip : Method → Bool
is_windows_zip windows_zip = true
is_windows_zip _ = false

-- `err != nil || got != ver`, negated.
unfoldable pub reports_version : Bytes × Bool → Bytes → Bool
reports_version out version = not (out.1 || not (str_eq (trim_space out.0) version))

-- After the new executable is extracted to its path.
unfoldable pub check_and_swap :
    Swap → Bool → Bytes → Bytes → Disk → Disk × Result ExtractError Command
check_and_swap s windows exe version disk =
    let swapped = replace_executable s.renames exe (new_of exe) windows disk in
    if reports_version (s.run_version (disk (new_of exe))) version
    then elim swapped.1 [
      | some e ↦ (remove s.removes_new (new_of exe) swapped.0, err e)
      | none ↦ (swapped.0, ok (restart_command s.join exe s.state_dir))
    ]
    else (remove s.removes_new (new_of exe) disk, err self_check)

unfoldable pub swap_binary :
    Swap → Method → Archive → Bytes → Bytes → Disk → Disk × Result ExtractError Command
swap_binary s method archive exe version disk =
    let win = is_windows_zip method in
    let extracted = extract_binary s.base s.fs archive (new_of exe) win max_download_bytes disk in
    elim extracted.1 [
      | some e ↦ (extracted.0, err e)
      | none ↦ check_and_swap s win exe version extracted.0
    ]

-- `exe`: the option, else `os.Executable` with its links followed where that works.
unfoldable pub exe_path : Bytes → Result Bytes Bytes → (Bytes → Option Bytes) → Result Bytes Bytes
exe_path [] (err e) follow = err e
exe_path [] (ok p) follow = elim (follow p) [ none ↦ ok p | some r ↦ ok r ]
exe_path (c ∷ path) found follow = ok (c ∷ path)
