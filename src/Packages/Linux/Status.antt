-- ===== src/Packages/Linux/Status.antt =====
-- A status file as dpkg writes it, for internal/packages/linuxdb.go (`ParseDpkgStatus`).
use siembox_endpoint.Prelude.{
  ◌≤◌, not, if◌then◌else◌, ◌==◌, str_eq, All-append, ◌⊎◌, Bool, true, false, List, [], ◌∷◌, ◌++◌,
  Bytes, leb, is_empty, trim_space, scan_lines, scan_lines_cons, is_plain, all, all-append, length,
  length-append, codes, ◌≡◌, refl, ◌∙◌, ap, arith, All,
}
use siembox_endpoint.Packages.{Package}
use siembox_endpoint.Packages.Linux.{max_line, is_continuation}

-- A value that a field can carry: one line, without white space at its ends, of at most a million
-- bytes.
abbrev pub IsField : Bytes → Type 0
IsField s = (all is_plain s ≡ true) × (trim_space s ≡ s) × (length s ≤ 1_000_000)

-- An entry of the status file: a package, whether it is installed or only its configuration is
-- left, and the other lines of its stanza, before and after the version.
pub record Entry : Type 0 where
  pub deb : Package
  pub is_installed : Bool
  pub before : List Bytes
  pub after : List Bytes

-- Another line of a stanza: a line that continues a field, or a field that is none of the three.
abbrev pub IsOther : Bytes → Type 0
IsOther line =
    (all is_plain line ≡ true)
    × (length line ≤ 1_000_000)
    × (is_empty (trim_space line) ≡ false)
    × ((is_continuation line ≡ true)
        ⊎ ((key value : Bytes) × (line ≡ key ++ (b':' ∷ value))
            × (all (λ c. not (c == b':')) key ≡ true)
            × (str_eq key (codes "Package") ≡ false)
            × (str_eq key (codes "Version") ≡ false)
            × (str_eq key (codes "Status") ≡ false)))

abbrev pub IsDeb : Package → Type 0
IsDeb p = IsField p.name × (is_empty p.name ≡ false) × IsField p.version × (p.kind ≡ codes "deb")

abbrev pub IsEntry : Entry → Type 0
IsEntry e = IsDeb e.deb × All IsOther e.before × All IsOther e.after

abbrev pub status_text : Bool → Bytes
status_text b = if b then codes "install ok installed" else codes "deinstall ok config-files"

abbrev pub status_line : Bool → Bytes
status_line b = codes "Status: " ++ status_text b

abbrev pub print_lines : List Bytes → Bytes → Bytes
print_lines [] rest = rest
print_lines (line ∷ lines) rest = line ++ (10 ∷ print_lines lines rest)

-- A stanza ends with an empty line.
abbrev pub entry_lines : Entry → List Bytes
entry_lines e =
    (codes "Package: " ++ e.deb.name)
    ∷ status_line e.is_installed
    ∷ (e.before ++ ((codes "Version: " ++ e.deb.version) ∷ (e.after ++ ([] ∷ []))))

abbrev pub print_dpkg : List Entry → Bytes
print_dpkg [] = []
print_dpkg (e ∷ es) = print_lines (entry_lines e) (print_dpkg es)

-- The packages of the entries that are installed.
abbrev pub installed : List Entry → List Package
installed [] = []
installed (e ∷ es) = let rest = installed es in if e.is_installed then e.deb ∷ rest else rest

short_line :
    (k s : Bytes) → length k ≤ 100 → length s ≤ 1_000_000 → leb max_line (length (k ++ s)) ≡ false
short_line k s h g = ground (arith, length-append k s)

plain_line :
    (k s : Bytes) → all is_plain k ≡ true → all is_plain s ≡ true → all is_plain (k ++ s) ≡ true
plain_line k s h g = ground (arith, all-append is_plain k s)

-- A line that the scanner takes whole.
abbrev pub IsLine : Bytes → Type 0
IsLine line = (all is_plain line ≡ true) × (leb max_line (length line) ≡ false)

pub scan_print_lines :
    (lines : List Bytes) (rest : Bytes)
    → All IsLine lines
    → scan_lines max_line (print_lines lines rest)
      ≡ (lines ++ (scan_lines max_line rest).0, (scan_lines max_line rest).1)
scan_print_lines [] rest h = refl
scan_print_lines (line ∷ lines) rest ((p, s), h) =
    scan_lines_cons max_line line (print_lines lines rest) p s
    ∙ ap (λ r. (line ∷ r.0, r.1)) (scan_print_lines lines rest h)

other-IsLine : (lines : List Bytes) → All IsOther lines → All IsLine lines
other-IsLine [] h = tt
other-IsLine (line ∷ lines) ((p, n, _, _), h) = ((p, ground arith), other-IsLine lines h)

pub entry-IsLine : (e : Entry) → IsEntry e → All IsLine (entry_lines e)
entry-IsLine e ((n, ne, v, k), b, a) = (
  (
    plain_line (codes "Package: ") e.deb.name refl n.0,
    short_line (codes "Package: ") e.deb.name (omega arith) n.2,
  ),
  (
    status-IsLine e.is_installed,
    All-append IsLine e.before _ (other-IsLine e.before b) (
      (
        plain_line (codes "Version: ") e.deb.version refl v.0,
        short_line (codes "Version: ") e.deb.version (omega arith) v.2,
      ),
      All-append IsLine e.after ([] ∷ []) (other-IsLine e.after a) ((refl, refl), tt),
    ),
  ),
)
  where
    status-IsLine : (b : Bool) → IsLine (status_line b)
    status-IsLine true = (refl, refl)
    status-IsLine false = (refl, refl)
