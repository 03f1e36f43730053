-- ===== src/Update/Sums.antt =====
-- internal/update/sums.go: the checksum file of a release.
pub mod Parse
use siembox_endpoint.Prelude.{
  ℕ, suc, ◌+◌, Bool, true, false, not, ◌&&◌, ◌||◌, Option, none, some, List, [], ◌∷◌, Bytes, all,
  ◌==◌, ltb, if◌then◌else◌, is_alnum, is_hex, is_empty, is_space, length, take, drop, trim_space,
  trim_right, trim_prefix, to_lower, codes, str_eq, Result, ok, err, lookup, insert, scan_lines,
}

-- `^[0-9a-fA-F]{64}$`
unfoldable pub hex_sum_re : Bytes → Bool
hex_sum_re s = length s == 64 && all is_hex s

-- `[A-Za-z0-9._+~-]`
unfoldable pub name_char : ℕ → Bool
name_char c = is_alnum c || c == b'.' || c == b'_' || c == b'+' || c == b'~' || c == b'-'

-- `^[A-Za-z0-9][A-Za-z0-9._+~-]*$`
unfoldable pub asset_name_re : Bytes → Bool
asset_name_re [] = false
asset_name_re (c ∷ s) = is_alnum c && all name_char s

-- The errors of `ParseSHA256SUMS`, with the line's number or the name that the message shows.
pub data SumsError : Type 0 where
  malformed : ℕ → SumsError
  unsafe_name : ℕ → SumsError
  conflict : Bytes → SumsError
  read_failed : SumsError
  empty : SumsError

abbrev pub Sums : Type 0
Sums = List (Bytes × Bytes)

-- What one line says.
pub data Line : Type 0 where
  blank bad unsafe : Line
  entry : Bytes → Bytes → Line

-- `line[64]`, after the test of the length
unfoldable pub byte_64 : Bytes → ℕ
byte_64 line = elim (drop 64 line) [ [] ↦ 0 | c ∷ _ ↦ c ]

unfoldable pub entry_name : Bytes → Bytes
entry_name line = trim_prefix (codes "*") (trim_prefix (codes " ") (drop 65 line))

-- The body of the loop up to the look-up of the name.
unfoldable pub read_line : Bytes → Line
read_line text =
    let line = trim_right (λ c. c == 13) text in
    if is_empty (trim_space line)
    then blank
    else if ltb (length line) 66 || not (hex_sum_re (take 64 line)) || not (byte_64 line == b' ')
    then bad
    else if not (asset_name_re (entry_name line))
    then unsafe
    else entry (entry_name line) (to_lower (take 64 line))

-- `if prev, dup := out[name]; dup && prev != sum`
unfoldable pub clashes : Option Bytes → Bytes → Bool
clashes none sum = false
clashes (some prev) sum = not (str_eq prev sum)

-- the loop; the second argument is the number of lines read
unfoldable pub parse_lines : List Bytes → ℕ → Sums → Result SumsError Sums
parse_lines [] n out = ok out
parse_lines (l ∷ ls) n out = elim (read_line l) [
  | blank ↦ parse_lines ls (n + 1) out
  | bad ↦ err (malformed (n + 1))
  | unsafe ↦ err (unsafe_name (n + 1))
  | entry name sum ↦ elim (clashes (lookup name out) sum) [
    | true ↦ err (conflict name)
    | false ↦ parse_lines ls (n + 1) (insert name sum out)
  ]
]

-- what follows the loop: `sc.Err()`, then the test for an empty map
unfoldable pub finish_sums : Bool → Result SumsError Sums → Result SumsError Sums
finish_sums failed (err e) = err e
finish_sums true (ok out) = err read_failed
finish_sums false (ok []) = err empty
finish_sums false (ok (x ∷ out)) = ok (x ∷ out)

-- The scanner's buffer holds 64 KiB.
unfoldable pub parse_sums : Bytes → Result SumsError Sums
parse_sums raw =
    let (lines, failed) = scan_lines 65536 raw in finish_sums failed (parse_lines lines 0 [])
