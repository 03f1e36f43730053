-- ===== src/Metrics/Darwin.antt =====
-- internal/metrics/parse.go: the outputs of vm_stat, netstat and ps on macOS. The parsers of
-- floating point numbers and the base name of a path are parameters.
use siembox_endpoint.Prelude.{
  ℕ, ◌+◌, ◌-◌, ◌*◌, ◌%◌, ◌^◌, Bool, true, false, not, ◌||◌, Option, none, some, List, [], ◌∷◌, ◌++◌,
  Bytes, ltb, leb, ◌==◌, if◌then◌else◌, is_empty, trim_space, cut_at, trim_suffix, str_eq,
  has_prefix, contains, scan_lines, codes, lookup, insert, drop, Result, ok, err,
}
use siembox_endpoint.Metrics.Numbers.{
  fields, word, word_count, Parsed, number, syntax, range, parse_uint, uint_or,
}
use siembox_endpoint.Metrics.Collector.{RawProc}
use siembox_endpoint.Metrics.Linux.{
  lines_of, Values, get, Counters, some_counters, ParseError, no_total,
}

-- The loop over the words of the line of the page size.
unfoldable pub read_page_size : List Bytes → ℕ → ℕ
read_page_size [] size = size
read_page_size (w ∷ []) size = size
read_page_size (w ∷ x ∷ ws) size =
    if str_eq w (codes "of")
    then read_page_size (x ∷ ws) (elim (parse_uint x) [
      | number v ↦ if ltb 0 v then v else size
      | syntax ↦ size
      | range ↦ size
    ])
    else read_page_size (x ∷ ws) size

-- The body of the loop over the lines, for a line with a count.
unfoldable pub read_pages : Bytes → Values → Values
read_pages line pages = elim (cut_at b':' line) [
  | none ↦ pages
  | some cut ↦
      if is_empty cut.0
      then pages
      else elim (parse_uint (trim_suffix (codes ".") (trim_space cut.1))) [
        | number v ↦ insert (trim_space cut.0) v pages
        | syntax ↦ pages
        | range ↦ pages
      ]
]

-- The page size and the counts.
unfoldable pub read_vm_stat : List Bytes → ℕ → Values → ℕ × Values
read_vm_stat [] size pages = (size, pages)
read_vm_stat (line ∷ lines) size pages = elim (contains (codes "page size of") line) [
  | true ↦ read_vm_stat lines (read_page_size (fields line) size) pages
  | false ↦ read_vm_stat lines size (read_pages line pages)
]

-- `avail >= total`, else the difference
unfoldable pub used_memory : ℕ → Values → ℕ → Result ParseError ℕ
used_memory size pages total = elim (lookup (codes "Pages free") pages) [
  | none ↦ err no_total
  | some free ↦ elim (lookup (codes "Pages inactive") pages) [
    | none ↦ err no_total
    | some inactive ↦
        let avail = ((free + inactive + get (codes "Pages speculative") pages) * size) % 2 ^ 64 in
        ok (if leb total avail then 0 else total - avail)
  ]
]

unfoldable pub parse_vm_stat : Bytes → ℕ → Result ParseError ℕ
parse_vm_stat raw total =
    let read = read_vm_stat (lines_of raw) 4096 [] in used_memory read.0 read.1 total

-- The columns of the header, `none` for -1.
pub record Columns : Type 0 where
  pub ibytes : Option ℕ
  pub obytes : Option ℕ
  pub network : Option ℕ

unfoldable pub read_header : List Bytes → ℕ → Columns → Columns
read_header [] i c = c
read_header (h ∷ hs) i c = read_header hs (i + 1) (
    if str_eq h (codes "Ibytes")
    then record c { ibytes = some i }
    else if str_eq h (codes "Obytes")
    then record c { obytes = some i }
    else if str_eq h (codes "Network")
    then record c { network = some i }
    else c)

abbrev pub is_known : Bytes → Counters → Bool
is_known name out = elim (lookup name out) [ none ↦ false | some _ ↦ true ]

-- The counters of a link row, unless the name is known.
unfoldable pub count_link : Bytes → Parsed → Parsed → Counters → Counters
count_link name (number rx) (number tx) out =
    if is_known name out then out else insert name (record { rx = rx; tx = tx }) out
count_link name _ _ out = out

-- The indices of the byte columns: `ib - shift` and `ob - shift` for shift = ob + 2 - len(f), that is
-- `ib + len(f) - (ob + 2)` and `len(f) - 2`, which must not be negative.
unfoldable pub read_link : ℕ → ℕ → List Bytes → Counters → Counters
read_link ib ob f out =
    let n = word_count f in
    if ltb (ib + n) (ob + 2) || ltb n 2
    then out
    else count_link (trim_suffix (codes "*") (word 0 f)) (parse_uint (word (ib + n - (ob + 2)) f))
        (parse_uint (word (n - 2) f)) out

-- A row that is not the header.
unfoldable pub read_row : Columns → List Bytes → Counters → Counters
read_row c f out = elim c.ibytes [
  | none ↦ out
  | some ib ↦ elim c.obytes [
    | none ↦ out
    | some ob ↦ elim c.network [
      | none ↦ out
      | some net ↦
          if leb (word_count f) net || not (has_prefix (codes "<Link#") (word net f))
          then out
          else read_link ib ob f out
    ]
  ]
]

unfoldable pub read_rows : List Bytes → Columns → Counters → Counters
read_rows [] c out = out
read_rows (line ∷ lines) c out =
    let f = fields line in
    elim (word_count f == 0) [
      | true ↦ read_rows lines c out
      | false ↦ elim (str_eq (word 0 f) (codes "Name")) [
        | true ↦ read_rows lines (read_header f 0 c) out
        | false ↦ read_rows lines c (read_row c f out)
      ]
    ]

unfoldable pub parse_netstat_ib : Bytes → Result ParseError Counters
parse_netstat_ib raw =
    some_counters
      (read_rows (lines_of raw) (record { ibytes = none; obytes = none; network = none }) [])

-- `strings.Join(words, " ")`
abbrev pub join_words : List Bytes → Bytes
join_words [] = []
join_words (w ∷ []) = w
join_words (w ∷ x ∷ ws) = w ++ (32 ∷ join_words (x ∷ ws))

-- `atoi` and `itoa` are `strconv.Atoi` and `strconv.Itoa`; `nought` is the zero of float64.
module _ {F : Type 0} (atoi : Bytes → Option ℕ) (itoa : ℕ → Bytes) (parse_float : Bytes → Option F)
    (nought : F) (base : Bytes → Bytes) where
  unfoldable pub read_ps : List Bytes → List (RawProc F)
  read_ps [] = []
  read_ps (line ∷ lines) =
      let f = fields line in
      let rest = read_ps lines in
      let name = base (join_words (drop 4 f)) in
      if ltb (word_count f) 5 then rest else elim (atoi (word 0 f)) [
        | none ↦ rest
        | some pid ↦ elim (parse_float (word 1 f)) [
          | none ↦ rest
          | some cpu ↦
              record {
                key = itoa pid ++ (b':' ∷ name);
                pid = pid;
                name = name;
                user = word 3 f;
                cpu_sec = nought;
                cpu_pct = some cpu;
                rss = (uint_or (parse_uint (word 2 f)) * 1024) % 2 ^ 64;
              }
              ∷ rest
        ]
      ]

  -- The scanner's buffer holds 1 MiB.
  unfoldable pub parse_ps : Bytes → List (RawProc F)
  parse_ps raw = read_ps (scan_lines 1_048_576 raw).0
