-- ===== src/Metrics/Linux.antt =====
-- internal/metrics/parse.go: the files of /proc. The floating point numbers and their parser are
-- parameters; a uint64 wraps at 2 ^ 64.
use siembox_endpoint.Prelude.{
  ℕ, zero, suc, ◌+◌, ◌-◌, ◌*◌, ◌%◌, ◌^◌, Bool, true, false, not, ◌&&◌, ◌||◌, Option, none, some,
  List, [], ◌∷◌, ◌++◌, Bytes, any, ltb, leb, ◌==◌, if◌then◌else◌, is_empty, take, drop, trim_space,
  cut_at, str_eq, has_prefix, scan_lines, codes, lookup, insert, Result, ok, err,
}
use siembox_endpoint.Metrics.Numbers.{
  fields, word, word_count, index_byte, last_index_byte, Parsed, number, syntax, range, parse_uint,
  uint_or, int_or_zero,
}

abbrev pub max_line : ℕ
max_line = 65536

abbrev pub lines_of : Bytes → List Bytes
lines_of raw = (scan_lines max_line raw).0

-- The errors, each of one of the parsers.
pub data ParseError : Type 0 where
  short bad_number no_cpu no_total no_interfaces no_name empty : ParseError

-- `F` is float64.
module _ {F : Type 0} (parse_float : Bytes → Option F) where
  unfoldable pub parse_loadavg : Bytes → Result ParseError (List F)
  parse_loadavg raw =
      let f = fields raw in
      if ltb (word_count f) 3 then err short else elim (parse_float (word 0 f)) [
        | none ↦ err bad_number
        | some a ↦ elim (parse_float (word 1 f)) [
          | none ↦ err bad_number
          | some b ↦ elim (parse_float (word 2 f)) [
            | none ↦ err bad_number
            | some c ↦ ok (a ∷ b ∷ c ∷ [])
          ]
        ]
      ]

  -- the conversion to uint64 and the test `v < 0` are parameters too
  unfoldable pub parse_uptime : (F → Bool) → (F → ℕ) → Bytes → Result ParseError ℕ
  parse_uptime is_negative to_uint raw = elim (fields raw) [
    | [] ↦ err empty
    | w ∷ ws ↦ elim (parse_float w) [
      | none ↦ err bad_number
      | some v ↦ if is_negative v then err bad_number else ok (to_uint v)
    ]
  ]

  -- The fields of the cpu line, at most `n` of them.
  unfoldable pub parse_ticks : List Bytes → ℕ → Option (List F)
  parse_ticks [] n = some []
  parse_ticks (w ∷ ws) zero = some []
  parse_ticks (w ∷ ws) (suc n) = elim (parse_float w) [
    | none ↦ none
    | some v ↦ elim (parse_ticks ws n) [ none ↦ none | some vs ↦ some (v ∷ vs) ]
  ]

  pub record CpuTimes : Type 0 where
    pub total : F
    pub busy : F

  -- `vals[i]`, 0 when the line has no such field
  abbrev pub tick : F → ℕ → List F → F
  tick nought i [] = nought
  tick nought i (v ∷ vs) = let rest = tick nought (i - 1) vs in if i == 0 then v else rest

  -- the sum over `vals`, then busy = total - (idle + iowait)
  unfoldable pub sum_ticks : F → (F → F → F) → List F → F → F
  sum_ticks nought add [] t = t
  sum_ticks nought add (v ∷ vs) t = sum_ticks nought add vs (add t v)

  unfoldable pub cpu_times : F → (F → F → F) → (F → F → F) → F → List F → CpuTimes
  cpu_times nought add sub t vs =
      let total = sum_ticks nought add vs t in
      record { total = total; busy = sub total (add (tick nought 3 vs) (tick nought 4 vs)) }

  -- The loop, with the times found so far and the number of cpus.
  unfoldable pub read_stat :
      F
      → (F → F → F)
      → (F → F → F)
      → List Bytes
      → Option CpuTimes
      → ℕ
      → Result ParseError (CpuTimes × ℕ)
  read_stat nought add sub [] none count = err no_cpu
  read_stat nought add sub [] (some t) count = ok (t, count)
  read_stat nought add sub (line ∷ lines) found count =
      let f = fields line in
      elim (is_empty (word 0 f) || not (has_prefix (codes "cpu") (word 0 f))) [
        | true ↦ read_stat nought add sub lines found count
        | false ↦ elim (str_eq (word 0 f) (codes "cpu")) [
          | false ↦ read_stat nought add sub lines found (count + 1)
          | true ↦ elim (ltb (word_count f) 5) [
            | true ↦ err short
            | false ↦ elim (parse_ticks (drop 1 f) 8) [
              | none ↦ err bad_number
              | some vs ↦
                  read_stat nought add sub lines
                    (some (
                      cpu_times nought add sub (elim found [ none ↦ nought | some t ↦ t.total ])
                        vs))
                    count
            ]
          ]
        ]
      ]

  unfoldable pub parse_proc_stat :
      F → (F → F → F) → (F → F → F) → Bytes → Result ParseError (CpuTimes × ℕ)
  parse_proc_stat nought add sub raw = read_stat nought add sub (lines_of raw) none 0

abbrev pub Values : Type 0
Values = List (Bytes × ℕ)

pub record MemInfo : Type 0 where
  pub total : ℕ
  pub used : ℕ
  pub swap_total : ℕ
  pub swap_used : ℕ

-- `v *= 1024` for a value in kB
unfoldable pub scaled : List Bytes → ℕ → ℕ
scaled f v =
    if ltb 1 (word_count f) && str_eq (word 1 f) (codes "kB") then (v * 1024) % 2 ^ 64 else v

-- The body of the loop.
unfoldable pub read_value : Bytes → Values → Values
read_value line kv = elim (cut_at b':' line) [
  | none ↦ kv
  | some cut ↦
      let f = fields cut.1 in
      if is_empty cut.0 || word_count f == 0 then kv else elim (parse_uint (word 0 f)) [
        | number v ↦ insert cut.0 (scaled f v) kv
        | syntax ↦ kv
        | range ↦ kv
      ]
]

unfoldable pub read_values : List Bytes → Values → Values
read_values [] kv = kv
read_values (line ∷ lines) kv = read_values lines (read_value line kv)

-- `kv[key]`
abbrev pub get : Bytes → Values → ℕ
get key kv = elim (lookup key kv) [ none ↦ 0 | some v ↦ v ]

unfoldable pub available : Values → ℕ
available kv = elim (lookup (codes "MemAvailable") kv) [
  | some v ↦ v
  | none ↦
      (get (codes "MemFree") kv
        + get (codes "Buffers") kv
        + get (codes "Cached") kv
        + get (codes "SReclaimable") kv)
      % 2 ^ 64
]

-- `if part < whole { used = whole - part }`, of uint64 values
unfoldable pub used_of : ℕ → ℕ → ℕ
used_of whole part = if ltb part whole then (whole + 2 ^ 64 - part) % 2 ^ 64 else 0

unfoldable pub parse_meminfo : Bytes → Result ParseError MemInfo
parse_meminfo raw =
    let kv = read_values (lines_of raw) [] in
    let total = get (codes "MemTotal") kv in
    let swap_total = get (codes "SwapTotal") kv in
    if total == 0
    then err no_total
    else ok (record {
      total = total;
      used = used_of total (available kv);
      swap_total = swap_total;
      swap_used = used_of swap_total (get (codes "SwapFree") kv);
    })

pub record NetCounter : Type 0 where
  pub rx : ℕ
  pub tx : ℕ

abbrev pub Counters : Type 0
Counters = List (Bytes × NetCounter)

-- `err1 != nil || err2 != nil`, else the entry
unfoldable pub count_bytes : Bytes → Parsed → Parsed → Counters → Counters
count_bytes name (number rx) (number tx) out = insert name (record { rx = rx; tx = tx }) out
count_bytes name _ _ out = out

unfoldable pub read_interface : Bytes → Counters → Counters
read_interface line out = elim (cut_at b':' line) [
  | none ↦ out
  | some cut ↦
      let f = fields cut.1 in
      if is_empty (trim_space cut.0) || ltb (word_count f) 9
      then out
      else count_bytes (trim_space cut.0) (parse_uint (word 0 f)) (parse_uint (word 8 f)) out
]

unfoldable pub read_interfaces : List Bytes → Counters → Counters
read_interfaces [] out = out
read_interfaces (line ∷ lines) out = read_interfaces lines (read_interface line out)

abbrev pub some_counters : Counters → Result ParseError Counters
some_counters [] = err no_interfaces
some_counters (x ∷ out) = ok (x ∷ out)

unfoldable pub parse_net_dev : Bytes → Result ParseError Counters
parse_net_dev raw = some_counters (read_interfaces (lines_of raw) [])

pub record Mount : Type 0 where
  pub device : Bytes
  pub point : Bytes
  pub fstype : Bytes

abbrev pub is_octal : ℕ → Bool
is_octal c = leb b'0' c && leb c b'7'

-- `strconv.ParseUint(s, 8, 8)` of three characters
unfoldable pub octal_byte : ℕ → ℕ → ℕ → Option ℕ
octal_byte x y z =
    let v = (x - 48) * 64 + (y - 48) * 8 + (z - 48) in
    if is_octal x && is_octal y && is_octal z && ltb v 256 then some v else none

-- The loop of `unescapeMount`.
unfoldable pub unescape : Bytes → Bytes
unescape [] = []
unescape (c ∷ []) = c ∷ []
unescape (c ∷ x ∷ []) = c ∷ x ∷ []
unescape (c ∷ x ∷ y ∷ []) = c ∷ x ∷ y ∷ []
unescape (c ∷ x ∷ y ∷ z ∷ s) = elim (c == b'\\') [
  | false ↦ c ∷ unescape (x ∷ y ∷ z ∷ s)
  | true ↦ elim (octal_byte x y z) [ some v ↦ v ∷ unescape s | none ↦ c ∷ unescape (x ∷ y ∷ z ∷ s) ]
]

unfoldable pub unescape_mount : Bytes → Bytes
unescape_mount s = if any (λ c. c == b'\\') s then unescape s else s

-- the fields of a line
abbrev pub mount_of : List Bytes → List Mount
mount_of f =
    if ltb (word_count f) 3
    then []
    else record {
      device = unescape_mount (word 0 f);
      point = unescape_mount (word 1 f);
      fstype = word 2 f;
    }
      ∷ []

unfoldable pub read_mount : Bytes → List Mount
read_mount line = mount_of (fields line)

unfoldable pub read_mounts : List Bytes → List Mount
read_mounts [] = []
read_mounts (line ∷ lines) = read_mount line ++ read_mounts lines

unfoldable pub parse_mounts : Bytes → List Mount
parse_mounts raw = read_mounts (lines_of raw)

pub record PidStat : Type 0 where
  pub name : Bytes
  pub ticks : ℕ
  pub start_time : ℕ
  pub rss_pages : ℕ

-- What follows the last parenthesis.
unfoldable pub read_counters : Bytes → List Bytes → Result ParseError PidStat
read_counters name f =
    if ltb (word_count f) 22
    then err short
    else ok (record {
      name = name;
      ticks = (uint_or (parse_uint (word 11 f)) + uint_or (parse_uint (word 12 f))) % 2 ^ 64;
      start_time = uint_or (parse_uint (word 19 f));
      rss_pages = int_or_zero (word 21 f);
    })

unfoldable pub read_between : Bytes → ℕ → ℕ → Result ParseError PidStat
read_between s start end =
    if ltb end start
    then err no_name
    else read_counters (take (end - (start + 1)) (drop (start + 1) s)) (fields (drop (end + 1) s))

unfoldable pub parse_pid_stat : Bytes → Result ParseError PidStat
parse_pid_stat s = elim (index_byte b'(' s) [
  | none ↦ err no_name
  | some start ↦ elim (last_index_byte b')' s) [
    | none ↦ err no_name
    | some end ↦ read_between s start end
  ]
]
