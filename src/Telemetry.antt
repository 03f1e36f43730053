-- ===== src/Telemetry.antt =====
-- internal/telemetry/osquery: the results of osqueryd (osquery.go) and of one run of osqueryi
-- (oneshot.go). The JSON decoders, the runner and the printing of numbers are parameters.
pub mod Tail
use siembox_endpoint.Prelude.{
  ℕ, ◌+◌, Bool, true, false, not, ◌&&◌, ◌||◌, Option, none, some, List, [], ◌∷◌, ◌++◌, Bytes, ◌==◌,
  if◌then◌else◌, is_empty, trim_space, drop, codes, map, ℤ, pos, negsuc, Result, ok, err, ◌>>=◌,
  insert, positive_or,
}
use siembox_endpoint.Metrics.Numbers.{last_index_byte}

abbrev pub Row : Type 0
Row = List (Bytes × Bytes)

-- `osqueryResult`; `columns` is `none` for nil.
pub record OsqueryResult : Type 0 where
  pub name : Bytes
  pub action : Bytes
  pub unix_time : ℤ
  pub columns : Option Row
  pub snapshot : List Row

-- `telemetry.Record`; the timestamp is `none` for the time of reading.
pub record Record : Type 0 where
  pub query : Bytes
  pub action : Bytes
  pub columns : Row
  pub timestamp : Option ℤ

unfoldable pub normalize_query_name : Bytes → Bytes
normalize_query_name n = elim (last_index_byte b'/' n) [ none ↦ n | some i ↦ drop (i + 1) n ]

unfoldable pub timestamp_of : ℤ → Option ℤ
timestamp_of (pos n) = if n == 0 then none else some (pos n)
timestamp_of (negsuc n) = some (negsuc n)

abbrev pub snapshot_record : Bytes → Option ℤ → Row → Record
snapshot_record name at row = record {
  query = name;
  action = codes "snapshot";
  columns = row;
  timestamp = at;
}

-- What follows the decoding in `parseResultLine`.
unfoldable pub records_of : OsqueryResult → List Record
records_of res = elim res.snapshot [
  | row ∷ rows ↦
      map (snapshot_record (normalize_query_name res.name) (timestamp_of res.unix_time))
        (row ∷ rows)
  | [] ↦ elim res.columns [
    | none ↦ []
    | some row ↦
        record {
          query = normalize_query_name res.name;
          action = res.action;
          columns = row;
          timestamp = timestamp_of res.unix_time;
        }
        ∷ []
  ]
]

-- `decode` is `json.Unmarshal` into an `osqueryResult`.
module _ (decode : Bytes → Option OsqueryResult) where
  -- What a line that `ReadBytes` completed emits; a line that is malformed emits nothing.
  unfoldable pub emit : Bytes → List Record
  emit pending =
      if is_empty (trim_space pending)
      then []
      else elim (decode (trim_space pending)) [ none ↦ [] | some res ↦ records_of res ]

  -- The inner loop of `tailResults` over what the file has at one tick: the records, and what is
  -- pending afterwards. `chunk` is what `ReadBytes` has read of the present line.
  unfoldable pub read_available : Bytes → Bytes → Bytes → List Record × Bytes
  read_available pending chunk [] = ([], pending ++ chunk)
  read_available pending chunk (c ∷ s) = elim (c == b'\n') [
    | true ↦ (
      emit (pending ++ (chunk ++ (c ∷ []))) ++ (read_available [] [] s).0,
      (read_available [] [] s).1,
    )
    | false ↦ read_available pending (chunk ++ (c ∷ [])) s
  ]

  -- The outer loop, over what the file has gained at each tick. A file that does not exist yet has
  -- gained nothing.
  unfoldable pub tail_results : List Bytes → Bytes → List Record
  tail_results [] pending = []
  tail_results (gained ∷ ticks) pending =
      (read_available pending [] gained).0
      ++ tail_results ticks (read_available pending [] gained).1

-- `YaraScan`; `changed_since` is `none` for the zero time.
pub record YaraScan : Type 0 where
  pub paths : List Bytes
  pub sig_path : Bytes
  pub excludes : List Bytes
  pub max_file_size : ℤ
  pub changed_since : Option ℤ

abbrev pub quoted : Bytes → Bytes → Bytes
quoted before s = before ++ (s ++ codes "'")

-- `strings.Join(likes, " OR ")`
unfoldable pub join_or : List Bytes → Bytes
join_or [] = []
join_or (l ∷ []) = l
join_or (l ∷ m ∷ ls) = l ++ (codes " OR " ++ join_or (m ∷ ls))

unfoldable pub exclude_clauses : List Bytes → Bytes
exclude_clauses [] = []
exclude_clauses (e ∷ es) =
    let rest = exclude_clauses es in
    if is_empty e then rest else quoted (codes " AND f.path NOT LIKE '") e ++ rest

-- `decimal` is the printing of an int64.
unfoldable pub size_clause : (ℤ → Bytes) → ℤ → Bytes
size_clause decimal (negsuc n) = []
size_clause decimal (pos n) = if n == 0 then [] else codes " AND f.size <= " ++ decimal (pos n)

unfoldable pub time_clause : (ℤ → Bytes) → Option ℤ → Bytes
time_clause decimal none = []
time_clause decimal (some t) =
    codes " AND (f.mtime >= "
    ++ (decimal t ++ (codes " OR f.ctime >= " ++ (decimal t ++ codes ")")))

unfoldable pub build_yara_scan_query : (ℤ → Bytes) → YaraScan → Bytes
build_yara_scan_query decimal s =
    codes
      "SELECT y.path, y.matches, y.count FROM file AS f CROSS JOIN yara AS y ON y.path = f.path WHERE ("
    ++ (join_or (map (quoted (codes "f.path LIKE '")) s.paths)
        ++ (codes ")"
            ++ (exclude_clauses s.excludes
                ++ (codes " AND f.type = 'regular'"
                    ++ (size_clause decimal s.max_file_size
                        ++ (time_clause decimal s.changed_since
                            ++ (quoted (codes " AND y.sigfile='") s.sig_path
                                ++ codes " AND y.count > 0;")))))))

-- `Query`
pub record Query : Type 0 where
  pub name : Bytes
  pub sql : Bytes
  pub interval : ℤ

-- The schedule of `buildConfig`: the text of each query and its interval, by name.
unfoldable pub build_schedule : List Query → List (Bytes × (Bytes × ℕ)) → List (Bytes × (Bytes × ℕ))
build_schedule [] schedule = schedule
build_schedule (q ∷ qs) schedule =
    build_schedule qs (insert q.name (q.sql, positive_or 60 q.interval) schedule)

-- The errors of a run of osqueryi: that of the command, with what it wrote, or of the decoder.
pub data OsqueryError : Type 0 where
  run_failed parse_failed : Bytes → OsqueryError

-- The runner of osqueryi with its binary found, and `parseOsqueryiJSON`.
module _ (run : Bytes → Result Bytes (Bytes)) (rows_of : Bytes → Option (List Row)) where
  unfoldable pub query_rows : Bytes → Bytes → Result OsqueryError (List Row)
  query_rows name sql = elim (run sql) [
    | err e ↦ err (run_failed name)
    | ok out ↦ elim (rows_of out) [ none ↦ err (parse_failed name) | some rows ↦ ok rows ]
  ]

  -- The loop of `runOnceWith`; `now` is taken before it.
  unfoldable pub run_queries : ℤ → List Query → Result OsqueryError (List Record)
  run_queries now [] = ok []
  run_queries now (q ∷ qs) = do
    rows ← query_rows q.name q.sql
    rest ← run_queries now qs
    ok (map (snapshot_record q.name (some now)) rows ++ rest)

  -- `fallback` is `DefaultQueries()`.
  unfoldable pub run_once_with : List Query → ℤ → List Query → Result OsqueryError (List Record)
  run_once_with fallback now [] = run_queries now fallback
  run_once_with fallback now (q ∷ qs) = run_queries now (q ∷ qs)

  abbrev pub match_record : ℤ → Row → Record
  match_record now row = record {
    query = codes "yara_scan";
    action = codes "added";
    columns = row;
    timestamp = some now;
  }

  abbrev pub is_none : List Bytes → Bool
  is_none [] = true
  is_none (p ∷ ps) = false

  unfoldable pub run_yara_scan_with : (ℤ → Bytes) → ℤ → YaraScan → Result OsqueryError (List Record)
  run_yara_scan_with decimal now s = if is_none s.paths || is_empty s.sig_path then ok [] else do
    rows ← query_rows (codes "yara") (build_yara_scan_query decimal s)
    ok (map (match_record now) rows)
