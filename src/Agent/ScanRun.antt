-- ===== src/Agent/ScanRun.antt =====
-- internal/agent/scans.go: one execution of a scan (`execScan`) and its reports to the server
-- (`reportScan`), and the trigger and schedule tests they use.
--
-- The server, the clock and the scan functions are outside: a `World` answers by the number of
-- earlier calls. The `Book` is what the agent keeps and what it did: the calls so far, the time
-- until which it does not report, every report with whether it was handed to the client, and the
-- runs of the scan function.
pub mod Reports
pub mod Requested
pub mod Scheduled
use siembox_endpoint.Prelude.{
  ℕ, suc, ◌+◌, Bool, true, false, not, ◌&&◌, ◌||◌, Option, none, some, List, [], ◌∷◌, ◌++◌, Bytes,
  ltb, ◌==◌, if◌then◌else◌, is_empty, str_eq, take, leb, length,
}
use siembox_endpoint.Agent.Coordinator.{
  ScanType, vuln, yara, packages, inventory, Trigger, schedule, startup, console, policy,
}

-- `models.ScanStatus*`, the server's own and any other text included
pub data ScanStatus : Type 0 where
  running succeeded failed cancelled expired : ScanStatus
  other_status : Bytes → ScanStatus

unfoldable pub is_running : ScanStatus → Bool
is_running running = true
is_running _ = false

-- the values of a summary
pub data SummaryValue : Type 0 where
  count : ℕ → SummaryValue
  flag : Bool → SummaryValue

abbrev pub Summary : Type 0
Summary = List (Bytes × SummaryValue)

-- `models.ScanReport`; an empty `scan_id` stands for none.
pub record ScanReport : Type 0 where
  pub scan_id : Bytes
  pub scan_type : ScanType
  pub trigger : Trigger
  pub status : ScanStatus
  pub started_at : Option ℕ
  pub completed_at : Option ℕ
  pub summary : Summary
  pub error_text : Bytes

pub record ScanReportResponse : Type 0 where
  pub scan_id : Bytes
  pub status : ScanStatus
  pub accepted : Bool

-- what `client.ReportScan` returns: a response, a `StatusError`, or another error
pub data ReportAnswer : Type 0 where
  answered : ScanReportResponse → ReportAnswer
  status_error : ℕ → ReportAnswer
  unreachable : ReportAnswer

pub record ScanRun : Type 0 where
  pub scan_type : ScanType
  pub trigger : Trigger
  pub scan_id : Bytes
  pub full : Bool

-- the error of a scan function
pub data ScanError : Type 0 where
  no_error : ScanError
  unavailable : Bytes → ScanError
  scan_failed : Bytes → ScanError

-- what a scan function returns, and `ctx.Err() != nil` after it
pub record Finished : Type 0 where
  pub summary : Summary
  pub is_recorded : Bool
  pub error : ScanError
  pub stopped : Bool

pub record World : Type 0 where
  pub clock : ℕ → ℕ
  pub answer : ℕ → ScanReport → ReportAnswer
  pub scan : ScanRun → Finished
  pub is_available : ScanType → Bool
  -- `yaraNextFull`
  pub is_full : Trigger → Bool

pub record Book : Type 0 where
  pub calls : ℕ
  pub no_report : ℕ
  pub reports : List (ScanReport × Bool)
  pub runs : List ScanRun

-- 24 hours
abbrev pub scan_report_backoff : ℕ
scan_report_backoff = 86400

abbrev pub max_scan_error : ℕ
max_scan_error = 500

unfoldable pub clip : Bytes → ℕ → Bytes
clip s n = if leb (length s) n then s else take n s

unfoldable pub requested : Trigger → Bool
requested console = true
requested policy = true
requested _ = false

abbrev pub is_yara : ScanType → Bool
is_yara yara = true
is_yara _ = false

unfoldable pub records_start : ScanRun → Bool
records_start run = not (is_yara run.scan_type) || run.full

-- a call is noted with its report and whether the client got it
abbrev pub noted : ScanReport → Bool → Book → Book
noted r b book = record book { calls = suc book.calls; reports = book.reports ++ ((r, b) ∷ []) }

-- The answer to a report: the response if it was delivered, and the back-off after a 404 on a
-- report without an id.
unfoldable pub after_answer :
    ℕ → ScanReport → ReportAnswer → Book → Book × Option ScanReportResponse
after_answer now r (answered resp) book = (book, some resp)
after_answer now r (status_error code) book =
    if (code == 404) && is_empty r.scan_id
    then (record book { no_report = now + scan_report_backoff }, none)
    else (book, none)
after_answer now r unreachable book = (book, none)

unfoldable pub report_scan : World → ScanReport → Book → Book × Option ScanReportResponse
report_scan w r book =
    if ltb (w.clock book.calls) book.no_report
    then (noted r false book, none)
    else after_answer (w.clock book.calls) r (w.answer book.calls r) (noted r true book)

unfoldable pub start_report : ScanType → Trigger → ℕ → Bytes → ScanReport
start_report t trigger at id = record {
  scan_id = id;
  scan_type = t;
  trigger = trigger;
  status = running;
  started_at = some at;
  completed_at = none;
  summary = [];
  error_text = [];
}

-- `ok && !resp.Accepted && resp.Status != running`
unfoldable pub is_refused : Option ScanReportResponse → Bool
is_refused none = false
is_refused (some resp) = not resp.accepted && not (is_running resp.status)

-- The first loop: each requested id is reported as started; those that the server refuses are
-- left out.
unfoldable pub announce : World → ScanType → Trigger → ℕ → List Bytes → Book → Book × List Bytes
announce w t trigger at [] book = (book, [])
announce w t trigger at (id ∷ ids) book =
    let told = report_scan w (start_report t trigger at id) book in
    let rest = announce w t trigger at ids told.0 in
    (rest.0, if is_refused told.1 then rest.1 else id ∷ rest.1)

-- The start report of a scheduled run: the id of its row, if the server gave one.
unfoldable pub row_of : Option ScanReportResponse → List Bytes
row_of none = []
row_of (some resp) = if is_empty resp.scan_id then [] else resp.scan_id ∷ []

unfoldable pub open_row : World → ScanRun → ℕ → Book → Book × List Bytes
open_row w run at book =
    let told = report_scan w (start_report run.scan_type run.trigger at []) book in
    if records_start run && w.is_available run.scan_type
    then (told.0, row_of told.1)
    else (book, [])

abbrev pub first_id : List Bytes → Bytes
first_id [] = []
first_id (id ∷ ids) = id

abbrev pub or_else : List Bytes → List Bytes → List Bytes
or_else [] ids = ids
or_else (row ∷ rows) ids = row ∷ rows

unfoldable pub with_outcome : ScanError → ScanReport → ScanReport
with_outcome no_error r = r
with_outcome (unavailable text) r = record r {
  status = failed;
  error_text = clip text max_scan_error;
}
with_outcome (scan_failed text) r = record r {
  status = failed;
  error_text = clip text max_scan_error;
}

unfoldable pub final_report : ScanRun → ℕ → ℕ → Finished → Bytes → ScanReport
final_report run at done f id = with_outcome f.error (record {
  scan_id = id;
  scan_type = run.scan_type;
  trigger = run.trigger;
  status = succeeded;
  started_at = some at;
  completed_at = some done;
  summary = f.summary;
  error_text = [];
})

-- The last loop: one final report for each id.
unfoldable pub finish : World → (Bytes → ScanReport) → List Bytes → Book → Book
finish w final [] book = book
finish w final (id ∷ ids) book = finish w final ids (report_scan w (final id) book).0

abbrev pub is_unavailable : ScanError → Bool
is_unavailable (unavailable text) = true
is_unavailable _ = false

-- The ids to report, which may be the one empty id of a run without a row; `[]` if the run is
-- not reported.
unfoldable pub reported_ids : Trigger → Finished → List Bytes → List Bytes
reported_ids trigger f ids =
    if f.stopped || (is_unavailable f.error && not (requested trigger))
    then []
    else elim ids [ [] ↦ if f.is_recorded then [] ∷ [] else [] | id ∷ rest ↦ id ∷ rest ]

abbrev pub ran : ScanRun → Book → Book
ran run book = record book { runs = book.runs ++ (run ∷ []); calls = suc book.calls }

-- From the call of the scan function to the end.
unfoldable pub run_and_report : World → ScanRun → ℕ → List Bytes → Book → Book
run_and_report w run at ids book =
    let f = w.scan run in
    finish w (final_report run at (w.clock book.calls) f) (reported_ids run.trigger f ids)
      (ran run book)

abbrev pub new_run : World → ScanType → Trigger → ScanRun
new_run w t trigger = record {
  scan_type = t;
  trigger = trigger;
  scan_id = [];
  full = is_yara t && w.is_full trigger;
}

unfoldable pub exec_requested : World → ScanType → Trigger → List Bytes → Book → Book
exec_requested w t trigger ids book =
    let told =
      announce w t trigger (w.clock book.calls) ids (record book { calls = suc book.calls }) in
    elim told.1 [
      | [] ↦ told.0
      | id ∷ live ↦
          run_and_report w (record (new_run w t trigger) { scan_id = id }) (w.clock book.calls)
            (id ∷ live) told.0
    ]

unfoldable pub exec_scheduled : World → ScanType → Trigger → List Bytes → Book → Book
exec_scheduled w t trigger ids book =
    let told =
      open_row w (new_run w t trigger) (w.clock book.calls)
        (record book { calls = suc book.calls }) in
    run_and_report w (record (new_run w t trigger) { scan_id = first_id told.1 })
      (w.clock book.calls) (or_else told.1 ids) told.0

unfoldable pub exec_scan : World → ScanType → Trigger → List Bytes → Book → Book
exec_scan w t trigger ids book =
    if requested trigger
    then exec_requested w t trigger ids book
    else exec_scheduled w t trigger ids book
