-- ===== src/Witnesses/Running.antt =====
-- Inputs for the theorems on the running agent: scans, performance metrics, the spool.
use siembox_endpoint.Prelude.{
  ℕ, ◌+◌, true, false, none, some, List, [], ◌∷◌, Bytes, codes, ltb, ◌≡◌, refl, pos, negsuc,
  if◌then◌else◌, ◌==◌, not, length,
}
use siembox_endpoint.Agent.Coordinator.{
  ScanRequest, vuln, console, schedule, handle_requests, expire, enter,
}
use siembox_endpoint.Agent.Coordinator.Order.{
  Moment, start, after_call, after_batch, here, next, called, finished, IsOrdered, Reach-IsOrdered,
}
use siembox_endpoint.Agent.Coordinator.Handled.{
  AllNew, AllYoung, handle_requests-AllNew, handle_requests_once,
}
use siembox_endpoint.Agent.ScanRun.{
  World, Book, ReportAnswer, answered, status_error, unavailable, running, cancelled, exec_scan,
  report_scan, noted, requested, after_answer, ScanReport,
}
use siembox_endpoint.Agent.ScanRun.Requested.{IsServed, exec_scan-IsServed}
use siembox_endpoint.Agent.ScanRun.Scheduled.{report_scan_pause}
use siembox_endpoint.Agent.Performance.{
  PerformanceConfig, LocalSwitches, effective_perf, PerfState, Turn, MetricsBatch, status,
}
use siembox_endpoint.Agent.Performance.Settings.{IsInBounds, effective_perf-IsInBounds}
use siembox_endpoint.Agent.Performance.Buffer.{
  IsBounded, perf_turns, begin_loop, perf_turns-IsBounded,
}
use siembox_endpoint.Agent.Spool.{Outside, Store, list, flush_spool}
use siembox_endpoint.Agent.Spool.Flush.{IsFlushed, flush_spool-IsFlushed}
use siembox_endpoint.Agent.PackageReport.{
  PackageState, PackageReport, PackageAnswer, package_answer, send_packages,
}
use siembox_endpoint.Agent.PackageReport.Sent.{IsRecorded, send_packages-IsRecorded}
use siembox_endpoint.Agent.Enrollment.{Enrollment, Answer, enroll_with_retry}
use siembox_endpoint.Agent.Enrollment.Backoff.{IsPaced, enroll_with_retry-IsPaced}
use siembox_endpoint.Agent.Yara.{YaraState, matched}
use siembox_endpoint.Agent.Yara.Alerts.{Pass, IsNew, alerts_of, alerts_of-IsNew}

abbrev id_a : Bytes
id_a = codes "a1"

abbrev id_b : Bytes
id_b = codes "b2"

-- A request starts the scan, another waits, and the first batch ends.
abbrev two_called : Moment
two_called = after_call (id_b ∷ []) (after_call (id_a ∷ []) start)

a_executes : two_called.batch ≡ some (id_a ∷ [])
unfolding enter
a_executes = refl

Reach-IsOrdered_example : IsOrdered (after_batch false (id_a ∷ []) two_called)
Reach-IsOrdered_example = Reach-IsOrdered (
    next
      (next (next here (called (id_a ∷ []) start))
        (called (id_b ∷ []) (after_call (id_a ∷ []) start)))
      (finished (id_a ∷ []) two_called a_executes))

abbrev scan_request : ScanRequest
scan_request = record { scan_id = id_a; scan_type = vuln; trigger = [] }

handle_requests-AllNew_example :
    AllNew (expire 100 []) (handle_requests 100 (scan_request ∷ scan_request ∷ []) []).1
handle_requests-AllNew_example = handle_requests-AllNew 100 (scan_request ∷ scan_request ∷ []) []

bare_young : ltb (100 + 172800) 160 ≡ false
bare_young = refl

none_old : AllYoung 160 (expire 100 [])
unfolding expire
none_old = tt

handle_requests_once_example :
    (handle_requests 160 (scan_request ∷ []) (handle_requests 100 (scan_request ∷ []) []).0).1 ≡ []
handle_requests_once_example =
    handle_requests_once 100 160 (scan_request ∷ []) [] bare_young none_old

-- A server that refuses `b2` and has no route for a report without an id.
abbrev server : ℕ → ScanReport → ReportAnswer
server n r = elim (r.scan_id) [
  | [] ↦ status_error 404
  | c ∷ _ ↦ answered (record {
    scan_id = r.scan_id;
    status = if c == b'b' then cancelled else running;
    accepted = not (c == b'b');
  })
]

abbrev world : World
world = record {
  clock = λ n. 1000 + n;
  answer = server;
  scan = λ run. record {
    summary = [];
    is_recorded = false;
    error = unavailable (codes "no grype");
    stopped = false;
  };
  is_available = λ t. false;
  is_full = λ t. false;
}

abbrev new_book : Book
new_book = record { calls = 0; no_report = 0; reports = []; runs = [] }

console_requested : requested console ≡ true
unfolding requested
console_requested = refl

exec_scan-IsServed_example :
    IsServed world vuln console
      (id_a ∷ id_b ∷ [])
      new_book
      (exec_scan world vuln console (id_a ∷ id_b ∷ []) new_book)
exec_scan-IsServed_example =
    exec_scan-IsServed world vuln console (id_a ∷ id_b ∷ []) new_book console_requested

abbrev bare_report : ScanReport
bare_report = record {
  scan_id = [];
  scan_type = vuln;
  trigger = schedule;
  status = running;
  started_at = some 1000;
  completed_at = none;
  summary = [];
  error_text = [];
}

soon :
    ltb
      (world.clock (report_scan world bare_report new_book).0.calls)
      (world.clock new_book.calls + 86400)
    ≡ true
unfolding report_scan after_answer
soon = refl

report_scan_pause_example :
    report_scan world bare_report (report_scan world bare_report new_book).0
    ≡ (noted bare_report false (report_scan world bare_report new_book).0, none)
report_scan_pause_example =
    report_scan_pause world bare_report bare_report new_book
      (report_scan world bare_report new_book).0 refl refl refl refl soon

schedule_own : requested schedule ≡ false
unfolding requested
schedule_own = refl

abbrev both_on : LocalSwitches
both_on = record { metrics_enabled = true; processes_enabled = true }

abbrev odd_config : PerformanceConfig
odd_config = record {
  enabled = true;
  processes = true;
  sample_interval_sec = pos 600;
  send_interval_sec = negsuc 4;
  process_interval_sec = pos 100_000;
  top_processes = pos 0;
}

effective_perf-IsInBounds_example : IsInBounds both_on (effective_perf both_on (some odd_config))
effective_perf-IsInBounds_example = effective_perf-IsInBounds both_on (some odd_config)

abbrev one_turn : Turn ℕ ℕ
one_turn = record { now = 2000; collected = some 7; snapshot = some 8; answer = status 503 }

perf_turns-IsBounded_example :
    IsBounded
      (perf_turns
        ((effective_perf both_on none, one_turn) ∷ [])
        (begin_loop 1000 ((900, 5) ∷ []) [])).state
perf_turns-IsBounded_example =
    perf_turns-IsBounded 1000 ((900, 5) ∷ []) [] ((effective_perf both_on none, one_turn) ∷ [])

abbrev one_kept : PerfState ℕ ℕ
one_kept = record { samples = 1 ∷ []; procs = []; unsupported = 0; dropped = 0 }

abbrev three_taken : List ℕ
three_taken = 1 ∷ 2 ∷ 3 ∷ []

abbrev one_batch : MetricsBatch ℕ ℕ
one_batch = record { samples = 1 ∷ 2 ∷ []; processes = 9 ∷ [] }

abbrev spooled : Store
spooled = (codes "vulns-1-x.json", codes "{}") ∷ (codes "events-2-y.json", codes "[]") ∷ []

-- the second send fails
abbrev flaky : Outside
flaky = record { can_read = λ name. true; can_remove = λ name. true; post = λ n path raw. ltb n 1 }

flush_spool-IsFlushed_example : IsFlushed flaky 0 (list spooled) (flush_spool flaky spooled)
flush_spool-IsFlushed_example = flush_spool-IsFlushed flaky spooled

-- the length as a stand-in for the hash
abbrev length_hash : List ℕ → Bytes
length_hash pkgs = length pkgs ∷ []

-- a server that has lost the snapshot
abbrev forgetful : ℕ → PackageReport ℕ → PackageAnswer
forgetful n r = elim (r.packages) [
  | [] ↦ package_answer true true
  | p ∷ ps ↦ package_answer true false
]

abbrev last_report : PackageState
last_report = record { unsupported = 0; hash = 2 ∷ []; sent_at = 1000 }

send_packages-IsRecorded_example :
    IsRecorded length_hash forgetful 2000
      (7 ∷ 8 ∷ [])
      last_report
      (send_packages length_hash forgetful 2000 (7 ∷ 8 ∷ []) false [] last_report)
send_packages-IsRecorded_example =
    send_packages-IsRecorded length_hash forgetful 2000 (7 ∷ 8 ∷ []) false [] last_report

abbrev two_matches : Pass
two_matches = record {
  available = true;
  full = true;
  start = 10;
  answer = λ since. matched (codes "/tmp/a" ∷ codes "/tmp/b" ∷ codes "/tmp/a" ∷ []);
}

abbrev unseen : YaraState
unseen = record { seen = []; since = none; force_full = false }

alerts_of-IsNew_example : IsNew [] (alerts_of (two_matches ∷ two_matches ∷ []) unseen)
alerts_of-IsNew_example = alerts_of-IsNew (two_matches ∷ two_matches ∷ []) unseen

abbrev refused_twice : List Answer
refused_twice =
    record { response = none; saved = true } ∷ record { response = none; saved = true } ∷ []

abbrev with_token : Enrollment
with_token = record { token = codes "t0"; agent_id = []; agent_api_key = [] }

enroll_with_retry-IsPaced_example :
    IsPaced 0 refused_twice with_token.token (enroll_with_retry refused_twice with_token)
enroll_with_retry-IsPaced_example = enroll_with_retry-IsPaced refused_twice with_token
