-- ===== src/Witnesses/Reports.antt =====
-- Inputs for the theorems on downloads, rules, detections and vulnerability scans.
use siembox_endpoint.Prelude.{
  In, ℕ, true, false, Option, none, some, List, [], ◌∷◌, ◌++◌, Bytes, if◌then◌else◌, str_eq, codes,
  split_at, ok, pos, ◌≡◌, refl,
}
use siembox_endpoint.Update.Assets.{linux_archive}
use siembox_endpoint.Update.Disk.{Disk}
use siembox_endpoint.Update.Download.{Downloader, Fs, fetch_asset}
use siembox_endpoint.Update.Download.Safe.{IsSafe, fetch_asset-IsSafe}
use siembox_endpoint.Update.Extract.{Swap, Archive, swap_binary}
use siembox_endpoint.Update.Extract.Safe.{IsSwapped, swap_binary-IsSwapped}
use siembox_endpoint.Agent.Settings.{
  Config, Identity, Agent, Sync, Fetch, written, poll, start, take_turns,
}
use siembox_endpoint.Agent.Settings.Signatures.{IsBaseline, start-IsBaseline}
use siembox_endpoint.Agent.Spool.{Outside, add, flush_spool, spool_path}
use siembox_endpoint.Agent.Spool.Drained.{flush_spool-add}
use siembox_endpoint.Agent.Events.{
  Answer, Step, stop, event, tick, batch_events, IsDelivered, batch_events-IsDelivered,
}
use siembox_endpoint.Telemetry.{OsqueryResult, Record, tail_results}
use siembox_endpoint.Telemetry.Tail.{whole_lines, all_of, tail_results-whole_lines}
use siembox_endpoint.Vuln.{
  Vulnerability, low, scan, existing_targets, scan_targets, findings_of, merge_findings, key_of,
}
use siembox_endpoint.Vuln.Complete.{IsComplete, scan-IsComplete}
use siembox_endpoint.Detect.{Rule, matches, load_rules, match_rules}
use siembox_endpoint.Detect.Rules.{match_rules-load_rules}

abbrev downloader : Downloader
downloader = record {
  base_url = [];
  max_size = 0;
  path_escape = λ s. s;
  scheme = λ url. some (codes "https");
  new_request = λ url. none;
  do_request = λ url. ok (record {
    final_scheme = none;
    status = 200;
    content_length = none;
    body = record { content = codes "deb"; broken = none };
  });
  digest = λ s. s;
}

abbrev disk_fs : Fs
disk_fs = record {
  mkdir = none;
  create = none;
  write = none;
  close = none;
  rename = none;
  removes = true;
}

abbrev join_slash : Bytes → Bytes → Bytes
join_slash a b = a ++ (b'/' ∷ b)

fetch_asset-IsSafe_example :
    IsSafe downloader disk_fs
      (codes "DEB")
      (codes "/tmp/a.deb")
      (λ q. none)
      (fetch_asset downloader join_slash disk_fs
        (codes "1.2.3")
        (codes "a.deb")
        (codes "DEB")
        (codes "/tmp")
        (λ q. none))
fetch_asset-IsSafe_example =
    fetch_asset-IsSafe downloader join_slash disk_fs (codes "1.2.3") (codes "a.deb") (codes "DEB")
      (codes "/tmp") (λ q. none)

abbrev swap : Swap
swap = record {
  base = λ s. s;
  join = join_slash;
  fs = record { create = none; write = none; close = none; chmod = none; removes = true };
  renames = record { removes = true; aside = none; place = none; restore = none };
  run_version = λ file. (codes "1.2.3", false);
  removes_new = true;
  state_dir = codes "/var";
}

abbrev archive : Archive
archive = record {
  open_error = none;
  entries =
      record {
        name = codes "siembox-agent";
        regular = true;
        opened = none;
        body = record { content = codes "new"; broken = none };
      }
      ∷ [];
  read_error = none;
}

abbrev installed : Disk
installed path = if str_eq path (codes "/agent") then some (codes "old") else none

swap_binary-IsSwapped_example :
    IsSwapped swap linux_archive archive
      (codes "/agent")
      (codes "1.2.3")
      (codes "old")
      (swap_binary swap linux_archive archive (codes "/agent") (codes "1.2.3") installed)
swap_binary-IsSwapped_example =
    swap_binary-IsSwapped swap linux_archive archive (codes "/agent") (codes "1.2.3") (codes "old")
      installed refl

abbrev taken : Answer
taken = record { accepted = true; marshalled = true; spooled = true }

abbrev steps : List (Step ℕ)
steps = event 1 taken ∷ tick taken ∷ event 2 taken ∷ stop taken ∷ []

batch_events-IsDelivered_example :
    IsDelivered steps
      (record { buffer = []; done = [] })
      (batch_events steps (record { buffer = []; done = [] }))
batch_events-IsDelivered_example = batch_events-IsDelivered steps

abbrev row_result : OsqueryResult
row_result = record {
  name = codes "p";
  action = codes "added";
  unix_time = pos 5;
  columns = some [];
  snapshot = [];
}

tail_results-whole_lines_example :
    tail_results (λ s. some row_result) (codes "{" ∷ (b'}' ∷ 10 ∷ b'{' ∷ []) ∷ []) []
    ≡ whole_lines
        (λ s. some row_result)
        (split_at 10 (all_of (λ s. some row_result) (codes "{" ∷ (b'}' ∷ 10 ∷ b'{' ∷ []) ∷ [])))
tail_results-whole_lines_example =
    tail_results-whole_lines (λ s. some row_result) (codes "{" ∷ (b'}' ∷ 10 ∷ b'{' ∷ []) ∷ [])

abbrev finding : Vulnerability ℕ
finding = record {
  cve = codes "CVE-1";
  package_name = codes "zlib";
  installed_version = codes "1";
  fixed_version = [];
  severity = low;
  cvss = 3;
  description = [];
}

scan-IsComplete_example :
    IsComplete {F = ℕ}
      (λ args. ok [])
      (λ out. some (finding ∷ finding ∷ []))
      (existing_targets (λ path. true) (codes "dir:/a" ∷ codes "dir:/b" ∷ []))
      (finding ∷ [])
unfolding scan existing_targets scan_targets findings_of merge_findings key_of
scan-IsComplete_example =
    scan-IsComplete (λ args. ok []) (λ out. some (finding ∷ finding ∷ [])) (λ path. true)
      (codes "dir:/a" ∷ codes "dir:/b" ∷ []) (finding ∷ []) refl

abbrev rule : Rule
rule = record {
  id = codes "r";
  title = codes "t";
  level = codes "high";
  eval = λ row. matches true;
}

abbrev process_record : Record
process_record = record {
  query = codes "processes";
  action = codes "added";
  columns = [];
  timestamp = none;
}

abbrev parse_rule : Bytes → Option Rule
parse_rule raw = if str_eq raw (codes "ok") then some rule else none

match_rules-load_rules_example :
    match_rules (load_rules parse_rule (codes "ok" ∷ []) (codes "bad" ∷ [])).0 process_record
    ≡ match_rules (load_rules parse_rule (codes "ok" ∷ []) []).0 process_record
      ++ match_rules (load_rules parse_rule [] (codes "bad" ∷ [])).0 process_record
match_rules-load_rules_example =
    match_rules-load_rules parse_rule (codes "ok" ∷ []) (codes "bad" ∷ []) process_record

abbrev old_config : Config
old_config = record { config_version = pos 4; yara_rules_version = pos 7; rules = [] }

abbrev known : Identity
known = record { config = old_config; applied = pos 7 }

abbrev before : Agent
before = record {
  memory = known;
  disk = known;
  loaded = [];
  signatures = some (codes "base\nserver\n");
  restart = false;
  rescan = false;
}

abbrev synced : Sync
synced = record { bundle = some (codes "server"); write = written; saved = true }

abbrev fetched : Fetch
fetched = record { config = some old_config; saved = true; sync = synced }

start-IsBaseline_example : IsBaseline (codes "base\n") (pos 7) (
    take_turns
      (codes "base\n")
      (poll fetched ∷ [])
      (start (codes "base\n") written fetched synced before))
start-IsBaseline_example =
    start-IsBaseline (codes "base\n") fetched synced (poll fetched ∷ []) before refl refl (refl, tt)

abbrev open_outside : Outside
open_outside = record {
  can_read = λ name. true;
  can_remove = λ name. true;
  post = λ n path raw. true;
}

flush_spool-add_example :
    In
      (codes "/api/edr/vulnerabilities", codes "[]")
      (flush_spool open_outside
        (add true true (codes "17") (codes "ab") (codes "vulns") (codes "[]") []).0).1
    × ((flush_spool open_outside
          (add true true (codes "17") (codes "ab") (codes "vulns") (codes "[]") []).0).0
        ≡ [])
unfolding spool_path
flush_spool-add_example =
    flush_spool-add open_outside (codes "17") (codes "ab") (codes "vulns") (codes "[]")
      (codes "/api/edr/vulnerabilities") [] (λ name. refl) (λ name. refl) (λ n path raw. refl) refl
