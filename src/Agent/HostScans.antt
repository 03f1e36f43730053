-- ===== src/Agent/HostScans.antt =====
-- internal/agent/agent.go: the vulnerability and inventory scans (`vulnScan`, `inventoryScan`), with
-- what is sent and what waits in the spool. The scanner and the server are parameters.
use siembox_endpoint.Prelude.{
  ℕ, Bool, true, false, not, ◌&&◌, List, [], ◌∷◌, ◌++◌, Bytes, if◌then◌else◌, codes, length, Result,
  ok, err,
}
use siembox_endpoint.Agent.ScanRun.{
  ScanRun, Summary, count, flag, ScanError, no_error, unavailable, scan_failed, Finished, requested,
}
use siembox_endpoint.Agent.Events.{Answer, Fate, fate}

-- `models.VulnBatch` and `models.InventoryRequest`, less their times and the agent's id: the
-- findings or the programs, and the scan that they belong to.
pub record Batch (A : Type 0) : Type 0 where
  pub scan_id : Bytes
  pub items : List A

-- What a scan leaves: where its batch went, if there was one, and the result.
pub record Scanned (A : Type 0) : Type 0 where
  pub batches : List (Fate × Batch A)
  pub result : Finished

abbrev pub finished : Summary → Bool → ScanError → Finished
finished summary is_recorded error = record {
  summary = summary;
  is_recorded = is_recorded;
  error = error;
  stopped = false;
}

-- `summary["spooled"] = true` after a failed send
unfoldable pub sent_summary : Bytes → ℕ → Answer → Summary
sent_summary name n a =
    (name, count n) ∷ (if a.accepted then [] else (codes "spooled", flag true) ∷ [])

-- The end of `vulnScan`: without grype a scheduled run counts as unavailable.
unfoldable pub after_findings : {A : Type 0} → Bool → ScanRun → List A → Answer → Scanned A
after_findings noop run items a = record {
  batches = (fate a, record { scan_id = run.scan_id; items = items }) ∷ [];
  result =
      if noop
      then finished [] false (unavailable (codes "scan not available on this host"))
      else finished (sent_summary (codes "findings") (length items) a) true no_error;
}

unfoldable pub vuln_scan :
    {A : Type 0} → Bool → ScanRun → Result Bytes (List A) → Answer → Scanned A
vuln_scan is_available run scanned a =
    if not is_available && requested run.trigger
    then record {
      batches = [];
      result = finished [] false (
          unavailable
            (codes "grype not found on this host; install grype to enable vulnerability scanning"));
    }
    else elim scanned [
      | err e ↦ record {
        batches = [];
        result = finished [] true (scan_failed (codes "vulnerability scan: " ++ e));
      }
      | ok items ↦ after_findings (not is_available) run items a
    ]

unfoldable pub inventory_scan : {A : Type 0} → ScanRun → List A → Answer → Scanned A
inventory_scan run software a = record {
  batches = (fate a, record { scan_id = run.scan_id; items = software }) ∷ [];
  result = finished (sent_summary (codes "software") (length software) a) true no_error;
}
