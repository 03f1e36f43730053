-- ===== src/Agent/Coordinator.antt =====
-- internal/agent/scans.go: the queue of a scan type (`runScan`) and the console requests already
-- seen (`handleScanRequests`). Times are in seconds.
pub mod Order
pub mod Handled
use siembox_endpoint.Prelude.{
  ℕ, ◌+◌, Bool, true, false, not, ◌||◌, Option, none, some, List, [], ◌∷◌, ◌++◌, Bytes, ltb,
  if◌then◌else◌, is_empty, str_eq, codes, lookup, insert,
}

-- `models.ScanType*`; any other text is a type that this build does not know.
pub data ScanType : Type 0 where
  vuln yara packages inventory : ScanType
  other_type : Bytes → ScanType

-- `models.ScanTrigger*`
pub data Trigger : Type 0 where
  schedule startup console policy : Trigger

pub record ScanRequest : Type 0 where
  pub scan_id : Bytes
  pub scan_type : ScanType
  pub trigger : Bytes

-- 48 hours
abbrev pub handled_scan_ttl : ℕ
handled_scan_ttl = 172800

-- the map `handled`: console ids with the time they were first seen
abbrev pub Handled : Type 0
Handled = List (Bytes × ℕ)

-- `for id, at := range c.handled { if now.Sub(at) > handledScanTTL { delete } }`
unfoldable pub expire : ℕ → Handled → Handled
expire now [] = []
expire now ((id, at) ∷ h) =
    let rest = expire now h in if ltb (at + handled_scan_ttl) now then rest else (id, at) ∷ rest

unfoldable pub is_handled : Bytes → Handled → Bool
is_handled id h = elim (lookup id h) [ none ↦ false | some _ ↦ true ]

-- `r.ScanID == "" || !c.handled[r.ScanID].IsZero()`
unfoldable pub is_skipped : Handled → ScanRequest → Bool
is_skipped h r = is_empty r.scan_id || is_handled r.scan_id h

-- the loop over the requests of a heartbeat: the new map and the fresh requests
unfoldable pub admit : ℕ → List ScanRequest → Handled → Handled × List ScanRequest
admit now [] h = (h, [])
admit now (r ∷ rs) h = elim (is_skipped h r) [
  | true ↦ admit now rs h
  | false ↦ let rest = admit now rs (insert r.scan_id now h) in (rest.0, r ∷ rest.1)
]

-- The part of `handleScanRequests` under the lock.
unfoldable pub handle_requests : ℕ → List ScanRequest → Handled → Handled × List ScanRequest
handle_requests now reqs h = admit now reqs (expire now h)

-- The trigger that a request runs under.
unfoldable pub trigger_of : ScanRequest → Trigger
trigger_of r = if str_eq r.trigger (codes "policy") then policy else console

-- `scanFunc(t) == nil`
unfoldable pub is_known : ScanType → Bool
is_known (other_type t) = false
is_known _ = true

-- What is done with a fresh request: it is run, or reported as failed.
pub data Dispatch : Type 0 where
  run_now : ScanType → Trigger → Bytes → Dispatch
  unsupported : ScanType → Trigger → Bytes → Dispatch

unfoldable pub dispatch : ScanRequest → Dispatch
dispatch r =
    if is_known r.scan_type
    then run_now r.scan_type (trigger_of r) r.scan_id
    else unsupported r.scan_type (trigger_of r) r.scan_id

-- `scanState`: whether a scan of the type runs, and the console ids that wait for the next run.
pub record ScanState : Type 0 where
  pub running : Bool
  pub queued : List Bytes

abbrev pub idle : ScanState
idle = record { running = false; queued = [] }

-- The first part of `runScan`: the batch to execute, or `none` if the call returns.
unfoldable pub enter : List Bytes → ScanState → ScanState × Option (List Bytes)
enter ids st =
    if st.running
    then (record st { queued = st.queued ++ ids }, none)
    else (record st { running = true }, some ids)

-- What follows `execScan` in the loop: the next batch, or `none` if the loop ends. `stopped` is
-- `ctx.Err() != nil`.
next_batch : Bool → List Bytes → ScanState → ScanState × Option (List Bytes)
next_batch stopped [] st = (record st { running = false }, none)
next_batch true (id ∷ ids) st = (record st { running = false }, none)
next_batch false (id ∷ ids) st = (record st { queued = [] }, some (id ∷ ids))

unfoldable pub leave : Bool → ScanState → ScanState × Option (List Bytes)
unfolding next_batch
leave stopped st = next_batch stopped st.queued st
