-- ===== src/Agent/Yara.antt =====
-- internal/agent/agent.go: the YARA passes (`yaraScan`, `yaraNextFull`, `yaraWatchFrom`), the turns
-- of `runYaraScans`, and who schedules scans (`scanPolicy`, `ownSchedule`). Times are in seconds;
-- what osqueryi answers is a parameter. No shutdown falls into the emission of the detections.
pub mod Alerts
use siembox_endpoint.Prelude.{
  ℕ, Bool, true, false, not, ◌&&◌, ◌||◌, Option, none, some, List, [], ◌∷◌, ◌++◌, Bytes,
  if◌then◌else◌, is_empty, str_eq, codes, any, length, lookup,
}
use siembox_endpoint.Agent.Coordinator.{Trigger, schedule, startup}
use siembox_endpoint.Agent.ScanRun.{
  SummaryValue, count, flag, Summary, ScanError, no_error, unavailable, scan_failed, Finished,
}

-- `models.ScanPolicy`: `scans` maps a type's name to whether the policy runs it.
pub record ScanPolicy : Type 0 where
  pub managed : Bool
  pub scans : List (Bytes × Bool)

unfoldable pub is_managed : Option ScanPolicy → Bool
is_managed none = false
is_managed (some p) = p.managed

unfoldable pub is_enabled : Bytes → Option ScanPolicy → Bool
is_enabled t none = true
is_enabled t (some p) = elim (lookup t p.scans) [ none ↦ true | some on ↦ on ]

-- `scanPolicy`
unfoldable pub scan_policy : Option ScanPolicy → Option ScanPolicy
scan_policy p = if is_managed p then p else none

unfoldable pub own_schedule : Option ScanPolicy → Bool
own_schedule p = not (is_managed p)

-- `yaraSeen`, `yaraSince` and `yaraForceFull`
pub record YaraState : Type 0 where
  pub seen : List Bytes
  pub since : Option ℕ
  pub force_full : Bool

unfoldable pub yara_watch_from : ℕ → YaraState → YaraState
yara_watch_from t st = elim st.since [ none ↦ record st { since = some t } | some _ ↦ st ]

abbrev pub is_schedule : Trigger → Bool
is_schedule schedule = true
is_schedule _ = false

abbrev pub is_unset : Option ℕ → Bool
is_unset none = true
is_unset (some t) = false

unfoldable pub yara_next_full : Trigger → YaraState → Bool
yara_next_full trigger st = not (is_schedule trigger) || is_unset st.since || st.force_full

-- What `runYara` and the contexts give: the paths of the matches, the agent's shutdown, the
-- timeout, or another failure.
pub data PassAnswer : Type 0 where
  matched : List Bytes → PassAnswer
  shut_down : PassAnswer
  timed_out : Bytes → PassAnswer
  pass_failed : Bytes → PassAnswer

unfoldable pub is_seen : Bytes → List Bytes → Bool
is_seen p seen = any (λ q. str_eq q p) seen

-- The loop over the records: the paths seen afterwards and the fresh ones.
unfoldable pub take_fresh : List Bytes → List Bytes → List Bytes × List Bytes
take_fresh [] seen = (seen, [])
take_fresh (p ∷ ps) seen =
    let skipped = take_fresh ps seen in
    let taken = take_fresh ps (p ∷ seen) in
    if is_empty p || is_seen p seen then skipped else (taken.0, p ∷ taken.1)

-- `a.yaraSince = start`, and the end of a full pass
unfoldable pub advance : Bool → ℕ → YaraState → YaraState
advance full start st = record st { since = some start; force_full = st.force_full && not full }

-- the files that a pass reads: all, or those changed since a time
unfoldable pub changed_since : Bool → YaraState → Option ℕ
changed_since full st = if full then none else st.since

abbrev pub is_none : List Bytes → Bool
is_none [] = true
is_none (p ∷ ps) = false

-- What a pass leaves: the state, the paths for which a detection is emitted, and the result.
pub record Passed : Type 0 where
  pub state : YaraState
  pub alerts : List Bytes
  pub result : Finished

abbrev pub failed_pass : Bool → Bytes → Finished
failed_pass full text = record {
  summary = (codes "full", flag full) ∷ [];
  is_recorded = full;
  error = scan_failed text;
  stopped = false;
}

abbrev pub nothing_done : ScanError → Bool → Finished
nothing_done e stopped = record { summary = []; is_recorded = false; error = e; stopped = stopped }

unfoldable pub after_pass : Bool → ℕ → PassAnswer → YaraState → Passed
after_pass full start (matched paths) st =
    let found = take_fresh paths st.seen in
    record {
      state = record (advance full start st) { seen = found.0 };
      alerts = found.1;
      result = record {
        summary =
            (codes "full", flag full)
            ∷ (codes "hits", count (length paths))
            ∷ (codes "new_hits", count (length found.1))
            ∷ [];
        is_recorded = full || not (is_none found.1);
        error = no_error;
        stopped = false;
      };
    }
after_pass full start shut_down st = record {
  state = st;
  alerts = [];
  result = nothing_done (scan_failed (codes "context canceled")) true;
}
after_pass full start (timed_out text) st = record {
  state = advance full start st;
  alerts = [];
  result = failed_pass full text;
}
after_pass full start (pass_failed text) st = record {
  state = st;
  alerts = [];
  result = failed_pass full text;
}

-- `yaraScan`; `answer` is given the time limit of the files to read.
unfoldable pub yara_scan : Bool → Bool → ℕ → (Option ℕ → PassAnswer) → YaraState → Passed
yara_scan available full start answer st =
    if not available
    then record {
      state = st;
      alerts = [];
      result =
          nothing_done (unavailable (codes "YARA file scanning is disabled on this host")) false;
    }
    else after_pass full start (answer (changed_since full st)) st

-- What wakes the loop of `runYaraScans`.
pub data Wake : Type 0 where
  rescan ticked : Wake

-- The state after the loop's select and whether a scheduled scan is run.
unfoldable pub wake : Option ScanPolicy → ℕ → Wake → YaraState → YaraState × Bool
wake policy now rescan st =
    (if own_schedule policy then record st { force_full = true } else st, false)
wake policy now ticked st =
    if own_schedule policy
    then (st, true)
    else if is_enabled (codes "yara") policy
    then (yara_watch_from now st, true)
    else (st, false)
