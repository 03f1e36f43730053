-- ===== src/Agent/Performance.antt =====
-- internal/agent/performance.go: the effective settings, the bounded buffer of samples and
-- process snapshots, and the sends. Times and intervals are in seconds; a sample `S` and a
-- snapshot `P` are what the collector returns.
pub mod Settings
pub mod Buffer
pub mod Sends
use siembox_endpoint.Prelude.{
  ℕ, ◌+◌, ◌-◌, min, Bool, true, false, ◌&&◌, ◌||◌, Option, none, some, List, [], ◌∷◌, ◌++◌, Bytes,
  ltb, leb, ◌==◌, if◌then◌else◌, length, drop, ℤ, pos, negsuc, positive_or,
}

abbrev pub default_perf_sample_sec : ℕ
default_perf_sample_sec = 60

abbrev pub default_perf_send_sec : ℕ
default_perf_send_sec = 60

abbrev pub default_perf_process_sec : ℕ
default_perf_process_sec = 300

abbrev pub perf_max_pending : ℕ
perf_max_pending = 180

abbrev pub perf_max_pending_procs : ℕ
perf_max_pending_procs = 12

-- 6 hours
abbrev pub perf_max_pending_age : ℕ
perf_max_pending_age = 21600

-- 1 hour
abbrev pub perf_unsupported_backoff : ℕ
perf_unsupported_backoff = 3600

-- `metrics.DefaultTopProcesses`, `metrics.MaxTopProcesses`
abbrev pub default_top_processes : ℕ
default_top_processes = 10

abbrev pub max_top_processes : ℕ
max_top_processes = 25

pub record PerfSettings : Type 0 where
  pub enabled : Bool
  pub processes : Bool
  pub sample : ℕ
  pub send : ℕ
  pub proc : ℕ
  pub top : ℕ

-- `models.PerformanceConfig`
pub record PerformanceConfig : Type 0 where
  pub enabled : Bool
  pub processes : Bool
  pub sample_interval_sec : ℤ
  pub send_interval_sec : ℤ
  pub process_interval_sec : ℤ
  pub top_processes : ℤ

-- the two local switches of agent.json
pub record LocalSwitches : Type 0 where
  pub metrics_enabled : Bool
  pub processes_enabled : Bool

unfoldable pub clamp : ℕ → ℕ → ℕ → ℕ
clamp v lo hi = let raised = if ltb v lo then lo else v in if ltb hi raised then hi else raised

unfoldable pub clamp_sec : ℤ → ℕ → ℕ → ℕ → ℕ
clamp_sec v def lo hi = clamp (positive_or def v) lo hi

unfoldable pub top_of : ℤ → ℕ
top_of (pos n) = if ltb 0 n then min n max_top_processes else default_top_processes
top_of (negsuc n) = default_top_processes

unfoldable pub configured : LocalSwitches → Option PerformanceConfig → PerfSettings
configured local none = record {
  enabled = local.metrics_enabled;
  processes = local.processes_enabled;
  sample = default_perf_sample_sec;
  send = default_perf_send_sec;
  proc = default_perf_process_sec;
  top = default_top_processes;
}
configured local (some server) = record {
  enabled = local.metrics_enabled && server.enabled;
  processes = local.processes_enabled && server.processes;
  sample = clamp_sec server.sample_interval_sec default_perf_sample_sec 30 600;
  send = clamp_sec server.send_interval_sec default_perf_send_sec 60 900;
  proc = clamp_sec server.process_interval_sec default_perf_process_sec 60 3600;
  top = top_of server.top_processes;
}

unfoldable pub effective_perf : LocalSwitches → Option PerformanceConfig → PerfSettings
effective_perf local server =
    let p = configured local server in
    record p {
      send = if ltb p.send p.sample then p.sample else p.send;
      processes = p.processes && p.enabled;
    }

-- `perfState`; `unsupported` is 0 or the time to try again
pub record PerfState (S P : Type 0) : Type 0 where
  pub samples : List S
  pub procs : List P
  pub unsupported : ℕ
  pub dropped : ℕ

-- `models.MetricsBatch`
pub record MetricsBatch (S P : Type 0) : Type 0 where
  pub samples : List S
  pub processes : List P

-- what `client.SendMetrics` returns
pub data SendAnswer : Type 0 where
  sent : SendAnswer
  status : ℕ → SendAnswer
  unreachable : SendAnswer

-- The loop's state: the buffer and the times of the last process snapshot and the last send.
pub record PerfLoop (S P : Type 0) : Type 0 where
  pub state : PerfState S P
  pub last_proc : ℕ
  pub last_send : ℕ

-- What one turn of the timer meets: the time, the collector's sample and process snapshot
-- (`none` if it failed), and the server's answer.
pub record Turn (S P : Type 0) : Type 0 where
  pub now : ℕ
  pub collected : Option S
  pub snapshot : Option P
  pub answer : SendAnswer

-- `cfg.processes && now.Sub(*lastProc) >= cfg.proc-time.Second`
unfoldable pub is_proc_due : PerfSettings → ℕ → ℕ → Bool
is_proc_due cfg now last = cfg.processes && leb (last + cfg.proc) (now + 1)

-- `now.Sub(*lastSend) >= cfg.send-5*time.Second`
unfoldable pub is_send_due : PerfSettings → ℕ → ℕ → Bool
is_send_due cfg now last = leb (last + cfg.send) (now + 5)

module _ {S P : Type 0} where
  -- `if over := len(s.samples) - perfMaxPending; over > 0`
  unfoldable pub add_sample : Option S → PerfState S P → PerfState S P
  add_sample none st = st
  add_sample (some s) st =
      let all = st.samples ++ (s ∷ []) in
      let over = length all - perf_max_pending in
      record st { samples = drop over all; dropped = st.dropped + over }

  unfoldable pub add_snapshot : Option P → PerfState S P → PerfState S P
  add_snapshot none st = st
  add_snapshot (some p) st =
      let all = st.procs ++ (p ∷ []) in
      record st { procs = drop (length all - perf_max_pending_procs) all }

  unfoldable pub add : Option S → Option P → PerfState S P → PerfState S P
  add sample snap st = add_snapshot snap (add_sample sample st)

  -- the batch of a send, or `none` if nothing is sent now
  unfoldable pub batch_of : ℕ → PerfState S P → Option (MetricsBatch S P)
  batch_of now st =
      if ltb now st.unsupported || ((length st.samples + length st.procs) == 0)
      then none
      else some (record { samples = st.samples; processes = st.procs })

  -- the cuts `n > len(...)` are those of `drop`
  unfoldable pub drop_sent : ℕ → ℕ → PerfState S P → PerfState S P
  drop_sent n p st = record {
    samples = drop n st.samples;
    procs = drop p st.procs;
    unsupported = st.unsupported;
    dropped = 0;
  }

  -- the state when the answer to a batch has come
  unfoldable pub after_send : ℕ → MetricsBatch S P → SendAnswer → PerfState S P → PerfState S P
  after_send now batch sent st = drop_sent (length batch.samples) (length batch.processes) st
  after_send now batch (status code) st =
      if code == 404
      then record st { unsupported = now + perf_unsupported_backoff; samples = []; procs = [] }
      else if code == 400
      then drop_sent (length batch.samples) (length batch.processes) st
      else st
  after_send now batch unreachable st = st

  unfoldable pub send_metrics : ℕ → SendAnswer → PerfState S P → PerfState S P
  send_metrics now answer st = elim (batch_of now st) [
    | none ↦ st
    | some batch ↦ after_send now batch answer st
  ]

  -- `perfTick` once a sample was collected
  unfoldable pub after_sample : PerfSettings → Turn S P → S → PerfLoop S P → PerfLoop S P
  after_sample cfg turn s l =
      let due = is_proc_due cfg turn.now l.last_proc in
      let st = add (some s) (if due then turn.snapshot else none) l.state in
      let send = is_send_due cfg turn.now l.last_send in
      record {
        state = if send then send_metrics turn.now turn.answer st else st;
        last_proc = if due then turn.now else l.last_proc;
        last_send = if send then turn.now else l.last_send;
      }

  unfoldable pub perf_tick : PerfSettings → Turn S P → PerfLoop S P → PerfLoop S P
  perf_tick cfg turn l = elim turn.collected [ none ↦ l | some s ↦ after_sample cfg turn s l ]

  -- one turn of `runPerformance`
  unfoldable pub perf_turn : PerfSettings → Turn S P → PerfLoop S P → PerfLoop S P
  perf_turn cfg turn l =
      if cfg.enabled
      then perf_tick cfg turn l
      else record l { state = record l.state { samples = []; procs = [] } }

  -- `loadPendingMetrics`: what the last run left, younger than 6 hours, by the time of each entry
  unfoldable pub load_samples : ℕ → List (ℕ × S) → PerfState S P → PerfState S P
  load_samples now [] st = st
  load_samples now ((at, s) ∷ saved) st =
      load_samples now saved
        (if ltb now (at + perf_max_pending_age) then add (some s) none st else st)

  unfoldable pub load_procs : ℕ → List (ℕ × P) → PerfState S P → PerfState S P
  load_procs now [] st = st
  load_procs now ((at, p) ∷ saved) st =
      load_procs now saved
        (if ltb now (at + perf_max_pending_age) then add none (some p) st else st)

  unfoldable pub load_pending : ℕ → List (ℕ × S) → List (ℕ × P) → PerfState S P → PerfState S P
  load_pending now ss ps st = load_procs now ps (load_samples now ss st)
