-- ===== src/Agent/Performance/Settings.antt =====
-- The bounds of the effective settings.
use siembox_endpoint.Prelude.{
  ℕ, ◌≤◌, true, Option, none, some, ltb, if◌then◌else◌, ℤ, pos, negsuc, positive_or, ◌≡◌, arith,
}
use siembox_endpoint.Agent.Performance.{
  PerfSettings, PerformanceConfig, LocalSwitches, clamp, clamp_sec, top_of, configured,
  effective_perf,
}

pub record IsInBounds (local : LocalSwitches) (p : PerfSettings) : Type 0 where
  pub sample_bounds : (30 ≤ p.sample) × (p.sample ≤ 600)
  pub send_bounds : (p.sample ≤ p.send) × (60 ≤ p.send) × (p.send ≤ 900)
  pub proc_bounds : (60 ≤ p.proc) × (p.proc ≤ 3600)
  pub top_bounds : (1 ≤ p.top) × (p.top ≤ 25)
  pub metrics_switch : p.enabled ≡ true → local.metrics_enabled ≡ true
  pub process_switch : p.processes ≡ true → (p.enabled ≡ true) × (local.processes_enabled ≡ true)

clamp_bounds : (v lo hi : ℕ) → lo ≤ hi → (lo ≤ clamp v lo hi) × (clamp v lo hi ≤ hi)
unfolding clamp
clamp_bounds v lo hi h = ground arith

top_of_bounds : (v : ℤ) → (1 ≤ top_of v) × (top_of v ≤ 25)
unfolding top_of
top_of_bounds (pos n) = ground arith
top_of_bounds (negsuc n) = ground arith

send_raise :
    (sample send : ℕ)
    → sample ≤ 600
    → 60 ≤ send
    → send ≤ 900
    → (sample ≤ (if ltb send sample then sample else send))
      × (60 ≤ (if ltb send sample then sample else send))
      × ((if ltb send sample then sample else send) ≤ 900)
send_raise sample send a b c = ground arith

-- Whatever the server configures (negative and huge intervals included), samples are taken every
-- 30 seconds to 10 minutes, sends come every 1 to 15 minutes and never more often than samples,
-- process snapshots every 1 to 60 minutes with 1 to 25 processes; nothing is collected unless the
-- local switch allows it, and processes only if both local switches do.
pub effective_perf-IsInBounds :
    (local : LocalSwitches) (server : Option PerformanceConfig)
    → IsInBounds local (effective_perf local server)
unfolding effective_perf configured clamp_sec
effective_perf-IsInBounds local none = record {
  sample_bounds = (omega arith, omega arith);
  send_bounds = (omega arith, omega arith, omega arith);
  proc_bounds = (omega arith, omega arith);
  top_bounds = (omega arith, omega arith);
  metrics_switch = λ e. e;
  process_switch = λ e. ground arith;
}
effective_perf-IsInBounds local (some c) =
    let sample = clamp_bounds (positive_or 60 c.sample_interval_sec) 30 600 (omega arith) in
    let send = clamp_bounds (positive_or 60 c.send_interval_sec) 60 900 (omega arith) in
    record {
      sample_bounds = sample;
      send_bounds =
          send_raise (clamp (positive_or 60 c.sample_interval_sec) 30 600)
            (clamp (positive_or 60 c.send_interval_sec) 60 900) sample.1 send.0 send.1;
      proc_bounds = clamp_bounds (positive_or 300 c.process_interval_sec) 60 3600 (omega arith);
      top_bounds = top_of_bounds c.top_processes;
      metrics_switch = λ e. ground arith;
      process_switch = λ e. ground arith;
    }
