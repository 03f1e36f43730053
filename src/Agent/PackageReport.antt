-- ===== src/Agent/PackageReport.antt =====
-- internal/agent/agent.go: one package report (`sendPackages`) and the package scan (`packageScan`).
-- The collector's packages `A`, their hash and the server's answers are parameters; times are in
-- seconds.
pub mod Sent
use siembox_endpoint.Prelude.{
  ℕ, ◌+◌, Bool, true, false, not, ◌&&◌, ◌||◌, Option, none, some, List, [], ◌∷◌, ◌++◌, Bytes, ltb,
  leb, ◌==◌, if◌then◌else◌, str_eq,
}
use siembox_endpoint.Agent.Coordinator.{Trigger, console}

-- 24 hours, both
abbrev pub package_resend_every : ℕ
package_resend_every = 86400

abbrev pub package_unsupported_backoff : ℕ
package_unsupported_backoff = 86400

-- The fields of the agent that a report reads and writes: `packagesUnsupported` (0 or the time to
-- try again), and the hash and the time of the last full list that the server accepted.
pub record PackageState : Type 0 where
  pub unsupported : ℕ
  pub hash : Bytes
  pub sent_at : ℕ

-- `models.PackageReport`; `packages` is empty in a report of the hash alone.
pub record PackageReport (A : Type 0) : Type 0 where
  pub snapshot_hash : Bytes
  pub packages : List A
  pub forced : Bool
  pub scan_id : Bytes

-- `models.PackageReportResponse`, and the errors of `client.SendPackages`
pub data PackageAnswer : Type 0 where
  package_answer : (accepted : Bool) → (snapshot_required : Bool) → PackageAnswer
  status_error : ℕ → PackageAnswer
  unreachable : PackageAnswer

pub data PackageError : Type 0 where
  unsupported_server no_packages send_failed not_accepted disabled : PackageError

-- What a report leaves: the state, the reports sent, and the error.
pub record Reported (A : Type 0) : Type 0 where
  pub state : PackageState
  pub sent : List (PackageReport A)
  pub error : Option PackageError

-- `err == nil && !full && resp.SnapshotRequired`
unfoldable pub wants_snapshot : PackageAnswer → Bool
wants_snapshot (package_answer accepted required) = required
wants_snapshot _ = false

-- What follows the last answer.
unfoldable pub after_report :
    ℕ → Bytes → Bool → PackageAnswer → PackageState → PackageState × Option PackageError
after_report now hash full (package_answer accepted required) st =
    if not accepted
    then (st, some not_accepted)
    else (record st { hash = hash; sent_at = if full then now else st.sent_at }, none)
after_report now hash full (status_error code) st =
    if code == 404
    then (record st { unsupported = now + package_unsupported_backoff }, some unsupported_server)
    else (st, some send_failed)
after_report now hash full unreachable st = (st, some send_failed)

module _ {A : Type 0} (hash_of : List A → Bytes)
    (server : ℕ → PackageReport A → PackageAnswer) where
  -- `force || hash != lastHash || now.Sub(lastSent) >= packageResendEvery`
  unfoldable pub is_full : ℕ → Bool → Bytes → PackageState → Bool
  is_full now force hash st =
      force || not (str_eq hash st.hash) || leb (st.sent_at + package_resend_every) now

  abbrev pub report_of : List A → Bool → Bytes → Bool → PackageReport A
  report_of pkgs force scan_id full = record {
    snapshot_hash = hash_of pkgs;
    packages = if full then pkgs else [];
    forced = force;
    scan_id = scan_id;
  }

  -- the sends, the second one when the server asks for the snapshot
  unfoldable pub send_report : ℕ → List A → Bool → Bytes → Bool → PackageState → Reported A
  send_report now pkgs force scan_id full st =
      let first = report_of pkgs force scan_id full in
      let again = report_of pkgs force scan_id true in
      if not full && wants_snapshot (server 0 first)
      then record {
        state = (after_report now (hash_of pkgs) true (server 1 again) st).0;
        sent = first ∷ again ∷ [];
        error = (after_report now (hash_of pkgs) true (server 1 again) st).1;
      }
      else record {
        state = (after_report now (hash_of pkgs) full (server 0 first) st).0;
        sent = first ∷ [];
        error = (after_report now (hash_of pkgs) full (server 0 first) st).1;
      }

  unfoldable pub collected : ℕ → List A → Bool → Bytes → PackageState → Reported A
  collected now [] force scan_id st = record { state = st; sent = []; error = some no_packages }
  collected now (p ∷ pkgs) force scan_id st =
      send_report now (p ∷ pkgs) force scan_id (is_full now force (hash_of (p ∷ pkgs)) st) st

  unfoldable pub send_packages : ℕ → List A → Bool → Bytes → PackageState → Reported A
  send_packages now pkgs force scan_id st =
      if ltb now st.unsupported && not force
      then record { state = st; sent = []; error = some unsupported_server }
      else collected now pkgs force scan_id st

  abbrev pub is_console : Trigger → Bool
  is_console console = true
  is_console _ = false

  -- `packageScan`; `enabled` is `scanAvailable` of the packages
  unfoldable pub package_scan : Bool → ℕ → List A → Trigger → Bytes → PackageState → Reported A
  package_scan enabled now pkgs trigger scan_id st =
      if not enabled
      then record { state = st; sent = []; error = some disabled }
      else send_packages now pkgs (is_console trigger) scan_id st
