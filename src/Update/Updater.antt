-- ===== src/Update/Updater.antt =====
-- internal/update/updater.go: the life of a self-update, with the fields of internal/config's
-- `Identity` that it keeps. `State.Mutate` changes the fields in memory and then writes them; the
-- write may fail, and a restart reads back what was last written. Times are in seconds.
pub mod Lifecycle
pub mod Steps
pub mod Requests
use siembox_endpoint.Prelude.{
  ℕ, ◌+◌, Bool, true, false, not, ◌&&◌, ◌||◌, Option, none, some, List, [], ◌∷◌, ◌++◌, Bytes, ltb,
  if◌then◌else◌, str_eq, codes,
}
use siembox_endpoint.Update.Version.{valid_version, valid_request_id}
use siembox_endpoint.Update.Report.{Utf8, truncate, max_error_len}

-- `models.UpdateState*`
pub data Status : Type 0 where
  downloading installing succeeded failed : Status

pub record UpdateReport : Type 0 where
  pub request_id : Bytes
  pub version : Bytes
  pub state : Status
  pub error : Bytes

pub record PendingUpdate : Type 0 where
  pub request_id : Bytes
  pub version : Bytes
  pub started_at : ℕ

pub record Identity : Type 0 where
  pub last_update_request_id : Bytes
  pub pending_update : Option PendingUpdate
  pub update_report : Option UpdateReport

pub record AgentUpdateRequest : Type 0 where
  pub request_id : Bytes
  pub version : Bytes

-- The attempt in flight: `running` is true exactly while there is one.
pub record Job : Type 0 where
  pub request_id : Bytes
  pub version : Bytes

pub record Updater : Type 0 where
  pub memory : Identity
  pub disk : Identity
  pub job : Option Job

-- 15 minutes
abbrev pub pending_timeout : ℕ
pending_timeout = 900

-- `saved` says whether the write succeeds.
unfoldable pub mutate : Bool → (Identity → Identity) → Updater → Updater
mutate saved f u =
    let id = f u.memory in record u { memory = id; disk = if saved then id else u.disk }

unfoldable pub is_finished : Status → Bool
is_finished succeeded = true
is_finished failed = true
is_finished _ = false

clear_report : Bytes → Option UpdateReport → Option UpdateReport
clear_report id none = none
clear_report id (some r) = if str_eq r.request_id id then none else some r

-- the closure of `Prune`
drop_report : Bytes → Identity → Identity
unfolding clear_report
drop_report id s = record s { update_report = clear_report id s.update_report }

prune_report : Bool → Bytes → Option UpdateReport → Updater → Updater
unfolding drop_report
prune_report saved active none u = u
prune_report saved active (some r) u =
    if str_eq r.request_id active || not (is_finished r.state)
    then u
    else mutate saved (drop_report r.request_id) u

unfoldable pub prune : Bool → Bytes → Updater → Updater
unfolding prune_report
prune saved active u = prune_report saved active u.memory.update_report u

-- `setState`
unfoldable pub set_state : Bool → Bytes → Bytes → Status → Updater → Updater
set_state saved req_id ver st = mutate saved λ id. record id {
  update_report = some (record { request_id = req_id; version = ver; state = st; error = [] });
}

-- `if st != UpdateStateFailed { msg = "" }`
unfoldable pub message : Status → Bytes → Bytes
message failed msg = msg
message _ msg = []

unfoldable pub finish : Utf8 → Bool → Bytes → Bytes → Status → Bytes → Updater → Updater
unfolding message
finish u saved req_id ver st msg = mutate saved λ id. record id {
  pending_update = none;
  update_report = some (record {
    request_id = req_id;
    version = ver;
    state = st;
    error = truncate u (message st msg) max_error_len;
  });
}

-- `Startup` after a restart: what the previous process left in flight is resolved. `still` and
-- `after` are the two formatted messages, with the log's tail where the source adds it.
resolve_report : Utf8 → Bool → Bytes → Option UpdateReport → Updater → Updater
resolve_report u saved after none s = s
resolve_report u saved after (some r) s =
    if is_finished r.state then s else finish u saved r.request_id r.version failed after s

unfoldable pub resolve :
    Utf8
    → Bool
    → Bytes
    → Bytes
    → Bytes
    → Option PendingUpdate
    → Option UpdateReport
    → Updater
    → Updater
unfolding resolve_report
resolve u saved current still after (some p) r s =
    if str_eq current p.version
    then finish u saved p.request_id p.version succeeded [] s
    else finish u saved p.request_id p.version failed still s
resolve u saved current still after none r s = resolve_report u saved after r s

unfoldable pub startup : Utf8 → Bool → Bytes → Bytes → Bytes → Updater → Updater
startup u saved current still after s =
    resolve u saved current still after s.memory.pending_update s.memory.update_report s

-- a new process: memory is what is on disk, and no attempt runs
unfoldable pub reload : Updater → Updater
reload s = record { memory = s.disk; disk = s.disk; job = none }

check_pending_of : Utf8 → Bool → ℕ → Bytes → Option PendingUpdate → Updater → Updater
check_pending_of u saved now msg none s = s
check_pending_of u saved now msg (some p) s =
    if ltb now (p.started_at + pending_timeout)
    then s
    else finish u saved p.request_id p.version failed msg s

-- `CheckPending`; `msg` is the formatted message with the log's tail.
unfoldable pub check_pending : Utf8 → Bool → ℕ → Bytes → Updater → Updater
unfolding check_pending_of
check_pending u saved now msg s = check_pending_of u saved now msg s.memory.pending_update s

abbrev pub is_some : {A : Type 0} → Option A → Bool
is_some none = false
is_some (some a) = true

-- `ver = ""` unless it is a release version
unfoldable pub safe_version : Bytes → Bytes
safe_version ver = if valid_version ver then ver else []

-- the closure of `Consider`
record_attempt : AgentUpdateRequest → Identity → Identity
record_attempt req id = record id {
  last_update_request_id = req.request_id;
  update_report = some (record {
    request_id = req.request_id;
    version = safe_version req.version;
    state = downloading;
    error = [];
  });
}

-- The start of an attempt: the state is recorded before the goroutine runs.
begin : Bool → AgentUpdateRequest → Updater → Updater
unfolding record_attempt
begin saved req s =
    let s' = mutate saved (record_attempt req) s in
    record s' {
      job = some (record { request_id = req.request_id; version = safe_version req.version });
    }

-- The guards of `Consider`: an attempt runs, the id was the last one seen, an update is pending.
refused : AgentUpdateRequest → Updater → Bool
refused req s =
    not (valid_request_id req.request_id)
    || is_some s.job
    || str_eq s.memory.last_update_request_id req.request_id
    || is_some s.memory.pending_update

-- `Consider` reports whether an attempt was started.
unfoldable pub consider : Bool → Option AgentUpdateRequest → Updater → Updater × Bool
unfolding begin refused
consider saved none s = (s, false)
consider saved (some req) s = if refused req s then (s, false) else (begin saved req s, true)
