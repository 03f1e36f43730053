-- ===== src/Update/Attempt/Launch.antt =====
-- What an attempt launches, and how it ends.
use siembox_endpoint.Prelude.{
  true, false, Option, none, some, List, [], ◌∷◌, Bytes, if◌then◌else◌, codes, Result, ok, err, ◌≡◌,
  refl, sym, ap, ◌⊎◌, inl, inr, arith, subst, Bool-cases, Option-cases,
}
use siembox_endpoint.Update.Plan.{Command}
use siembox_endpoint.Update.Report.{Utf8, truncate, max_error_len}
use siembox_endpoint.Update.Updater.{
  failed, installing, Updater, Identity, Job, PendingUpdate, UpdateReport, mutate, set_state,
  finish, message,
}
use siembox_endpoint.Update.Attempt.{
  Env, Ready, Launched, RunError, outside, prepare, command, tool, mark_pending, launch_answer,
  launch_command, install, run_prepared, run, attempt_answer, attempt, error_message,
}

module _ (u : Utf8) (env : Env) (j : Job) where
  -- The marker and the report of an update whose installer runs.
  abbrev pub marker : PendingUpdate
  marker = record { request_id = j.request_id; version = j.version; started_at = env.now }

  abbrev pub in_progress : UpdateReport
  in_progress = record {
    request_id = j.request_id;
    version = j.version;
    state = installing;
    error = [];
  }

  -- The installer was started: the marker is in memory, and was on disk before the start.
  abbrev pub IsStarted : Updater → List Launched → Type 0
  IsStarted s l =
      (c : Command) × (d : Identity) × (l ≡ record { run = c; on_disk = d } ∷ [])
      × (d.pending_update ≡ some marker)
      × (s.memory.pending_update ≡ some marker)
      × (s.memory.update_report ≡ some in_progress)

  -- Nothing was started: no marker is left, and the attempt is reported as failed.
  abbrev pub IsFailed : Updater → List Launched → Type 0
  IsFailed s l =
      (e : RunError) × (l ≡ [])
      × (s.memory.pending_update ≡ none)
      × (s.memory.update_report
          ≡ some (record {
            request_id = j.request_id;
            version = j.version;
            state = failed;
            error = truncate u (error_message u env e) max_error_len;
          }))

  abbrev pub Ended : Updater × List Launched → Type 0
  Ended r = IsStarted (r.0) (r.1) ⊎ IsFailed (r.0) (r.1)

  answer_failed : (s : Updater) (e : RunError) → Ended (attempt_answer u env j (s, some e, []))
  unfolding attempt_answer finish mutate message
  answer_failed s e = inr (e, refl, refl, refl)

  marked :
      (s : Updater)
      → env.saved_pending ≡ true
      → (mark_pending env j s).disk.pending_update ≡ some marker
  unfolding mark_pending mutate
  marked s w =
      ap
        (λ b.
          (if b then record s.memory { pending_update = some marker } else s.disk).pending_update)
        w

  -- The three ways out of the last part of `run`.
  launch_started :
      (c : Command) (s : Updater)
      → env.saved_pending ≡ true
      → env.launch c ≡ none
      → launch_command env j c s ≡ (
        mark_pending env j s,
        none,
        record { run = c; on_disk = (mark_pending env j s).disk } ∷ [],
      )
  unfolding launch_command launch_answer
  launch_started c s w o = ground (arith, w, o)

  launch_refused :
      (c : Command) (s : Updater) (e : Bytes)
      → env.saved_pending ≡ true
      → env.launch c ≡ some e
      → launch_command env j c s ≡ (
        mutate env.saved_clear (λ id. record id { pending_update = none }) (mark_pending env j s),
        some (outside e),
        [],
      )
  unfolding launch_command launch_answer
  launch_refused c s e w o = ground (arith, w, o)

  launch_unsaved :
      (c : Command) (s : Updater)
      → env.saved_pending ≡ false
      → launch_command env j c s
        ≡ (mark_pending env j s, some (outside (codes "persist pending update")), [])
  unfolding launch_command
  launch_unsaved c s w = ground (arith, w)

  answer_started :
      (c : Command) (s : Updater)
      → env.saved_pending ≡ true
      → s.memory.update_report ≡ some in_progress
      → Ended (
          attempt_answer u env j (
            mark_pending env j s,
            none,
            record { run = c; on_disk = (mark_pending env j s).disk } ∷ [],
          ))
  unfolding attempt_answer mark_pending mutate
  answer_started c s w h = inl (c, _, refl, marked s w, refl, h)

  answer_launch :
      (c : Command) (s : Updater)
      → s.memory.update_report ≡ some in_progress
      → Ended (attempt_answer u env j (launch_command env j c s))
  answer_launch c s h = elim (Bool-cases env.saved_pending) [
    | inl w ↦ elim (Option-cases (env.launch c)) [
      | inl o ↦ subst P (sym (launch_started c s w o)) (answer_started c s w h)
      | inr o ↦ subst P (sym (launch_refused c s (o.0) w (o.1))) (answer_failed _ _)
    ]
    | inr w ↦ subst P (sym (launch_unsaved c s w)) (answer_failed _ _)
  ]
    where
      P : Updater × Option RunError × List Launched → Type 0
      P r = Ended (attempt_answer u env j r)

  answer_prepared :
      (s : Updater) (r : Result RunError Ready)
      → Ended (attempt_answer u env j (run_prepared env j s r))
  unfolding run_prepared install set_state mutate
  answer_prepared s (err e) = answer_failed s e
  answer_prepared s (ok r) = answer_command (command env j.version r)
    where
      answer_command :
          (c : Result RunError Command)
          → Ended (
              attempt_answer u env j
                (install env j (set_state env.saved_state j.request_id j.version installing s) c))
      answer_command (err e) = answer_failed _ e
      answer_command (ok c) = answer_launch (tool env c) _ refl

  -- Every attempt ends in one of two ways: exactly one process was started, its marker was on disk
  -- before, and the report says that the update is being installed; or nothing was started, no
  -- marker is left and the report says that the attempt failed.
  pub attempt_lem : (s : Updater) → Ended (attempt u env j s)
  unfolding attempt run
  attempt_lem s = answer_prepared s (prepare env j.version)
