-- ===== src/Update/Attempt/Trace.antt =====
-- Every run of the updater: any order of the calls that the agent makes, an attempt at most one at
-- a time, writes that fail, restarts.
use siembox_endpoint.Prelude.{
  ℕ, Bool, true, false, Option, none, some, List, [], Bytes, if◌then◌else◌, Result, ok, err, ◌≡◌,
  refl, sym, ◌∙◌, subst, inr, arith, codes,
}
use siembox_endpoint.Update.Report.{Utf8}
use siembox_endpoint.Update.Plan.{Command}
use siembox_endpoint.Update.Updater.{
  failed, installing, Updater, Identity, AgentUpdateRequest, Job, mutate, set_state, finish, prune,
  startup, reload, check_pending, consider,
}
use siembox_endpoint.Update.Updater.Lifecycle.{
  IsSane, IsJob, IsStored, IsStorable, mutate-IsStored, finish-IsStored, check_pending-IsSane,
  resolve-IsSane, reload-IsSane,
}
use siembox_endpoint.Update.Updater.Steps.{consider-IsSane, prune-IsSane, IsMarker-none}
use siembox_endpoint.Update.Attempt.{
  Env, Ready, Launched, RunError, outside, prepare, command, tool, mark_pending, launch_answer,
  launch_command, install, run_prepared, run, attempt_answer, attempt, error_message,
}

module _ (u : Utf8) (env : Env) (j : Job) (last : Bytes) (e : j.request_id ≡ last)
    (v : IsStorable j.version) where
  finish_job :
      (s : Updater) (x : RunError)
      → IsStored last s
      → IsStored last
          (finish u env.saved_finish j.request_id j.version failed (error_message u env x) s)
  finish_job s x h =
      finish-IsStored u env.saved_finish j.request_id j.version failed (error_message u env x) last
        s e v h

  answer-IsStored :
      (s : Updater) (o : Option RunError) (l : List Launched)
      → IsStored last s
      → IsStored last (attempt_answer u env j (s, o, l)).0
  unfolding attempt_answer
  answer-IsStored s none l h = h
  answer-IsStored s (some x) l h = finish_job s x h

  -- While the report says that the update is being installed, the marker may come and go.
  abbrev InProgress : Updater → Type 0
  InProgress s =
      s.memory.update_report
      ≡ some (record {
        request_id = j.request_id;
        version = j.version;
        state = installing;
        error = [];
      })

  marked-IsStored :
      (s : Updater) → InProgress s → IsStored last s → IsStored last (mark_pending env j s)
  unfolding mark_pending
  marked-IsStored s p (m, d, l) = mutate-IsStored env.saved_pending _ last s (m.0, p) d l

  unmarked-IsStored :
      (s : Updater)
      → IsStored last s
      → IsStored last (mutate env.saved_clear (λ id. record id { pending_update = none }) s)
  unmarked-IsStored s (m, d, l) = mutate-IsStored env.saved_clear _ last s (m.0, tt) d l

  launch-IsStored :
      (c : Command) (s : Updater)
      → InProgress s
      → IsStored last s
      → IsStored last (launch_command env j c s).0
  unfolding launch_command launch_answer
  launch-IsStored c s p h = by_saved env.saved_pending (marked-IsStored s p h)
    where
      by_answer :
          (t : Updater) (o : Option Bytes)
          → IsStored last t
          → IsStored last (launch_answer env c t o).0
      by_answer t none k = k
      by_answer t (some x) k = unmarked-IsStored t k

      by_saved :
          (b : Bool)
          → IsStored last (mark_pending env j s)
          → IsStored last
              (if b
                then launch_answer env c (mark_pending env j s) (env.launch c)
                else (mark_pending env j s, some (outside (codes "persist pending update")), [])).0
      by_saved true k = by_answer _ (env.launch c) k
      by_saved false k = k

  prepared-IsStored :
      (s : Updater) (r : Result RunError Ready)
      → s.memory.pending_update ≡ none
      → IsStored last s
      → IsStored last (run_prepared env j s r).0
  unfolding run_prepared install set_state mutate
  prepared-IsStored s (err x) n h = h
  prepared-IsStored s (ok r) n (m, d, l) = installed (command env j.version r)
    where
      s' : Updater
      s' = set_state env.saved_state j.request_id j.version installing s

      reported : Identity → Identity
      reported id = record id {
        update_report = some (record {
          request_id = j.request_id;
          version = j.version;
          state = installing;
          error = [];
        });
      }

      stored : IsStored last s'
      stored =
          mutate-IsStored env.saved_state reported last s
            (
              (e ∙ sym l, v, omega arith, inr refl),
              IsMarker-none s.memory.pending_update (reported s.memory).update_report n,
            )
            d l

      installed : (c : Result RunError Command) → IsStored last (install env j s' c).0
      installed (err x) = stored
      installed (ok c) = launch-IsStored (tool env c) s' refl stored

  attempt-IsStored :
      (s : Updater)
      → s.memory.pending_update ≡ none
      → IsStored last s
      → IsSane (attempt u env j s).0
  unfolding attempt run
  attempt-IsStored s n h =
      let t = run_prepared env j s (prepare env j.version) in
      let k = answer-IsStored (t.0) (t.1) (t.2) (prepared-IsStored s (prepare env j.version) n h) in
      (k.0, k.1, tt)

-- The answers of the outside are arbitrary in every step: whether writes succeed, the clock, the
-- texts, all of `Env`.
module _ (u : Utf8) where
  pub data Step : Updater → Updater → Type 0 where
    considered :
        (saved : Bool) (req : Option AgentUpdateRequest) (s : Updater)
        → Step s (consider saved req s).0
    attempted : (env : Env) (j : Job) (s : Updater) → s.job ≡ some j → Step s (attempt u env j s).0
    checked :
        (saved : Bool) (now : ℕ) (msg : Bytes) (s : Updater)
        → Step s (check_pending u saved now msg s)
    pruned : (saved : Bool) (active : Bytes) (s : Updater) → Step s (prune saved active s)
    restarted :
        (saved : Bool) (current still after : Bytes) (s : Updater)
        → Step s (startup u saved current still after (reload s))

  pub data Reach (s : Updater) : Updater → Type 0 where
    here : Reach s s
    next : {t w : Updater} → Reach s t → Step t w → Reach s w

  attempt-IsSane :
      (env : Env) (j : Job) (s : Updater) → IsSane s → s.job ≡ some j → IsSane (attempt u env j s).0
  attempt-IsSane env j s (m, d, h) e =
      let k = subst (IsJob s.memory) e h in
      attempt-IsStored u env j s.memory.last_update_request_id (k.0) (k.1) s (k.2) (m, d, refl)

  Step-IsSane : {s t : Updater} → Step s t → IsSane s → IsSane t
  Step-IsSane (considered saved req s) h = consider-IsSane saved req s h
  Step-IsSane (attempted env j s e) h = attempt-IsSane env j s h e
  Step-IsSane (checked saved now msg s) h = check_pending-IsSane u saved now msg s h
  Step-IsSane (pruned saved active s) h = prune-IsSane saved active s h
  Step-IsSane (restarted saved current still after s) h =
      resolve-IsSane u saved current still after (reload s) (reload-IsSane s h)

  -- From a sane state every run keeps the update state sane, in memory and on disk: the report is
  -- about the last request, carries a release version or none, an error within the limit, and an
  -- error only when it failed; a marker stands exactly beside the report of the same installation;
  -- the attempt in flight is the one of the last request and has no marker.
  pub Reach-IsSane : {s t : Updater} → IsSane s → Reach s t → IsSane t
  Reach-IsSane h here = h
  Reach-IsSane h (next r st) = Step-IsSane st (Reach-IsSane h r)
