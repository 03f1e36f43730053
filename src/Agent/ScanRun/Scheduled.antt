-- ===== src/Agent/ScanRun/Scheduled.antt =====
-- The agent's own runs: the pause after a server without the route, and scans that this host
-- cannot run.
use siembox_endpoint.Prelude.{
  ℕ, suc, ◌+◌, Bool, true, false, not, ◌&&◌, ◌||◌, none, List, [], ◌++◌, map, Bytes, ltb,
  if◌then◌else◌, is_empty, append-nil, ◌≡◌, refl, sym, ◌∙◌, ap, subst,
}
use siembox_endpoint.Agent.Coordinator.{ScanType, Trigger}
use siembox_endpoint.Agent.ScanRun.{
  World, Book, ScanReport, status_error, ScanRun, Finished, noted, ran, after_answer, report_scan,
  open_row, final_report, requested, records_start, first_id, or_else, reported_ids, run_and_report,
  new_run, exec_scheduled, exec_scan, scan_report_backoff, is_unavailable,
}
use siembox_endpoint.Agent.ScanRun.Reports.{told, finish-told}

report_scan_open :
    (w : World) (r : ScanReport) (book : Book)
    → ltb (w.clock book.calls) book.no_report ≡ false
    → report_scan w r book
      ≡ after_answer (w.clock book.calls) r (w.answer book.calls r) (noted r true book)
unfolding report_scan after_answer
report_scan_open w r book e = rw (e, report_scan) refl

after_answer_404 :
    (now : ℕ) (r : ScanReport) (book : Book)
    → is_empty r.scan_id ≡ true
    → (after_answer now r (status_error 404) book).0.no_report ≡ now + scan_report_backoff
unfolding after_answer
after_answer_404 now r book e = rw e refl

muted_report :
    (w : World) (q : ScanReport) (later : Book)
    → ltb (w.clock later.calls) later.no_report ≡ true
    → report_scan w q later ≡ (noted q false later, none)
unfolding report_scan
muted_report w q later e = rw (e, report_scan) refl

-- After a delivered report without an id that the server answers with 404, every report within 24
-- hours is dropped without reaching the client, as long as nothing else moves the time of the
-- pause.
pub report_scan_pause :
    (w : World) (r q : ScanReport) (book later : Book)
    → ltb (w.clock book.calls) book.no_report ≡ false
    → is_empty r.scan_id ≡ true
    → w.answer book.calls r ≡ status_error 404
    → later.no_report ≡ (report_scan w r book).0.no_report
    → ltb (w.clock later.calls) (w.clock book.calls + scan_report_backoff) ≡ true
    → report_scan w q later ≡ (noted q false later, none)
report_scan_pause w r q book later on_time named answer same soon = muted_report w q later (
    subst (λ n. ltb (w.clock later.calls) n ≡ true)
      (sym (
        same
        ∙ ap (λ x. x.0.no_report) (report_scan_open w r book on_time)
        ∙ ap (λ a. (after_answer (w.clock book.calls) r a (noted r true book)).0.no_report) answer
        ∙ after_answer_404 (w.clock book.calls) r (noted r true book) named))
      soon)

and_false : {A : Type 0} (s b : Bool) (x y : A) → b ≡ false → (if s && b then x else y) ≡ y
and_false true true x y e = cc
and_false true false x y e = refl
and_false false b x y e = refl

no_row :
    (w : World) (run : ScanRun) (at : ℕ) (book : Book)
    → w.is_available run.scan_type ≡ false
    → open_row w run at book ≡ (book, [])
unfolding open_row
no_row w run at book e = and_false (records_start run) (w.is_available run.scan_type) _ _ e

all_off :
    {A : Type 0} (s u q : Bool) (xs ys : List A)
    → q ≡ false
    → u ≡ true
    → (if s || (u && not q) then xs else ys) ≡ xs
all_off true u q xs ys e d = refl
all_off false true false xs ys e d = refl
all_off false true true xs ys e d = cc
all_off false false q xs ys e d = cc

unreported :
    (trigger : Trigger) (f : Finished) (ids : List Bytes)
    → requested trigger ≡ false
    → is_unavailable f.error ≡ true
    → reported_ids trigger f ids ≡ []
unfolding reported_ids
unreported trigger f ids e u =
    all_off f.stopped (is_unavailable f.error) (requested trigger) [] _ e u

own_run :
    (w : World) (t : ScanType) (trigger : Trigger) (book : Book)
    → requested trigger ≡ false
    → exec_scan w t trigger [] book ≡ exec_scheduled w t trigger [] book
unfolding exec_scan exec_scheduled
own_run w t trigger book e = rw (e, exec_scan) refl

own_run_bare :
    (w : World) (t : ScanType) (trigger : Trigger) (book : Book)
    → w.is_available t ≡ false
    → exec_scheduled w t trigger [] book
      ≡ run_and_report w
          (new_run w t trigger)
          (w.clock book.calls)
          []
          (record book { calls = suc book.calls })
unfolding exec_scheduled
own_run_bare w t trigger book a =
    ap
      (λ x.
        run_and_report w (record (new_run w t trigger) { scan_id = first_id x.1 })
          (w.clock book.calls) (or_else x.1 []) x.0)
      (no_row w (new_run w t trigger) (w.clock book.calls) (record book { calls = suc book.calls })
        a)

silent_run :
    (w : World) (run : ScanRun) (at : ℕ) (book : Book)
    → requested run.trigger ≡ false
    → is_unavailable (w.scan run).error ≡ true
    → told (run_and_report w run at [] book) ≡ told book
unfolding run_and_report
silent_run w run at book e u =
    let final = final_report run at (w.clock book.calls) (w.scan run) in
    finish-told w final (reported_ids run.trigger (w.scan run) []) (ran run book)
    ∙ ap (λ ids. told book ++ map final ids) (unreported run.trigger (w.scan run) [] e u)
    ∙ append-nil (told book)

-- A scan that this host cannot run (it is not available, and the scan function says so) leaves no
-- report at all when it is the agent's own run.
exec_scan_unavailable :
    (w : World) (t : ScanType) (trigger : Trigger) (book : Book)
    → requested trigger ≡ false
    → w.is_available t ≡ false
    → is_unavailable (w.scan (new_run w t trigger)).error ≡ true
    → told (exec_scan w t trigger [] book) ≡ told book
exec_scan_unavailable w t trigger book e a u =
    let begun = record book { calls = suc book.calls } in
    ap told (own_run w t trigger book e ∙ own_run_bare w t trigger book a)
    ∙ silent_run w (new_run w t trigger) (w.clock book.calls) begun e u
