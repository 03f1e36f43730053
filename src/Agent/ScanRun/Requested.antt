-- ===== src/Agent/ScanRun/Requested.antt =====
-- The execution of a batch of requests: who is dropped, what runs, and what is reported.
use siembox_endpoint.Prelude.{
  ℕ, suc, Bool, true, false, not, ◌&&◌, ◌||◌, List, [], ◌∷◌, ◌++◌, map, Bytes, ltb, if◌then◌else◌,
  append_assoc, append-nil, ◌≡◌, refl, sym, ◌∙◌, ap, subst, inl, inr, ◌⊎◌, arith, length,
  Bool-cases, is_empty, ◌==◌, ◌+◌,
}
use siembox_endpoint.Agent.Coordinator.{ScanType, Trigger}
use siembox_endpoint.Agent.ScanRun.{
  World, Book, ScanReport, ReportAnswer, answered, status_error, unreachable, ScanRun, Finished,
  noted, after_answer, report_scan, start_report, is_refused, is_running, announce, final_report,
  requested, is_unavailable, reported_ids, run_and_report, new_run, exec_requested, exec_scheduled,
  exec_scan, ran,
}
use siembox_endpoint.Agent.ScanRun.Reports.{
  told, announce-told, announce-runs, finish-told, finish-runs,
}

-- The server's answer refuses the start of a request.
abbrev pub is_refusal : ReportAnswer → Bool
is_refusal (answered resp) = not resp.accepted && not (is_running resp.status)
is_refusal _ = false

-- A report made at call `n` while the agent is mute until `m` is not handed to the client.
abbrev pub is_mute : World → ℕ → ℕ → Bool
is_mute w n m = ltb (w.clock n) m

-- Until when the agent is mute after that report: a 404 on a report without an id mutes it for a
-- day.
abbrev pub muted_by : ℕ → ℕ → Bytes → ReportAnswer → ℕ
muted_by now m id (answered resp) = m
muted_by now m id (status_error code) = if (code == 404) && is_empty id then now + 86_400 else m
muted_by now m id unreachable = m

abbrev pub mute_after : World → ℕ → ℕ → ScanReport → ℕ
mute_after w n m r = if is_mute w n m then m else muted_by (w.clock n) m r.scan_id (w.answer n r)

-- The answer to a report, as the rest of the run sees it.
after_answer_lem :
    (now : ℕ) (r : ScanReport) (a : ReportAnswer) (book : Book)
    → (is_refused (after_answer now r a book).1 ≡ is_refusal a)
      × ((after_answer now r a book).0.no_report ≡ muted_by now book.no_report r.scan_id a)
      × ((after_answer now r a book).0.calls ≡ book.calls)
unfolding after_answer is_refused
after_answer_lem now r (answered resp) book = (refl, refl, refl)
after_answer_lem now r (status_error code) book =
    elim (Bool-cases ((code == 404) && is_empty r.scan_id)) [
      | inl e ↦ rw (e, after_answer, is_refused) (refl, refl, refl)
      | inr e ↦ rw (e, after_answer, is_refused) (refl, refl, refl)
    ]
after_answer_lem now r unreachable book = (refl, refl, refl)

report_scan_lem :
    (w : World) (r : ScanReport) (book : Book)
    → (is_refused (report_scan w r book).1
        ≡ (not (is_mute w book.calls book.no_report) && is_refusal (w.answer book.calls r)))
      × ((report_scan w r book).0.no_report ≡ mute_after w book.calls book.no_report r)
      × ((report_scan w r book).0.calls ≡ suc book.calls)
unfolding report_scan is_refused
report_scan_lem w r book = elim (Bool-cases (is_mute w book.calls book.no_report)) [
  | inl e ↦ rw (e, report_scan, is_refused) (refl, refl, refl)
  | inr e ↦
      rw (e, report_scan)
        (after_answer_lem (w.clock book.calls) r (w.answer book.calls r) (noted r true book))
]

-- `xs` is what is left of a list when some items are taken out.
abbrev pub IsPart : List Bytes → List Bytes → Type 0
IsPart xs [] = xs ≡ []
IsPart xs (j ∷ ids) = IsPart xs ids ⊎ ((ys : List Bytes) × (xs ≡ j ∷ ys) × IsPart ys ids)

-- An id of the batch is kept or, when refused, left out.
kept-IsPart :
    (j : Bytes) (b : Bool) (xs ids : List Bytes)
    → IsPart xs ids
    → IsPart (if b then xs else j ∷ xs) (j ∷ ids)
kept-IsPart j true xs ids h = inl h
kept-IsPart j false xs ids h = inr (xs, refl, h)

module _ (w : World) (t : ScanType) (trigger : Trigger) (at : ℕ) where
  announce-IsPart :
      (ids : List Bytes) (book : Book) → IsPart (announce w t trigger at ids book).1 ids
  unfolding announce
  announce-IsPart [] book = refl
  announce-IsPart (j ∷ ids) book =
      let here = report_scan w (start_report t trigger at j) book in
      kept-IsPart j (is_refused here.1) (announce w t trigger at ids here.0).1 ids
        (announce-IsPart ids here.0)

  -- The requests that are left when their start reports are the calls from `n` on: a request is
  -- left out exactly when its report is handed over and the answer to that very call refuses it.
  abbrev pub live_of : ℕ → ℕ → List Bytes → List Bytes
  live_of n m [] = []
  live_of n m (j ∷ ids) =
      let r = start_report t trigger at j in
      let rest = live_of (suc n) (mute_after w n m r) ids in
      if not (is_mute w n m) && is_refusal (w.answer n r) then rest else j ∷ rest

  announce-live :
      (ids : List Bytes) (book : Book)
      → ((announce w t trigger at ids book).1 ≡ live_of book.calls book.no_report ids)
        × ((announce w t trigger at ids book).0.calls ≡ book.calls + length ids)
  unfolding announce
  announce-live [] book = (refl, omega arith)
  announce-live (j ∷ ids) book =
      let r = start_report t trigger at j in
      let here = (report_scan w r book).0 in
      let (e, m, c) = report_scan_lem w r book in
      let (k, l) = announce-live ids here in
      let rest : (announce w t trigger at ids here).1
          ≡ live_of (suc book.calls) (mute_after w book.calls book.no_report r) ids =
        k ∙ ap (λ n. live_of n here.no_report ids) c ∙ ap (λ n. live_of (suc book.calls) n ids) m in
      (
        ap
              (λ b.
                if b
                then (announce w t trigger at ids here).1
                else j ∷ (announce w t trigger at ids here).1)
              e
            ∙ ap
                (λ xs.
                  if not (is_mute w book.calls book.no_report) && is_refusal (w.answer book.calls r)
                  then xs
                  else j ∷ xs)
                rest,
        omega (arith, l, c),
      )

  -- the run of a batch, its final reports
  abbrev pub run_of : Bytes → ScanRun
  run_of id = record (new_run w t trigger) { scan_id = id }

  abbrev pub runs_of : List Bytes → List ScanRun
  runs_of [] = []
  runs_of (id ∷ live) = run_of id ∷ []

  abbrev pub finals_of : ℕ → List Bytes → List ScanReport
  finals_of done [] = []
  finals_of done (id ∷ live) =
      if (w.scan (run_of id)).stopped
      then []
      else map (final_report (run_of id) at done (w.scan (run_of id))) (id ∷ live)

-- What the execution of requests did, between two books: `live` are the ids it ran for, `done`
-- the time of the final reports.
pub record IsServed (w : World) (t : ScanType) (trigger : Trigger) (ids : List Bytes)
    (before after : Book) : Type 0 where
  pub live : List Bytes
  pub done : ℕ
  pub part : IsPart live ids
  pub kept :
      live ≡ live_of w t trigger (w.clock before.calls) (suc before.calls) before.no_report ids
  pub timed : done ≡ w.clock (suc before.calls + length ids)
  pub ran : after.runs ≡ before.runs ++ runs_of w t trigger (w.clock before.calls) live
  pub reported :
      told after
      ≡ told before
        ++ (map (start_report t trigger (w.clock before.calls)) ids
            ++ finals_of w t trigger (w.clock before.calls) done live)

by_stop :
    (s u : Bool) (ids : List Bytes)
    → (if s || (u && not true) then [] else ids) ≡ (if s then [] else ids)
by_stop s u ids = ground arith

reported_ids-requested :
    (trigger : Trigger) (f : Finished) (id : Bytes) (live : List Bytes)
    → requested trigger ≡ true
    → reported_ids trigger f (id ∷ live) ≡ (if f.stopped then [] else id ∷ live)
unfolding reported_ids
reported_ids-requested trigger f id live e =
    rw e (by_stop f.stopped (is_unavailable f.error) (id ∷ live))

map_if :
    {A B : Type 0} (f : A → B) (b : Bool) (xs : List A)
    → map f (if b then [] else xs) ≡ (if b then [] else map f xs)
map_if f true xs = refl
map_if f false xs = refl

run_and_report-told :
    (w : World) (run : ScanRun) (at : ℕ) (id : Bytes) (live : List Bytes) (book : Book)
    → requested run.trigger ≡ true
    → told (run_and_report w run at (id ∷ live) book)
      ≡ told book
        ++ (if (w.scan run).stopped
            then []
            else map (final_report run at (w.clock book.calls) (w.scan run)) (id ∷ live))
unfolding run_and_report
run_and_report-told w run at id live book e =
    let final = final_report run at (w.clock book.calls) (w.scan run) in
    finish-told w final (reported_ids run.trigger (w.scan run) (id ∷ live)) (ran run book)
    ∙ ap (λ ids. told book ++ map final ids)
        (reported_ids-requested run.trigger (w.scan run) id live e)
    ∙ ap (λ xs. told book ++ xs) (map_if final (w.scan run).stopped (id ∷ live))

run_and_report-runs :
    (w : World) (run : ScanRun) (at : ℕ) (ids : List Bytes) (book : Book)
    → (run_and_report w run at ids book).runs ≡ book.runs ++ (run ∷ [])
unfolding run_and_report
run_and_report-runs w run at ids book =
    finish-runs w (final_report run at (w.clock book.calls) (w.scan run))
      (reported_ids run.trigger (w.scan run) ids) (ran run book)

-- the end of `exec_requested`
after_announce :
    (w : World) (t : ScanType) (trigger : Trigger) (at : ℕ) (live : List Bytes) (book : Book) → Book
after_announce w t trigger at live book = elim live [
  | [] ↦ book
  | id ∷ rest ↦ run_and_report w (run_of w t trigger at id) at (id ∷ rest) book
]

after_announce-told :
    (w : World) (t : ScanType) (trigger : Trigger) (at : ℕ) (live : List Bytes) (book : Book)
    → requested trigger ≡ true
    → told (after_announce w t trigger at live book)
      ≡ told book ++ finals_of w t trigger at (w.clock book.calls) live
unfolding after_announce
after_announce-told w t trigger at [] book e = sym (append-nil (told book))
after_announce-told w t trigger at (id ∷ live) book e =
    run_and_report-told w (run_of w t trigger at id) at id live book e

after_announce-runs :
    (w : World) (t : ScanType) (trigger : Trigger) (at : ℕ) (live : List Bytes) (book : Book)
    → (after_announce w t trigger at live book).runs ≡ book.runs ++ runs_of w t trigger at live
unfolding after_announce
after_announce-runs w t trigger at [] book = sym (append-nil book.runs)
after_announce-runs w t trigger at (id ∷ live) book =
    run_and_report-runs w (run_of w t trigger at id) at (id ∷ live) book

exec_requested-IsServed :
    (w : World) (t : ScanType) (trigger : Trigger) (ids : List Bytes) (book : Book)
    → requested trigger ≡ true
    → IsServed w t trigger ids book (exec_requested w t trigger ids book)
unfolding exec_requested after_announce
exec_requested-IsServed w t trigger ids book e =
    let at = w.clock book.calls in
    let begun = record book { calls = suc book.calls } in
    let heard = announce w t trigger at ids begun in
    record {
      live = heard.1;
      done = w.clock heard.0.calls;
      part = announce-IsPart w t trigger at ids begun;
      kept = (announce-live w t trigger at ids begun).0;
      timed = ap w.clock (announce-live w t trigger at ids begun).1;
      ran =
          after_announce-runs w t trigger at heard.1 heard.0
          ∙ ap (λ rs. rs ++ runs_of w t trigger at heard.1)
              (announce-runs w t trigger at ids begun);
      reported =
          after_announce-told w t trigger at heard.1 heard.0 e
          ∙ ap (λ rs. rs ++ finals_of w t trigger at (w.clock heard.0.calls) heard.1)
              (announce-told w t trigger at ids begun)
          ∙ append_assoc (told book) (map (start_report t trigger at) ids)
              (finals_of w t trigger at (w.clock heard.0.calls) heard.1);
    }

-- The execution of a batch of requests (console or policy): a request is left out exactly when its
-- start report was handed to the client and the answer to it was a refusal, which is neither an
-- acceptance nor the word that the scan already runs; the others keep their order. The scan runs
-- once if any request is left, under the first of their ids, and otherwise not at all. The reports
-- made are one start report for each request, in order, then one final report for each request
-- that is left, in order, timed when the scan has ended, unless the agent is shutting down.
pub exec_scan-IsServed :
    (w : World) (t : ScanType) (trigger : Trigger) (ids : List Bytes) (book : Book)
    → requested trigger ≡ true
    → IsServed w t trigger ids book (exec_scan w t trigger ids book)
unfolding exec_scan
exec_scan-IsServed w t trigger ids book e =
    subst
      (λ b.
        IsServed w t trigger ids book
          (if b then exec_requested w t trigger ids book else exec_scheduled w t trigger ids book))
      (sym e) (exec_requested-IsServed w t trigger ids book e)
