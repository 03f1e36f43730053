-- ===== src/Agent/ScanRun/Reports.antt =====
-- The reports and runs that one execution adds to the book.
use siembox_endpoint.Prelude.{
  ℕ, ◌+◌, Bool, true, false, ◌&&◌, Option, none, List, [], ◌∷◌, ◌++◌, map, Bytes, ltb, ◌==◌,
  is_empty, append_assoc, append-nil, ◌≡◌, refl, sym, ◌∙◌, ap, if_agree,
}
use siembox_endpoint.Agent.Coordinator.{ScanType, Trigger}
use siembox_endpoint.Agent.ScanRun.{
  World, Book, ScanReport, ScanReportResponse, ReportAnswer, answered, status_error, unreachable,
  noted, after_answer, report_scan, start_report, announce, finish, scan_report_backoff,
}

-- the reports of a book, whether or not the client got them
abbrev pub told : Book → List ScanReport
told book = map (λ e. e.0) book.reports

map-append_one :
    (es : List (ScanReport × Bool)) (r : ScanReport) (b : Bool)
    → map (λ e. e.0) (es ++ ((r, b) ∷ [])) ≡ map (λ e. e.0) es ++ (r ∷ [])
map-append_one [] r b = refl
map-append_one (e ∷ es) r b = ap (λ rest. e.0 ∷ rest) (map-append_one es r b)

-- What an answer changes is the back-off alone.
after_answer-same :
    {Y : Type 0} (f : Book → Y) (now : ℕ) (r : ScanReport) (a : ReportAnswer) (book : Book)
    → ((n : ℕ) → f (record book { no_report = n }) ≡ f book)
    → f (after_answer now r a book).0 ≡ f book
unfolding after_answer
after_answer-same f now r (answered resp) book e = refl
after_answer-same f now r (status_error code) book e =
    if_agree {X = Book × Option ScanReportResponse} (λ x. f x.0)
      ((code == 404) && is_empty r.scan_id)
      (record book { no_report = now + scan_report_backoff }, none) (book, none) (f book)
      (e (now + scan_report_backoff)) refl
after_answer-same f now r unreachable book e = refl

pub report_scan-told :
    (w : World) (r : ScanReport) (book : Book)
    → told (report_scan w r book).0 ≡ told book ++ (r ∷ [])
unfolding report_scan
report_scan-told w r book =
    if_agree (λ x. told x.0) (ltb (w.clock book.calls) book.no_report) (noted r false book, none)
      (after_answer (w.clock book.calls) r (w.answer book.calls r) (noted r true book))
      (told book ++ (r ∷ [])) (map-append_one book.reports r false)
      (after_answer-same told (w.clock book.calls) r (w.answer book.calls r) (noted r true book)
          (λ n. refl)
        ∙ map-append_one book.reports r true)

pub report_scan-runs :
    (w : World) (r : ScanReport) (book : Book) → (report_scan w r book).0.runs ≡ book.runs
unfolding report_scan
report_scan-runs w r book =
    if_agree (λ x. x.0.runs) (ltb (w.clock book.calls) book.no_report) (noted r false book, none)
      (after_answer (w.clock book.calls) r (w.answer book.calls r) (noted r true book)) book.runs
      refl
      (after_answer-same (λ b. b.runs) (w.clock book.calls) r (w.answer book.calls r)
        (noted r true book) (λ n. refl))

pub announce-told :
    (w : World) (t : ScanType) (trigger : Trigger) (at : ℕ) (ids : List Bytes) (book : Book)
    → told (announce w t trigger at ids book).0 ≡ told book ++ map (start_report t trigger at) ids
unfolding announce
announce-told w t trigger at [] book = sym (append-nil (told book))
announce-told w t trigger at (id ∷ ids) book =
    let r = start_report t trigger at id in
    announce-told w t trigger at ids (report_scan w r book).0
    ∙ ap (λ x. x ++ map (start_report t trigger at) ids) (report_scan-told w r book)
    ∙ append_assoc (told book) (r ∷ []) (map (start_report t trigger at) ids)

pub announce-runs :
    (w : World) (t : ScanType) (trigger : Trigger) (at : ℕ) (ids : List Bytes) (book : Book)
    → (announce w t trigger at ids book).0.runs ≡ book.runs
unfolding announce
announce-runs w t trigger at [] book = refl
announce-runs w t trigger at (id ∷ ids) book =
    let r = start_report t trigger at id in
    announce-runs w t trigger at ids (report_scan w r book).0 ∙ report_scan-runs w r book

pub finish-told :
    (w : World) (final : Bytes → ScanReport) (ids : List Bytes) (book : Book)
    → told (finish w final ids book) ≡ told book ++ map final ids
unfolding finish
finish-told w final [] book = sym (append-nil (told book))
finish-told w final (id ∷ ids) book =
    finish-told w final ids (report_scan w (final id) book).0
    ∙ ap (λ x. x ++ map final ids) (report_scan-told w (final id) book)
    ∙ append_assoc (told book) (final id ∷ []) (map final ids)

pub finish-runs :
    (w : World) (final : Bytes → ScanReport) (ids : List Bytes) (book : Book)
    → (finish w final ids book).runs ≡ book.runs
unfolding finish
finish-runs w final [] book = refl
finish-runs w final (id ∷ ids) book =
    finish-runs w final ids (report_scan w (final id) book).0 ∙ report_scan-runs w (final id) book
