-- ===== src/Agent/PackageReport/Sent.antt =====
-- What a package report sends and records.
use siembox_endpoint.Prelude.{
  ℕ, ◌+◌, Bool, true, false, not, ◌&&◌, ◌||◌, Option, none, some, List, [], ◌∷◌, ◌++◌, Bytes, ltb,
  leb, ◌==◌, if◌then◌else◌, str_eq, ◌≡◌, refl, ◌⊎◌, inl, inr, arith, str_eq_sound,
}
use siembox_endpoint.Agent.PackageReport.{
  PackageState, PackageReport, PackageAnswer, package_answer, status_error, unreachable,
  PackageError, unsupported_server, send_failed, Reported, wants_snapshot, after_report, is_full,
  report_of, send_report, collected, send_packages, package_unsupported_backoff,
  package_resend_every,
}

-- The last report sent carries the whole list.
abbrev pub Carries : {A : Type 0} → List A → List (PackageReport A) → Type 0
Carries {A} pkgs sent =
    (earlier : List (PackageReport A)) × (r : PackageReport A) × (sent ≡ earlier ++ (r ∷ []))
    × (r.packages ≡ pkgs)

-- The list need not be sent: it has the recorded hash, sent in full less than a day ago.
abbrev pub IsCurrent : ℕ → Bytes → PackageState → Type 0
IsCurrent now hash st = (hash ≡ st.hash) × (leb (st.sent_at + package_resend_every) now ≡ false)

-- What a report leaves in the state, by its error.
abbrev pub Left :
    {A : Type 0}
    → ℕ
    → Bytes
    → List A
    → PackageState
    → Option PackageError
    → PackageState
    → List (PackageReport A)
    → Type 0
Left now hash pkgs st (some e) s sent = (s.hash ≡ st.hash) × (s.sent_at ≡ st.sent_at)
Left now hash pkgs st none s sent =
    (s.hash ≡ hash)
    × ((Carries pkgs sent × (s.sent_at ≡ now)) ⊎ (IsCurrent now hash st × (s.sent_at ≡ st.sent_at)))

module _ {A : Type 0} where
  after_code :
      (now : ℕ) (hash : Bytes) (pkgs : List A) (code : ℕ) (st : PackageState) (b : Bool)
      (sent : List (PackageReport A))
      → let r : PackageState × Option PackageError =
          if b
          then (
            record st { unsupported = now + package_unsupported_backoff },
            some unsupported_server,
          )
          else (st, some send_failed) in
        Left now hash pkgs st r.1 r.0 sent
  after_code now hash pkgs code st true sent = (refl, refl)
  after_code now hash pkgs code st false sent = (refl, refl)

  after_report-Left :
      (now : ℕ) (hash : Bytes) (pkgs : List A) (full : Bool) (a : PackageAnswer) (st : PackageState)
      (sent : List (PackageReport A))
      → (full ≡ true → Carries pkgs sent)
      → (full ≡ false → IsCurrent now hash st)
      → Left now hash pkgs st
          (after_report now hash full a st).1
          (after_report now hash full a st).0
          sent
  unfolding after_report
  after_report-Left now hash pkgs full (package_answer false required) st sent f g = (refl, refl)
  after_report-Left now hash pkgs true (package_answer true required) st sent f g =
      (refl, inl (f refl, refl))
  after_report-Left now hash pkgs false (package_answer true required) st sent f g =
      (refl, inr (g refl, refl))
  after_report-Left now hash pkgs full (status_error code) st sent f g =
      after_code now hash pkgs code st (code == 404) sent
  after_report-Left now hash pkgs full unreachable st sent f g = (refl, refl)

module _ {A : Type 0} (hash_of : List A → Bytes)
    (server : ℕ → PackageReport A → PackageAnswer) where
  abbrev pub IsRecorded : ℕ → List A → PackageState → Reported A → Type 0
  IsRecorded now pkgs st r = Left now (hash_of pkgs) pkgs st r.error r.state r.sent

  if-IsRecorded :
      (now : ℕ) (pkgs : List A) (st : PackageState) (b : Bool) (r q : Reported A)
      → IsRecorded now pkgs st r
      → IsRecorded now pkgs st q
      → IsRecorded now pkgs st (if b then r else q)
  if-IsRecorded now pkgs st true r q h k = h
  if-IsRecorded now pkgs st false r q h k = k

  none_of_three : (f e d : Bool) → (f || not e || d) ≡ false → (e ≡ true) × (d ≡ false)
  none_of_three f e d h = ground arith

  not_full :
      (now : ℕ) (force : Bool) (hash : Bytes) (st : PackageState)
      → is_full hash_of server now force hash st ≡ false
      → IsCurrent now hash st
  unfolding is_full
  not_full now force hash st e =
      let h =
        none_of_three force (str_eq hash st.hash) (leb (st.sent_at + package_resend_every) now) e in
      (str_eq_sound hash st.hash h.0, h.1)

  carried :
      (pkgs : List A) (force : Bool) (scan_id : Bytes) (full : Bool)
      → full ≡ true
      → Carries pkgs (report_of hash_of server pkgs force scan_id full ∷ [])
  carried pkgs force scan_id full e =
      ([], report_of hash_of server pkgs force scan_id full, refl, rw e refl)

  send_report-IsRecorded :
      (now : ℕ) (pkgs : List A) (force : Bool) (scan_id : Bytes) (full : Bool) (st : PackageState)
      → (full ≡ false → IsCurrent now (hash_of pkgs) st)
      → IsRecorded now pkgs st (send_report hash_of server now pkgs force scan_id full st)
  unfolding send_report
  send_report-IsRecorded now pkgs force scan_id full st g =
      let first = report_of hash_of server pkgs force scan_id full in
      let again = report_of hash_of server pkgs force scan_id true in
      if-IsRecorded now pkgs st (not full && wants_snapshot (server 0 first)) _ _
        (after_report-Left now (hash_of pkgs) pkgs true (server 1 again) st (first ∷ again ∷ [])
          (λ e. (first ∷ [], again, refl, refl)) (λ e. cc))
        (after_report-Left now (hash_of pkgs) pkgs full (server 0 first) st (first ∷ [])
          (carried pkgs force scan_id full) g)

  collected-IsRecorded :
      (now : ℕ) (pkgs : List A) (force : Bool) (scan_id : Bytes) (st : PackageState)
      → IsRecorded now pkgs st (collected hash_of server now pkgs force scan_id st)
  unfolding collected
  collected-IsRecorded now [] force scan_id st = (refl, refl)
  collected-IsRecorded now (p ∷ pkgs) force scan_id st =
      send_report-IsRecorded now (p ∷ pkgs) force scan_id _ st
        (not_full now force (hash_of (p ∷ pkgs)) st)

  -- After a package report without an error the recorded hash is that of the list collected, and
  -- either the last report sent carried the whole list, at the recorded time, or the list already
  -- had the recorded hash and was sent in full less than a day before. A report with an error
  -- changes neither the hash nor the time.
  pub send_packages-IsRecorded :
      (now : ℕ) (pkgs : List A) (force : Bool) (scan_id : Bytes) (st : PackageState)
      → IsRecorded now pkgs st (send_packages hash_of server now pkgs force scan_id st)
  unfolding send_packages
  send_packages-IsRecorded now pkgs force scan_id st =
      if-IsRecorded now pkgs st (ltb now st.unsupported && not force) _ _ (refl, refl)
        (collected-IsRecorded now pkgs force scan_id st)
