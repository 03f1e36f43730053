-- ===== src/Update/Updater/Requests.antt =====
-- Which requests start an attempt, and what a restart makes of an update in flight.
use siembox_endpoint.Prelude.{
  Bool, true, false, Option, none, some, Bytes, str_eq, str_eq_sound, str_eq_iff, ◌≡◌, ◌≢◌, ◌↔◌,
  inl, inr, refl, sym, subst, arith, Bool-cases,
}
use siembox_endpoint.Update.Version.{valid_request_id}
use siembox_endpoint.Update.Report.{Utf8}
use siembox_endpoint.Update.Updater.{
  succeeded, Updater, UpdateReport, PendingUpdate, AgentUpdateRequest, mutate, is_finished, finish,
  startup, resolve, resolve_report, consider, refused, is_some,
}

-- The conditions for an attempt: a well-formed id other than the last one seen, no attempt in
-- flight, no installer whose outcome is open.
abbrev pub MayStart : AgentUpdateRequest → Updater → Type 0
MayStart req s =
    (valid_request_id req.request_id ≡ true)
    × (s.job ≡ none)
    × (s.memory.last_update_request_id ≢ req.request_id)
    × (s.memory.pending_update ≡ none)

is_some_iff : {A : Type 0} (o : Option A) → (is_some o ≡ false) ↔ (o ≡ none)
is_some_iff none = ((λ _. refl), (λ _. refl))
is_some_iff (some a) = ((λ h. cc), (λ h. cc))

refused_iff : (req : AgentUpdateRequest) (s : Updater) → (refused req s ≡ false) ↔ MayStart req s
unfolding refused
refused_iff req s = ground (
  arith,
  is_some_iff s.job,
  is_some_iff s.memory.pending_update,
  str_eq_iff s.memory.last_update_request_id req.request_id,
)

-- `Consider` starts an attempt exactly under these conditions, and otherwise changes nothing. Only
-- the last id is remembered: an id seen before the last one passes again.
pub consider_iff :
    (saved : Bool) (req : AgentUpdateRequest) (s : Updater)
    → (((consider saved (some req) s).1 ≡ true) ↔ MayStart req s)
      × ((consider saved (some req) s).1 ≡ false → (consider saved (some req) s).0 ≡ s)
unfolding consider
consider_iff saved req s = elim (Bool-cases (refused req s)) [
  | inl e ↦
      rw (e, consider) (((λ h. cc), (λ h. absurd (refusal ((refused_iff req s).1 h) e))), λ _. refl)
  | inr e ↦ rw (e, consider) (((λ h. (refused_iff req s).0 e), (λ h. refl)), λ h. cc)
]
  where
    refusal : {b : Bool} → b ≡ false → b ≡ true → ⊥
    refusal p q = cc

abbrev pub IsSettled : Option UpdateReport → Type 0
IsSettled none = Unit
IsSettled (some r) = is_finished r.state ≡ true

-- What a marker found at the start turns into.
abbrev pub Resolves : Bytes → Option PendingUpdate → Option UpdateReport → Type 0
Resolves current none r = Unit
Resolves current (some p) none = ⊥
Resolves current (some p) (some r) =
    (r.request_id ≡ p.request_id)
    × (r.version ≡ p.version)
    × ((r.state ≡ succeeded) ↔ (current ≡ p.version))

module _ (u : Utf8) (saved : Bool) (current still after : Bytes) (s : Updater) where
  IsSettled-report :
      (o : Option PendingUpdate)
      → (o ≡ none → s.memory.pending_update ≡ none)
      → (r : Option UpdateReport) → s.memory.update_report ≡ r
      → let t = resolve u saved current still after o r s in
        (t.memory.pending_update ≡ none)
        × IsSettled t.memory.update_report
        × Resolves current o t.memory.update_report
  unfolding resolve resolve_report finish mutate is_finished
  IsSettled-report none h none e = (h refl, subst IsSettled (sym e) tt, tt)
  IsSettled-report none h (some r) e = elim (Bool-cases (is_finished r.state)) [
    | inl q ↦ rw q (h refl, subst IsSettled (sym e) q, tt)
    | inr q ↦ rw q (refl, refl, tt)
  ]
  IsSettled-report (some p) h r e = elim (Bool-cases (str_eq current p.version)) [
    | inl q ↦
        rw q (refl, refl, (refl, refl, ((λ _. str_eq_sound current p.version q), (λ _. refl))))
    | inr q ↦ rw q (refl, refl, (refl, refl, ((λ x. cc), (λ x. absurd (other x q)))))
  ]
    where
      other : current ≡ p.version → str_eq current p.version ≡ false → ⊥
      other x q = cc ((str_eq_iff current p.version).1 x, q)

  -- After the start of a new process no update is in flight: no marker stands, and a report there
  -- is says succeeded or failed. An update that left its marker is reported by its own id and
  -- version, as a success exactly if the running version is its target.
  pub startup_lem :
      let t = startup u saved current still after s in
      (t.memory.pending_update ≡ none)
      × IsSettled t.memory.update_report
      × Resolves current s.memory.pending_update t.memory.update_report
  unfolding startup
  startup_lem = IsSettled-report s.memory.pending_update (λ e. e) s.memory.update_report refl
