-- ===== src/Update/Updater/Steps.antt =====
-- `Consider`, `Prune` and the resolution of an update in flight, and the sanity of the update state.
use siembox_endpoint.Prelude.{
  Bool, true, false, not, ◌||◌, Option, none, some, Bytes, if◌then◌else◌, str_eq, ◌≡◌, refl, inl,
  inr, arith, Bool-cases,
}
use siembox_endpoint.Update.Version.{valid_request_id}
use siembox_endpoint.Update.Updater.{
  Updater, Identity, UpdateReport, PendingUpdate, AgentUpdateRequest, mutate, is_finished,
  clear_report, prune_report, prune, begin, refused, record_attempt, drop_report, consider, is_some,
}
use siembox_endpoint.Update.Updater.Lifecycle.{
  IsReport, IsMarker, IsCoherent, IsSane, mutate-IsStored, safe_version-IsStorable, IsJob-keep,
}

last_false : (a b c d : Bool) → (a || b || c || d) ≡ false → d ≡ false
last_false a b c d h = ground arith

none_of : (o : Option PendingUpdate) → is_some o ≡ false → o ≡ none
none_of none e = refl
none_of (some p) e = cc

pub IsMarker-none : (o : Option PendingUpdate) (r : Option UpdateReport) → o ≡ none → IsMarker o r
IsMarker-none none r e = tt
IsMarker-none (some p) r e = cc

begin-IsSane :
    (saved : Bool) (req : AgentUpdateRequest) (s : Updater)
    → s.memory.pending_update ≡ none
    → IsSane s
    → IsSane (begin saved req s)
unfolding begin mutate
begin-IsSane saved req s e (m, d, j) =
    let v = safe_version-IsStorable req.version in
    let marker =
      IsMarker-none s.memory.pending_update (record_attempt req s.memory).update_report e in
    let t =
      mutate-IsStored saved (record_attempt req) req.request_id s
        ((refl, v, omega arith, inr refl), marker) d refl in
    (t.0, t.1, (refl, v, e))

considered :
    (saved : Bool) (req : AgentUpdateRequest) (s : Updater) (b : Bool)
    → IsSane s
    → (b ≡ false → IsSane (begin saved req s))
    → IsSane (let r : Updater × Bool = if b then (s, false) else (begin saved req s, true) in r.0)
considered saved req s true h k = h
considered saved req s false h k = k refl

pub consider-IsSane :
    (saved : Bool) (req : Option AgentUpdateRequest) (s : Updater)
    → IsSane s
    → IsSane (consider saved req s).0
unfolding consider refused
consider-IsSane saved none s h = h
consider-IsSane saved (some req) s h = considered saved req s (refused req s) h λ e.
    begin-IsSane saved req s
      (none_of s.memory.pending_update (
        last_false (not (valid_request_id req.request_id)) (is_some s.job)
          (str_eq s.memory.last_update_request_id req.request_id) (is_some s.memory.pending_update)
          e))
      h

-- A finished report may be dropped while no marker is set.
drop_report-IsCoherent :
    (id : Bytes) (s : Identity)
    → s.pending_update ≡ none
    → IsCoherent s
    → IsCoherent (drop_report id s)
unfolding drop_report clear_report
drop_report-IsCoherent id s e h = (
  dropped s.update_report (h.0),
  IsMarker-none s.pending_update (drop_report id s).update_report e,
)
  where
    dropped :
        (r : Option UpdateReport)
        → IsReport s.last_update_request_id r
        → IsReport s.last_update_request_id (clear_report id r)
    dropped none a = tt
    dropped (some r) a = elim (Bool-cases (str_eq r.request_id id)) [
      | inl t ↦ rw t tt
      | inr t ↦ rw t a
    ]

no_marker_of_finished :
    (o : Option PendingUpdate) (r : UpdateReport)
    → IsMarker o (some r)
    → is_finished r.state ≡ true
    → o ≡ none
unfolding is_finished
no_marker_of_finished none r k f = refl
no_marker_of_finished (some p) r k f = ground arith

finished_of : (a b : Bool) → (a || not b) ≡ false → b ≡ true
finished_of a b h = ground arith

pub prune-IsSane :
    (saved : Bool) (active : Bytes) (s : Updater) → IsSane s → IsSane (prune saved active s)
unfolding prune mutate
prune-IsSane saved active s h = by_report s.memory.update_report (h.0.1)
  where
    by_test : (b : Bool) (t : Updater) → (b ≡ false → IsSane t) → IsSane (if b then s else t)
    by_test true t k = h
    by_test false t k = k refl

    pruned :
        (r : UpdateReport)
        → s.memory.pending_update ≡ none
        → IsSane (mutate saved (drop_report r.request_id) s)
    pruned r e =
        let t =
          mutate-IsStored saved (drop_report r.request_id) s.memory.last_update_request_id s
            (drop_report-IsCoherent r.request_id s.memory e (h.0)) (h.1)
            (unfold drop_report in refl) in
        (
          t.0,
          t.1,
          IsJob-keep s.job s.memory (drop_report r.request_id s.memory) (unfold drop_report in refl)
              (unfold drop_report in e) (h.2),
        )

    by_report :
        (o : Option UpdateReport)
        → IsMarker s.memory.pending_update o
        → IsSane (prune_report saved active o s)
    by_report none k = unfold prune_report in h
    by_report (some r) k = by_test (str_eq r.request_id active || not (is_finished r.state)) _ λ b.
        pruned r (
          no_marker_of_finished s.memory.pending_update r k
            (finished_of (str_eq r.request_id active) (is_finished r.state) b))
