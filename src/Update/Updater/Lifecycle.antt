-- ===== src/Update/Updater/Lifecycle.antt =====
-- What holds of the update state at every moment, whatever the order of the calls, however many
-- writes fail and whenever the agent restarts. One call is one step; an attempt is one step too.
use siembox_endpoint.Prelude.{
  ℕ, ◌≤◌, Bool, true, false, Option, none, some, [], Bytes, length, if◌then◌else◌, ◌≡◌, refl, sym,
  ◌∙◌, ◌⊎◌, inl, inr, subst, Bool-cases,
}
use siembox_endpoint.Update.Version.{valid_version}
use siembox_endpoint.Update.Report.{Utf8, truncate, max_error_len}
use siembox_endpoint.Update.Report.Bounds.{length-truncate}
use siembox_endpoint.Update.Updater.{
  Status, downloading, installing, succeeded, failed, Updater, Identity, UpdateReport,
  PendingUpdate, Job, mutate, message, finish, resolve_report, resolve, startup, reload,
  check_pending_of, check_pending, safe_version,
}

-- A version that may be stored and reported: a release version, or nothing.
abbrev pub IsStorable : Bytes → Type 0
IsStorable ver = (ver ≡ []) ⊎ (valid_version ver ≡ true)

-- A stored report: it is about the last request, its version is no server-supplied garbage, its
-- error fits the limit, and only a failure has one.
abbrev pub IsReport : Bytes → Option UpdateReport → Type 0
IsReport last none = Unit
IsReport last (some r) =
    (r.request_id ≡ last)
    × IsStorable r.version
    × (length r.error ≤ max_error_len)
    × ((r.state ≡ failed) ⊎ (r.error ≡ []))

-- A stored marker: the report says that this very update is being installed.
abbrev pub IsMarker : Option PendingUpdate → Option UpdateReport → Type 0
IsMarker none r = Unit
IsMarker (some p) r =
    r
    ≡ some
        (record { request_id = p.request_id; version = p.version; state = installing; error = [] })

abbrev pub IsCoherent : Identity → Type 0
IsCoherent id =
    IsReport id.last_update_request_id id.update_report
    × IsMarker id.pending_update id.update_report

-- The attempt in flight is the one of the last request, and has no marker yet.
abbrev pub IsJob : Identity → Option Job → Type 0
IsJob id none = Unit
IsJob id (some j) =
    (j.request_id ≡ id.last_update_request_id) × IsStorable j.version × (id.pending_update ≡ none)

abbrev pub IsSane : Updater → Type 0
IsSane s = IsCoherent s.memory × IsCoherent s.disk × IsJob s.memory s.job

-- Both copies are coherent, and the last request is `last`.
abbrev pub IsStored : Bytes → Updater → Type 0
IsStored last s = IsCoherent s.memory × IsCoherent s.disk × (s.memory.last_update_request_id ≡ last)

pub mutate-IsStored :
    (saved : Bool) (f : Identity → Identity) (last : Bytes) (s : Updater)
    → IsCoherent (f s.memory)
    → IsCoherent s.disk
    → (f s.memory).last_update_request_id ≡ last
    → IsStored last (mutate saved f s)
unfolding mutate
mutate-IsStored true f last s m d e = (m, m, e)
mutate-IsStored false f last s m d e = (m, d, e)

pub safe_version-IsStorable : (ver : Bytes) → IsStorable (safe_version ver)
unfolding safe_version
safe_version-IsStorable ver = elim (Bool-cases (valid_version ver)) [
  | inl e ↦ rw e (inr e)
  | inr e ↦ rw e (inl refl)
]

-- An attempt in flight stays the one of the last request while no marker is set.
pub IsJob-keep :
    (o : Option Job) (id id' : Identity)
    → id'.last_update_request_id ≡ id.last_update_request_id
    → id'.pending_update ≡ none
    → IsJob id o
    → IsJob id' o
IsJob-keep none id id' e p h = tt
IsJob-keep (some j) id id' e p (k, v, _) = (k ∙ sym e, v, p)

module _ (u : Utf8) where
  no_message :
      (st : Status) (msg : Bytes) → (st ≡ failed) ⊎ (truncate u (message st msg) max_error_len ≡ [])
  unfolding truncate message
  no_message downloading msg = inr refl
  no_message installing msg = inr refl
  no_message succeeded msg = inr refl
  no_message failed msg = inl refl

  -- `finish` for the last request.
  pub finish-IsStored :
      (saved : Bool) (id ver : Bytes) (st : Status) (msg : Bytes) (last : Bytes) (s : Updater)
      → id ≡ last
      → IsStorable ver
      → IsStored last s
      → IsStored last (finish u saved id ver st msg s)
  unfolding finish
  finish-IsStored saved id ver st msg last s e v (m, d, l) =
      mutate-IsStored saved _ last s
        ((e ∙ sym l, v, length-truncate u (message st msg) max_error_len, no_message st msg), tt) d
        l

  finish-IsSane :
      (saved : Bool) (id ver : Bytes) (st : Status) (msg : Bytes) (s : Updater)
      → id ≡ s.memory.last_update_request_id
      → IsStorable ver
      → IsSane s
      → IsSane (finish u saved id ver st msg s)
  unfolding finish mutate
  finish-IsSane saved id ver st msg s e v (m, d, j) =
      let t =
        finish-IsStored saved id ver st msg s.memory.last_update_request_id s e v (m, d, refl) in
      (t.0, t.1, IsJob-keep s.job s.memory (finish u saved id ver st msg s).memory refl refl j)

  -- A marker is about the last request, and its version may be stored.
  marker_facts :
      (last : Bytes) (p : PendingUpdate) (r : Option UpdateReport)
      → IsReport last r
      → IsMarker (some p) r
      → (p.request_id ≡ last) × IsStorable p.version
  marker_facts last p r h e = let k = subst (IsReport last) e h in (k.0, k.1)

  pub check_pending-IsSane :
      (saved : Bool) (now : ℕ) (msg : Bytes) (s : Updater)
      → IsSane s
      → IsSane (check_pending u saved now msg s)
  unfolding check_pending
  check_pending-IsSane saved now msg s h = by_marker s.memory.pending_update (h.0.1)
    where
      by_test : (b : Bool) (t : Updater) → IsSane t → IsSane (if b then s else t)
      by_test true t k = h
      by_test false t k = k

      by_marker :
          (o : Option PendingUpdate)
          → IsMarker o s.memory.update_report
          → IsSane (check_pending_of u saved now msg o s)
      by_marker none k = h
      by_marker (some p) k =
          let f = marker_facts s.memory.last_update_request_id p s.memory.update_report (h.0.0) k in
          by_test _ _ (finish-IsSane saved p.request_id p.version failed msg s (f.0) (f.1) h)

  pub resolve-IsSane :
      (saved : Bool) (current still after : Bytes) (s : Updater)
      → IsSane s
      → IsSane (startup u saved current still after s)
  unfolding startup resolve resolve_report
  resolve-IsSane saved current still after s h =
      by_marker s.memory.pending_update s.memory.update_report (h.0.0) (h.0.1)
    where
      by_test : (b : Bool) (t t' : Updater) → IsSane t → IsSane t' → IsSane (if b then t else t')
      by_test true t t' k k' = k
      by_test false t t' k k' = k'

      by_marker :
          (o : Option PendingUpdate) (r : Option UpdateReport)
          → IsReport s.memory.last_update_request_id r
          → IsMarker o r
          → IsSane (resolve u saved current still after o r s)
      by_marker none none a k = h
      by_marker none (some r) a k =
          by_test _ _ _ h (finish-IsSane saved r.request_id r.version failed after s (a.0) (a.1) h)
      by_marker (some p) r a k =
          let f = marker_facts s.memory.last_update_request_id p r a k in
          by_test _ _ _ (finish-IsSane saved p.request_id p.version succeeded [] s (f.0) (f.1) h)
            (finish-IsSane saved p.request_id p.version failed still s (f.0) (f.1) h)

pub reload-IsSane : (s : Updater) → IsSane s → IsSane (reload s)
unfolding reload
reload-IsSane s (m, d, j) = (d, d, tt)
