-- ===== src/Agent/Events.antt =====
-- internal/agent/agent.go: the batches of detection events (`batchEvents`, `spoolJSON`). What the
-- server and the spool answer to a batch is part of the step that sends it.
use siembox_endpoint.Prelude.{
  ℕ, ◌+◌, ◌≤◌, ◌<◌, Bool, true, false, List, [], ◌∷◌, ◌++◌, leb, if◌then◌else◌, length,
  length-append, append_assoc, append-nil, All, All-append, ◌≡◌, refl, sym, ◌∙◌, ap, arith, if_elim,
  ◌⊎◌, inl, inr, subst, Bool-cases,
}

abbrev pub event_batch_max : ℕ
event_batch_max = 100

-- Whether the server took a batch, whether it could be marshalled, and whether the spool took it.
pub record Answer : Type 0 where
  pub accepted : Bool
  pub marshalled : Bool
  pub spooled : Bool

-- Where a batch went.
pub data Fate : Type 0 where
  sent spooled lost : Fate

unfoldable pub spool_json : Answer → Fate
spool_json a = if a.marshalled then if a.spooled then spooled else lost else lost

-- The buffer, and the batches so far, each with the answer that it met and its fate.
pub record Batches (E : Type 0) : Type 0 where
  pub buffer : List E
  pub done : List (Answer × Fate × List E)

-- The cases of the `select`.
pub data Step (E : Type 0) : Type 0 where
  stop : Answer → Step E
  event : E → Answer → Step E
  tick : Answer → Step E

unfoldable pub fate : Answer → Fate
fate a = if a.accepted then sent else spool_json a

-- A batch is sent exactly when the server took it; one that was not is spooled when it could be
-- marshalled and written, and lost only when one of these failed too.
abbrev pub IsFate : Answer → Fate → Type 0
IsFate a sent = a.accepted ≡ true
IsFate a spooled = (a.accepted ≡ false) × (a.marshalled ≡ true) × (a.spooled ≡ true)
IsFate a lost = (a.accepted ≡ false) × ((a.marshalled ≡ false) ⊎ (a.spooled ≡ false))

fate-IsFate : (a : Answer) → IsFate a (fate a)
unfolding fate spool_json
fate-IsFate a = elim (Bool-cases a.accepted) [
  | inl e ↦ rw (e, fate) refl
  | inr e ↦ elim (Bool-cases a.marshalled) [
    | inl m ↦ elim (Bool-cases a.spooled) [
      | inl k ↦ rw (e, m, k, fate, spool_json) (refl, refl, refl)
      | inr k ↦ rw (e, m, k, fate, spool_json) (refl, inr refl)
    ]
    | inr m ↦ rw (e, m, fate, spool_json) (refl, inl refl)
  ]
]

module _ {E : Type 0} where
  -- the closure `flush`
  unfoldable pub flush : Answer → Batches E → Batches E
  flush a b = elim b.buffer [
    | [] ↦ b
    | e ∷ es ↦ record { buffer = []; done = b.done ++ ((a, fate a, e ∷ es) ∷ []) }
  ]

  unfoldable pub add_event : E → Answer → Batches E → Batches E
  add_event e a b =
      let added : Batches E = record { buffer = b.buffer ++ (e ∷ []); done = b.done } in
      if leb event_batch_max (length added.buffer) then flush a added else added

  unfoldable pub batch_events : List (Step E) → Batches E → Batches E
  batch_events [] b = b
  batch_events (stop a ∷ steps) b = flush a b
  batch_events (event e a ∷ steps) b = batch_events steps (add_event e a b)
  batch_events (tick a ∷ steps) b = batch_events steps (flush a b)

  -- The events of the batches, in order.
  abbrev pub events_of : List (Answer × Fate × List E) → List E
  events_of [] = []
  events_of ((a, f, es) ∷ done) = es ++ events_of done

  -- The events that come before the stop, and whether there is one.
  abbrev pub received : List (Step E) → List E
  received [] = []
  received (stop a ∷ steps) = []
  received (event e a ∷ steps) = e ∷ received steps
  received (tick a ∷ steps) = received steps

  abbrev pub is_stopped : List (Step E) → Bool
  is_stopped [] = false
  is_stopped (stop a ∷ steps) = true
  is_stopped (event e a ∷ steps) = is_stopped steps
  is_stopped (tick a ∷ steps) = is_stopped steps

  -- A batch is not empty and within the limit, and its fate is what the answer brought.
  abbrev pub IsBatch : Answer × Fate × List E → Type 0
  IsBatch (a, f, es) = (1 ≤ length es) × (length es ≤ event_batch_max) × IsFate a f

  abbrev pub IsValid : Batches E → Type 0
  IsValid b = All IsBatch b.done × (length b.buffer < event_batch_max)

  abbrev pub content : Batches E → List E
  content b = events_of b.done ++ b.buffer

  events_of-append :
      (xs ys : List (Answer × Fate × List E)) → events_of (xs ++ ys) ≡ events_of xs ++ events_of ys
  events_of-append [] ys = refl
  events_of-append ((a, f, es) ∷ xs) ys =
      ap (λ t. es ++ t) (events_of-append xs ys)
      ∙ sym (append_assoc es (events_of xs) (events_of ys))

  -- A flush moves the buffer to the batches.
  flushed :
      (a : Answer) (b : Batches E)
      → All IsBatch b.done
      → length b.buffer ≤ event_batch_max
      → (content (flush a b) ≡ content b) × All IsBatch (flush a b).done × ((flush a b).buffer ≡ [])
  unfolding flush
  flushed a b h l = cases b.buffer b.done h l
    where
      cases :
          (buffer : List E) (done : List (Answer × Fate × List E))
          → All IsBatch done
          → length buffer ≤ event_batch_max
          → (content (flush a (record { buffer = buffer; done = done })) ≡ events_of done ++ buffer)
            × All IsBatch (flush a (record { buffer = buffer; done = done })).done
            × ((flush a (record { buffer = buffer; done = done })).buffer ≡ [])
      cases [] done h l = (refl, h, refl)
      cases (e ∷ es) done h l = (
        append-nil (events_of (done ++ ((a, fate a, e ∷ es) ∷ [])))
            ∙ events_of-append done ((a, fate a, e ∷ es) ∷ [])
            ∙ ap (λ t. events_of done ++ t) (append-nil (e ∷ es)),
        All-append IsBatch done ((a, fate a, e ∷ es) ∷ []) h ((omega arith, l, fate-IsFate a), tt),
        refl,
      )

  flush-IsValid :
      (a : Answer) (b : Batches E)
      → All IsBatch b.done
      → length b.buffer ≤ event_batch_max
      → IsValid (flush a b)
  flush-IsValid a b h l =
      let (c, d, e) = flushed a b h l in
      (d, subst (λ t. length t < event_batch_max) (sym e) (omega arith))

  added :
      (e : E) (a : Answer) (b : Batches E)
      → IsValid b
      → (content (add_event e a b) ≡ content b ++ (e ∷ [])) × IsValid (add_event e a b)
  unfolding add_event
  added e a b (h, l) =
      let next : Batches E = record { buffer = b.buffer ++ (e ∷ []); done = b.done } in
      let n : length next.buffer ≡ length b.buffer + 1 = length-append b.buffer (e ∷ []) in
      let same : content next ≡ content b ++ (e ∷ []) =
        sym (append_assoc (events_of b.done) b.buffer (e ∷ [])) in
      let full : length next.buffer ≤ event_batch_max = omega arith in
      if_elim (λ r. (content r ≡ content b ++ (e ∷ [])) × IsValid r)
        (leb event_batch_max (length next.buffer)) (flush a next) next
        (λ _. ((flushed a next h full).0 ∙ same, flush-IsValid a next h full))
        (λ small. (same, (h, ground arith)))

  abbrev pub IsDelivered : List (Step E) → Batches E → Batches E → Type 0
  IsDelivered steps b after =
      (content after ≡ content b ++ received steps)
      × IsValid after
      × ((is_stopped steps ≡ false) ⊎ (after.buffer ≡ []))

  batch_events-step :
      (steps : List (Step E)) (b : Batches E)
      → IsValid b
      → IsDelivered steps b (batch_events steps b)
  unfolding batch_events
  batch_events-step [] b v = (sym (append-nil (content b)), v, inl refl)
  batch_events-step (stop a ∷ steps) b (h, l) =
      let (c, d, e) = flushed a b h (omega arith) in
      (c ∙ sym (append-nil (content b)), flush-IsValid a b h (omega arith), inr e)
  batch_events-step (event e a ∷ steps) b v =
      let (c, d) = added e a b v in
      let (x, y, z) = batch_events-step steps (add_event e a b) d in
      (
        x ∙ ap (λ t. t ++ received steps) c ∙ append_assoc (content b) (e ∷ []) (received steps),
        y,
        z,
      )
  batch_events-step (tick a ∷ steps) b (h, l) =
      let (c, d, e) = flushed a b h (omega arith) in
      let (x, y, z) = batch_events-step steps (flush a b) (flush-IsValid a b h (omega arith)) in
      (x ∙ ap (λ t. t ++ received steps) c, y, z)

  -- Whatever the order of events, ticks and the stop, and whatever the server and the spool
  -- answer: the batches handed over, one after another, and then the buffer, are the events
  -- received, in order, none twice. A batch is sent exactly when the server took it; one that it
  -- did not take goes to the spool, and is lost only when it could not be marshalled or the spool
  -- did not take it either. Each batch has between 1 and 100 events, the buffer fewer than 100, and
  -- none after a stop.
  pub batch_events-IsDelivered :
      (steps : List (Step E))
      → IsDelivered steps
          (record { buffer = []; done = [] })
          (batch_events steps (record { buffer = []; done = [] }))
  batch_events-IsDelivered steps =
      batch_events-step steps (record { buffer = []; done = [] }) (tt, omega arith)
