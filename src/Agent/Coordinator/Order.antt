-- ===== src/Agent/Coordinator/Order.antt =====
-- Calls of `runScan` for one scan type, in any interleaving, with a record of the ids that arrived
-- and of those executed to the end.
use siembox_endpoint.Prelude.{
  Bool, true, false, Option, none, some, List, [], ◌∷◌, ◌++◌, Bytes, append_assoc, append-nil, ◌≡◌,
  refl, sym, ◌∙◌, ap, inl, inr, Bool-cases, subst,
}
use siembox_endpoint.Agent.Coordinator.{ScanState, idle, enter, leave, next_batch}

-- A moment: the state behind the lock, the batch that a thread is executing, and two records of
-- the past: the ids of the calls in the order of arrival, and the ids executed to the end.
pub record Moment : Type 0 where
  pub state : ScanState
  pub batch : Option (List Bytes)
  pub arrived : List Bytes
  pub done : List Bytes

abbrev pub start : Moment
start = record { state = idle; batch = none; arrived = []; done = [] }

abbrev pub ids_of : Option (List Bytes) → List Bytes
ids_of none = []
ids_of (some ids) = ids

-- A call takes the lock: it becomes the executing thread, or leaves its ids in the queue.
abbrev pub after_call : List Bytes → Moment → Moment
after_call ids m = record {
  state = (enter ids m.state).0;
  batch = elim (enter ids m.state).1 [ none ↦ m.batch | some b ↦ some b ];
  arrived = m.arrived ++ ids;
  done = m.done;
}

-- The executing thread has finished its batch and takes the lock again.
abbrev pub after_batch : Bool → List Bytes → Moment → Moment
after_batch stopped ids m = record {
  state = (leave stopped m.state).0;
  batch = (leave stopped m.state).1;
  arrived = m.arrived;
  done = m.done ++ ids;
}

pub data Step : Moment → Moment → Type 0 where
  called : (ids : List Bytes) (m : Moment) → Step m (after_call ids m)
  finished : (ids : List Bytes) (m : Moment) → m.batch ≡ some ids → Step m (after_batch false ids m)

pub data Reach : Moment → Type 0 where
  here : Reach start
  next : {m n : Moment} → Reach m → Step m n → Reach n

-- The lock's flag says whether a batch is executing, and what has arrived is what is done, then
-- what is executing, then what is queued.
abbrev pub is_executing : Option (List Bytes) → Bool
is_executing none = false
is_executing (some ids) = true

pub record IsOrdered (m : Moment) : Type 0 where
  pub flag : m.state.running ≡ is_executing m.batch
  pub waiting : m.state.running ≡ false → m.state.queued ≡ []
  pub conserved : m.arrived ≡ m.done ++ (ids_of m.batch ++ m.state.queued)

queue_end : (d b q ids a : List Bytes) → a ≡ d ++ (b ++ q) → a ++ ids ≡ d ++ (b ++ (q ++ ids))
queue_end d b q ids a e = rw e (simp append_assoc)

enter_busy :
    (ids : List Bytes) (st : ScanState)
    → st.running ≡ true
    → enter ids st ≡ (record st { queued = st.queued ++ ids }, none)
unfolding enter
enter_busy ids st e = rw (e, enter)

enter_idle :
    (ids : List Bytes) (st : ScanState)
    → st.running ≡ false
    → enter ids st ≡ (record st { running = true }, some ids)
unfolding enter
enter_idle ids st e = rw (e, enter)

batch_none : (b : Option (List Bytes)) → is_executing b ≡ false → b ≡ none
batch_none none e = refl
batch_none (some ids) e = cc

start_end :
    (d b q ids a : List Bytes) → a ≡ d ++ (b ++ q) → b ≡ [] → q ≡ [] → a ++ ids ≡ d ++ (ids ++ q)
start_end d b q ids a e eb eq = rw (e, eb, eq, append-nil d, append-nil ids) refl

-- A call while a scan runs queues its ids behind the others; otherwise it starts the scan.
called-IsOrdered : (ids : List Bytes) (m : Moment) → IsOrdered m → IsOrdered (after_call ids m)
called-IsOrdered ids m h = elim (Bool-cases m.state.running) [
  | inl e ↦ rw (enter_busy ids m.state e) (record {
    flag = h.flag;
    waiting = λ f. cc;
    conserved = queue_end m.done (ids_of m.batch) m.state.queued ids m.arrived h.conserved;
  })
  | inr e ↦ rw (enter_idle ids m.state e) (record {
    flag = refl;
    waiting = λ f. cc;
    conserved =
        start_end m.done (ids_of m.batch) m.state.queued ids m.arrived h.conserved
          (ap ids_of (batch_none m.batch (sym h.flag ∙ e))) (h.waiting e);
  })
]

-- The state after a batch with its queue `q`, as an invariant over plain values.
left_flag :
    (q : List Bytes) (st : ScanState)
    → st.running ≡ true
    → (next_batch false q st).0.running ≡ is_executing (next_batch false q st).1
unfolding next_batch
left_flag [] st e = refl
left_flag (id ∷ ids) st e = e

left_waiting :
    (q : List Bytes) (st : ScanState)
    → st.queued ≡ q
    → (next_batch false q st).0.running ≡ false
    → (next_batch false q st).0.queued ≡ []
unfolding next_batch
left_waiting [] st e f = e
left_waiting (id ∷ ids) st e f = refl

left_queue :
    (q : List Bytes) (st : ScanState)
    → st.queued ≡ q
    → q ≡ ids_of (next_batch false q st).1 ++ (next_batch false q st).0.queued
unfolding next_batch
left_queue [] st e = sym e
left_queue (id ∷ ids) st e = sym (append-nil (id ∷ ids))

end_of_batch : (d b q a r : List Bytes) → a ≡ d ++ (b ++ q) → q ≡ r → a ≡ (d ++ b) ++ r
end_of_batch d b q a r e f = rw (e, f, append_assoc d b r) refl

finished-IsOrdered :
    (ids : List Bytes) (m : Moment)
    → m.batch ≡ some ids
    → IsOrdered m
    → IsOrdered (after_batch false ids m)
unfolding leave
finished-IsOrdered ids m e h = record {
  flag = left_flag m.state.queued m.state (h.flag ∙ ap is_executing e);
  waiting = left_waiting m.state.queued m.state refl;
  conserved =
      end_of_batch m.done ids m.state.queued m.arrived
        (ids_of (leave false m.state).1 ++ (leave false m.state).0.queued)
        (subst (λ b. m.arrived ≡ m.done ++ (ids_of b ++ m.state.queued)) e h.conserved)
        (left_queue m.state.queued m.state refl);
}

Step-IsOrdered : {m n : Moment} → Step m n → IsOrdered m → IsOrdered n
Step-IsOrdered (called ids m) h = called-IsOrdered ids m h
Step-IsOrdered (finished ids m e) h = finished-IsOrdered ids m e h

start-IsOrdered : IsOrdered start
start-IsOrdered = record { flag = refl; waiting = λ e. refl; conserved = refl }

-- However calls and the ends of batches interleave: the lock's flag says whether a batch is
-- executing, nothing is queued while none is, and the ids of all calls, in order of arrival, are
-- those executed to the end, then the batch being executed, then the queue.
pub Reach-IsOrdered : {m : Moment} → Reach m → IsOrdered m
Reach-IsOrdered here = start-IsOrdered
Reach-IsOrdered (next r s) = Step-IsOrdered s (Reach-IsOrdered r)
