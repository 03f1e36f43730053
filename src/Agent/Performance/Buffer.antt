-- ===== src/Agent/Performance/Buffer.antt =====
-- The buffer: its bounds, and what is lost at them.
use siembox_endpoint.Prelude.{
  ℕ, zero, suc, ◌+◌, ◌-◌, ◌≤◌, Bool, true, false, ◌==◌, Option, none, some, List, [], ◌∷◌, ◌++◌,
  ltb, if◌then◌else◌, length, drop, length-drop, ◌≡◌, refl, sym, ◌∙◌, ap, arith, subst,
}
use siembox_endpoint.Agent.Performance.{
  PerfSettings, PerfState, MetricsBatch, PerfLoop, Turn, SendAnswer, sent, status, unreachable, add,
  add_sample, add_snapshot, batch_of, drop_sent, after_send, send_metrics, perf_tick, after_sample,
  perf_turn, load_samples, load_procs, load_pending, is_proc_due, is_send_due, perf_max_pending,
  perf_max_pending_procs, perf_unsupported_backoff, perf_max_pending_age,
}

suc_out : (n m : ℕ) → suc n + m ≡ suc (n + m)
suc_out n m = omega arith

drop_nil : {A : Type 0} (n : ℕ) → drop {A = A} n [] ≡ []
drop_nil zero = refl
drop_nil (suc n) = refl

module _ {A : Type 0} where
  -- `drop` past the bound, one item at a time and all at once
  pub drop-drop : (m n : ℕ) (xs : List A) → drop m (drop n xs) ≡ drop (n + m) xs
  drop-drop m zero xs = ap (λ k. drop k xs) (omega arith)
  drop-drop m (suc n) [] = drop_nil m ∙ sym (drop_nil (suc n + m))
  drop-drop m (suc n) (x ∷ xs) = drop-drop m n xs ∙ sym (ap (λ k. drop k (x ∷ xs)) (suc_out n m))

  pub drop-append_short :
      (n : ℕ) (xs ys : List A) → n ≤ length xs → drop n (xs ++ ys) ≡ drop n xs ++ ys
  drop-append_short zero xs ys h = refl
  drop-append_short (suc n) [] ys h = absurd (omega arith)
  drop-append_short (suc n) (x ∷ xs) ys h = drop-append_short n xs ys (omega arith)

module _ {S P : Type 0} where
  -- at most 180 samples and 12 snapshots
  pub record IsBounded (st : PerfState S P) : Type 0 where
    pub samples_bound : length st.samples ≤ 180
    pub procs_bound : length st.procs ≤ 12

  length-add_sample :
      (s : Option S) (st : PerfState S P)
      → length st.samples ≤ 180
      → length (add_sample s st).samples ≤ 180
  unfolding add_sample
  length-add_sample none st h = h
  length-add_sample (some s) st h = omega (
    arith,
    length-drop (length (st.samples ++ (s ∷ [])) - perf_max_pending) (st.samples ++ (s ∷ [])),
  )

  length-add_snapshot :
      (p : Option P) (st : PerfState S P)
      → length st.procs ≤ 12
      → length (add_snapshot p st).procs ≤ 12
  unfolding add_snapshot
  length-add_snapshot none st h = h
  length-add_snapshot (some p) st h = omega (
    arith,
    length-drop (length (st.procs ++ (p ∷ [])) - perf_max_pending_procs) (st.procs ++ (p ∷ [])),
  )

  add_sample_procs : (s : Option S) (st : PerfState S P) → (add_sample s st).procs ≡ st.procs
  unfolding add_sample
  add_sample_procs none st = refl
  add_sample_procs (some s) st = refl

  add_snapshot_samples :
      (p : Option P) (st : PerfState S P) → (add_snapshot p st).samples ≡ st.samples
  unfolding add_snapshot
  add_snapshot_samples none st = refl
  add_snapshot_samples (some p) st = refl

  add-IsBounded :
      (s : Option S) (p : Option P) (st : PerfState S P) → IsBounded st → IsBounded (add s p st)
  unfolding add
  add-IsBounded s p st h = record {
    samples_bound =
        subst (λ xs. length xs ≤ 180) (sym (add_snapshot_samples p (add_sample s st)))
          (length-add_sample s st h.samples_bound);
    procs_bound =
        length-add_snapshot p (add_sample s st)
          (subst (λ xs. length xs ≤ 12) (sym (add_sample_procs s st)) h.procs_bound);
  }

  drop_sent-IsBounded : (n p : ℕ) (st : PerfState S P) → IsBounded st → IsBounded (drop_sent n p st)
  unfolding drop_sent
  drop_sent-IsBounded n p st h = record {
    samples_bound = omega (arith, length-drop n st.samples, h.samples_bound);
    procs_bound = omega (arith, length-drop p st.procs, h.procs_bound);
  }

  -- A state without samples and snapshots is in bounds.
  bare-IsBounded :
      (u d : ℕ) → IsBounded (record { samples = []; procs = []; unsupported = u; dropped = d })
  bare-IsBounded u d = record { samples_bound = omega arith; procs_bound = omega arith }

  if-IsBounded :
      (b : Bool) (s t : PerfState S P) → IsBounded s → IsBounded t → IsBounded (if b then s else t)
  if-IsBounded true s t h k = h
  if-IsBounded false s t h k = k

  after_send-IsBounded :
      (now : ℕ) (batch : MetricsBatch S P) (a : SendAnswer) (st : PerfState S P)
      → IsBounded st
      → IsBounded (after_send now batch a st)
  unfolding after_send
  after_send-IsBounded now batch sent st h =
      drop_sent-IsBounded (length batch.samples) (length batch.processes) st h
  after_send-IsBounded now batch (status code) st h =
      if-IsBounded (code == 404) _ _ (bare-IsBounded (now + perf_unsupported_backoff) st.dropped) (
        if-IsBounded (code == 400) _ _
          (drop_sent-IsBounded (length batch.samples) (length batch.processes) st h) h)
  after_send-IsBounded now batch unreachable st h = h

  maybe_sent-IsBounded :
      (now : ℕ) (o : Option (MetricsBatch S P)) (a : SendAnswer) (st : PerfState S P)
      → IsBounded st
      → IsBounded (elim o [ none ↦ st | some batch ↦ after_send now batch a st ])
  maybe_sent-IsBounded now none a st h = h
  maybe_sent-IsBounded now (some batch) a st h = after_send-IsBounded now batch a st h

  send_metrics-IsBounded :
      (now : ℕ) (a : SendAnswer) (st : PerfState S P)
      → IsBounded st
      → IsBounded (send_metrics now a st)
  unfolding send_metrics
  send_metrics-IsBounded now a st h = maybe_sent-IsBounded now (batch_of now st) a st h

  after_sample-IsBounded :
      (cfg : PerfSettings) (turn : Turn S P) (s : S) (l : PerfLoop S P)
      → IsBounded l.state
      → IsBounded (after_sample cfg turn s l).state
  unfolding after_sample
  after_sample-IsBounded cfg turn s l h =
      let snap = if is_proc_due cfg turn.now l.last_proc then turn.snapshot else none in
      let more = add-IsBounded (some s) snap l.state h in
      if-IsBounded (is_send_due cfg turn.now l.last_send) _ _
        (send_metrics-IsBounded turn.now turn.answer (add (some s) snap l.state) more) more

  tick_on-IsBounded :
      (cfg : PerfSettings) (turn : Turn S P) (o : Option S) (l : PerfLoop S P)
      → IsBounded l.state
      → IsBounded
          (elim o as (λ _. PerfLoop S P) [ none ↦ l | some s ↦ after_sample cfg turn s l ]).state
  tick_on-IsBounded cfg turn none l h = h
  tick_on-IsBounded cfg turn (some s) l h = after_sample-IsBounded cfg turn s l h

  if_turn :
      (b : Bool) (l k : PerfLoop S P)
      → IsBounded l.state
      → IsBounded k.state
      → IsBounded (if b then l else k).state
  if_turn true l k h g = h
  if_turn false l k h g = g

  perf_turn-IsBounded :
      (cfg : PerfSettings) (turn : Turn S P) (l : PerfLoop S P)
      → IsBounded l.state
      → IsBounded (perf_turn cfg turn l).state
  unfolding perf_turn perf_tick
  perf_turn-IsBounded cfg turn l h =
      if_turn cfg.enabled _ _ (tick_on-IsBounded cfg turn turn.collected l h)
        (bare-IsBounded l.state.unsupported l.state.dropped)

  load_samples-IsBounded :
      (now : ℕ) (saved : List (ℕ × S)) (st : PerfState S P)
      → IsBounded st
      → IsBounded (load_samples now saved st)
  unfolding load_samples
  load_samples-IsBounded now [] st h = h
  load_samples-IsBounded now ((at, s) ∷ saved) st h =
      load_samples-IsBounded now saved _ (
        if-IsBounded (ltb now (at + perf_max_pending_age)) _ _ (add-IsBounded (some s) none st h) h)

  load_procs-IsBounded :
      (now : ℕ) (saved : List (ℕ × P)) (st : PerfState S P)
      → IsBounded st
      → IsBounded (load_procs now saved st)
  unfolding load_procs
  load_procs-IsBounded now [] st h = h
  load_procs-IsBounded now ((at, p) ∷ saved) st h =
      load_procs-IsBounded now saved _ (
        if-IsBounded (ltb now (at + perf_max_pending_age)) _ _ (add-IsBounded none (some p) st h) h)

  -- The loop of `runPerformance` as a sequence of turns, each with the settings of its time.
  abbrev pub perf_turns : List (PerfSettings × Turn S P) → PerfLoop S P → PerfLoop S P
  perf_turns [] l = l
  perf_turns ((cfg, turn) ∷ turns) l = perf_turns turns (perf_turn cfg turn l)

  perf_turns-keeps :
      (turns : List (PerfSettings × Turn S P)) (l : PerfLoop S P)
      → IsBounded l.state
      → IsBounded (perf_turns turns l).state
  perf_turns-keeps [] l h = h
  perf_turns-keeps ((cfg, turn) ∷ turns) l h =
      perf_turns-keeps turns (perf_turn cfg turn l) (perf_turn-IsBounded cfg turn l h)

  -- the loop's state once the last run's file is loaded
  abbrev pub begin_loop : ℕ → List (ℕ × S) → List (ℕ × P) → PerfLoop S P
  begin_loop now ss ps = record {
    state =
        load_pending now ss ps (record { samples = []; procs = []; unsupported = 0; dropped = 0 });
    last_proc = now;
    last_send = 0;
  }

  -- Whatever file the last run left, and whatever the collector and the server do in any sequence
  -- of turns under any settings, the buffer holds at most 180 samples and 12 process snapshots.
  pub perf_turns-IsBounded :
      (now : ℕ) (ss : List (ℕ × S)) (ps : List (ℕ × P)) (turns : List (PerfSettings × Turn S P))
      → IsBounded (perf_turns turns (begin_loop now ss ps)).state
  unfolding load_pending
  perf_turns-IsBounded now ss ps turns =
      perf_turns-keeps turns (begin_loop now ss ps)
        (load_procs-IsBounded now ps _ (load_samples-IsBounded now ss _ (bare-IsBounded 0 0)))
