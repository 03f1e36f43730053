-- ===== src/Agent/Performance/Sends.antt =====
-- What the buffer keeps while nothing is sent, and what a send removes.
use siembox_endpoint.Prelude.{
  ℕ, ◌+◌, ◌-◌, ◌≤◌, ◌==◌, some, List, [], ◌∷◌, ◌++◌, if◌then◌else◌, length, drop, length-drop,
  length-append, append_assoc, append-nil, ◌≡◌, refl, sym, ◌∙◌, ap, arith, drop-append,
}
use siembox_endpoint.Agent.Performance.{
  PerfState, MetricsBatch, SendAnswer, sent, status, unreachable, add_sample, drop_sent, after_send,
  perf_max_pending, perf_unsupported_backoff,
}
use siembox_endpoint.Agent.Performance.Buffer.{drop-drop, drop-append_short}

module _ {S : Type 0} where
  -- how many of `xs` do not fit
  abbrev pub excess : List S → ℕ
  excess xs = length xs - perf_max_pending

  drop_tail :
      (k m n : ℕ) (xs ys : List S)
      → k ≤ length xs
      → k + m ≡ n
      → drop m (drop k xs ++ ys) ≡ drop n (xs ++ ys)
  drop_tail k m n xs ys h e =
      ap (drop m) (sym (drop-append_short k xs ys h))
      ∙ drop-drop m k (xs ++ ys)
      ∙ ap (λ i. drop i (xs ++ ys)) e

  excess_sum :
      (all more : List S)
      → length all ≤ 181
      → excess all + excess (drop (excess all) all ++ more) ≡ excess (all ++ more)
  excess_sum all more h = omega (
    arith,
    length-append all more,
    length-append (drop (excess all) all) more,
    length-drop (excess all) all,
  )

  excess_step :
      (all more : List S)
      → length all ≤ 181
      → drop (excess (drop (excess all) all ++ more)) (drop (excess all) all ++ more)
        ≡ drop (excess (all ++ more)) (all ++ more)
  excess_step all more h =
      drop_tail (excess all) (excess (drop (excess all) all ++ more)) (excess (all ++ more)) all
        more (omega arith) (excess_sum all more h)

  one_more : (xs : List S) (s : S) (more : List S) → (xs ++ (s ∷ [])) ++ more ≡ xs ++ (s ∷ more)
  one_more xs s more = append_assoc xs (s ∷ []) more

  length_one_more : (xs : List S) (s : S) → length xs ≤ 180 → length (xs ++ (s ∷ [])) ≤ 181
  length_one_more xs s h = omega (arith, length-append xs (s ∷ []))

  length_kept : (all : List S) → length all ≤ 181 → length (drop (excess all) all) ≤ 180
  length_kept all h = omega (arith, length-drop (excess all) all)

  excess_none : (xs : List S) → length xs ≤ 180 → excess xs ≡ 0
  excess_none xs h = omega arith

add_up : (d a b c : ℕ) → a + b ≡ c → (d + a) + b ≡ d + c
add_up d a b c e = omega arith

module _ {S P : Type 0} where
  -- Samples taken one after the other with no send between them.
  abbrev pub add_all : List S → PerfState S P → PerfState S P
  add_all [] st = st
  add_all (s ∷ more) st = add_all more (add_sample (some s) st)

  -- While nothing is sent, the buffer keeps the latest 180 of all samples, in order, and counts
  -- each of the others as dropped.
  add_all_newest :
      (more : List S) (st : PerfState S P)
      → length st.samples ≤ 180
      → ((add_all more st).samples ≡ drop (excess (st.samples ++ more)) (st.samples ++ more))
        × ((add_all more st).dropped ≡ st.dropped + excess (st.samples ++ more))
  unfolding add_sample
  add_all_newest [] st h = (
    sym (
        ap (λ xs. drop (excess xs) xs) (append-nil st.samples)
        ∙ ap (λ n. drop n st.samples) (excess_none st.samples h)),
    omega (arith, excess_none st.samples h, ap excess (append-nil st.samples)),
  )
  add_all_newest (s ∷ more) st h =
      let all = st.samples ++ (s ∷ []) in
      let fits = length_one_more st.samples s h in
      let rest = add_all_newest more (add_sample (some s) st) (length_kept all fits) in
      (
        rest.0
            ∙ excess_step all more fits
            ∙ ap (λ xs. drop (excess xs) xs) (one_more st.samples s more),
        rest.1
            ∙ add_up st.dropped (excess all) (excess (drop (excess all) all ++ more))
                (excess (all ++ more)) (excess_sum all more fits)
            ∙ ap (λ xs. st.dropped + excess xs) (one_more st.samples s more),
      )

  -- the buffer with what was added to it after the batch was taken
  abbrev pub grown : MetricsBatch S P → List S → List P → ℕ → ℕ → PerfState S P
  grown batch later later_procs u d = record {
    samples = batch.samples ++ later;
    procs = batch.processes ++ later_procs;
    unsupported = u;
    dropped = d;
  }

  -- the buffer that an answer should leave
  abbrev pub remaining : ℕ → MetricsBatch S P → List S → List P → ℕ → ℕ → SendAnswer → PerfState S P
  remaining now batch later later_procs u d sent = record {
    samples = later;
    procs = later_procs;
    unsupported = u;
    dropped = 0;
  }
  remaining now batch later later_procs u d (status code) =
      if code == 404
      then record {
        samples = [];
        procs = [];
        unsupported = now + perf_unsupported_backoff;
        dropped = d;
      }
      else if code == 400
      then record { samples = later; procs = later_procs; unsupported = u; dropped = 0 }
      else grown batch later later_procs u d
  remaining now batch later later_procs u d unreachable = grown batch later later_procs u d

  -- Once the answer to a batch has come, where `later` and `later_procs` were added since the
  -- batch was taken: on success and on 400 exactly what was sent leaves the buffer and the count
  -- of dropped samples starts again; on 404 everything leaves it and the next send waits an hour;
  -- on any other error the buffer is as it was.
  after_send_lem :
      (now : ℕ) (batch : MetricsBatch S P) (later : List S) (later_procs : List P) (u d : ℕ)
      (a : SendAnswer)
      → after_send now batch a (grown batch later later_procs u d)
        ≡ remaining now batch later later_procs u d a
  unfolding after_send drop_sent
  after_send_lem now batch later later_procs u d sent =
      rw (drop-append batch.samples later, drop-append batch.processes later_procs) refl
  after_send_lem now batch later later_procs u d (status code) =
      rw (drop-append batch.samples later, drop-append batch.processes later_procs) refl
  after_send_lem now batch later later_procs u d unreachable = refl
