-- ===== src/Telemetry/Tail.antt =====
-- What following the results file emits.
use siembox_endpoint.Prelude.{
  ℕ, true, false, Option, List, [], ◌∷◌, ◌++◌, Bytes, ◌==◌, split_at, append_assoc, append-nil, ◌≡◌,
  refl, sym, ◌∙◌, ap, subst, Bool-cases, inl, inr, split_at-cases, ==_iff,
}
use siembox_endpoint.Telemetry.{OsqueryResult, Record, emit, read_available, tail_results}

module _ (decode : Bytes → Option OsqueryResult) where
  -- The file as it is at the end, line by line: every line that ends is emitted.
  abbrev pub whole_lines : List Bytes → List Record
  whole_lines [] = []
  whole_lines (w ∷ []) = []
  whole_lines (w ∷ v ∷ ws) = emit decode (w ++ (b'\n' ∷ [])) ++ whole_lines (v ∷ ws)

  abbrev pub all_of : List Bytes → Bytes
  all_of [] = []
  all_of (gained ∷ ticks) = gained ++ all_of ticks

  read_feed :
      (c : ℕ) (pending chunk s : Bytes)
      → (c == b'\n') ≡ true
      → read_available decode pending chunk (c ∷ s) ≡ (
        emit decode (pending ++ (chunk ++ (c ∷ []))) ++ (read_available decode [] [] s).0,
        (read_available decode [] [] s).1,
      )
  unfolding read_available
  read_feed c pending chunk s h = rw (h, read_available) refl

  read_other :
      (c : ℕ) (pending chunk s : Bytes)
      → (c == b'\n') ≡ false
      → read_available decode pending chunk (c ∷ s)
        ≡ read_available decode pending (chunk ++ (c ∷ [])) s
  unfolding read_available
  read_other c pending chunk s h = rw (h, read_available) refl

  -- What is pending and what is read of the line make one text.
  read_joined :
      (s pending chunk : Bytes)
      → read_available decode pending chunk s ≡ read_available decode (pending ++ chunk) [] s
  unfolding read_available
  read_joined [] pending chunk = ap (λ w. ([], w)) (sym (append-nil (pending ++ chunk)))
  read_joined (c ∷ s) pending chunk = elim (Bool-cases (c == b'\n')) [
    | inl e ↦
        read_feed c pending chunk s e
        ∙ ap
            (λ w. (
              emit decode w ++ (read_available decode [] [] s).0,
              (read_available decode [] [] s).1,
            ))
            (sym (append_assoc pending chunk (c ∷ [])))
        ∙ sym (read_feed c (pending ++ chunk) [] s e)
    | inr e ↦
        read_other c pending chunk s e
        ∙ read_joined s pending (chunk ++ (c ∷ []))
        ∙ ap (λ w. read_available decode w [] s) (sym (append_assoc pending chunk (c ∷ [])))
        ∙ sym (read_joined s (pending ++ chunk) (c ∷ []))
        ∙ sym (read_other c (pending ++ chunk) [] s e)
  ]

  read_next :
      (c : ℕ) (pending s : Bytes)
      → (c == b'\n') ≡ false
      → read_available decode pending [] (c ∷ s) ≡ read_available decode (pending ++ (c ∷ [])) [] s
  read_next c pending s h = read_other c pending [] s h ∙ read_joined s pending (c ∷ [])

  -- Reading a text in two parts is reading it at once.
  abbrev pub IsSplit : Bytes → Bytes → List Record × Bytes → List Record → Type 0
  IsSplit s t first whole = whole ≡ first.0 ++ (read_available decode first.1 [] t).0

  read_append :
      (s t pending : Bytes)
      → IsSplit s t
          (read_available decode pending [] s)
          (read_available decode pending [] (s ++ t)).0
  unfolding read_available
  read_append [] t pending = ap (λ w. (read_available decode w [] t).0) (sym (append-nil pending))
  read_append (c ∷ s) t pending = elim (Bool-cases (c == b'\n')) [
    | inl e ↦
        ap (λ r. r.0) (read_feed c pending [] (s ++ t) e)
        ∙ subst
            (λ r.
              IsSplit (c ∷ s) t r
                (emit decode (pending ++ (c ∷ [])) ++ (read_available decode [] [] (s ++ t)).0))
            (sym (read_feed c pending [] s e))
            (ap (λ rs. emit decode (pending ++ (c ∷ [])) ++ rs) (read_append s t [])
              ∙ sym (
                  append_assoc (emit decode (pending ++ (c ∷ []))) (read_available decode [] [] s).0
                    (read_available decode (read_available decode [] [] s).1 [] t).0))
    | inr e ↦
        ap (λ r. r.0) (read_next c pending (s ++ t) e)
        ∙ subst
            (λ r. IsSplit (c ∷ s) t r (read_available decode (pending ++ (c ∷ [])) [] (s ++ t)).0)
            (sym (read_next c pending s e)) (read_append s t (pending ++ (c ∷ [])))
  ]

  tail_once :
      (ticks : List Bytes) (pending : Bytes)
      → tail_results decode ticks pending ≡ (read_available decode pending [] (all_of ticks)).0
  unfolding tail_results read_available
  tail_once [] pending = refl
  tail_once (gained ∷ ticks) pending =
      ap (λ t. (read_available decode pending [] gained).0 ++ t)
        (tail_once ticks (read_available decode pending [] gained).1)
      ∙ sym (read_append gained (all_of ticks) pending)

  -- A text before the first line.
  abbrev pub glue : Bytes → List Bytes → List Bytes
  glue p [] = []
  glue p (w ∷ ws) = (p ++ w) ∷ ws

  glue_nil : (ws : List Bytes) → glue [] ws ≡ ws
  glue_nil [] = refl
  glue_nil (w ∷ ws) = refl

  split_feed :
      (c : ℕ) (s : Bytes) → (c == b'\n') ≡ true → split_at b'\n' (c ∷ s) ≡ [] ∷ split_at b'\n' s
  split_feed c s h = rw h refl

  split_other :
      (c : ℕ) (s w : Bytes) (ws : List Bytes)
      → (c == b'\n') ≡ false
      → split_at b'\n' s ≡ w ∷ ws
      → split_at b'\n' (c ∷ s) ≡ (c ∷ w) ∷ ws
  split_other c s w ws h e = rw (h, e) refl

  read_lines :
      (s pending : Bytes)
      → (read_available decode pending [] s).0 ≡ whole_lines (glue pending (split_at b'\n' s))
  unfolding read_available
  read_lines [] pending = refl
  read_lines (c ∷ s) pending = elim (Bool-cases (c == b'\n')) [
    | inl e ↦
        let (v, ws, split) = split_at-cases b'\n' s in
        ap (λ r. r.0) (read_feed c pending [] s e)
        ∙ ap (λ rs. emit decode (pending ++ (c ∷ [])) ++ rs)
            (read_lines s [] ∙ ap whole_lines (glue_nil (split_at b'\n' s)))
        ∙ ap (λ d. emit decode (pending ++ (d ∷ [])) ++ whole_lines (split_at b'\n' s))
            ((==_iff c b'\n').0 e)
        ∙ ap (λ p. emit decode (p ++ (b'\n' ∷ [])) ++ whole_lines (split_at b'\n' s))
            (sym (append-nil pending))
        ∙ ap (λ ls. emit decode ((pending ++ []) ++ (b'\n' ∷ [])) ++ whole_lines ls) split
        ∙ ap (λ ls. whole_lines ((pending ++ []) ∷ ls)) (sym split)
        ∙ ap (λ ls. whole_lines (glue pending ls)) (sym (split_feed c s e))
    | inr e ↦
        let (w, ws, split) = split_at-cases b'\n' s in
        ap (λ r. r.0) (read_next c pending s e)
        ∙ read_lines s (pending ++ (c ∷ []))
        ∙ ap (λ ls. whole_lines (glue (pending ++ (c ∷ [])) ls)) split
        ∙ ap (λ p. whole_lines (p ∷ ws)) (append_assoc pending (c ∷ []) w)
        ∙ ap (λ ls. whole_lines (glue pending ls)) (sym (split_other c s w ws e split))
  ]

  -- Whatever the ticks between which the results file grows, following it emits, in order, the
  -- records of every line that is complete at the end, and of nothing else: a line that a tick
  -- finds half written is emitted once, when it ends.
  pub tail_results-whole_lines :
      (ticks : List Bytes)
      → tail_results decode ticks [] ≡ whole_lines (split_at b'\n' (all_of ticks))
  tail_results-whole_lines ticks =
      tail_once ticks []
      ∙ read_lines (all_of ticks) []
      ∙ ap whole_lines (glue_nil (split_at b'\n' (all_of ticks)))
