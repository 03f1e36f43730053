-- ===== src/Detect/Rules.antt =====
-- The rules that come with the agent beside those of the server.
use siembox_endpoint.Prelude.{
  ℕ, ◌+◌, Option, none, some, List, [], ◌∷◌, ◌++◌, Bytes, ◌≡◌, refl, sym, ◌∙◌, ap, Bool-cases,
  Option-cases, inl, inr, append-nil,
}
use siembox_endpoint.Telemetry.{Record}
use siembox_endpoint.Detect.{
  Rule, is_match, build_event, to_event, compile_rules, load_rules, match_rules,
}

module _ (parse : Bytes → Option Rule) where
  compile_bad :
      (raw : Bytes) (raws : List Bytes) (i : ℕ)
      → parse raw ≡ none
      → (compile_rules parse (raw ∷ raws) i).0 ≡ (compile_rules parse raws (i + 1)).0
  unfolding compile_rules
  compile_bad raw raws i h = rw (h, compile_rules) refl

  compile_good :
      (raw : Bytes) (raws : List Bytes) (i : ℕ) {r : Rule}
      → parse raw ≡ some r
      → (compile_rules parse (raw ∷ raws) i).0 ≡ r ∷ (compile_rules parse raws (i + 1)).0
  unfolding compile_rules
  compile_good raw raws i h = rw (h, compile_rules) refl

  compile_index :
      (xs : List Bytes) (i j : ℕ) → (compile_rules parse xs i).0 ≡ (compile_rules parse xs j).0
  unfolding compile_rules
  compile_index [] i j = refl
  compile_index (x ∷ xs) i j = elim (Option-cases (parse x)) [
    | inl bad ↦
        compile_bad x xs i bad ∙ compile_index xs (i + 1) (j + 1) ∙ sym (compile_bad x xs j bad)
    | inr (r, good) ↦
        compile_good x xs i good
        ∙ ap (λ rs. r ∷ rs) (compile_index xs (i + 1) (j + 1))
        ∙ sym (compile_good x xs j good)
  ]

  -- The rules that parse stay in place, whatever their neighbours.
  compile_append :
      (xs ys : List Bytes) (i j k : ℕ)
      → (compile_rules parse (xs ++ ys) i).0
        ≡ (compile_rules parse xs j).0 ++ (compile_rules parse ys k).0
  unfolding compile_rules
  compile_append [] ys i j k = compile_index ys i k
  compile_append (x ∷ xs) ys i j k = elim (Option-cases (parse x)) [
    | inl bad ↦
        compile_bad x (xs ++ ys) i bad
        ∙ compile_append xs ys (i + 1) (j + 1) k
        ∙ ap (λ rs. rs ++ (compile_rules parse ys k).0) (sym (compile_bad x xs j bad))
    | inr (r, good) ↦
        compile_good x (xs ++ ys) i good
        ∙ ap (λ rs. r ∷ rs) (compile_append xs ys (i + 1) (j + 1) k)
        ∙ ap (λ rs. rs ++ (compile_rules parse ys k).0) (sym (compile_good x xs j good))
  ]

match_append :
    (rs qs : List Rule) (rec : Record)
    → match_rules (rs ++ qs) rec ≡ match_rules rs rec ++ match_rules qs rec
unfolding match_rules
match_append [] qs rec = refl
match_append (r ∷ rs) qs rec = elim (Bool-cases (is_match (r.eval (build_event rec)))) [
  | inl e ↦ rw (e, match_rules) (ap (λ es. to_event r rec ∷ es) (match_append rs qs rec))
  | inr e ↦ rw (e, match_rules) (match_append rs qs rec)
]

-- The rules that come with the agent detect the same whatever rules the server sends: on every
-- record the loaded rules give first the detections of the agent's own rules alone, and then those
-- of the server's rules alone. A rule that does not parse changes nothing of this.
pub match_rules-load_rules :
    (parse : Bytes → Option Rule) (base server : List Bytes) (rec : Record)
    → match_rules (load_rules parse base server).0 rec
      ≡ match_rules (load_rules parse base []).0 rec
        ++ match_rules (load_rules parse [] server).0 rec
unfolding load_rules
match_rules-load_rules parse base server rec =
    ap (λ rs. match_rules rs rec) (compile_append parse base server 0 0 0)
    ∙ match_append (compile_rules parse base 0).0 (compile_rules parse server 0).0 rec
    ∙ ap
        (λ raws.
          match_rules (compile_rules parse raws 0).0 rec
          ++ match_rules (compile_rules parse server 0).0 rec)
        (sym (append-nil base))
