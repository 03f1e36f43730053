-- ===== src/Agent/Spool/Flush.antt =====
-- What a flush sends, drops and keeps.
use siembox_endpoint.Prelude.{
  ℕ, suc, true, false, none, some, List, [], ◌∷◌, ◌++◌, Bytes, if◌then◌else◌, ◌≡◌, refl, sym, ◌⊎◌,
  ◌∙◌, ap, inl, inr, Bool-cases, Option-cases, append_assoc,
}
use siembox_endpoint.Agent.Spool.{
  Store, Delivery, Outside, spool_path, kind_of, list, removed, flush, flush_spool,
}

-- What becomes of a file that the flush passes: a known and readable one is sent; an unreadable one
-- stays; one that was sent or is of another kind stays only if it cannot be removed.
abbrev pub delivery_of : Outside → Bytes × Bytes → List Delivery
delivery_of o file = elim (spool_path (kind_of file.0)) [
  | none ↦ []
  | some path ↦ if o.can_read file.0 then (path, file.1) ∷ [] else []
]

abbrev pub kept_of : Outside → Bytes × Bytes → Store
kept_of o file = if o.can_remove file.0 then [] else file ∷ []

abbrev pub stay_of : Outside → Bytes × Bytes → Store
stay_of o file = elim (spool_path (kind_of file.0)) [
  | none ↦ kept_of o file
  | some path ↦ if o.can_read file.0 then kept_of o file else file ∷ []
]

abbrev pub concat_map : {A B : Type 0} → (A → List B) → List A → List B
concat_map f [] = []
concat_map f (x ∷ xs) = f x ++ concat_map f xs

-- The sends of the files that were passed, numbered from `n`, all succeeded, and `m` is the number
-- of the next send.
abbrev pub Sends : Outside → ℕ → Store → ℕ → Type 0
Sends o n [] m = n ≡ m
Sends o n (file ∷ rest) m = elim (spool_path (kind_of file.0)) [
  | none ↦ Sends o n rest m
  | some path ↦
      ((o.can_read file.0 ≡ true) × (o.post n path file.1 ≡ true) × Sends o (suc n) rest m)
      ⊎ ((o.can_read file.0 ≡ false) × Sends o n rest m)
]

-- The flush stops at the m-th send, which failed, or there is no file left.
abbrev pub Stops : Outside → ℕ → Store → Type 0
Stops o m [] = Unit
Stops o m ((name, raw) ∷ rest) =
    (path : Bytes) × (spool_path (kind_of name) ≡ some path)
    × (o.can_read name ≡ true)
    × (o.post m path raw ≡ false)

-- The files up to the first failed send are passed; that one and the later ones stay.
pub record IsFlushed (o : Outside) (n : ℕ) (files : Store) (r : Store × List Delivery)
    : Type 0 where
  pub passed : Store
  pub later : Store
  pub next : ℕ
  pub split : files ≡ passed ++ later
  pub sends : Sends o n passed next
  pub stops : Stops o next later
  pub kept : r.0 ≡ concat_map (stay_of o) passed ++ later
  pub delivered : r.1 ≡ concat_map (delivery_of o) passed

module _ (o : Outside) where
  pass :
      (n k : ℕ) (file : Bytes × Bytes) (rest : Store) (r q : Store × List Delivery)
      → ((passed : Store) (m : ℕ) → Sends o k passed m → Sends o n (file ∷ passed) m)
      → IsFlushed o k rest r
      → q ≡ (stay_of o file ++ r.0, delivery_of o file ++ r.1)
      → IsFlushed o n (file ∷ rest) q
  pass n k file rest r q s h e = record {
    passed = file ∷ h.passed;
    later = h.later;
    next = h.next;
    split = ap (λ xs. file ∷ xs) h.split;
    sends = s h.passed h.next h.sends;
    stops = h.stops;
    kept =
        ap (λ x. x.0) e
        ∙ ap (λ xs. stay_of o file ++ xs) h.kept
        ∙ sym (append_assoc (stay_of o file) (concat_map (stay_of o) h.passed) h.later);
    delivered = ap (λ x. x.1) e ∙ ap (λ xs. delivery_of o file ++ xs) h.delivered;
  }

  none_left : (n : ℕ) → IsFlushed o n [] (flush o n [])
  unfolding flush
  none_left n = record {
    passed = [];
    later = [];
    next = n;
    split = refl;
    sends = refl;
    stops = tt;
    kept = refl;
    delivered = refl;
  }

  stop_here :
      (n : ℕ) (name raw : Bytes) (rest : Store) (q : Store × List Delivery)
      → q ≡ ((name, raw) ∷ rest, [])
      → Stops o n ((name, raw) ∷ rest)
      → IsFlushed o n ((name, raw) ∷ rest) q
  stop_here n name raw rest q e s = record {
    passed = [];
    later = (name, raw) ∷ rest;
    next = n;
    split = refl;
    sends = refl;
    stops = s;
    kept = ap (λ x. x.0) e;
    delivered = ap (λ x. x.1) e;
  }

  removed_lem : (file : Bytes × Bytes) (rest : Store) → removed o file rest ≡ kept_of o file ++ rest
  unfolding removed
  removed_lem file rest = elim (Bool-cases (o.can_remove file.0)) [
    | inl e ↦ rw (e, removed) refl
    | inr e ↦ rw (e, removed) refl
  ]

  -- One file, by its route and what the outside does with it.
  one_unknown :
      (n : ℕ) (name raw : Bytes) (rest : Store)
      → spool_path (kind_of name) ≡ none
      → flush o n ((name, raw) ∷ rest) ≡ (
        stay_of o (name, raw) ++ (flush o n rest).0,
        delivery_of o (name, raw) ++ (flush o n rest).1,
      )
  unfolding flush
  one_unknown n name raw rest e =
      rw (e, flush, stay_of, delivery_of)
        (ap (λ xs. (xs, (flush o n rest).1)) (removed_lem (name, raw) (flush o n rest).0))

  one_unread :
      (n : ℕ) (name raw path : Bytes) (rest : Store)
      → spool_path (kind_of name) ≡ some path
      → o.can_read name ≡ false
      → flush o n ((name, raw) ∷ rest) ≡ (
        stay_of o (name, raw) ++ (flush o n rest).0,
        delivery_of o (name, raw) ++ (flush o n rest).1,
      )
  unfolding flush
  one_unread n name raw path rest e r = rw (e, r, flush, stay_of, delivery_of) refl

  one_sent :
      (n : ℕ) (name raw path : Bytes) (rest : Store)
      → spool_path (kind_of name) ≡ some path
      → o.can_read name ≡ true
      → o.post n path raw ≡ true
      → flush o n ((name, raw) ∷ rest) ≡ (
        stay_of o (name, raw) ++ (flush o (suc n) rest).0,
        delivery_of o (name, raw) ++ (flush o (suc n) rest).1,
      )
  unfolding flush
  one_sent n name raw path rest e r p =
      rw (e, r, p, flush, stay_of, delivery_of)
        (ap (λ xs. (xs, (path, raw) ∷ (flush o (suc n) rest).1))
          (removed_lem (name, raw) (flush o (suc n) rest).0))

  one_failed :
      (n : ℕ) (name raw path : Bytes) (rest : Store)
      → spool_path (kind_of name) ≡ some path
      → o.can_read name ≡ true
      → o.post n path raw ≡ false
      → flush o n ((name, raw) ∷ rest) ≡ ((name, raw) ∷ rest, [])
  unfolding flush
  one_failed n name raw path rest e r p = rw (e, r, p, flush) refl

  flush-IsFlushed : (n : ℕ) (files : Store) → IsFlushed o n files (flush o n files)
  flush-IsFlushed n [] = none_left n
  flush-IsFlushed n ((name, raw) ∷ rest) = elim (Option-cases (spool_path (kind_of name))) [
    | inl e ↦
        pass n n (name, raw) rest (flush o n rest) _ (λ ps m s. rw (e, Sends) s)
          (flush-IsFlushed n rest) (one_unknown n name raw rest e)
    | inr (path, e) ↦ elim (Bool-cases (o.can_read name)) [
      | inr r ↦
          pass n n (name, raw) rest (flush o n rest) _ (λ ps m s. rw (e, Sends) (inr (r, s)))
            (flush-IsFlushed n rest) (one_unread n name raw path rest e r)
      | inl r ↦ elim (Bool-cases (o.post n path raw)) [
        | inl p ↦
            pass n (suc n) (name, raw) rest (flush o (suc n) rest) _
              (λ ps m s. rw (e, Sends) (inl (r, p, s))) (flush-IsFlushed (suc n) rest)
              (one_sent n name raw path rest e r p)
        | inr p ↦
            stop_here n name raw rest _ (one_failed n name raw path rest e r p) (path, e, r, p)
      ]
    ]
  ]

-- A flush takes the files in the order of their names. It passes those before the first failed
-- send: of them a readable file of a known kind is sent to its kind's route, in order, and that
-- send, the next in number, succeeded; then the file leaves, if it can be removed. An unreadable
-- file stays, and one of an unknown kind leaves unsent, if it can be removed. The first file whose
-- send failed ends the flush: it and all later ones stay and nothing more is sent.
pub flush_spool-IsFlushed :
    (o : Outside) (store : Store) → IsFlushed o 0 (list store) (flush_spool o store)
unfolding flush_spool
flush_spool-IsFlushed o store = flush-IsFlushed o 0 (list store)
