-- ===== src/Agent/Spool/Drained.antt =====
-- What a payload that was put into the spool comes to when the server answers again.
use siembox_endpoint.Prelude.{
  ℕ, suc, true, false, not, none, some, [], ◌∷◌, ◌++◌, Bytes, codes, all, ◌==◌, str_eq,
  str_eq_sound, is_empty, sort_by, In, In-sort_by, insert, cut_at, cut_at_first, ◌≡◌, refl, sym,
  ◌∙◌, ap, subst, inl, inr, Bool-cases, Option-cases,
}
use siembox_endpoint.Agent.Spool.{
  Store, Outside, kind_of, spool_path, by_name, list, spool_name, add, removed, flush, flush_spool,
}

-- Every file can be read and removed, and every send succeeds.
abbrev pub IsOpen : Outside → Type 0
IsOpen o =
    ((name : Bytes) → o.can_read name ≡ true)
    × ((name : Bytes) → o.can_remove name ≡ true)
    × ((n : ℕ) (path raw : Bytes) → o.post n path raw ≡ true)

flush_unknown :
    (o : Outside) (n : ℕ) (name raw : Bytes) (rest : Store)
    → IsOpen o
    → spool_path (kind_of name) ≡ none
    → flush o n ((name, raw) ∷ rest) ≡ flush o n rest
unfolding flush removed
flush_unknown o n name raw rest (reads, removes, posts) h =
    rw (h, removes name, flush, removed) refl

flush_sent :
    (o : Outside) (n : ℕ) (name raw path : Bytes) (rest : Store)
    → IsOpen o
    → spool_path (kind_of name) ≡ some path
    → flush o n ((name, raw) ∷ rest)
      ≡ ((flush o (suc n) rest).0, (path, raw) ∷ (flush o (suc n) rest).1)
unfolding flush removed
flush_sent o n name raw path rest (reads, removes, posts) h =
    rw (h, reads name, removes name, posts n path raw, flush, removed) refl

flush_empties : (o : Outside) (n : ℕ) (store : Store) → IsOpen o → (flush o n store).0 ≡ []
unfolding flush
flush_empties o n [] h = refl
flush_empties o n ((name, raw) ∷ rest) h = elim (Option-cases (spool_path (kind_of name))) [
  | inl e ↦ ap (λ r. r.0) (flush_unknown o n name raw rest h e) ∙ flush_empties o n rest h
  | inr (path, e) ↦
      ap (λ r. r.0) (flush_sent o n name raw path rest h e) ∙ flush_empties o (suc n) rest h
]

flush_delivers :
    (o : Outside) (n : ℕ) (name raw path : Bytes) (store : Store)
    → IsOpen o
    → spool_path (kind_of name) ≡ some path
    → In (name, raw) store
    → In (path, raw) (flush o n store).1
flush_delivers o n name raw path [] h e m = absurd m
flush_delivers o n name raw path ((other, content) ∷ rest) h e m = elim m [
  | inl same ↦
      let k : spool_path (kind_of other) ≡ some path =
        ap (λ f. spool_path (kind_of f.0)) same ∙ e in
      subst (λ r. In (path, raw) r.1) (sym (flush_sent o n other content path rest h k))
        (inl (ap (λ f. (path, f.1)) same))
  | inr later ↦ elim (Option-cases (spool_path (kind_of other))) [
    | inl k ↦
        subst (λ r. In (path, raw) r.1) (sym (flush_unknown o n other content rest h k))
          (flush_delivers o n name raw path rest h e later)
    | inr (p, k) ↦
        subst (λ r. In (path, raw) r.1) (sym (flush_sent o n other content p rest h k))
          (inr (flush_delivers o (suc n) name raw path rest h e later))
  ]
]

-- A known kind is a word without a dash.
abbrev pub IsWord : Bytes → Type 0
IsWord kind = (all (λ c. not (c == b'-')) kind ≡ true) × (is_empty kind ≡ false)

known-IsWord : (kind path : Bytes) → spool_path kind ≡ some path → IsWord kind
unfolding spool_path
known-IsWord kind path h = elim (Bool-cases (str_eq kind (codes "events"))) [
  | inl a ↦ subst IsWord (sym (str_eq_sound kind (codes "events") a)) (refl, refl)
  | inr a ↦ elim (Bool-cases (str_eq kind (codes "vulns"))) [
    | inl b ↦ subst IsWord (sym (str_eq_sound kind (codes "vulns") b)) (refl, refl)
    | inr b ↦ elim (Bool-cases (str_eq kind (codes "inventory"))) [
      | inl c ↦ subst IsWord (sym (str_eq_sound kind (codes "inventory") c)) (refl, refl)
      | inr c ↦ cc (h, none_left a b c)
    ]
  ]
]
  where
    none_left :
        str_eq kind (codes "events") ≡ false
        → str_eq kind (codes "vulns") ≡ false
        → str_eq kind (codes "inventory") ≡ false
        → spool_path kind ≡ none
    none_left a b c = rw (a, b, c, spool_path) refl

kind_cut :
    (base kind rest : Bytes)
    → cut_at b'-' base ≡ some (kind, rest)
    → is_empty kind ≡ false
    → kind_of base ≡ kind
unfolding kind_of
kind_cut base kind rest h n = rw (h, n, kind_of) refl

kind_of-spool_name : (kind now id : Bytes) → IsWord kind → kind_of (spool_name kind now id) ≡ kind
unfolding spool_name
kind_of-spool_name kind now id (h, n) =
    let rest = now ++ (b'-' ∷ (id ++ codes ".json")) in
    kind_cut (spool_name kind now id) kind rest (cut_at_first b'-' kind rest h) n

In-insert : (k v : Bytes) (store : Store) → In (k, v) (insert k v store)
unfolding insert
In-insert k v [] = inl refl
In-insert k v ((j, w) ∷ store) = elim (Bool-cases (str_eq j k)) [
  | inl e ↦ rw (e, insert) (inl refl)
  | inr e ↦ rw (e, insert) (inr (In-insert k v store))
]

-- A payload that was put into the spool under a known kind is not lost: when every file can be
-- read and removed and the server takes every send, one flush delivers it on the route of its kind, whatever
-- else waits, and leaves the spool empty.
pub flush_spool-add :
    (o : Outside) (now id kind payload path : Bytes) (store : Store)
    → ((name : Bytes) → o.can_read name ≡ true)
    → ((name : Bytes) → o.can_remove name ≡ true)
    → ((n : ℕ) (p raw : Bytes) → o.post n p raw ≡ true)
    → spool_path kind ≡ some path
    → In (path, payload) (flush_spool o (add true true now id kind payload store).0).1
      × ((flush_spool o (add true true now id kind payload store).0).0 ≡ [])
unfolding flush_spool list add
flush_spool-add o now id kind payload path store reads removes posts known =
    let name = spool_name kind now id in
    let full = insert name payload store in
    let route : spool_path (kind_of name) ≡ some path =
      ap spool_path (kind_of-spool_name kind now id (known-IsWord kind path known)) ∙ known in
    (
      flush_delivers o 0 name payload path (sort_by by_name full) (reads, removes, posts) route
          ((In-sort_by by_name (name, payload) full).1 (In-insert name payload store)),
      flush_empties o 0 (sort_by by_name full) (reads, removes, posts),
    )
