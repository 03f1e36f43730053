-- ===== src/Agent/Coordinator/Handled.antt =====
-- What `handleScanRequests` makes of the requests of one heartbeat, and of the same requests in
-- the next one.
use siembox_endpoint.Prelude.{
  ℕ, ◌+◌, Bool, true, false, Option, none, some, List, [], ◌∷◌, Bytes, ltb, if◌then◌else◌, str_eq,
  lookup, insert, lookup-insert, lookup-insert_self, ◌≡◌, refl, sym, ◌∙◌, ap, inl, inr, arith,
  Bool-cases, All, str_eq_sound, subst,
}
use siembox_endpoint.Agent.Coordinator.{
  ScanRequest, Handled, handled_scan_ttl, expire, is_handled, is_skipped, admit, handle_requests,
}

abbrev pub is_known : Option ℕ → Bool
is_known o = elim o [ none ↦ false | some _ ↦ true ]

is_handled-lookup : (id : Bytes) (h : Handled) → is_handled id h ≡ is_known (lookup id h)
unfolding is_handled
is_handled-lookup id h = refl

insert_handled_self : (id : Bytes) (now : ℕ) (h : Handled) → is_handled id (insert id now h) ≡ true
insert_handled_self id now h =
    is_handled-lookup id (insert id now h) ∙ ap is_known (lookup-insert_self id now h)

handled_step :
    (o : Option ℕ) (b : Bool) (now : ℕ)
    → is_known o ≡ true
    → is_known (if b then some now else o) ≡ true
handled_step o true now e = refl
handled_step o false now e = e

-- Recording an id keeps the others.
insert_handled_keeps :
    (j id : Bytes) (now : ℕ) (h : Handled)
    → is_handled j h ≡ true
    → is_handled j (insert id now h) ≡ true
insert_handled_keeps j id now h e =
    is_handled-lookup j (insert id now h)
    ∙ ap is_known (lookup-insert id j now h)
    ∙ handled_step (lookup j h) (str_eq id j) now (sym (is_handled-lookup j h) ∙ e)

admit_nil : (now : ℕ) (h : Handled) → admit now [] h ≡ (h, [])
unfolding admit
admit_nil now h = refl

admit_skip :
    (now : ℕ) (r : ScanRequest) (rs : List ScanRequest) (h : Handled)
    → is_skipped h r ≡ true
    → admit now (r ∷ rs) h ≡ admit now rs h
unfolding admit
admit_skip now r rs h e = rw (e, admit) refl

admit_take :
    (now : ℕ) (r : ScanRequest) (rs : List ScanRequest) (h : Handled)
    → is_skipped h r ≡ false
    → admit now (r ∷ rs) h
      ≡ ((admit now rs (insert r.scan_id now h)).0, r ∷ (admit now rs (insert r.scan_id now h)).1)
unfolding admit
admit_take now r rs h e = rw (e, admit) refl

-- What is handled stays so.
admit_keeps :
    (j : Bytes) (now : ℕ) (rs : List ScanRequest) (h : Handled)
    → is_handled j h ≡ true
    → is_handled j (admit now rs h).0 ≡ true
admit_keeps j now [] h e = ap (λ x. is_handled j x.0) (admit_nil now h) ∙ e
admit_keeps j now (r ∷ rs) h e = elim (Bool-cases (is_skipped h r)) [
  | inl s ↦ ap (λ x. is_handled j x.0) (admit_skip now r rs h s) ∙ admit_keeps j now rs h e
  | inr s ↦
      ap (λ x. is_handled j x.0) (admit_take now r rs h s)
      ∙ admit_keeps j now rs (insert r.scan_id now h) (insert_handled_keeps j r.scan_id now h e)
]

-- The requests that pass: each named, none handled before, none twice.
abbrev pub AllNew : Handled → List ScanRequest → Type 0
AllNew h [] = Unit
AllNew h (r ∷ rs) =
    (is_skipped h r ≡ false) × AllNew h rs × All (λ q. str_eq q.scan_id r.scan_id ≡ false) rs

skipped_insert :
    (id : Bytes) (now : ℕ) (h : Handled) (q : ScanRequest)
    → is_skipped (insert id now h) q ≡ false
    → (is_skipped h q ≡ false) × (str_eq q.scan_id id ≡ false)
unfolding is_skipped
skipped_insert id now h q e = grind (
  arith,
  insert_handled_keeps q.scan_id id now h,
  insert_handled_self id now h,
  str_eq_sound q.scan_id id,
)

AllNew-insert :
    (id : Bytes) (now : ℕ) (h : Handled) (rs : List ScanRequest)
    → AllNew (insert id now h) rs
    → AllNew h rs × All (λ q. str_eq q.scan_id id ≡ false) rs
AllNew-insert id now h [] _ = (tt, tt)
AllNew-insert id now h (r ∷ rs) (e, hs, d) =
    let this = skipped_insert id now h r e in
    let others = AllNew-insert id now h rs hs in ((this.0, others.0, d), (this.1, others.1))

admit_new : (now : ℕ) (rs : List ScanRequest) (h : Handled) → AllNew h (admit now rs h).1
admit_new now [] h = subst (λ x. AllNew h x.1) (sym (admit_nil now h)) tt
admit_new now (r ∷ rs) h = elim (Bool-cases (is_skipped h r)) [
  | inl s ↦ subst (λ x. AllNew h x.1) (sym (admit_skip now r rs h s)) (admit_new now rs h)
  | inr s ↦
      subst (λ x. AllNew h x.1) (sym (admit_take now r rs h s))
        (
          s,
          (AllNew-insert r.scan_id now h _ (admit_new now rs (insert r.scan_id now h))).0,
          (AllNew-insert r.scan_id now h _ (admit_new now rs (insert r.scan_id now h))).1,
        )
]

-- Every request is skipped the next time.
skipped_self :
    (now : ℕ) (r : ScanRequest) (h : Handled) → is_skipped (insert r.scan_id now h) r ≡ true
unfolding is_skipped
skipped_self now r h = ground (arith, insert_handled_self r.scan_id now h)

skipped_admit :
    (q : ScanRequest) (now : ℕ) (rs : List ScanRequest) (h : Handled)
    → is_skipped h q ≡ true
    → is_skipped (admit now rs h).0 q ≡ true
unfolding is_skipped
skipped_admit q now rs h e = ground (arith, admit_keeps q.scan_id now rs h)

skipped_again :
    (now : ℕ) (rs : List ScanRequest) (h : Handled)
    → All (λ q. is_skipped (admit now rs h).0 q ≡ true) rs
skipped_again now [] h = tt
skipped_again now (r ∷ rs) h = elim (Bool-cases (is_skipped h r)) [
  | inl s ↦
      subst (λ x. All (λ q. is_skipped x.0 q ≡ true) (r ∷ rs)) (sym (admit_skip now r rs h s))
        (skipped_admit r now rs h s, skipped_again now rs h)
  | inr s ↦
      subst (λ x. All (λ q. is_skipped x.0 q ≡ true) (r ∷ rs)) (sym (admit_take now r rs h s))
        (
          skipped_admit r now rs (insert r.scan_id now h) (skipped_self now r h),
          skipped_again now rs (insert r.scan_id now h),
        )
]

-- A round in which every request is skipped.
admit_none :
    (now : ℕ) (rs : List ScanRequest) (h : Handled)
    → All (λ q. is_skipped h q ≡ true) rs
    → admit now rs h ≡ (h, [])
admit_none now [] h _ = admit_nil now h
admit_none now (r ∷ rs) h (e, es) = admit_skip now r rs h e ∙ admit_none now rs h es

-- Every entry is at most 48 hours old.
abbrev pub AllYoung : ℕ → Handled → Type 0
AllYoung now h = All (λ e. ltb (e.1 + handled_scan_ttl) now ≡ false) h

expire_young : (now : ℕ) (h : Handled) → AllYoung now h → expire now h ≡ h
unfolding expire
expire_young now [] _ = refl
expire_young now ((id, at) ∷ h) (e, es) = rw (e, expire_young now h es) refl

if_young :
    (b : Bool) (now : ℕ) (h k : Handled)
    → AllYoung now h
    → AllYoung now k
    → AllYoung now (if b then h else k)
if_young true now h k a b = a
if_young false now h k a b = b

insert-AllYoung :
    (later now : ℕ) (id : Bytes) (h : Handled)
    → ltb (now + handled_scan_ttl) later ≡ false
    → AllYoung later h
    → AllYoung later (insert id now h)
unfolding insert
insert-AllYoung later now id [] e es = (e, tt)
insert-AllYoung later now id ((j, at) ∷ h) e (f, es) =
    if_young (str_eq j id) later ((id, now) ∷ h) ((j, at) ∷ insert id now h) (e, es)
      (f, insert-AllYoung later now id h e es)

admit-AllYoung :
    (later now : ℕ) (rs : List ScanRequest) (h : Handled)
    → ltb (now + handled_scan_ttl) later ≡ false
    → AllYoung later h
    → AllYoung later (admit now rs h).0
admit-AllYoung later now [] h e es = subst (λ x. AllYoung later x.0) (sym (admit_nil now h)) es
admit-AllYoung later now (r ∷ rs) h e es = elim (Bool-cases (is_skipped h r)) [
  | inl s ↦
      subst (λ x. AllYoung later x.0) (sym (admit_skip now r rs h s))
        (admit-AllYoung later now rs h e es)
  | inr s ↦
      subst (λ x. AllYoung later x.0) (sym (admit_take now r rs h s))
        (admit-AllYoung later now rs (insert r.scan_id now h) e
          (insert-AllYoung later now r.scan_id h e es))
]

-- The requests that a heartbeat starts have ids, were not handled in the last 48 hours, and are
-- different from each other.
pub handle_requests-AllNew :
    (now : ℕ) (rs : List ScanRequest) (h : Handled)
    → AllNew (expire now h) (handle_requests now rs h).1
unfolding handle_requests
handle_requests-AllNew now rs h = admit_new now rs (expire now h)

-- When a heartbeat repeats the requests of an earlier one, at most 48 hours after it and with no
-- entry of the map older than that, it starts none of them.
pub handle_requests_once :
    (now later : ℕ) (rs : List ScanRequest) (h : Handled)
    → ltb (now + handled_scan_ttl) later ≡ false
    → AllYoung later (expire now h)
    → (handle_requests later rs (handle_requests now rs h).0).1 ≡ []
unfolding handle_requests
handle_requests_once now later rs h e es =
    let known = admit now rs (expire now h) in
    ap (λ x. (admit later rs x).1)
      (expire_young later known.0 (admit-AllYoung later now rs (expire now h) e es))
    ∙ ap (λ x. x.1) (admit_none later rs known.0 (skipped_again now rs (expire now h)))
