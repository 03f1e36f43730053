-- ===== src/Agent/Enrollment/Backoff.antt =====
-- The attempts to enroll and the pauses between them.
use siembox_endpoint.Prelude.{
  ℕ, zero, suc, ◌*◌, ◌^◌, Bool, true, false, not, ◌&&◌, Option, none, some, List, [], ◌∷◌, Bytes,
  any, if◌then◌else◌, is_empty, arith, ◌≡◌, refl, sym, ◌∙◌, ap, subst, min, Bool-cases,
  Option-cases, inl, inr,
}
use siembox_endpoint.Agent.Enrollment.{
  Enrollment, EnrollResponse, Answer, enrolled, enroll, next_backoff, retry, enroll_with_retry,
}

abbrev pub is_response : Option EnrollResponse → Bool
is_response none = false
is_response (some r) = true

-- An attempt succeeds with a token, an answer of the server, and a saved identity.
abbrev pub works : Bytes → Answer → Bool
works token a = not (is_empty token) && (is_response a.response && a.saved)

-- How many attempts fail before the first that succeeds.
abbrev pub failures : Bytes → List Answer → ℕ
failures token [] = 0
failures token (a ∷ answers) =
    let rest = failures token answers in if works token a then 0 else suc rest

-- The pauses after `n` failed attempts, from the i-th: 5 seconds, doubled with each, at most 300.
abbrev pub pauses : ℕ → ℕ → List ℕ
pauses i zero = []
pauses i (suc n) = min (5 * 2 ^ i) 300 ∷ pauses (suc i) n

next_backoff-min : (p : ℕ) → next_backoff (min (5 * p) 300) ≡ min (5 * (p * 2)) 300
unfolding next_backoff
next_backoff-min p = ground arith

next_backoff-pow : (i : ℕ) → next_backoff (min (5 * 2 ^ i) 300) ≡ min (5 * 2 ^ suc i) 300
next_backoff-pow i = next_backoff-min (2 ^ i) ∙ ap (λ (q : ℕ). min (5 * q) 300) (omega arith)

-- One attempt: whether it succeeds, and what becomes of the token.
abbrev pub token_after : Bool → Bytes → Bytes
token_after b token = if b then [] else token

enroll_lem :
    (a : Answer) (st : Enrollment)
    → ((enroll a st).1 ≡ works st.token a)
      × ((enroll a st).0.token ≡ token_after (works st.token a) st.token)
unfolding enroll enrolled
enroll_lem a st = elim (Bool-cases (is_empty st.token)) [
  | inl e ↦ rw (e, enroll, enrolled) (refl, refl)
  | inr e ↦ elim (Option-cases a.response) [
    | inl n ↦ rw (e, n, enroll, enrolled) (refl, refl)
    | inr (r, n) ↦ elim (Bool-cases a.saved) [
      | inl w ↦ rw (e, n, w, enroll, enrolled) (refl, refl)
      | inr w ↦ rw (e, n, w, enroll, enrolled) (refl, refl)
    ]
  ]
]

-- The result of the attempts from the i-th pause on.
abbrev pub IsPaced : ℕ → List Answer → Bytes → Enrollment × Bool × List ℕ → Type 0
IsPaced i answers token r =
    (r.2 ≡ pauses i (failures token answers))
    × (r.1 ≡ any (works token) answers)
    × (r.0.token ≡ token_after (any (works token) answers) token)

step-IsPaced :
    (i : ℕ) (a : Answer) (answers : List Answer) (token : Bytes) (now : Enrollment)
    (rest : Enrollment × Bool × List ℕ)
    → (b : Bool) → b ≡ works token a
    → now.token ≡ token_after b token
    → (b ≡ false → IsPaced (suc i) answers token rest)
    → IsPaced i
        (a ∷ answers)
        token
        (if b then (now, true, []) else (rest.0, rest.1, min (5 * 2 ^ i) 300 ∷ rest.2))
step-IsPaced i a answers token now rest true e t h = rw (sym e) (refl, refl, t)
step-IsPaced i a answers token now rest false e t h =
    let (p, q, k) = h refl in rw (sym e) (ap (λ ps. min (5 * 2 ^ i) 300 ∷ ps) p, q, k)

retry-IsPaced :
    (answers : List Answer) (i : ℕ) (st : Enrollment)
    → IsPaced i answers st.token (retry answers (min (5 * 2 ^ i) 300) st)
unfolding retry
retry-IsPaced [] i st = (refl, refl, refl)
retry-IsPaced (a ∷ answers) i st =
    let now = (enroll a st).0 in
    let (e, t) = enroll_lem a st in
    let later : (enroll a st).1 ≡ false
        → IsPaced (suc i) answers st.token
            (retry answers (next_backoff (min (5 * 2 ^ i) 300)) now) =
      λ f.
        subst (λ n. IsPaced (suc i) answers st.token (retry answers n now))
          (sym (next_backoff-pow i))
          (subst (λ k. IsPaced (suc i) answers k (retry answers (min (5 * 2 ^ suc i) 300) now))
            (t ∙ ap (λ b. token_after b st.token) (sym e ∙ f))
            (retry-IsPaced answers (suc i) now)) in
    step-IsPaced i a answers st.token now (retry answers (next_backoff (min (5 * 2 ^ i) 300)) now)
      (enroll a st).1 e (t ∙ ap (λ b. token_after b st.token) (sym e)) later

-- Each attempt that fails is followed by a pause and no other is made: the pauses are as many as
-- the attempts before the first that succeeds, the first of 5 seconds and each twice as long as
-- the one before, up to 5 minutes. The agent ends enrolled exactly when some attempt succeeds, which
-- takes a token, an answer of the server and a saved identity; then the token is spent, and
-- otherwise it is kept.
pub enroll_with_retry-IsPaced :
    (answers : List Answer) (st : Enrollment)
    → IsPaced 0 answers st.token (enroll_with_retry answers st)
unfolding enroll_with_retry
enroll_with_retry-IsPaced answers st = retry-IsPaced answers 0 st
