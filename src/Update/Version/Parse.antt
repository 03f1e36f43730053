-- ===== src/Update/Version/Parse.antt =====
-- What `ParseVersion` accepts, and the numbers that it reads.
use siembox_endpoint.Prelude.{
  ℕ, suc, ◌+◌, ◌-◌, ◌*◌, ◌^◌, ◌≤◌, ◌<◌, true, false, some, List, [], ◌∷◌, ◌++◌, Bytes, length, all,
  ltb, ◌==◌, is_digit, split_at, arith, ◌≡◌, refl, append_assoc, append-nil, sym, ◌∙◌, ap,
}
use native.Mathlib.Nat.{pow-suc, mul-le-mul_right}
use siembox_endpoint.Update.Version.{
  Semver, zero_version, atoi, atoi_from, set_part, flush_part, parse_loop, digits_only,
  parse_version,
}

-- The number that digits spell behind `n`.
abbrev pub value : ℕ → Bytes → ℕ
value n [] = n
value n (c ∷ s) = value (n * 10 + (c - b'0')) s

-- One to nine digits.
abbrev pub IsComponent : Bytes → Type 0
IsComponent s = (digits_only s ≡ true) × (length s ≤ 9)

abbrev pub dotted : Bytes → Bytes → Bytes → Bytes
dotted a b c = a ++ (b'.' ∷ (b ++ (b'.' ∷ c)))

pub digits_only-all : (s : Bytes) → digits_only s ≡ true → all is_digit s ≡ true
digits_only-all [] h = refl
digits_only-all (c ∷ s) h = h

atoi_from-value : (n : ℕ) (s : Bytes) → all is_digit s ≡ true → atoi_from n s ≡ some (value n s)
atoi_from-value n [] h = refl
atoi_from-value n (c ∷ s) h = ground (arith, atoi_from-value (n * 10 + (c - b'0')) s)

atoi-value : (s : Bytes) → digits_only s ≡ true → atoi s ≡ some (value 0 s)
atoi-value [] h = cc
atoi-value (c ∷ s) h = atoi_from-value 0 (c ∷ s) h

-- A run of digits is collected in `part`.
pub parse_loop-digits :
    (d rest part : Bytes) (idx : ℕ) (out : Semver)
    → all is_digit d ≡ true
    → parse_loop (d ++ rest) part idx out ≡ parse_loop rest (part ++ d) idx out
unfolding parse_loop
parse_loop-digits [] rest part idx out h = rw append-nil
parse_loop-digits (c ∷ d) rest part idx out h =
    let p : (c == b'.') ≡ false = ground arith in
    let q : all is_digit d ≡ true = ground arith in
    rw (p, parse_loop) (parse_loop-digits d rest (part ++ c ∷ []) idx out q ∙ rw append_assoc)

-- The number is below the power of ten of its length.
pub value-lt : (n : ℕ) (s : Bytes) → all is_digit s ≡ true → value n s < (n + 1) * 10 ^ length s
value-lt n [] h = omega arith
value-lt n (c ∷ s) h =
    let q : all is_digit s ≡ true = ground arith in
    let d : c - b'0' ≤ 9 = ground arith in
    let m = 10 ^ length s in
    let step =
      mul-le-mul_right m (let e : n * 10 + (c - b'0') + 1 ≤ (n + 1) * 10 = omega arith in e) in
    rw (pow-suc 10 (length s)) (omega (arith, value-lt (n * 10 + (c - b'0')) s q, step))

-- The components of a text with the pattern, and the other way round.
split_at-digits :
    (d rest : Bytes) (w : Bytes) (ws : List Bytes)
    → all is_digit d ≡ true
    → split_at b'.' rest ≡ w ∷ ws
    → split_at b'.' (d ++ rest) ≡ (d ++ w) ∷ ws
split_at-digits [] rest w ws h e = e
split_at-digits (c ∷ d) rest w ws h e =
    let p : (c == b'.') ≡ false = ground arith in
    let q : all is_digit d ≡ true = ground arith in rw (split_at-digits d rest w ws q e, p)

split_at_run : (d : Bytes) → all is_digit d ≡ true → split_at b'.' d ≡ d ∷ []
split_at_run [] h = refl
split_at_run (c ∷ d) h =
    let p : (c == b'.') ≡ false = ground arith in
    let q : all is_digit d ≡ true = ground arith in rw (split_at_run d q, p)

split_at-dotted :
    (a b c : Bytes)
    → all is_digit a ≡ true
    → all is_digit b ≡ true
    → all is_digit c ≡ true
    → split_at b'.' (dotted a b c) ≡ a ∷ b ∷ c ∷ []
split_at-dotted a b c ha hb hc =
    let second = split_at-digits b (b'.' ∷ c) [] (c ∷ []) hb (rw (split_at_run c hc)) in
    split_at-digits a (b'.' ∷ (b ++ (b'.' ∷ c))) [] (b ∷ c ∷ []) ha (rw (second, append-nil))
    ∙ rw append-nil

-- What `ParseVersion` makes of three runs of digits.
pub parse_version-dotted :
    (a b c : Bytes)
    → digits_only a ≡ true
    → digits_only b ≡ true
    → digits_only c ≡ true
    → parse_version (dotted a b c) ≡ parse_loop (dotted a b c) [] 0 zero_version
unfolding parse_version
parse_version-dotted a b c ha hb hc =
    let e =
      split_at-dotted a b c (digits_only-all a ha) (digits_only-all b hb) (digits_only-all c hc) in
    rw (e, ha, hb, hc)

-- One component ends at a point or at the end of the text.
flush_part-component :
    (s : Bytes) (idx : ℕ) (out : Semver)
    → IsComponent s
    → flush_part s idx out ≡ set_part idx (value 0 s) out
unfolding flush_part
flush_part-component s idx out (hd, hl) =
    let fits : ltb 9 (length s) ≡ false = ground arith in rw (fits, atoi-value s hd)

parse_loop_point :
    (d rest : Bytes) (idx : ℕ) (out : Semver) {out' : Semver}
    → IsComponent d
    → set_part idx (value 0 d) out ≡ some out'
    → parse_loop (d ++ (b'.' ∷ rest)) [] idx out ≡ parse_loop rest [] (suc idx) out'
unfolding parse_loop
parse_loop_point d rest idx out h e =
    parse_loop-digits d (b'.' ∷ rest) [] idx out (digits_only-all d h.0)
    ∙ rw (flush_part-component d idx out h ∙ e, parse_loop)

parse_loop_end :
    (d : Bytes) (idx : ℕ) (out : Semver)
    → IsComponent d
    → parse_loop d [] idx out ≡ set_part idx (value 0 d) out
unfolding parse_loop
parse_loop_end d idx out h =
    ap (λ t. parse_loop t [] idx out) (sym (append-nil d))
    ∙ parse_loop-digits d [] [] idx out (digits_only-all d h.0)
    ∙ flush_part-component d idx out h

-- Every text `X.Y.Z` of components is accepted, with the numbers that its digits spell.
pub parse_version_complete :
    (a b c : Bytes)
    → IsComponent a
    → IsComponent b
    → IsComponent c
    → parse_version (dotted a b c)
      ≡ some (record { major = value 0 a; minor = value 0 b; patch = value 0 c })
unfolding set_part
parse_version_complete a b c ha hb hc =
    parse_version-dotted a b c ha.0 hb.0 hc.0
    ∙ parse_loop_point a (b ++ (b'.' ∷ c)) 0 zero_version ha refl
    ∙ parse_loop_point b c 1 (record zero_version { major = value 0 a }) hb refl
    ∙ parse_loop_end c 2 (record zero_version { major = value 0 a; minor = value 0 b }) hc
