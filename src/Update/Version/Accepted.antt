-- ===== src/Update/Version/Accepted.antt =====
-- What an accepted version text looks like.
use siembox_endpoint.Prelude.{
  ℕ, suc, ◌≤◌, true, ◌&&◌, some, List, [], ◌∷◌, ◌++◌, Bytes, length, split_at, inl, inr, arith, ◌≡◌,
  refl, Bool-cases, append-nil, &&-eq-true, sym, ◌∙◌, ap, subst, Option-cases, split_at-cases,
}
use siembox_endpoint.Update.Version.{
  Semver, zero_version, flush_part, parse_loop, digits_only, three_numbers, version_re,
  parse_version,
}
use siembox_endpoint.Update.Version.Parse.{
  value, IsComponent, dotted, digits_only-all, parse_version-dotted, parse_loop-digits,
  parse_version_complete,
}

-- The parts that follow the first, each behind its point.
points : List Bytes → Bytes
points [] = []
points (w ∷ ws) = b'.' ∷ (w ++ points ws)

split_at-join : (s w : Bytes) (ws : List Bytes) → split_at b'.' s ≡ w ∷ ws → s ≡ w ++ points ws
unfolding points
split_at-join [] w ws h = ground arith
split_at-join (c ∷ s) w ws h =
    let (w', ws', e) = split_at-cases b'.' s in ground (arith, e, split_at-join s w' ws' e)

-- The pattern lets through only three runs of digits.
three_numbers_sound :
    (l : List Bytes)
    → three_numbers l ≡ true
    → (a b c : Bytes) × (l ≡ a ∷ b ∷ c ∷ [])
      × (digits_only a ≡ true)
      × (digits_only b ≡ true)
      × (digits_only c ≡ true)
unfolding three_numbers
three_numbers_sound (a ∷ b ∷ c ∷ []) h =
    let (x, yz) = &&-eq-true (digits_only a && digits_only b) (digits_only c) h in
    let (p, q) = &&-eq-true (digits_only a) (digits_only b) x in (a, b, c, refl, p, q, yz)
three_numbers_sound _ h = cc

version_re_sound :
    (v : Bytes)
    → version_re v ≡ true
    → (a b c : Bytes) × (v ≡ dotted a b c)
      × (digits_only a ≡ true)
      × (digits_only b ≡ true)
      × (digits_only c ≡ true)
unfolding version_re points
version_re_sound v h =
    let (a, b, c, e, ha, hb, hc) = three_numbers_sound (split_at b'.' v) h in
    (a, b, c, split_at-join v a (b ∷ c ∷ []) e ∙ rw append-nil, ha, hb, hc)

-- A component of more than nine digits is refused.
flush_part-cases :
    (s : Bytes) (idx : ℕ) (out : Semver) {out' : Semver}
    → flush_part s idx out ≡ some out'
    → length s ≤ 9
unfolding flush_part
flush_part-cases s idx out h = ground arith

parse_loop_component :
    (d rest : Bytes) (idx : ℕ) (out : Semver) {out' : Semver}
    → digits_only d ≡ true
    → parse_loop (d ++ (b'.' ∷ rest)) [] idx out ≡ some out'
    → (mid : Semver) × (parse_loop rest [] (suc idx) mid ≡ some out') × (length d ≤ 9)
unfolding parse_loop
parse_loop_component d rest idx out hd h =
    let e = parse_loop-digits d (b'.' ∷ rest) [] idx out (digits_only-all d hd) in
    elim (Option-cases (flush_part d idx out)) [
      | inl n ↦ absurd (let x = sym e ∙ h in ground arith)
      | inr (mid, m) ↦ (mid, (let x = sym e ∙ h in ground arith), flush_part-cases d idx out m)
    ]

parse_loop_last :
    (d : Bytes) (idx : ℕ) (out : Semver) {out' : Semver}
    → digits_only d ≡ true
    → parse_loop d [] idx out ≡ some out'
    → length d ≤ 9
unfolding parse_loop
parse_loop_last d idx out hd h = flush_part-cases d idx out (
    sym (parse_loop-digits d [] [] idx out (digits_only-all d hd))
    ∙ ap (λ t. parse_loop t [] idx out) (append-nil d)
    ∙ h)

components :
    (a b c : Bytes) (x : Semver)
    → digits_only a ≡ true
    → digits_only b ≡ true
    → digits_only c ≡ true
    → parse_loop (dotted a b c) [] 0 zero_version ≡ some x
    → IsComponent a × IsComponent b × IsComponent c
components a b c x ha hb hc h =
    let (m, r, la) = parse_loop_component a (b ++ (b'.' ∷ c)) 0 zero_version ha h in
    let (m', r', lb) = parse_loop_component b c 1 m hb r in
    ((ha, la), (hb, lb), (hc, parse_loop_last c 2 m' hc r'))

abbrev pub Spells : Bytes → Semver → Type 0
Spells v x =
    (a : Bytes) × (b : Bytes) × (c : Bytes) × (v ≡ dotted a b c)
    × IsComponent a
    × IsComponent b
    × IsComponent c
    × (x ≡ record { major = value 0 a; minor = value 0 b; patch = value 0 c })

spells :
    (v a b c : Bytes) (x : Semver)
    → v ≡ dotted a b c
    → digits_only a ≡ true
    → digits_only b ≡ true
    → digits_only c ≡ true
    → parse_version v ≡ some x
    → Spells v x
spells v a b c x e ha hb hc h =
    let h' : parse_version (dotted a b c) ≡ some x = subst (λ t. parse_version t ≡ some x) e h in
    let (ka, kb, kc) =
      components a b c x ha hb hc (sym (parse_version-dotted a b c ha hb hc) ∙ h') in
    (a, b, c, e, ka, kb, kc, cc (h', parse_version_complete a b c ka kb kc))

-- An accepted text is `X.Y.Z` with one to nine digits each, and the components read are the
-- numbers that these spell.
pub parse_version_sound : (v : Bytes) {x : Semver} → parse_version v ≡ some x → Spells v x
unfolding parse_version
parse_version_sound v {x} h = elim (Bool-cases (version_re v)) [
  | inl re ↦ let (a, b, c, e, ha, hb, hc) = version_re_sound v re in spells v a b c x e ha hb hc h
  | inr re ↦ ground arith
]
