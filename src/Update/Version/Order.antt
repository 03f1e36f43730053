-- ===== src/Update/Version/Order.antt =====
-- The order of versions, and what `CheckTarget` lets through.
use native.Mathlib.Nat.{pow-le-pow_right}
use siembox_endpoint.Prelude.{
  ℕ, ◌+◌, ◌*◌, ◌^◌, ◌≤◌, ◌<◌, none, some, Bytes, length, inl, inr, ◌⊎◌, arith, ◌≡◌, ◌↔◌,
  Option-cases,
}
use siembox_endpoint.Update.Version.{
  Semver, parse_version, lower, same, higher, compare, check_target,
}
use siembox_endpoint.Update.Version.Parse.{value, value-lt, IsComponent, digits_only-all}
use siembox_endpoint.Update.Version.Accepted.{parse_version_sound}

-- Every component is below 10^9, so that it fits Go's `int` with room to spare.
abbrev pub IsBounded : Semver → Type 0
IsBounded x = (x.major < 1_000_000_000) × (x.minor < 1_000_000_000) × (x.patch < 1_000_000_000)

-- A single number that orders bounded versions.
abbrev pub rank : Semver → ℕ
rank x = (x.major * 1_000_000_000 + x.minor) * 1_000_000_000 + x.patch

pow_mono : (n m : ℕ) → n ≤ m → 10 ^ n ≤ 10 ^ m
pow_mono n m h = pow-le-pow_right (omega arith) h

value-bounded : (s : Bytes) → IsComponent s → value 0 s < 1_000_000_000
value-bounded s (hd, hl) =
    omega (arith, value-lt 0 s (digits_only-all s hd), pow_mono (length s) 9 hl)

parse_version-IsBounded : (v : Bytes) {x : Semver} → parse_version v ≡ some x → IsBounded x
parse_version-IsBounded v {x} h =
    let (a, b, c, e, ka, kb, kc, y) = parse_version_sound v h in
    rw y (value-bounded a ka, value-bounded b kb, value-bounded c kc)

-- On bounded versions `Compare` is the order of the ranks, all three answers.
compare-rank :
    (a b : Semver)
    → IsBounded a
    → IsBounded b
    → ((compare a b ≡ lower) ↔ (rank a < rank b))
      × ((compare a b ≡ same) ↔ (rank a ≡ rank b))
      × ((compare a b ≡ higher) ↔ (rank b < rank a))
unfolding compare
compare-rank a b ha hb = ground arith

-- What `CheckTarget` has to find to let an update pass.
abbrev pub MayUpdate : Bytes → Bytes → Type 0
MayUpdate current target =
    (t : Semver) × (parse_version target ≡ some t)
    × ((parse_version current ≡ none)
        ⊎ ((c : Semver) × (parse_version current ≡ some c) × (rank c < rank t)))

check_target_sound :
    (current target : Bytes) → check_target current target ≡ none → MayUpdate current target
unfolding check_target
check_target_sound current target h = elim (Option-cases (parse_version target)) [
  | inl e ↦ ground (arith, e)
  | inr (t, e) ↦ elim (Option-cases (parse_version current)) [
    | inl d ↦ (t, e, inl d)
    | inr (c, d) ↦ (t, e, inr (c, d, newer current target t c e d h))
  ]
]
  where
    newer :
        (current target : Bytes) (t c : Semver)
        → parse_version target ≡ some t
        → parse_version current ≡ some c
        → check_target current target ≡ none
        → rank c < rank t
    newer current target t c e d h =
        let r =
          compare-rank t c (parse_version-IsBounded target e) (parse_version-IsBounded current d) in
        let u : compare t c ≡ higher = ground (arith, e, d, h) in r.2.0 u

check_target_complete :
    (current target : Bytes) → MayUpdate current target → check_target current target ≡ none
unfolding check_target
check_target_complete current target (t, e, inl d) = ground arith
check_target_complete current target (t, e, inr (c, d, lt)) =
    let r =
      compare-rank t c (parse_version-IsBounded target e) (parse_version-IsBounded current d) in
    let u : compare t c ≡ higher = r.2.1 lt in ground (arith, u)

-- `CheckTarget` passes exactly when the target is a release version and the running build is
-- either a dev build or a release of strictly lower rank.
pub check_target_iff :
    (current target : Bytes) → (check_target current target ≡ none) ↔ MayUpdate current target
check_target_iff current target =
    (check_target_sound current target, check_target_complete current target)

-- The versions that a release build runs through by accepted updates.
pub data Upgrades (from : Bytes) : Bytes → Type 0 where
  one : {to : Bytes} → check_target from to ≡ none → Upgrades from to
  more : {mid to : Bytes} → Upgrades from mid → check_target mid to ≡ none → Upgrades from to

upgrade_step :
    (current target : Bytes) (c : Semver)
    → parse_version current ≡ some c
    → check_target current target ≡ none
    → (t : Semver) × (parse_version target ≡ some t) × (rank c < rank t)
upgrade_step current target c e h =
    let (t, d, either) = check_target_sound current target h in
    elim either [
      | inl n ↦ absurd (ground (arith, e, n))
      | inr older ↦ (t, d, ground (arith, e, older))
    ]

-- From a release build, however many accepted updates follow, the version they end at is a
-- release of strictly higher rank: an installed version never comes back.
pub Upgrades-rank :
    {from to : Bytes} (f : Semver)
    → parse_version from ≡ some f
    → Upgrades from to
    → (t : Semver) × (parse_version to ≡ some t) × (rank f < rank t)
Upgrades-rank {from} f e (one {to} h) = upgrade_step from to f e h
Upgrades-rank f e (more {mid} {to} u h) =
    let (m, d, lt) = Upgrades-rank f e u in
    let (t, k, lt') = upgrade_step mid to m d h in (t, k, omega arith)
