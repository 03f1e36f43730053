-- ===== src/Update/Version.antt =====
-- internal/update/version.go: release versions, request ids, and which target a build may move to.
-- A component has at most nine digits, so the numbers stay far below the width of Go's `int`.
pub mod Parse
pub mod Accepted
pub mod Order
use siembox_endpoint.Prelude.{
  ℕ, suc, zero, ◌+◌, ◌-◌, ◌*◌, ◌≤◌, ◌<◌, Bool, true, false, ◌&&◌, ◌||◌, Option, none, some, List,
  [], ◌∷◌, ◌++◌, Bytes, length, all, ltb, leb, ◌==◌, if◌then◌else◌, is_digit, is_hex, is_empty,
  split_at, not, arith, ◌≡◌, refl,
}

-- `^\d+\.\d+\.\d+$`: three non-empty runs of digits with a point between.
abbrev pub digits_only : Bytes → Bool
digits_only [] = false
digits_only (c ∷ s) = all is_digit (c ∷ s)

unfoldable pub three_numbers : List Bytes → Bool
three_numbers (a ∷ b ∷ c ∷ []) = digits_only a && digits_only b && digits_only c
three_numbers _ = false

unfoldable pub version_re : Bytes → Bool
unfolding three_numbers
version_re v = three_numbers (split_at b'.' v)

-- `^[0-9a-fA-F-]{1,64}$`
unfoldable pub valid_request_id : Bytes → Bool
valid_request_id id = leb 1 (length id) && leb (length id) 64 && all (λ c. is_hex c || c == b'-') id

pub record Semver : Type 0 where
  pub major : ℕ
  pub minor : ℕ
  pub patch : ℕ

abbrev pub zero_version : Semver
zero_version = record { major = 0; minor = 0; patch = 0 }

-- `strconv.Atoi` of a text of digits: the regular expression has let through nothing else.
abbrev pub atoi_from : ℕ → Bytes → Option ℕ
atoi_from n [] = some n
atoi_from n (c ∷ s) =
    let rest = atoi_from (n * 10 + (c - b'0')) s in if is_digit c then rest else none

abbrev pub atoi : Bytes → Option ℕ
atoi [] = none
atoi (c ∷ s) = atoi_from 0 (c ∷ s)

-- `out[idx] = n`; a fourth component would be a run-time panic.
set_part : ℕ → ℕ → Semver → Option Semver
set_part zero n v = some (record v { major = n })
set_part (suc zero) n v = some (record v { minor = n })
set_part (suc (suc zero)) n v = some (record v { patch = n })
set_part (suc (suc (suc i))) n v = none

-- the closure `flush` of `ParseVersion`
flush_part : Bytes → ℕ → Semver → Option Semver
unfolding set_part
flush_part part idx out =
    if ltb 9 (length part)
    then none
    else elim (atoi part) [ none ↦ none | some n ↦ set_part idx n out ]

-- the loop over the runes, with its variables `part`, `idx` and `out`
unfoldable pub parse_loop : Bytes → Bytes → ℕ → Semver → Option Semver
unfolding flush_part
parse_loop [] part idx out = flush_part part idx out
parse_loop (r ∷ v) part idx out = elim (r == b'.') [
  | true ↦ elim (flush_part part idx out) [
    | none ↦ none
    | some out' ↦ parse_loop v [] (suc idx) out'
  ]
  | false ↦ parse_loop v (part ++ (r ∷ [])) idx out
]

unfoldable pub parse_version : Bytes → Option Semver
unfolding parse_loop version_re
parse_version v = if not (version_re v) then none else parse_loop v [] 0 zero_version

unfoldable pub valid_version : Bytes → Bool
valid_version v = elim (parse_version v) [ none ↦ false | some _ ↦ true ]

-- `Compare` returns -1, 0 or 1: lower, the same, higher. The loop runs over the three components.
pub data Sign : Type 0 where
  lower same higher : Sign

compare_part : ℕ → ℕ → Sign → Sign
compare_part a b rest = if ltb a b then lower else if ltb b a then higher else rest

unfoldable pub compare : Semver → Semver → Sign
unfolding compare_part
compare a b =
    compare_part a.major b.major (compare_part a.minor b.minor (compare_part a.patch b.patch same))

unfoldable pub is_dev_build : Bytes → Bool
is_dev_build current = not (valid_version current)

-- The errors of `CheckTarget`: `errInvalidVersion` and `notNewerError`.
pub data TargetError : Type 0 where
  invalid_version : TargetError
  not_newer : Bytes → Bytes → TargetError

-- `t.Compare(c) <= 0`
is_newer : Sign → Bool
is_newer higher = true
is_newer _ = false

-- `none` is the nil error.
unfoldable pub check_target : Bytes → Bytes → Option TargetError
unfolding is_newer
check_target current target = elim (parse_version target) [
  | none ↦ some invalid_version
  | some t ↦ elim (parse_version current) [
    | none ↦ none
    | some c ↦ if is_newer (compare t c) then none else some (not_newer current target)
  ]
]
