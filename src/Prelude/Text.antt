-- ===== src/Prelude/Text.antt =====
-- Go strings as lists of bytes, and the operations of `strings` that the source uses.
-- White space and letter case are the ASCII ones.
use Prim.Native.Char.{code}
use Prim.Native.Nat.{ℕ, ◌+◌, ◌-◌}
use Prim.Native.String.{String}
use mathlib.Core.Path.{◌≡◌, refl}
use mathlib.Core.Logic.{◌↔◌, inl, inr}
use mathlib.Core.Bool.{Bool, true, false, ◌&&◌, ◌||◌}
use mathlib.Core.Option.{Option, none, some}
use mathlib.Core.List.{List, [], ◌∷◌, ◌++◌, map, reverse}
use native.Mathlib.Omega.{arith}
use siembox_endpoint.Prelude.Tests.{leb, ◌==◌, if◌then◌else◌, Bool-cases}

abbrev pub Bytes : Type 0
Bytes = List ℕ

-- The bytes of an ASCII literal.
abbrev pub codes : String → Bytes
codes String.[] = []
codes (String.◌∷◌ c s) = code c ∷ codes s

abbrev pub str_eq : Bytes → Bytes → Bool
str_eq [] [] = true
str_eq [] (y ∷ ys) = false
str_eq (x ∷ xs) [] = false
str_eq (x ∷ xs) (y ∷ ys) = x == y && str_eq xs ys

pub str_eq_sound : (s t : Bytes) → str_eq s t ≡ true → s ≡ t
str_eq_sound [] [] h = refl
str_eq_sound [] (y ∷ ys) h = cc
str_eq_sound (x ∷ xs) [] h = cc
str_eq_sound (x ∷ xs) (y ∷ ys) h = ground (arith, str_eq_sound xs ys)

pub str_eq_refl : (s : Bytes) → str_eq s s ≡ true
str_eq_refl [] = refl
str_eq_refl (x ∷ xs) = ground (arith, str_eq_refl xs)

pub str_eq_iff : (s t : Bytes) → (str_eq s t ≡ true) ↔ (s ≡ t)
str_eq_iff s t = (str_eq_sound s t, λ e. rw e (str_eq_refl t))

abbrev pub is_empty : Bytes → Bool
is_empty [] = true
is_empty (x ∷ xs) = false

abbrev pub is_digit : ℕ → Bool
is_digit c = leb b'0' c && leb c b'9'

abbrev pub is_upper : ℕ → Bool
is_upper c = leb b'A' c && leb c b'Z'

abbrev pub is_lower : ℕ → Bool
is_lower c = leb b'a' c && leb c b'z'

abbrev pub is_alnum : ℕ → Bool
is_alnum c = is_digit c || is_upper c || is_lower c

-- `[0-9a-fA-F]`
abbrev pub is_hex : ℕ → Bool
is_hex c = is_digit c || (leb b'a' c && leb c b'f') || (leb b'A' c && leb c b'F')

-- tab, line feed, vertical tab, form feed, carriage return, space
abbrev pub is_space : ℕ → Bool
is_space c = (leb 9 c && leb c 13) || c == 32

abbrev pub lower_byte : ℕ → ℕ
lower_byte c = if is_upper c then c + 32 else c

abbrev pub upper_byte : ℕ → ℕ
upper_byte c = if is_lower c then c - 32 else c

abbrev pub to_lower : Bytes → Bytes
to_lower = map lower_byte

abbrev pub to_upper : Bytes → Bytes
to_upper = map upper_byte

-- `strings.EqualFold`
abbrev pub equal_fold : Bytes → Bytes → Bool
equal_fold s t = str_eq (to_lower s) (to_lower t)

abbrev pub drop_while : (ℕ → Bool) → Bytes → Bytes
drop_while p [] = []
drop_while p (c ∷ s) = let rest = drop_while p s in if p c then rest else c ∷ s

abbrev pub trim_right : (ℕ → Bool) → Bytes → Bytes
trim_right p s = reverse (drop_while p (reverse s))

-- `strings.TrimSpace`
abbrev pub trim_space : Bytes → Bytes
trim_space s = trim_right is_space (drop_while is_space s)

-- `strings.CutPrefix`: what follows the prefix, if it is there.
abbrev pub cut_prefix : Bytes → Bytes → Option Bytes
cut_prefix [] s = some s
cut_prefix (p ∷ ps) [] = none
cut_prefix (p ∷ ps) (c ∷ s) = let rest = cut_prefix ps s in if p == c then rest else none

abbrev pub has_prefix : Bytes → Bytes → Bool
has_prefix p s = elim (cut_prefix p s) [ none ↦ false | some _ ↦ true ]

abbrev pub trim_prefix : Bytes → Bytes → Bytes
trim_prefix p s = elim (cut_prefix p s) [ none ↦ s | some r ↦ r ]

-- `strings.CutSuffix`
abbrev pub cut_suffix : Bytes → Bytes → Option Bytes
cut_suffix p s = elim (cut_prefix (reverse p) (reverse s)) [
  | none ↦ none
  | some r ↦ some (reverse r)
]

abbrev pub trim_suffix : Bytes → Bytes → Bytes
trim_suffix p s = elim (cut_suffix p s) [ none ↦ s | some r ↦ r ]

abbrev pub has_suffix : Bytes → Bytes → Bool
has_suffix p s = has_prefix (reverse p) (reverse s)

-- `strings.Contains`
abbrev pub contains : Bytes → Bytes → Bool
contains p [] = has_prefix p []
contains p (c ∷ s) = has_prefix p (c ∷ s) || contains p s

-- `strings.Cut` at a byte: before and after its first occurrence.
abbrev pub cut_at : ℕ → Bytes → Option (Bytes × Bytes)
cut_at b [] = none
cut_at b (c ∷ s) =
    let rest = cut_at b s in
    if c == b then some ([], s) else elim rest [ none ↦ none | some (l, r) ↦ some (c ∷ l, r) ]

-- `strings.Split` at a byte.
abbrev pub split_at : ℕ → Bytes → List Bytes
split_at b [] = [] ∷ []
split_at b (c ∷ s) =
    let rest = split_at b s in
    if c == b then [] ∷ rest else elim rest [ [] ↦ (c ∷ []) ∷ [] | w ∷ ws ↦ (c ∷ w) ∷ ws ]

pub cut_prefix_sound : (p s r : Bytes) → cut_prefix p s ≡ some r → s ≡ p ++ r
cut_prefix_sound [] s r h = cc
cut_prefix_sound (p ∷ ps) [] r h = cc
cut_prefix_sound (p ∷ ps) (c ∷ s) r h = ground (arith, cut_prefix_sound ps s r)

pub cut_prefix-append : (p r : Bytes) → cut_prefix p (p ++ r) ≡ some r
cut_prefix-append [] r = refl
cut_prefix-append (p ∷ ps) r = ground (arith, cut_prefix-append ps r)

-- A split has a first part.
pub split_at-cases : (b : ℕ) (s : Bytes) → (w : Bytes) × (ws : List Bytes) × (split_at b s ≡ w ∷ ws)
split_at-cases b [] = ([], [], refl)
split_at-cases b (c ∷ s) =
    let (w, ws, e) = split_at-cases b s in
    elim (Bool-cases (c == b)) [ inl p ↦ ([], split_at b s, rw p) | inr p ↦ (c ∷ w, ws, rw (p, e)) ]
