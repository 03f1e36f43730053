-- ===== src/Metrics/Numbers.antt =====
-- The functions of Go's standard library that internal/metrics/parse.go uses on words and numbers.
use siembox_endpoint.Prelude.{
  ℕ, zero, suc, leb, ◌&&◌, ◌+◌, ◌-◌, ◌*◌, ◌^◌, Bool, true, false, not, ◌||◌, Option, none, some,
  List, [], ◌∷◌, ◌++◌, Bytes, all, ltb, ◌==◌, if◌then◌else◌, is_digit, is_empty, is_space, length,
  ◌≡◌, refl, ap, ==_refl, arith,
}

-- The size of the Unicode white space of two or three bytes that `c` and what follows it begin
-- with: U+0085, U+00A0, U+1680, U+2000 to U+200A, U+2028, U+2029, U+202F, U+205F, U+3000; else 0.
abbrev pub wide_two : ℕ → ℕ → ℕ
wide_two c x = if c == 194 && (x == 133 || x == 160) then 2 else 0

abbrev pub is_wide_three : ℕ → ℕ → ℕ → Bool
is_wide_three c x y =
    (c == 225 && (x == 154 && y == 128))
    || (c == 226
        && (x == 128 && ((leb 128 y && leb y 138) || (y == 168 || (y == 169 || y == 175)))))
    || (c == 226 && (x == 129 && y == 159))
    || (c == 227 && (x == 128 && y == 128))

unfoldable pub wide_space : ℕ → Bytes → ℕ
wide_space c [] = 0
wide_space c (x ∷ []) = wide_two c x
wide_space c (x ∷ y ∷ s) = if is_wide_three c x y then 3 else wide_two c x

-- `unicode.IsSpace` of the rune that a text begins with: its size, or 0 if it is no white space.
unfoldable pub space_len : Bytes → ℕ
space_len [] = 0
space_len (c ∷ s) = if is_space c then 1 else wide_space c s

abbrev pub starts_word : Bytes → Bool
starts_word [] = false
starts_word (c ∷ s) = space_len (c ∷ s) == 0

-- A character put before the words of what follows it; the flag says whether a word starts there.
abbrev pub join_word : ℕ → Bool → List Bytes → List Bytes
join_word c b [] = (c ∷ []) ∷ []
join_word c true (w ∷ ws) = (c ∷ w) ∷ ws
join_word c false (w ∷ ws) = (c ∷ []) ∷ w ∷ ws

-- The words of a text after its first `n` bytes, which end a white space.
unfoldable pub fields_from : Bytes → ℕ → List Bytes
fields_from [] n = []
fields_from (c ∷ s) (suc n) = fields_from s n
fields_from (c ∷ s) zero = elim (space_len (c ∷ s)) [
  | zero ↦ join_word c (starts_word s) (fields_from s 0)
  | suc n ↦ fields_from s n
]

-- `strings.Fields`
unfoldable pub fields : Bytes → List Bytes
fields s = fields_from s 0

-- `f[i]`, where the source has tested the length
abbrev pub word : ℕ → List Bytes → Bytes
word i [] = []
word i (w ∷ ws) = let rest = word (i - 1) ws in if i == 0 then w else rest

abbrev pub word_count : List Bytes → ℕ
word_count = length

-- `strings.IndexByte` and `strings.LastIndexByte`
unfoldable pub index_byte : ℕ → Bytes → Option ℕ
index_byte b [] = none
index_byte b (c ∷ s) =
    let rest = index_byte b s in
    if c == b then some 0 else elim rest [ none ↦ none | some i ↦ some (i + 1) ]

unfoldable pub last_index_byte : ℕ → Bytes → Option ℕ
last_index_byte b [] = none
last_index_byte b (c ∷ s) =
    let rest = last_index_byte b s in
    elim rest [ some i ↦ some (i + 1) | none ↦ if c == b then some 0 else none ]

abbrev pub value : Bytes → ℕ → ℕ
value [] v = v
value (c ∷ s) v = value s (v * 10 + (c - 48))

-- The outcome of `strconv.ParseUint` and `ParseInt`: a number, a text that is none, or one too
-- large, where the returned value is the bound.
pub data Parsed : Type 0 where
  number : ℕ → Parsed
  syntax range : Parsed

unfoldable pub parse_uint : Bytes → Parsed
parse_uint s =
    if is_empty s || not (all is_digit s)
    then syntax
    else if ltb (value s 0) (2 ^ 64)
    then number (value s 0)
    else range

-- the value alone, `v, _ := ParseUint(...)`
unfoldable pub uint_or : Parsed → ℕ
uint_or (number v) = v
uint_or syntax = 0
uint_or range = 2 ^ 64 - 1

-- `ParseInt` with its error dropped, and negative values raised to 0.
abbrev pub natural_of : Bytes → ℕ
natural_of s =
    if is_empty s || not (all is_digit s)
    then 0
    else if ltb (value s 0) (2 ^ 63)
    then value s 0
    else 2 ^ 63 - 1

unfoldable pub int_or_zero : Bytes → ℕ
int_or_zero [] = 0
int_or_zero (c ∷ s) =
    if c == b'-' then 0 else if c == b'+' then natural_of s else natural_of (c ∷ s)

-- The last occurrence of a byte that does not stand in what follows.
pub last_index_byte_found :
    (b : ℕ) (w rest : Bytes)
    → all (λ c. not (c == b)) rest ≡ true
    → last_index_byte b (w ++ (b ∷ rest)) ≡ some (length w)
unfolding last_index_byte
last_index_byte_found b [] rest h = rw (absent rest h, ==_refl b)
  where
    absent : (s : Bytes) → all (λ c. not (c == b)) s ≡ true → last_index_byte b s ≡ none
    absent [] k = refl
    absent (c ∷ s) k =
        let e : (c == b) ≡ false = ground arith in
        let i : all (λ c. not (c == b)) s ≡ true = ground arith in rw (absent s i, e)
last_index_byte_found b (c ∷ w) rest h =
    rw (last_index_byte_found b w rest h) (ap (λ n. some n) (omega arith))

pub index_byte_found :
    (b : ℕ) (w rest : Bytes)
    → all (λ c. not (c == b)) w ≡ true
    → index_byte b (w ++ (b ∷ rest)) ≡ some (length w)
unfolding index_byte
index_byte_found b [] rest h = rw (==_refl b)
index_byte_found b (c ∷ w) rest h =
    let e : (c == b) ≡ false = ground arith in
    let i : all (λ c. not (c == b)) w ≡ true = ground arith in
    rw (index_byte_found b w rest i, e) (ap (λ n. some n) (omega arith))
