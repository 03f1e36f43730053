-- ===== src/Metrics/Memory.antt =====
-- The memory numbers that reach a report.
use siembox_endpoint.Prelude.{
  ℕ, ◌+◌, ◌*◌, none, ◌⊎◌, Option-cases, ◌%◌, ◌^◌, ◌≤◌, ◌<◌, ◌&&◌, ◌||◌, Option, some, List, [], ◌∷◌,
  Bytes, ltb, ◌==◌, is_empty, cut_at, str_eq, codes, lookup, insert, lookup-insert,
  lookup-insert_ne, Result, ok, err, ◌≡◌, refl, ◌∙◌, sym, arith, option_elim, if_elim, subst,
  Bool-cases, inl, inr,
}
use siembox_endpoint.Metrics.Numbers.{
  fields, word, word_count, Parsed, number, syntax, range, parse_uint,
}
use siembox_endpoint.Metrics.Linux.{
  Values, MemInfo, ParseError, scaled, read_value, read_values, get, available, used_of,
  parse_meminfo, lines_of,
}

abbrev pub IsUint : ℕ → Type 0
IsUint v = v < 2 ^ 64

abbrev pub Uints : Values → Type 0
Uints kv = (key : Bytes) (v : ℕ) → lookup key kv ≡ some v → IsUint v

parse_uint-IsUint : (s : Bytes) (v : ℕ) → parse_uint s ≡ number v → IsUint v
unfolding parse_uint
parse_uint-IsUint s v h = ground arith

scaled-IsUint : (f : List Bytes) (v : ℕ) → IsUint v → IsUint (scaled f v)
unfolding scaled
scaled-IsUint f v h =
    if_elim IsUint (ltb 1 (word_count f) && str_eq (word 1 f) (codes "kB")) ((v * 1024) % 2 ^ 64) v
      (λ _. omega arith) (λ _. h)

some_value : (a b : ℕ) → ◌≡◌ {A = Option ℕ} (some a) (some b) → a ≡ b
some_value a b h = cc

insert-Uints : (key : Bytes) (v : ℕ) (kv : Values) → IsUint v → Uints kv → Uints (insert key v kv)
insert-Uints key v kv h u k w e = elim (Bool-cases (str_eq key k)) [
  | inl same ↦
      let found : lookup k (insert key v kv) ≡ some v = lookup-insert key k v kv ∙ rw same refl in
      subst IsUint (some_value v w (sym found ∙ e)) h
  | inr other ↦ u k w (sym (lookup-insert_ne key k v kv other) ∙ e)
]

read_value-Uints : (line : Bytes) (kv : Values) → Uints kv → Uints (read_value line kv)
unfolding read_value
read_value-Uints line kv u =
    option_elim Uints (cut_at b':' line) kv _ (λ _. u)
      (λ cut _.
        if_elim Uints (is_empty cut.0 || word_count (fields cut.1) == 0) kv _ (λ _. u)
          (λ _.
            kept cut.0 (fields cut.1) (parse_uint (word 0 (fields cut.1)))
              (parse_uint-IsUint (word 0 (fields cut.1)))))
  where
    kept :
        (key : Bytes) (f : List Bytes) (p : Parsed)
        → ((v : ℕ) → p ≡ number v → IsUint v)
        → Uints (elim p [ number v ↦ insert key (scaled f v) kv | syntax ↦ kv | range ↦ kv ])
    kept key f (number v) h = insert-Uints key (scaled f v) kv (scaled-IsUint f v (h v refl)) u
    kept key f syntax h = u
    kept key f range h = u

read_values-Uints : (lines : List Bytes) (kv : Values) → Uints kv → Uints (read_values lines kv)
unfolding read_values
read_values-Uints [] kv u = u
read_values-Uints (line ∷ lines) kv u =
    read_values-Uints lines (read_value line kv) (read_value-Uints line kv u)

get-IsUint : (key : Bytes) (kv : Values) → Uints kv → IsUint (get key kv)
get-IsUint key kv u =
    option_elim IsUint (lookup key kv) 0 (λ v. v) (λ _. omega arith) (λ v e. u key v e)

-- What is used of a whole when a part is available: the rest, or nothing when the part is no less
-- than the whole.
abbrev pub IsUsed : ℕ → ℕ → ℕ → Type 0
IsUsed whole part used = ((part < whole) × (used + part ≡ whole)) ⊎ ((whole ≤ part) × (used ≡ 0))

used_of-IsUsed :
    (whole part : ℕ) → IsUint whole → IsUint part → IsUsed whole part (used_of whole part)
unfolding used_of
used_of-IsUsed whole part h k = elim (Bool-cases (ltb part whole)) [
  | inl e ↦ rw e (inl (ground arith, ground arith))
  | inr e ↦ rw e (inr (ground arith, refl))
]

-- The available memory: what the file says, or else the sum of four other values.
abbrev pub IsAvailable : Values → ℕ → Type 0
IsAvailable kv a =
    (lookup (codes "MemAvailable") kv ≡ some a)
    ⊎ ((lookup (codes "MemAvailable") kv ≡ none)
        × (a
            ≡ (get (codes "MemFree") kv
                + get (codes "Buffers") kv
                + get (codes "Cached") kv
                + get (codes "SReclaimable") kv)
              % 2 ^ 64))

available-IsAvailable :
    (kv : Values) → Uints kv → IsAvailable kv (available kv) × IsUint (available kv)
unfolding available
available-IsAvailable kv u = elim (Option-cases (lookup (codes "MemAvailable") kv)) [
  | inl e ↦ rw (e, available) (inr (refl, refl), omega arith)
  | inr (v, e) ↦ rw (e, available) (inl refl, u (codes "MemAvailable") v e)
]

-- The report against the values of the file.
abbrev pub IsBounded : Values → Result ParseError MemInfo → Type 0
IsBounded kv (err e) = get (codes "MemTotal") kv ≡ 0
IsBounded kv (ok m) =
    (free : ℕ) × IsAvailable kv free
    × (m.total ≡ get (codes "MemTotal") kv)
    × (m.swap_total ≡ get (codes "SwapTotal") kv)
    × IsUsed m.total free m.used
    × IsUsed m.swap_total (get (codes "SwapFree") kv) m.swap_used
    × (0 < m.total)
    × (m.used ≤ m.total)
    × (m.swap_used ≤ m.swap_total)
    × (m.total < 2 ^ 64)
    × (m.swap_total < 2 ^ 64)

IsUsed-le : (whole part used : ℕ) → IsUsed whole part used → used ≤ whole
IsUsed-le whole part used (inl (a, b)) = omega arith
IsUsed-le whole part used (inr (a, b)) = omega arith

-- A report of the memory agrees with the values of the file and is within bounds, whatever the
-- file says. Without a positive total there is only an error. Otherwise used is the total less the
-- available memory, or 0 when no less than the total is available, where the available memory is
-- the file's own value or else the sum of the free, buffer, cache and reclaimable memory; the same
-- holds of the swap space and its free part; no more than the total is used, and both totals fit
-- an uint64.
pub parse_meminfo-IsBounded :
    (raw : Bytes) → IsBounded (read_values (lines_of raw) []) (parse_meminfo raw)
unfolding parse_meminfo lookup
parse_meminfo-IsBounded raw =
    let kv = read_values (lines_of raw) [] in
    let u : Uints kv = read_values-Uints (lines_of raw) [] (λ key v e. cc e) in
    let total = get (codes "MemTotal") kv in
    let swap = get (codes "SwapTotal") kv in
    let t : IsUint total = get-IsUint (codes "MemTotal") kv u in
    let w : IsUint swap = get-IsUint (codes "SwapTotal") kv u in
    let (a, i) = available-IsAvailable kv u in
    let memory : IsUsed total (available kv) (used_of total (available kv)) =
      used_of-IsUsed total (available kv) t i in
    let swapped : IsUsed swap (get (codes "SwapFree") kv)
        (used_of swap (get (codes "SwapFree") kv)) =
      used_of-IsUsed swap (get (codes "SwapFree") kv) w (get-IsUint (codes "SwapFree") kv u) in
    if_elim (IsBounded kv) (total == 0) _ _ (λ z. ground arith)
      (λ some_total. (
        available kv,
        a,
        refl,
        refl,
        memory,
        swapped,
        ground arith,
        IsUsed-le total (available kv) _ memory,
        IsUsed-le swap (get (codes "SwapFree") kv) _ swapped,
        t,
        w,
      ))
