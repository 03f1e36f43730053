-- ===== src/Update/Sums/Parse.antt =====
-- Lemmas on the loop of `ParseSHA256SUMS`, and what an accepted checksum file says.
use siembox_endpoint.Prelude.{
  ℕ, suc, ◌+◌, Bool, true, false, not, ◌&&◌, ◌||◌, Option, none, some, List, [], ◌∷◌, Bytes, all,
  ◌==◌, if◌then◌else◌, is_hex, is_upper, length, to_lower, str_eq, str_eq_sound, Result, ok, err,
  lookup, insert, scan_lines, lookup-insert, lookup-insert_self, ◌≡◌, ◌≢◌, ◌⊎◌, inl, inr, refl, sym,
  ◌∙◌, subst, subst₂, arith, In, All, Bool-cases, ==_iff, ap, &&-eq-true, lower_byte,
}
use siembox_endpoint.Update.Sums.{
  hex_sum_re, asset_name_re, SumsError, Sums, Line, blank, bad, unsafe, entry, read_line, clashes,
  parse_lines, finish_sums, parse_sums,
}

-- A line that is not blank gives the map an entry.
abbrev pub IsRecorded : Sums → Bytes → Type 0
IsRecorded m line =
    (read_line line ≡ blank)
    ⊎ ((name : Bytes) × (sum : Bytes) × (read_line line ≡ entry name sum)
        × (lookup name m ≡ some sum))

agrees : (o : Option Bytes) (sum v : Bytes) → clashes o sum ≡ false → o ≡ some v → v ≡ sum
unfolding clashes
agrees none sum v h e = cc
agrees (some p) sum v h e = ground (arith, str_eq_sound p sum)

-- Adding an entry that does not clash keeps what is there.
lookup-insert_keep :
    (k name v sum : Bytes) (out : Sums)
    → clashes (lookup name out) sum ≡ false
    → lookup k out ≡ some v
    → lookup k (insert name sum out) ≡ some v
lookup-insert_keep k name v sum out h e =
    lookup-insert name k sum out ∙ elim (Bool-cases (str_eq name k)) [
      | inl q ↦
          let p = str_eq_sound name k q in
          rw q (
            ap some (
              sym
                (agrees (lookup name out) sum v h (subst (λ t. lookup t out ≡ some v) (sym p) e))))
      | inr q ↦ rw q e
    ]

-- The four things that a line can be.
Line-cases :
    (l : Line)
    → (l ≡ blank) ⊎ (l ≡ bad) ⊎ (l ≡ unsafe) ⊎ ((n : Bytes) × (s : Bytes) × (l ≡ entry n s))
Line-cases blank = inl refl
Line-cases bad = inr (inl refl)
Line-cases unsafe = inr (inr (inl refl))
Line-cases (entry n s) = inr (inr (inr (n, s, refl)))

-- One round of the loop that did not fail.
round :
    (l : Bytes) (ls : List Bytes) (n : ℕ) (out m : Sums)
    → parse_lines (l ∷ ls) n out ≡ ok m
    → ((read_line l ≡ blank) × (parse_lines ls (n + 1) out ≡ ok m))
      ⊎ ((name : Bytes) × (sum : Bytes) × (read_line l ≡ entry name sum)
          × (clashes (lookup name out) sum ≡ false)
          × (parse_lines ls (n + 1) (insert name sum out) ≡ ok m))
unfolding parse_lines
round l ls n out m h = elim (Line-cases (read_line l)) [
  | inl e ↦ inl (e, ground (arith, e, h))
  | inr (inl e) ↦ absurd (ground (arith, e, h))
  | inr (inr (inl e)) ↦ absurd (ground (arith, e, h))
  | inr (inr (inr (name, sum, e))) ↦ elim (Bool-cases (clashes (lookup name out) sum)) [
    | inl c ↦ absurd (ground (arith, e, c, h))
    | inr c ↦ inr (name, sum, e, c, ground (arith, e, c, h))
  ]
]

parse_lines-keep :
    (ls : List Bytes) (n : ℕ) (out m : Sums) (k v : Bytes)
    → parse_lines ls n out ≡ ok m
    → lookup k out ≡ some v
    → lookup k m ≡ some v
parse_lines-keep [] n out m k v h e = unfold parse_lines in ground arith
parse_lines-keep (l ∷ ls) n out m k v h e = elim (round l ls n out m h) [
  | inl r ↦ parse_lines-keep ls (n + 1) out m k v (r.1) e
  | inr r ↦
      parse_lines-keep ls (n + 1) (insert (r.0) (r.1) out) m k v (r.4)
        (lookup-insert_keep k (r.0) v (r.1) out (r.3) e)
]

parse_lines-IsRecorded :
    (ls : List Bytes) (n : ℕ) (out m : Sums) → parse_lines ls n out ≡ ok m → All (IsRecorded m) ls
parse_lines-IsRecorded [] n out m h = tt
parse_lines-IsRecorded (l ∷ ls) n out m h = elim (round l ls n out m h) [
  | inl r ↦ (inl (r.0), parse_lines-IsRecorded ls (n + 1) out m (r.1))
  | inr r ↦ (
    inr (
      r.0,
      r.1,
      r.2,
      parse_lines-keep ls (n + 1) (insert (r.0) (r.1) out) m (r.0) (r.1) (r.4)
          (lookup-insert_self (r.0) (r.1) out),
    ),
    parse_lines-IsRecorded ls (n + 1) (insert (r.0) (r.1) out) m (r.4),
  )
]

-- Where an entry of the map comes from.
abbrev pub HasLine : Bytes → Bytes → List Bytes → Type 0
HasLine k v ls = (l : Bytes) × In l ls × (read_line l ≡ entry k v)

parse_lines-origin :
    (ls : List Bytes) (n : ℕ) (out m : Sums) (k v : Bytes)
    → parse_lines ls n out ≡ ok m
    → lookup k m ≡ some v
    → (lookup k out ≡ some v) ⊎ HasLine k v ls
parse_lines-origin [] n out m k v h e = inl (unfold parse_lines in ground arith)
parse_lines-origin (l ∷ ls) n out m k v h e = elim (round l ls n out m h) [
  | inl r ↦ elim (parse_lines-origin ls (n + 1) out m k v (r.1) e) [
    | inl old ↦ inl old
    | inr new ↦ inr (new.0, inr (new.1), new.2)
  ]
  | inr r ↦ elim (parse_lines-origin ls (n + 1) (insert (r.0) (r.1) out) m k v (r.4) e) [
    | inl old ↦ elim (Bool-cases (str_eq (r.0) k)) [
      | inl q ↦
          let p = str_eq_sound (r.0) k q in
          let s : r.1 ≡ v = cc (old, rw q at (lookup-insert (r.0) k (r.1) out)) in
          inr (l, inl refl, subst₂ (λ a b. read_line l ≡ entry a b) p s (r.2))
      | inr q ↦ inl (rw q at (sym (lookup-insert (r.0) k (r.1) out)) ∙ old)
    ]
    | inr new ↦ inr (new.0, inr (new.1), new.2)
  ]
]

-- What a name and a sum have to be.
abbrev pub IsSafe : Bytes → Bytes → Type 0
IsSafe name sum =
    (asset_name_re name ≡ true)
    × (length sum ≡ 64)
    × (all (λ c. is_hex c && not (is_upper c)) sum ≡ true)

lower-hex :
    (c : ℕ) → is_hex c ≡ true → (is_hex (lower_byte c) && not (is_upper (lower_byte c))) ≡ true
lower-hex c h = ground arith

to_lower-hex :
    (s : Bytes) → all is_hex s ≡ true → all (λ c. is_hex c && not (is_upper c)) (to_lower s) ≡ true
to_lower-hex [] h = refl
to_lower-hex (c ∷ s) h =
    let (p, q) = &&-eq-true (is_hex c) (all is_hex s) h in rw (lower-hex c p) (to_lower-hex s q)

length-to_lower : (s : Bytes) → length (to_lower s) ≡ length s
length-to_lower [] = refl
length-to_lower (c ∷ s) = ap suc (length-to_lower s)

hex_sum_re_sound :
    (s : Bytes)
    → hex_sum_re s ≡ true
    → (length (to_lower s) ≡ 64) × (all (λ c. is_hex c && not (is_upper c)) (to_lower s) ≡ true)
unfolding hex_sum_re
hex_sum_re_sound s h =
    let (p, q) = &&-eq-true (length s == 64) (all is_hex s) h in
    (length-to_lower s ∙ (==_iff (length s) 64).0 p, to_lower-hex s q)

-- A line reached the end of the three tests.
entry_of :
    (no_text short hex space safe : Bool) (n s name sum : Bytes)
    → (if no_text
        then blank
        else if short || not hex || not space
        then bad
        else if not safe
        then unsafe
        else entry n s)
      ≡ entry name sum
    → (hex ≡ true) × (safe ≡ true) × (n ≡ name) × (s ≡ sum)
entry_of no_text short hex space safe n s name sum h = ground arith

read_line-IsSafe : (l name sum : Bytes) → read_line l ≡ entry name sum → IsSafe name sum
unfolding read_line
read_line-IsSafe l name sum h =
    let (hex, safe, e, f) = entry_of _ _ _ _ _ _ _ name sum h in
    let (len, low) = hex_sum_re_sound _ hex in
    (
      subst (λ t. asset_name_re t ≡ true) e safe,
      subst (λ t. length t ≡ 64) f len,
      subst (λ t. all (λ c. is_hex c && not (is_upper c)) t ≡ true) f low,
    )

finish_sums_sound :
    (failed : Bool) (r : Result SumsError Sums) (m : Sums)
    → finish_sums failed r ≡ ok m
    → (failed ≡ false) × (r ≡ ok m) × (m ≢ [])
unfolding finish_sums
finish_sums_sound failed (err e) m h = cc
finish_sums_sound true (ok out) m h = cc
finish_sums_sound false (ok []) m h = cc
finish_sums_sound false (ok (x ∷ out)) m h = (refl, h, λ e. cc)

from_line :
    (name sum : Bytes) (ls : List Bytes)
    → (lookup name [] ≡ some sum) ⊎ HasLine name sum ls
    → HasLine name sum ls × IsSafe name sum
unfolding lookup
from_line name sum ls (inl e) = cc
from_line name sum ls (inr f) = (f, read_line-IsSafe (f.0) name sum (f.2))

-- In an accepted checksum file every line that is not blank gives its name exactly the sum that
-- the line states, so no two lines disagree; every entry of the map comes from a line, has a name
-- without a separator and a lower-case sum of 64 digits; the map is not empty.
pub parse_sums_sound :
    (raw : Bytes) {m : Sums}
    → parse_sums raw ≡ ok m
    → (m ≢ [])
      × All (IsRecorded m) (scan_lines 65536 raw).0
      × ((name sum : Bytes)
          → lookup name m ≡ some sum
          → HasLine name sum (scan_lines 65536 raw).0 × IsSafe name sum)
unfolding parse_sums
parse_sums_sound raw {m} h =
    let (f, r, e) =
      finish_sums_sound ((scan_lines 65536 raw).1) (parse_lines ((scan_lines 65536 raw).0) 0 []) m
        h in
    (
      e,
      parse_lines-IsRecorded ((scan_lines 65536 raw).0) 0 [] m r,
      λ name sum k.
          from_line name sum ((scan_lines 65536 raw).0)
            (parse_lines-origin ((scan_lines 65536 raw).0) 0 [] m name sum r k),
    )
