-- ===== src/Update/Extract/Written.antt =====
-- What the extraction of an archive's entry leaves on the disk.
use siembox_endpoint.Prelude.{
  ℕ, ◌+◌, ◌≤◌, Bool, true, false, not, ◌||◌, Option, none, some, List, [], ◌∷◌, Bytes, ltb, length,
  take, take_all, length-take, str_eq, In, ◌≡◌, refl, sym, ◌∙◌, ap, subst, ◌⊎◌, inl, inr, arith,
  if_elim, option_elim, Bool-cases, Option-cases,
}
use siembox_endpoint.Update.Disk.{Disk, put, remove, put_same, put_other, remove_other}
use siembox_endpoint.Update.Download.{Body, limited_error}
use siembox_endpoint.Update.Extract.{
  ExtractError, Entry, Archive, Fs, copied, first_error, write_limited, find_entry, extract,
  outside,
}

-- The whole content of a regular entry of that name.
abbrev pub IsEntry : (Bytes → Bytes) → Bytes → List Entry → Bytes → Type 0
IsEntry base want entries content =
    (e : Entry) × In e entries
    × (e.regular ≡ true)
    × (str_eq (base e.name) want ≡ true)
    × (e.body.content ≡ content)
    × (e.body.broken ≡ none)

find_entry_sound :
    (base : Bytes → Bytes) (want : Bytes) (entries : List Entry) (e : Entry)
    → find_entry base want entries ≡ some e
    → In e entries × (e.regular ≡ true) × (str_eq (base e.name) want ≡ true)
unfolding find_entry
find_entry_sound base want [] e h = cc
find_entry_sound base want (x ∷ entries) e h =
    elim (Bool-cases (not x.regular || not (str_eq (base x.name) want))) [
      | inl skip ↦
          let (m, r, n) = find_entry_sound base want entries e (sym (rw skip refl) ∙ h) in
          (inr m, r, n)
      | inr take ↦
          subst (λ y. In y (x ∷ entries) × (y.regular ≡ true) × (str_eq (base y.name) want ≡ true))
            (some_injective (sym (rw take refl) ∙ h)) (inl refl, ground arith, ground arith)
    ]
  where
    some_injective : {a b : Entry} → ◌≡◌ {A = Option Entry} (some a) (some b) → a ≡ b
    some_injective h = cc

-- Only the file at `dest` changes, and without an error it has the whole body.
abbrev pub IsWritten : Bytes → Body → ℕ → Disk → Disk × Option ExtractError → Type 0
IsWritten dest body limit disk (after, some e) =
    (q : Bytes) → (str_eq dest q ≡ true) ⊎ (after q ≡ disk q)
IsWritten dest body limit disk (after, none) =
    (after dest ≡ some body.content)
    × (length body.content ≤ limit)
    × (body.broken ≡ none)
    × ((q : Bytes) → (str_eq dest q ≡ true) ⊎ (after q ≡ disk q))

put_elsewhere :
    (dest content : Bytes) (disk : Disk) (q : Bytes)
    → (str_eq dest q ≡ true) ⊎ (put dest content disk q ≡ disk q)
put_elsewhere dest content disk q = elim (Bool-cases (str_eq dest q)) [
  | inl h ↦ inl h
  | inr h ↦ inr (put_other dest content disk q h)
]

removed_elsewhere :
    (works : Bool) (dest content : Bytes) (disk : Disk) (q : Bytes)
    → (str_eq dest q ≡ true) ⊎ (remove works dest (put dest content disk) q ≡ disk q)
removed_elsewhere works dest content disk q = elim (Bool-cases (str_eq dest q)) [
  | inl h ↦ inl h
  | inr h ↦
      inr (remove_other works dest (put dest content disk) q h ∙ put_other dest content disk q h)
]

abbrev pub IsWhole : Body → ℕ → Bytes → Type 0
IsWhole body limit got = (got ≡ body.content) × (length body.content ≤ limit) × (body.broken ≡ none)

limited-IsWhole :
    (limit : ℕ) (body : Body)
    → limited_error limit body ≡ none
    → ltb limit (length (take (limit + 1) body.content)) ≡ false
    → IsWhole body limit (take (limit + 1) body.content)
limited-IsWhole limit body h small =
    let short : length body.content ≤ limit =
      ground (arith, length-take (limit + 1) body.content) in
    let fits : ltb limit (length body.content) ≡ false = ground arith in
    (take_all (limit + 1) body.content (omega (arith, short)), short, sym (rw fits refl) ∙ h)

copied_fine :
    (fs : Fs) (limit : ℕ) (body : Body)
    → fs.write ≡ none
    → copied fs limit body ≡ (take (limit + 1) body.content, limited_error limit body)
unfolding copied
copied_fine fs limit body h = rw (h, copied) refl

copied_failed :
    (fs : Fs) (limit : ℕ) (body : Body) {w : Bytes × Bytes}
    → fs.write ≡ some w
    → (copied fs limit body).1 ≡ some w.1
unfolding copied
copied_failed fs limit body h = rw (h, copied) refl

-- A copy without an error that is within the limit is the whole body.
copied-IsWhole :
    (fs : Fs) (limit : ℕ) (body : Body)
    → (copied fs limit body).1 ≡ none
    → ltb limit (length (copied fs limit body).0) ≡ false
    → IsWhole body limit (copied fs limit body).0
copied-IsWhole fs limit body h small = elim (Option-cases fs.write) [
  | inl fine ↦
      let e = copied_fine fs limit body fine in
      subst (λ r. IsWhole body limit r.0) (sym e)
        (limited-IsWhole limit body (sym (ap (λ r. r.1) e) ∙ h)
          (sym (ap (λ r. ltb limit (length r.0)) e) ∙ small))
  | inr (w, failed) ↦ cc (copied_failed fs limit body failed, h)
]

first_error-none : (a b : Option Bytes) → first_error a b ≡ none → a ≡ none
first_error-none none b h = refl
first_error-none (some e) b h = cc

write_limited-IsWritten :
    (fs : Fs) (dest : Bytes) (body : Body) (limit : ℕ) (disk : Disk)
    → IsWritten dest body limit disk (write_limited fs dest body limit disk)
unfolding write_limited
write_limited-IsWritten fs dest body limit disk =
    let got = (copied fs limit body).0 in
    let P = IsWritten dest body limit disk in
    option_elim P fs.create _ _
      (λ _.
        option_elim P (first_error (copied fs limit body).1 fs.close) _ _
          (λ fine.
            if_elim P (ltb limit (length got)) _ _ (λ _. removed_elsewhere fs.removes dest got disk)
              (λ small.
                let whole =
                  copied-IsWhole fs limit body
                    (first_error-none (copied fs limit body).1 fs.close fine) small in
                option_elim (λ o. P (put dest got disk, o)) fs.chmod none (λ e. some (outside e))
                  (λ _. (
                    put_same dest got disk ∙ ap (λ c. some c) whole.0,
                    whole.1,
                    whole.2,
                    put_elsewhere dest got disk,
                  ))
                  (λ e _. put_elsewhere dest got disk)))
          (λ e _. removed_elsewhere fs.removes dest got disk))
      (λ e _ q. inr refl)

-- What `extract` leaves: only the destination changes, and without an error it is the whole
-- content of an entry of that name, within the limit.
abbrev pub IsExtracted :
    (Bytes → Bytes) → Bytes → Archive → Bytes → ℕ → Disk → Disk × Option ExtractError → Type 0
IsExtracted base want archive dest limit disk (after, some e) =
    (q : Bytes) → (str_eq dest q ≡ true) ⊎ (after q ≡ disk q)
IsExtracted base want archive dest limit disk (after, none) =
    (content : Bytes) × (after dest ≡ some content)
    × (length content ≤ limit)
    × IsEntry base want archive.entries content
    × ((q : Bytes) → (str_eq dest q ≡ true) ⊎ (after q ≡ disk q))

written-IsExtracted :
    (base : Bytes → Bytes) (want : Bytes) (archive : Archive) (dest : Bytes) (limit : ℕ)
    (disk : Disk) (e : Entry)
    → find_entry base want archive.entries ≡ some e
    → (r : Disk × Option ExtractError) → IsWritten dest e.body limit disk r
    → IsExtracted base want archive dest limit disk r
written-IsExtracted base want archive dest limit disk e h (after, some x) w = w
written-IsExtracted base want archive dest limit disk e h (after, none) (c, l, b, o) =
    let (m, r, n) = find_entry_sound base want archive.entries e h in
    (e.body.content, c, l, (e, m, r, n, refl, b), o)

pub extract-IsExtracted :
    (base : Bytes → Bytes) (fs : Fs) (archive : Archive) (dest want : Bytes) (limit : ℕ)
    (disk : Disk)
    → IsExtracted base want archive dest limit disk (extract base fs archive dest want limit disk)
unfolding extract
extract-IsExtracted base fs archive dest want limit disk =
    let P = IsExtracted base want archive dest limit disk in
    option_elim P archive.open_error _ _
      (λ _.
        option_elim P (find_entry base want archive.entries) _ _ (λ _ q. inr refl)
          (λ entry found.
            option_elim P entry.opened _ _
              (λ _.
                written-IsExtracted base want archive dest limit disk entry found
                  (write_limited fs dest entry.body limit disk)
                  (write_limited-IsWritten fs dest entry.body limit disk))
              (λ e _ q. inr refl)))
      (λ e _ q. inr refl)
