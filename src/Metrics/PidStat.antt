-- ===== src/Metrics/PidStat.antt =====
-- The line of a process, whatever its name.
use siembox_endpoint.Prelude.{
  ℕ, suc, ◌+◌, ◌-◌, true, false, not, some, List, [], ◌∷◌, ◌++◌, Bytes, all, ltb, ◌==◌, length,
  length-append, take, drop, take-append, append_assoc, Result, ok, err, ◌≡◌, refl, ◌∙◌, sym, ap,
  arith, Bool-cases, inl, inr,
}
use siembox_endpoint.Metrics.Numbers.{
  fields, word_count, index_byte, last_index_byte, index_byte_found, last_index_byte_found,
}
use siembox_endpoint.Metrics.Linux.{
  PidStat, ParseError, read_counters, read_between, parse_pid_stat,
}

-- The line of a process: what stands before the name, the name in parentheses, and the rest.
abbrev pub stat_line : Bytes → Bytes → Bytes → Bytes
stat_line pre name rest = pre ++ (b'(' ∷ (name ++ (b')' ∷ rest)))

-- The same result under another name.
abbrev pub named : Bytes → Result ParseError PidStat → Result ParseError PidStat
named name (ok p) = ok (record p { name = name })
named name (err e) = err e

-- Two texts around a byte, and what stands after it.
drop_past : (w : Bytes) (b : ℕ) (rest : Bytes) → drop (length w + 1) (w ++ (b ∷ rest)) ≡ rest
drop_past [] b rest = refl
drop_past (c ∷ w) b rest =
    let more : length (c ∷ w) + 1 ≡ suc (length w + 1) = omega arith in
    ap (λ n. drop n (c ∷ (w ++ (b ∷ rest)))) more ∙ drop_past w b rest

end_index : (pre name : Bytes) → length (pre ++ (b'(' ∷ name)) ≡ length pre + 1 + length name
end_index pre name = length-append pre (b'(' ∷ name) ∙ omega arith

in_order :
    (s : Bytes) (start end : ℕ)
    → ltb end start ≡ false
    → read_between s start end
      ≡ read_counters (take (end - (start + 1)) (drop (start + 1) s)) (fields (drop (end + 1) s))
unfolding read_between
in_order s start end h = rw (h, read_between) refl

between :
    (pre name rest : Bytes)
    → read_between (stat_line pre name rest) (length pre) (length (pre ++ (b'(' ∷ name)))
      ≡ read_counters name (fields rest)
between pre name rest =
    let line = stat_line pre name rest in
    let end = length (pre ++ (b'(' ∷ name)) in
    let size : end - (length pre + 1) ≡ length name = omega (arith, end_index pre name) in
    let inner : take (end - (length pre + 1)) (drop (length pre + 1) line) ≡ name =
      ap (take (end - (length pre + 1))) (drop_past pre b'(' (name ++ (b')' ∷ rest)))
      ∙ ap (λ n. take n (name ++ (b')' ∷ rest))) size
      ∙ take-append name (b')' ∷ rest) in
    let outer : drop (end + 1) line ≡ rest =
      ap (drop (end + 1)) (sym (append_assoc pre (b'(' ∷ name) (b')' ∷ rest)))
      ∙ drop_past (pre ++ (b'(' ∷ name)) b')' rest in
    in_order line (length pre) end (ground (arith, end_index pre name))
    ∙ ap (λ w. read_counters w (fields (drop (end + 1) line))) inner
    ∙ ap (λ w. read_counters name (fields w)) outer

found :
    (s : Bytes) (start end : ℕ)
    → index_byte b'(' s ≡ some start
    → last_index_byte b')' s ≡ some end
    → parse_pid_stat s ≡ read_between s start end
unfolding parse_pid_stat
found s start end h k = rw (h, k, parse_pid_stat) refl

parse_stat_line :
    (pre name rest : Bytes)
    → all (λ c. not (c == b'(')) pre ≡ true
    → all (λ c. not (c == b')')) rest ≡ true
    → parse_pid_stat (stat_line pre name rest) ≡ read_counters name (fields rest)
parse_stat_line pre name rest h k =
    found (stat_line pre name rest) (length pre) (length (pre ++ (b'(' ∷ name)))
      (index_byte_found b'(' pre (name ++ (b')' ∷ rest)) h)
      (ap (last_index_byte b')') (sym (append_assoc pre (b'(' ∷ name) (b')' ∷ rest)))
        ∙ last_index_byte_found b')' (pre ++ (b'(' ∷ name)) rest k)
    ∙ between pre name rest

named_counters :
    (name other : Bytes) (f : List Bytes)
    → read_counters name f ≡ named name (read_counters other f)
unfolding read_counters
named_counters name other f = elim (Bool-cases (ltb (word_count f) 22)) [
  | inl e ↦ rw (e, read_counters) refl
  | inr e ↦ rw (e, read_counters) refl
]

-- The counters of a process do not depend on its name, which is read back exactly, whatever
-- bytes it has: parentheses, spaces and line feeds. The rest of the line has no parenthesis that
-- closes, and what stands before the name none that opens.
pub parse_pid_stat-stat_line :
    (pre name rest : Bytes)
    → all (λ c. not (c == b'(')) pre ≡ true
    → all (λ c. not (c == b')')) rest ≡ true
    → parse_pid_stat (stat_line pre name rest) ≡ named name (parse_pid_stat (stat_line [] [] rest))
parse_pid_stat-stat_line pre name rest h k =
    parse_stat_line pre name rest h k
    ∙ named_counters name [] (fields rest)
    ∙ ap (named name) (sym (parse_stat_line [] [] rest refl k))
