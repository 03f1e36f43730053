-- ===== src/Update/Report/Bounds.antt =====
-- The lengths of the reported texts.
use siembox_endpoint.Prelude.{
  ℕ, ◌-◌, ◌≤◌, Bool, Option, none, some, [], ◌∷◌, ◌++◌, Bytes, length, leb, is_empty, is_space,
  take, drop, drop_while, reverse, codes, trim_space, ◌≡◌, arith, Bool-cases, inl, inr, ◌⊎◌, leb→le,
  length-reverse, length-take, length-append,
}
use siembox_endpoint.Update.Report.{
  Utf8, shrink, truncate, read_tail, with_log_tail, max_error_len, log_tail_bytes,
}

length-drop_while : (p : ℕ → Bool) (s : Bytes) → length (drop_while p s) ≤ length s
length-drop_while p [] = omega arith
length-drop_while p (c ∷ s) = ground (arith, length-drop_while p s)

length-trim_space : (s : Bytes) → length (trim_space s) ≤ length s
length-trim_space s =
    let a = drop_while is_space s in
    omega (
      arith,
      length-reverse (drop_while is_space (reverse a)),
      length-drop_while is_space (reverse a),
      length-reverse a,
      length-drop_while is_space s,
    )

module _ (u : Utf8) where
  length-shrink : (r : Bytes) → length (shrink u r) ≤ length r
  unfolding shrink
  length-shrink [] = omega arith
  length-shrink (c ∷ r) = ground (arith, length-shrink r)

  -- `truncate` keeps the limit in bytes.
  pub length-truncate : (s : Bytes) (n : ℕ) → length (truncate u s n) ≤ n
  unfolding truncate
  length-truncate s n = elim (Bool-cases (leb (length s) n)) [
    | inl e ↦ rw e (leb→le (length s) n e)
    | inr e ↦ rw e (
        omega (
          arith,
          length-reverse (shrink u (reverse (take n s))),
          length-shrink (reverse (take n s)),
          length-reverse (take n s),
          length-take n s,
        ))
  ]

  length-read_tail : (log : Option Bytes) (n : ℕ) → length (read_tail u log n) ≤ n
  unfolding read_tail
  length-read_tail none n = omega arith
  length-read_tail (some file) n =
      let t = take n (drop (length file - n) file) in
      omega (
        arith,
        length-trim_space (u.to_valid t),
        u.to_valid_shrinks t,
        length-take n (drop (length file - n) file),
      )

  -- A message with the tail of the log is never over the limit, so `truncate` does not cut the
  -- tail off; without a tail the message is as it was.
  with_log_tail_bounds :
      (log : Option Bytes) (msg : Bytes)
      → (length (with_log_tail u log msg) ≤ max_error_len) ⊎ (with_log_tail u log msg ≡ msg)
  unfolding with_log_tail
  with_log_tail_bounds log msg = elim (Bool-cases (is_empty (read_tail u log log_tail_bytes))) [
    | inl e ↦ inr (rw e)
    | inr e ↦ inl (
        rw e (
          omega (
            arith,
            length-append (truncate u msg 180)
                (codes "; update.log tail: " ++ read_tail u log log_tail_bytes),
            length-truncate msg 180,
            length-read_tail log log_tail_bytes,
          )))
  ]
