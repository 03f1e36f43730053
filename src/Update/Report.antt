-- ===== src/Update/Report.antt =====
-- internal/update/updater.go, the texts: `truncate`, `readTail`, `withLogTail`.
-- `utf8.ValidString` and `strings.ToValidUTF8` are the standard library's, parameters here.
pub mod Bounds
use siembox_endpoint.Prelude.{
  ℕ, suc, ◌+◌, ◌-◌, ◌≤◌, Bool, Option, none, some, List, [], ◌∷◌, ◌++◌, Bytes, length, leb,
  if◌then◌else◌, is_empty, take, drop, reverse, codes, trim_space,
}

abbrev pub max_error_len : ℕ
max_error_len = 500

abbrev pub log_tail_bytes : ℕ
log_tail_bytes = 300

-- What the texts need of package `unicode/utf8` and of `strings`.
pub record Utf8 : Type 0 where
  pub valid : Bytes → Bool
  pub to_valid : Bytes → Bytes
  -- the replacement is the empty string, so nothing is added
  pub to_valid_shrinks : (s : Bytes) → length (to_valid s) ≤ length s

module _ (u : Utf8) where
  -- the loop of `truncate`, over the text read from its end
  shrink : Bytes → Bytes
  shrink [] = []
  shrink (c ∷ r) = let rest = shrink r in if u.valid (reverse (c ∷ r)) then c ∷ r else rest

  unfoldable pub truncate : Bytes → ℕ → Bytes
  unfolding shrink
  truncate s max_len =
      if leb (length s) max_len then s else reverse (shrink (reverse (take max_len s)))

  -- The file's content, or `none` if it cannot be opened; one read fills the buffer.
  unfoldable pub read_tail : Option Bytes → ℕ → Bytes
  read_tail none n = []
  read_tail (some file) n = trim_space (u.to_valid (take n (drop (length file - n) file)))

  unfoldable pub with_log_tail : Option Bytes → Bytes → Bytes
  with_log_tail log msg =
      let tail = read_tail log log_tail_bytes in
      if is_empty tail
      then msg
      else truncate msg (max_error_len - log_tail_bytes - 20)
        ++ (codes "; update.log tail: " ++ tail)
