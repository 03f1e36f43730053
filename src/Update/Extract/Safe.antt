-- ===== src/Update/Extract/Safe.antt =====
-- What an update in place can leave on the disk.
use siembox_endpoint.Prelude.{
  ◌≤◌, Bool, true, Option, none, some, Bytes, length, str_eq, Result, ok, err, ◌≡◌, refl, sym, ◌∙◌,
  ap, ◌⊎◌, inl, inr, if_elim,
}
use siembox_endpoint.Update.Assets.{Method}
use siembox_endpoint.Update.Plan.{Command, restart_command}
use siembox_endpoint.Update.Disk.{Disk, remove, remove_other}
use siembox_endpoint.Update.Download.{max_download_bytes}
use siembox_endpoint.Update.Extract.{
  ExtractError, Archive, Swap, extract, binary_name, extract_binary, old_of, new_of,
  replace_executable, is_windows_zip, reports_version, check_and_swap, swap_binary,
}
use siembox_endpoint.Update.Extract.Written.{IsEntry, IsExtracted, extract-IsExtracted}
use siembox_endpoint.Update.Extract.Replaced.{
  IsKept, IsReplaced, replace-IsReplaced, new_exe, new_old,
}

-- The new executable: the whole content of the archive's entry, which reports the version.
abbrev pub IsRelease : Swap → Method → Archive → Bytes → Bytes → Type 0
IsRelease s method archive version content =
    IsEntry s.base (binary_name (is_windows_zip method)) archive.entries content
    × (length content ≤ max_download_bytes)
    × (reports_version (s.run_version (some content)) version ≡ true)

abbrev pub IsSwapped :
    Swap → Method → Archive → Bytes → Bytes → Bytes → Disk × Result ExtractError Command → Type 0
IsSwapped s method archive exe version old (after, ok c) =
    (content : Bytes) × (after exe ≡ some content)
    × IsRelease s method archive version content
    × (c ≡ restart_command s.join exe s.state_dir)
IsSwapped s method archive exe version old (after, err e) = IsKept exe old after

removed-IsKept :
    (works : Bool) (exe old : Bytes) (disk : Disk)
    → IsKept exe old disk
    → IsKept exe old (remove works (new_of exe) disk)
removed-IsKept works exe old disk (inl h) =
    inl (remove_other works (new_of exe) disk exe (new_exe exe) ∙ h)
removed-IsKept works exe old disk (inr (h, k)) = inr (
  remove_other works (new_of exe) disk exe (new_exe exe) ∙ h,
  remove_other works (new_of exe) disk (old_of exe) (new_old exe) ∙ k,
)

check-IsSwapped :
    (s : Swap) (method : Method) (archive : Archive) (exe version old content : Bytes) (disk : Disk)
    → disk exe ≡ some old
    → disk (new_of exe) ≡ some content
    → IsEntry s.base (binary_name (is_windows_zip method)) archive.entries content
    → length content ≤ max_download_bytes
    → IsSwapped s method archive exe version old
        (check_and_swap s (is_windows_zip method) exe version disk)
unfolding check_and_swap
check-IsSwapped s method archive exe version old content disk h k entry small =
    let P = IsSwapped s method archive exe version old in
    if_elim P (reports_version (s.run_version (disk (new_of exe))) version) _ _
      (λ good.
        swapped (replace_executable s.renames exe (new_of exe) (is_windows_zip method) disk)
          (entry, small, sym (ap (λ c. reports_version (s.run_version c) version) k) ∙ good)
          (replace-IsReplaced s.renames exe old content (is_windows_zip method) disk h k))
      (λ _. removed-IsKept s.removes_new exe old disk (inl h))
  where
    swapped :
        (r : Disk × Option ExtractError)
        → IsRelease s method archive version content
        → IsReplaced exe old content r
        → IsSwapped s method archive exe version old (elim r.1 [
          | some e ↦ (remove s.removes_new (new_of exe) r.0, err e)
          | none ↦ (r.0, ok (restart_command s.join exe s.state_dir))
        ])
    swapped (after, none) release e = (content, e, release, refl)
    swapped (after, some x) release kept = removed-IsKept s.removes_new exe old after kept

-- Whatever the archive, the file system and the new executable answer, a swap in place ends in one
-- of two ways. Without an error the executable is the whole content of a regular entry of the
-- expected name in the archive, of at most 300 MiB, that reported the wanted version when it was
-- run, and the command restarts it. With an error the old executable is in place, or it is kept
-- beside under the suffix .old.
pub swap_binary-IsSwapped :
    (s : Swap) (method : Method) (archive : Archive) (exe version old : Bytes) (disk : Disk)
    → disk exe ≡ some old
    → IsSwapped s method archive exe version old (swap_binary s method archive exe version disk)
unfolding swap_binary extract_binary
swap_binary-IsSwapped s method archive exe version old disk h =
    let want = binary_name (is_windows_zip method) in
    extracted (extract s.base s.fs archive (new_of exe) want max_download_bytes disk)
      (extract-IsExtracted s.base s.fs archive (new_of exe) want max_download_bytes disk)
  where
    kept :
        (after : Disk)
        → (str_eq (new_of exe) exe ≡ true) ⊎ (after exe ≡ disk exe)
        → after exe ≡ some old
    kept after (inl e) = cc (e, new_exe exe)
    kept after (inr e) = e ∙ h

    extracted :
        (r : Disk × Option ExtractError)
        → IsExtracted s.base
            (binary_name (is_windows_zip method))
            archive
            (new_of exe)
            max_download_bytes
            disk
            r
        → IsSwapped s method archive exe version old (elim r.1 [
          | some e ↦ (r.0, err e)
          | none ↦ check_and_swap s (is_windows_zip method) exe version r.0
        ])
    extracted (after, some e) rest = inl (kept after (rest exe))
    extracted (after, none) (content, there, small, entry, rest) =
        check-IsSwapped s method archive exe version old content after (kept after (rest exe)) there
          entry small
