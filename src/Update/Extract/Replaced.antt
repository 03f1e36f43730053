-- ===== src/Update/Extract/Replaced.antt =====
-- What the exchange of the executable leaves on the disk.
use siembox_endpoint.Prelude.{
  Bool, true, false, Option, none, some, Bytes, str_eq, codes, ◌≡◌, refl, sym, ◌∙◌, subst, ◌⊎◌, inl,
  inr,
}
use siembox_endpoint.Update.Disk.{
  Disk, remove, move, remove_other, move_to, move_from, move_other, suffix_other, other_suffix,
  suffixes_eq,
}
use siembox_endpoint.Update.Extract.{
  ExtractError, Renames, rename, old_of, new_of, put_back, placed, set_aside, restored,
  replace_windows, replace_unix, replace_executable,
}

rename-cases :
    (o : Option Bytes) (from to content : Bytes) (disk : Disk)
    → disk from ≡ some content
    → (rename o from to disk ≡ (move content from to disk, none))
      ⊎ ((e : Bytes) × (rename o from to disk ≡ (disk, some e)))
unfolding rename
rename-cases none from to content disk h = inl (rw (h, rename) refl)
rename-cases (some e) from to content disk h = inr (e, refl)

-- The old executable is in place, or it stands aside and nothing is in its place.
abbrev pub IsKept : Bytes → Bytes → Disk → Type 0
IsKept exe old after =
    (after exe ≡ some old) ⊎ ((after exe ≡ none) × (after (old_of exe) ≡ some old))

abbrev pub IsReplaced : Bytes → Bytes → Bytes → Disk × Option ExtractError → Type 0
IsReplaced exe old new (after, none) = after exe ≡ some new
IsReplaced exe old new (after, some e) = IsKept exe old after

unix-IsReplaced :
    (r : Renames) (exe old new : Bytes) (disk : Disk)
    → disk exe ≡ some old
    → disk (new_of exe) ≡ some new
    → IsReplaced exe old new (replace_unix r exe (new_of exe) disk)
unfolding replace_unix
unix-IsReplaced r exe old new disk h k = elim (rename-cases r.place (new_of exe) exe new disk k) [
  | inl e ↦ rw e (move_to new (new_of exe) exe disk)
  | inr (why, e) ↦ rw e (inl h)
]

-- The old executable stands aside, and back it goes.
put_back-IsReplaced :
    (r : Renames) (exe old new why : Bytes) (disk : Disk)
    → disk exe ≡ none
    → disk (old_of exe) ≡ some old
    → IsReplaced exe old new (put_back r exe why disk)
unfolding put_back
put_back-IsReplaced r exe old new why disk h k =
    elim (rename-cases r.restore (old_of exe) exe old disk k) [
      | inl e ↦
          subst (λ a. IsReplaced exe old new (restored why a)) (sym e)
            (inl (move_to old (old_of exe) exe disk))
      | inr (x, e) ↦ subst (λ a. IsReplaced exe old new (restored why a)) (sym e) (inr (h, k))
    ]

placed-IsReplaced :
    (r : Renames) (exe old new : Bytes) (disk : Disk)
    → disk exe ≡ none
    → disk (old_of exe) ≡ some old
    → disk (new_of exe) ≡ some new
    → IsReplaced exe old new (placed r exe (rename r.place (new_of exe) exe disk))
placed-IsReplaced r exe old new disk h k l =
    elim (rename-cases r.place (new_of exe) exe new disk l) [
      | inl e ↦
          subst (λ a. IsReplaced exe old new (placed r exe a)) (sym e)
            (move_to new (new_of exe) exe disk)
      | inr (x, e) ↦
          subst (λ a. IsReplaced exe old new (placed r exe a)) (sym e)
            (put_back-IsReplaced r exe old new x disk h k)
    ]

-- The three paths are different.
old_exe : (exe : Bytes) → str_eq (old_of exe) exe ≡ false
old_exe exe = other_suffix exe (codes "old") b'.'

pub new_exe : (exe : Bytes) → str_eq (new_of exe) exe ≡ false
new_exe exe = other_suffix exe (codes "new") b'.'

old_new : (exe : Bytes) → str_eq (old_of exe) (new_of exe) ≡ false
old_new exe = suffixes_eq exe (codes ".old") (codes ".new")

pub new_old : (exe : Bytes) → str_eq (new_of exe) (old_of exe) ≡ false
new_old exe = suffixes_eq exe (codes ".new") (codes ".old")

exe_new : (exe : Bytes) → str_eq exe (new_of exe) ≡ false
exe_new exe = suffix_other exe (codes "new") b'.'

windows-IsReplaced :
    (r : Renames) (exe old new : Bytes) (disk : Disk)
    → disk exe ≡ some old
    → disk (new_of exe) ≡ some new
    → IsReplaced exe old new (replace_windows r exe (new_of exe) disk)
unfolding replace_windows
windows-IsReplaced r exe old new disk h k =
    let clear = remove r.removes (old_of exe) disk in
    let here : clear exe ≡ some old =
      remove_other r.removes (old_of exe) disk exe (old_exe exe) ∙ h in
    let there : clear (new_of exe) ≡ some new =
      remove_other r.removes (old_of exe) disk (new_of exe) (old_new exe) ∙ k in
    let P = λ (a : Disk × Option Bytes). IsReplaced exe old new (set_aside r exe (new_of exe) a) in
    elim (rename-cases r.aside exe (old_of exe) old clear here) [
      | inl e ↦ subst P (sym e) (
          placed-IsReplaced r exe old new (move old exe (old_of exe) clear)
            (move_from old exe (old_of exe) clear (old_exe exe))
            (move_to old exe (old_of exe) clear)
            (move_other old exe (old_of exe) clear (new_of exe) (old_new exe) (exe_new exe)
              ∙ there))
      | inr (x, e) ↦ subst P (sym e) (inl here)
    ]

pub replace-IsReplaced :
    (r : Renames) (exe old new : Bytes) (windows : Bool) (disk : Disk)
    → disk exe ≡ some old
    → disk (new_of exe) ≡ some new
    → IsReplaced exe old new (replace_executable r exe (new_of exe) windows disk)
unfolding replace_executable
replace-IsReplaced r exe old new true disk h k = windows-IsReplaced r exe old new disk h k
replace-IsReplaced r exe old new false disk h k = unix-IsReplaced r exe old new disk h k
