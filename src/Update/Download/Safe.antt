-- ===== src/Update/Download/Safe.antt =====
-- What a download can leave on the disk.
use siembox_endpoint.Prelude.{
  ◌≤◌, true, false, not, none, some, Bytes, ltb, length, str_eq, equal_fold, codes, Result, ok, err,
  ◌≡◌, refl, ◌∙◌, ◌⊎◌, inl, inr, arith, if_elim, option_elim, Bool-cases,
}
use siembox_endpoint.Update.Disk.{
  Disk, put, remove, move, put_other, remove_other, remove_same, move_to, move_from, move_other,
  suffix_other,
}
use siembox_endpoint.Update.Download.{
  Downloader, DownloadError, outside, Body, Fs, copied, part_of, store, limit_of, fetch_asset,
  open_body,
}

-- A refused download: every file but the partial one is as before, and the partial one is gone or
-- as before, unless it cannot be removed.
abbrev pub IsRefused : Fs → Bytes → Disk → Disk → Type 0
IsRefused fs final disk after =
    ((q : Bytes) → (str_eq (part_of final) q ≡ true) ⊎ (after q ≡ disk q))
    × ((fs.removes ≡ false)
        ⊎ ((after (part_of final) ≡ none) ⊎ (after (part_of final) ≡ disk (part_of final))))

-- An accepted download: the file has the expected digest and is within the limit, the partial
-- file is gone, and every other file is as before.
abbrev pub IsAccepted : Downloader → Bytes → Bytes → Disk → Disk → Type 0
IsAccepted d want final disk after =
    (content : Bytes) × (after final ≡ some content)
    × (length content ≤ limit_of d)
    × (equal_fold (d.digest content) want ≡ true)
    × (after (part_of final) ≡ none)
    × ((q : Bytes)
        → (str_eq final q ≡ true) ⊎ ((str_eq (part_of final) q ≡ true) ⊎ (after q ≡ disk q)))

abbrev pub IsSafe :
    Downloader → Fs → Bytes → Bytes → Disk → Disk × Result DownloadError Bytes → Type 0
IsSafe d fs want final disk (after, err e) = IsRefused fs final disk after
IsSafe d fs want final disk (after, ok path) = (path ≡ final) × IsAccepted d want final disk after

cleaned_IsRefused :
    (fs : Fs) (final got : Bytes) (disk : Disk)
    → IsRefused fs final disk (remove fs.removes (part_of final) (put (part_of final) got disk))
cleaned_IsRefused fs final got disk = (
  λ q. elim (Bool-cases (str_eq (part_of final) q)) [
    | inl h ↦ inl h
    | inr h ↦ inr (
        remove_other fs.removes (part_of final) (put (part_of final) got disk) q h
        ∙ put_other (part_of final) got disk q h)
  ],
  elim (Bool-cases fs.removes) [
    | inl works ↦ inr (inl (rw works (remove_same (part_of final) (put (part_of final) got disk))))
    | inr fails ↦ inl fails
  ],
)

moved_IsAccepted :
    (d : Downloader) (want final got : Bytes) (disk : Disk)
    → length got ≤ limit_of d
    → equal_fold (d.digest got) want ≡ true
    → IsAccepted d want final disk (move got (part_of final) final (put (part_of final) got disk))
moved_IsAccepted d want final got disk h e = (
  got,
  move_to got (part_of final) final (put (part_of final) got disk),
  h,
  e,
  move_from got (part_of final) final (put (part_of final) got disk)
      (suffix_other final (codes "part") b'.'),
  λ q. elim (Bool-cases (str_eq final q)) [
    | inl f ↦ inl f
    | inr f ↦ elim (Bool-cases (str_eq (part_of final) q)) [
      | inl p ↦ inr (inl p)
      | inr p ↦ inr (
          inr (
            move_other got (part_of final) final (put (part_of final) got disk) q f p
            ∙ put_other (part_of final) got disk q p))
    ]
  ],
)

store-IsSafe :
    (d : Downloader) (fs : Fs) (name want final : Bytes) (body : Body) (disk : Disk)
    → IsSafe d fs want final disk (store d fs (limit_of d) name want final body disk)
unfolding store
store-IsSafe d fs name want final body disk =
    let got = (copied fs (limit_of d) body).0 in
    let clean = cleaned_IsRefused fs final got disk in
    option_elim (IsSafe d fs want final disk) (copied fs (limit_of d) body).1 _ _
      (λ _.
        if_elim (IsSafe d fs want final disk) (ltb (limit_of d) (length got)) _ _ (λ _. clean)
          (λ small.
            if_elim (IsSafe d fs want final disk) (not (equal_fold (d.digest got) want)) _ _
              (λ _. clean)
              (λ same.
                option_elim (IsSafe d fs want final disk) fs.close _ _
                  (λ _.
                    option_elim (IsSafe d fs want final disk) fs.rename _ _
                      (λ _. (
                        refl,
                        moved_IsAccepted d want final got disk (ground arith) (ground arith),
                      ))
                      (λ e _. clean))
                  (λ e _. clean))))
      (λ e _. clean)

-- Whatever the server and the file system answer, a download leaves either the files as they were,
-- but for the partial file, which is gone or as it was unless it cannot be removed, and an error; or, under the final name and without an error, a file within the size limit whose digest
-- is the expected one, no partial file, and every other file as it was.
pub fetch_asset-IsSafe :
    (d : Downloader) (join : Bytes → Bytes → Bytes) (fs : Fs) (version name want dir : Bytes)
    (disk : Disk)
    → IsSafe d fs want (join dir name) disk (fetch_asset d join fs version name want dir disk)
unfolding fetch_asset
fetch_asset-IsSafe d join fs version name want dir disk =
    opened (open_body d version name (limit_of d))
  where
    same : IsRefused fs (join dir name) disk disk
    same = (λ q. inr refl, inr (inr refl))

    opened :
        (r : Result DownloadError Body)
        → IsSafe d fs want (join dir name) disk (elim r [
          | err e ↦ (disk, err e)
          | ok body ↦ elim fs.mkdir [
            | some e ↦ (disk, err (outside e))
            | none ↦ elim fs.create [
              | some e ↦ (disk, err (outside e))
              | none ↦ store d fs (limit_of d) name want (join dir name) body disk
            ]
          ]
        ])
    opened (err e) = same
    opened (ok body) =
        option_elim (IsSafe d fs want (join dir name) disk) fs.mkdir _ _
          (λ _.
            option_elim (IsSafe d fs want (join dir name) disk) fs.create _ _
              (λ _. store-IsSafe d fs name want (join dir name) body disk) (λ e _. same))
          (λ e _. same)
