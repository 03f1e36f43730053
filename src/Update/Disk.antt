-- ===== src/Update/Disk.antt =====
-- The files that internal/update writes: a path gives the content of the file, if there is one.
use siembox_endpoint.Prelude.{
  ℕ, Bool, true, false, Option, none, some, [], ◌∷◌, ◌++◌, Bytes, if◌then◌else◌, str_eq,
  str_eq_refl, ◌≡◌, refl, arith,
}

abbrev pub Disk : Type 0
Disk = Bytes → Option Bytes

unfoldable pub put : Bytes → Bytes → Disk → Disk
put path content disk q = if str_eq path q then some content else disk q

-- `os.Remove`, whose error the source drops: the flag says whether it removes the file.
unfoldable pub remove : Bool → Bytes → Disk → Disk
remove works path disk q = if works then if str_eq path q then none else disk q else disk q

-- `os.Rename` of a file that has this content.
unfoldable pub move : Bytes → Bytes → Bytes → Disk → Disk
move content from to disk q =
    if str_eq to q then some content else if str_eq from q then none else disk q

-- A path with a suffix is another path.
pub suffix_other : (s t : Bytes) (c : ℕ) → str_eq s (s ++ (c ∷ t)) ≡ false
suffix_other [] t c = refl
suffix_other (x ∷ s) t c = ground (arith, suffix_other s t c)

pub other_suffix : (s t : Bytes) (c : ℕ) → str_eq (s ++ (c ∷ t)) s ≡ false
other_suffix [] t c = refl
other_suffix (x ∷ s) t c = ground (arith, other_suffix s t c)

pub put_other :
    (path content : Bytes) (disk : Disk) (q : Bytes)
    → str_eq path q ≡ false
    → put path content disk q ≡ disk q
unfolding put
put_other path content disk q h = rw h refl

pub put_same : (path content : Bytes) (disk : Disk) → put path content disk path ≡ some content
unfolding put
put_same path content disk = rw (str_eq_refl path) refl

pub remove_other :
    (works : Bool) (path : Bytes) (disk : Disk) (q : Bytes)
    → str_eq path q ≡ false
    → remove works path disk q ≡ disk q
unfolding remove
remove_other true path disk q h = rw h refl
remove_other false path disk q h = refl

pub remove_same : (path : Bytes) (disk : Disk) → remove true path disk path ≡ none
unfolding remove
remove_same path disk = rw (str_eq_refl path) refl

pub move_to : (content from to : Bytes) (disk : Disk) → move content from to disk to ≡ some content
unfolding move
move_to content from to disk = rw (str_eq_refl to) refl

pub move_from :
    (content from to : Bytes) (disk : Disk)
    → str_eq to from ≡ false
    → move content from to disk from ≡ none
unfolding move
move_from content from to disk h = rw (h, str_eq_refl from) refl

pub move_other :
    (content from to : Bytes) (disk : Disk) (q : Bytes)
    → str_eq to q ≡ false
    → str_eq from q ≡ false
    → move content from to disk q ≡ disk q
unfolding move
move_other content from to disk q h k = rw (h, k) refl

-- Two suffixes of one path.
pub suffixes_eq : (s a b : Bytes) → str_eq (s ++ a) (s ++ b) ≡ str_eq a b
suffixes_eq [] a b = refl
suffixes_eq (x ∷ s) a b = ground (arith, suffixes_eq s a b)
