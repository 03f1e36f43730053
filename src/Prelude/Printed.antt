-- ===== src/Prelude/Printed.antt =====
-- Texts that a program prints: lines that the scanner gives back, and words that trimming leaves.
use Prim.Native.Nat.{ℕ}
use mathlib.Core.Path.{◌≡◌, refl, sym, ◌∙◌, ap}
use mathlib.Core.Bool.{Bool, true, false, not, ◌&&◌}
use mathlib.Core.Option.{some}
use mathlib.Core.List.{List, [], ◌∷◌, ◌++◌, reverse, reverse_aux, reverse-reverse}
use native.Mathlib.Omega.{arith}
use siembox_endpoint.Prelude.Tests.{leb, ◌==◌}
use siembox_endpoint.Prelude.Lists.{length, all}
use siembox_endpoint.Prelude.Text.{
  Bytes, split_at, split_at-cases, cut_at, is_empty, is_space, drop_while, trim_right, trim_space,
}
use siembox_endpoint.Prelude.Scanner.{drop_cr, drop_cr_rev, scan_parts, scan_lines}

-- neither a line feed nor a carriage return
abbrev pub is_plain : ℕ → Bool
is_plain c = not (c == 10) && not (c == 13)

all-reverse_aux :
    (p : ℕ → Bool) (xs ys : Bytes) → all p (reverse_aux xs ys) ≡ (all p xs && all p ys)
all-reverse_aux p [] ys = refl
all-reverse_aux p (x ∷ xs) ys = ground (arith, all-reverse_aux p xs (x ∷ ys))

pub all-reverse : (p : ℕ → Bool) (xs : Bytes) → all p (reverse xs) ≡ all p xs
all-reverse p xs = ground (arith, all-reverse_aux p xs [])

pub split_at_first :
    (b : ℕ) (w rest : Bytes)
    → all (λ c. not (c == b)) w ≡ true
    → split_at b (w ++ (b ∷ rest)) ≡ w ∷ split_at b rest
split_at_first b [] rest h = ground arith
split_at_first b (c ∷ w) rest h =
    let p : (c == b) ≡ false = ground arith in
    let q : all (λ c. not (c == b)) w ≡ true = ground arith in rw (split_at_first b w rest q, p)

pub cut_at_first :
    (b : ℕ) (w rest : Bytes)
    → all (λ c. not (c == b)) w ≡ true
    → cut_at b (w ++ (b ∷ rest)) ≡ some (w, rest)
cut_at_first b [] rest h = ground arith
cut_at_first b (c ∷ w) rest h =
    let p : (c == b) ≡ false = ground arith in
    let q : all (λ c. not (c == b)) w ≡ true = ground arith in rw (cut_at_first b w rest q, p)

pub all_weaken :
    (p q : ℕ → Bool)
    → ((c : ℕ) → p c ≡ true → q c ≡ true)
    → (w : Bytes) → all p w ≡ true
    → all q w ≡ true
all_weaken p q f [] h = refl
all_weaken p q f (c ∷ w) h = ground (arith, all_weaken p q f w, f c)

drop_cr_rev_plain : (r : Bytes) → all is_plain r ≡ true → drop_cr_rev r ≡ r
drop_cr_rev_plain [] h = refl
drop_cr_rev_plain (c ∷ r) h = ground arith

drop_cr_plain : (w : Bytes) → all is_plain w ≡ true → drop_cr w ≡ w
drop_cr_plain w h =
    ap reverse (drop_cr_rev_plain (reverse w) (all-reverse is_plain w ∙ h)) ∙ reverse-reverse w

plain_no_feed : (w : Bytes) → all is_plain w ≡ true → all (λ c. not (c == 10)) w ≡ true
plain_no_feed = all_weaken is_plain (λ c. not (c == 10)) (λ c e. ground arith)

two_parts :
    (limit : ℕ) (w v : Bytes) (ws : List Bytes)
    → leb limit (length w) ≡ false
    → drop_cr w ≡ w
    → scan_parts limit (w ∷ v ∷ ws)
      ≡ (w ∷ (scan_parts limit (v ∷ ws)).0, (scan_parts limit (v ∷ ws)).1)
unfolding scan_parts
two_parts limit w v ws e d =
    rw (scan_parts, e)
      (ap (λ x. (x ∷ (scan_parts limit (v ∷ ws)).0, (scan_parts limit (v ∷ ws)).1)) d)

-- The scanner gives back a printed line.
pub scan_lines_cons :
    (limit : ℕ) (w rest : Bytes)
    → all is_plain w ≡ true
    → leb limit (length w) ≡ false
    → scan_lines limit (w ++ (10 ∷ rest))
      ≡ (w ∷ (scan_lines limit rest).0, (scan_lines limit rest).1)
unfolding scan_lines
scan_lines_cons limit w rest h e =
    let (v, ws, s) = split_at-cases 10 rest in
    ap (scan_parts limit) (split_at_first 10 w rest (plain_no_feed w h))
    ∙ ap (λ parts. scan_parts limit (w ∷ parts)) s
    ∙ two_parts limit w v ws e (drop_cr_plain w h)
    ∙ sym (ap (λ parts. (w ∷ (scan_parts limit parts).0, (scan_parts limit parts).1)) s)

pub scan_lines_end : (limit : ℕ) → scan_lines limit [] ≡ ([], false)
unfolding scan_lines scan_parts
scan_lines_end limit = refl

-- Trimming keeps a word that stands between visible ends.
drop_while_some : (p : ℕ → Bool) (s : Bytes) → all p s ≡ false → is_empty (drop_while p s) ≡ false
drop_while_some p [] h = cc
drop_while_some p (c ∷ s) h = ground (arith, drop_while_some p s)

is_empty-all : (s : Bytes) → is_empty s ≡ all (λ c. false) s
is_empty-all [] = refl
is_empty-all (c ∷ s) = refl

is_empty-reverse : (s : Bytes) → is_empty (reverse s) ≡ is_empty s
is_empty-reverse s = is_empty-all (reverse s) ∙ all-reverse (λ c. false) s ∙ sym (is_empty-all s)

drop_visible : (c : ℕ) (s : Bytes) → is_space c ≡ false → drop_while is_space (c ∷ s) ≡ c ∷ s
drop_visible c s h = rw h refl

-- A text that starts with a visible character is not blank.
pub trim_space_some :
    (c : ℕ) (s : Bytes) → is_space c ≡ false → is_empty (trim_space (c ∷ s)) ≡ false
trim_space_some c s h =
    ap (λ t. is_empty (trim_right is_space t)) (drop_visible c s h)
    ∙ is_empty-reverse (drop_while is_space (reverse (c ∷ s)))
    ∙ drop_while_some is_space (reverse (c ∷ s)) (all-reverse is_space (c ∷ s) ∙ ground arith)
