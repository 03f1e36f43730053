-- ===== src/Packages/Normalize.antt =====
-- internal/packages/packages.go: `cut`, `Normalize`, `Hash`. The digest of the joined lines is a
-- parameter.
pub mod Order
pub mod Canonical
use siembox_endpoint.Prelude.{
  ℕ, suc, ◌-◌, Bool, true, false, not, ◌&&◌, ◌||◌, List, [], ◌∷◌, ◌++◌, Bytes, ltb, ◌==◌,
  if◌then◌else◌, is_empty, trim_space, to_lower, str_eq, str_le, sort_by, any, map, codes,
}
use siembox_endpoint.Packages.{Package}

abbrev pub max_name : ℕ
max_name = 256

abbrev pub max_version : ℕ
max_version = 128

-- `r < 0x20 || r == 0x7f`
abbrev pub is_control : ℕ → Bool
is_control r = ltb r 32 || r == 127

-- The loop of `cut`, with the number of runes still to write.
unfoldable pub cut : Bytes → ℕ → Bytes
cut [] n = []
cut (r ∷ s) n =
    let skipped = cut s n in
    let rest = cut s (n - 1) in if is_control r then skipped else if n == 0 then [] else r ∷ rest

unfoldable pub clean : Package → Package
clean p = record {
  name = cut (trim_space p.name) max_name;
  version = cut (trim_space p.version) max_version;
  kind = to_lower (trim_space p.kind);
}

abbrev pub pkg_eq : Package → Package → Bool
pkg_eq a b = str_eq a.kind b.kind && str_eq a.name b.name && str_eq a.version b.version

-- the keys of the map `seen`
abbrev pub is_member : Package → List Package → Bool
is_member p seen = any (λ q. pkg_eq q p) seen

-- The loop of `Normalize`, with the packages seen so far.
unfoldable pub select : List Package → List Package → List Package
select [] seen = []
select (p ∷ ps) seen = elim (is_empty (clean p).name || is_member (clean p) seen) [
  | true ↦ select ps seen
  | false ↦ clean p ∷ select ps (clean p ∷ seen)
]

-- `a < b` on strings
abbrev pub str_lt : Bytes → Bytes → Bool
str_lt s t = not (str_le t s)

-- the comparison of `sort.Slice`
unfoldable pub pkg_less : Package → Package → Bool
pkg_less a b =
    if not (str_eq a.kind b.kind)
    then str_lt a.kind b.kind
    else if not (str_eq a.name b.name)
    then str_lt a.name b.name
    else str_lt a.version b.version

abbrev pub pkg_le : Package → Package → Bool
pkg_le a b = not (pkg_less b a)

unfoldable pub normalize : List Package → List Package
normalize ps = sort_by pkg_le (select ps [])

-- `type\x00name\x00version`
unfoldable pub hash_line : Package → Bytes
hash_line p = p.kind ++ (0 ∷ (p.name ++ (0 ∷ p.version)))

-- `strings.Join(lines, "\n")`
unfoldable pub join_lines : List Bytes → Bytes
join_lines [] = []
join_lines (l ∷ []) = l
join_lines (l ∷ m ∷ ls) = l ++ (10 ∷ join_lines (m ∷ ls))

-- `digest` is the hexadecimal SHA-256.
unfoldable pub hash : (Bytes → Bytes) → List Package → Bytes
hash digest ps = codes "sha256:" ++ digest (join_lines (sort_by str_le (map hash_line ps)))
