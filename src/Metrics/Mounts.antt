-- ===== src/Metrics/Mounts.antt =====
-- The mount table as the kernel prints it, and what the reader makes of it.
use siembox_endpoint.Prelude.{
  ℕ, length-append, ◌+◌, ◌-◌, ◌*◌, ◌/◌, ◌%◌, ◌≤◌, ◌<◌, Bool, true, false, ◌||◌, some, List, [], ◌∷◌,
  ◌++◌, Bytes, any, all, ltb, leb, ◌==◌, if◌then◌else◌, is_plain, is_empty, length, All,
  scan_lines_cons, scan_lines_end, all-append, ◌≡◌, refl, ◌∙◌, sym, ap, arith, Bool-cases, inl, inr,
}
use siembox_endpoint.Metrics.Numbers.{fields}
use siembox_endpoint.Metrics.Words.{is_solid, first_word, solid_plain}
use siembox_endpoint.Metrics.Linux.{
  max_line, Mount, mount_of, octal_byte, unescape, unescape_mount, read_mount, read_mounts,
  parse_mounts,
}

-- The kernel prints a space, a tab, a line feed and a backslash as three octal digits, and every
-- other byte as it is.
abbrev pub is_special : ℕ → Bool
is_special c = c == 32 || c == 9 || c == 10 || c == b'\\'

abbrev pub escape : Bytes → Bytes
escape [] = []
escape (c ∷ s) =
    let rest = escape s in
    if is_special c
    then b'\\' ∷ (48 + c / 64) ∷ (48 + c / 8 % 8) ∷ (48 + c % 8) ∷ rest
    else c ∷ rest

octal_digits : (c : ℕ) → c < 256 → octal_byte (48 + c / 64) (48 + c / 8 % 8) (48 + c % 8) ≡ some c
unfolding octal_byte
octal_digits c h =
    let sum : (48 + c / 64 - 48) * 64 + (48 + c / 8 % 8 - 48) * 8 + (48 + c % 8 - 48) ≡ c =
      omega arith in
    rw sum (ground arith)

unescape_other : (c : ℕ) (s : Bytes) → (c == b'\\') ≡ false → unescape (c ∷ s) ≡ c ∷ unescape s
unfolding unescape
unescape_other c [] h = refl
unescape_other c (x ∷ []) h = refl
unescape_other c (x ∷ y ∷ []) h = refl
unescape_other c (x ∷ y ∷ z ∷ s) h = rw (h, unescape) refl

unescape_octal :
    (c : ℕ) (s : Bytes)
    → c < 256
    → unescape (b'\\' ∷ (48 + c / 64) ∷ (48 + c / 8 % 8) ∷ (48 + c % 8) ∷ s) ≡ c ∷ unescape s
unfolding unescape
unescape_octal c s h = rw (octal_digits c h, unescape) refl

unescape_none : (s : Bytes) → any (λ c. c == b'\\') s ≡ false → unescape s ≡ s
unfolding unescape
unescape_none [] h = refl
unescape_none (c ∷ s) h =
    unescape_other c s (ground arith) ∙ ap (λ t. c ∷ t) (unescape_none s (ground arith))

escape_special :
    (c : ℕ) (s : Bytes)
    → is_special c ≡ true
    → escape (c ∷ s) ≡ b'\\' ∷ (48 + c / 64) ∷ (48 + c / 8 % 8) ∷ (48 + c % 8) ∷ escape s
escape_special c s h = rw h refl

escape_other : (c : ℕ) (s : Bytes) → is_special c ≡ false → escape (c ∷ s) ≡ c ∷ escape s
escape_other c s h = rw h refl

unescape-escape : (s : Bytes) → all (λ c. ltb c 256) s ≡ true → unescape (escape s) ≡ s
unfolding unescape
unescape-escape [] h = refl
unescape-escape (c ∷ s) k =
    let b : c < 256 = ground arith in
    let h : all (λ c. ltb c 256) s ≡ true = ground arith in
    elim (Bool-cases (is_special c)) [
      | inl e ↦
          ap unescape (escape_special c s e)
          ∙ unescape_octal c (escape s) b
          ∙ ap (λ t. c ∷ t) (unescape-escape s h)
      | inr e ↦
          ap unescape (escape_other c s e)
          ∙ unescape_other c (escape s) (ground arith)
          ∙ ap (λ t. c ∷ t) (unescape-escape s h)
    ]

unescape_mount-escape : (s : Bytes) → all (λ c. ltb c 256) s ≡ true → unescape_mount (escape s) ≡ s
unfolding unescape_mount
unescape_mount-escape s h = elim (Bool-cases (any (λ c. c == b'\\') (escape s))) [
  | inl e ↦ rw e (unescape-escape s h)
  | inr e ↦ rw e (sym (unescape_none (escape s) e) ∙ unescape-escape s h)
]

-- A line of the mount table: the mount and its options.
pub record Listed : Type 0 where
  pub mount : Mount
  pub options : Bytes

-- A mount that is listed and read back: bytes, no empty word, no white space in what is printed of
-- a word (which has none of the escaped characters), and a type without escapes.
abbrev pub IsListed : Listed → Type 0
IsListed l =
    ((all (λ c. ltb c 256) l.mount.device ≡ true)
      × (is_solid (escape l.mount.device) ≡ true)
      × (is_empty (escape l.mount.device) ≡ false))
    × ((all (λ c. ltb c 256) l.mount.point ≡ true)
        × (is_solid (escape l.mount.point) ≡ true)
        × (is_empty (escape l.mount.point) ≡ false))
    × ((escape l.mount.fstype ≡ l.mount.fstype)
        × (is_solid l.mount.fstype ≡ true)
        × (is_empty l.mount.fstype ≡ false))
    × (is_solid l.options ≡ true)
    × (length (escape l.mount.device)
          + length (escape l.mount.point)
          + length l.mount.fstype
          + length l.options
        ≤ 65_000)

-- The six words of a line; the last two are always 0.
abbrev pub mount_line : Listed → Bytes
mount_line l =
    escape l.mount.device
    ++ (32
        ∷ (escape l.mount.point
            ++ (32
                ∷ (escape l.mount.fstype ++ (32 ∷ (l.options ++ (32 ∷ b'0' ∷ 32 ∷ b'0' ∷ [])))))))

abbrev pub print_mounts : List Listed → Bytes
print_mounts [] = []
print_mounts (l ∷ ls) = mount_line l ++ (10 ∷ print_mounts ls)

abbrev pub mounts : List Listed → List Mount
mounts [] = []
mounts (l ∷ ls) = l.mount ∷ mounts ls

three_words :
    (a b c : Bytes) (ws : List Bytes)
    → mount_of (a ∷ b ∷ c ∷ ws)
      ≡ record { device = unescape_mount a; point = unescape_mount b; fstype = c } ∷ []
three_words a b c ws = ground arith

-- The words of a line that the reader looks at.
fields-mount_line :
    (l : Listed)
    → IsListed l
    → fields (mount_line l)
      ≡ escape l.mount.device
        ∷ escape l.mount.point
        ∷ l.mount.fstype
        ∷ fields (l.options ++ (32 ∷ b'0' ∷ 32 ∷ b'0' ∷ []))
fields-mount_line l ((d, ds, dn), (p, ps, pn), (fe, fs, fn), o, n) =
    first_word (escape l.mount.device) _ ds dn
    ∙ ap (λ ws. escape l.mount.device ∷ ws)
        (first_word (escape l.mount.point) _ ps pn
          ∙ ap (λ ws. escape l.mount.point ∷ ws)
              (ap (λ t. fields (t ++ (32 ∷ (l.options ++ (32 ∷ b'0' ∷ 32 ∷ b'0' ∷ []))))) fe
                ∙ first_word l.mount.fstype _ fs fn))

read_mount-mount_line : (l : Listed) → IsListed l → read_mount (mount_line l) ≡ l.mount ∷ []
unfolding read_mount
read_mount-mount_line l ((d, ds, dn), (p, ps, pn), f, o, n) =
    ap mount_of (fields-mount_line l ((d, ds, dn), (p, ps, pn), f, o, n))
    ∙ three_words (escape l.mount.device) (escape l.mount.point) l.mount.fstype _
    ∙ ap
        (λ x.
          record {
            device = x;
            point = unescape_mount (escape l.mount.point);
            fstype = l.mount.fstype;
          }
          ∷ [])
        (unescape_mount-escape l.mount.device d)
    ∙ ap (λ x. record { device = l.mount.device; point = x; fstype = l.mount.fstype } ∷ [])
        (unescape_mount-escape l.mount.point p)

-- A word and the space after it, before a plain rest.
plain_word :
    (w rest : Bytes)
    → is_solid w ≡ true
    → all is_plain rest ≡ true
    → all is_plain (w ++ (32 ∷ rest)) ≡ true
plain_word w rest h k = ground (arith, all-append is_plain w (32 ∷ rest), solid_plain w h)

plain-mount_line : (l : Listed) → IsListed l → all is_plain (mount_line l) ≡ true
plain-mount_line l ((d, ds, dn), (p, ps, pn), (fe, fs, fn), o, n) =
    plain_word (escape l.mount.device) _ ds (
      plain_word (escape l.mount.point) _ ps (
        plain_word (escape l.mount.fstype) _ (ap is_solid fe ∙ fs)
          (plain_word l.options (b'0' ∷ 32 ∷ b'0' ∷ []) o refl)))

short_lengths :
    (a b c d : Bytes)
    → length a + length b + length c + length d ≤ 65_000
    → length (a ++ (32 ∷ (b ++ (32 ∷ (c ++ (32 ∷ (d ++ (32 ∷ b'0' ∷ 32 ∷ b'0' ∷ []))))))))
      < max_line
short_lengths a b c d h =
    let last : Bytes = 32 ∷ b'0' ∷ 32 ∷ b'0' ∷ [] in
    omega (
      arith,
      length-append a (32 ∷ (b ++ (32 ∷ (c ++ (32 ∷ (d ++ last)))))),
      length-append b (32 ∷ (c ++ (32 ∷ (d ++ last)))),
      length-append c (32 ∷ (d ++ last)),
      length-append d last,
    )

short-mount_line : (l : Listed) → IsListed l → leb max_line (length (mount_line l)) ≡ false
short-mount_line l (d, p, (fe, fs, fn), o, n) =
    let same : length (escape l.mount.fstype) ≡ length l.mount.fstype = ap length fe in
    let short : length (mount_line l) < max_line =
      short_lengths (escape l.mount.device) (escape l.mount.point) (escape l.mount.fstype) l.options
        (omega arith) in
    ground arith

-- A mount table in the kernel's form is read back as it was: device, mount point and type of every
-- mount, in order. A line has six words, of which the reader uses three; in the device and the
-- mount point a space, a tab, a line feed and a backslash are printed as octal escapes. The
-- conditions: no word is empty, no other white space, ASCII or Unicode, stands in a word as it is
-- printed, nothing in the type is escaped, and a line has at most 65 000 bytes.
pub parse_mounts-print_mounts :
    (ls : List Listed) → All IsListed ls → parse_mounts (print_mounts ls) ≡ mounts ls
unfolding parse_mounts read_mounts
parse_mounts-print_mounts [] h = ap (λ r. read_mounts r.0) (scan_lines_end max_line)
parse_mounts-print_mounts (l ∷ ls) (hl, h) =
    ap (λ r. read_mounts r.0)
      (scan_lines_cons max_line (mount_line l) (print_mounts ls) (plain-mount_line l hl)
        (short-mount_line l hl))
    ∙ ap (λ a. a ++ parse_mounts (print_mounts ls)) (read_mount-mount_line l hl)
    ∙ ap (λ a. l.mount ∷ a) (parse_mounts-print_mounts ls h)
