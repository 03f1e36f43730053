-- ===== src/Packages/Normalize/Order.antt =====
-- The order of packages: by type, name and version.
use siembox_endpoint.Prelude.{
  Bool, true, false, not, ◌&&◌, Bytes, if◌then◌else◌, str_eq, str_eq_iff, str_eq_sound, str_eq_refl,
  str_le, str_le_refl, str_le_total, str_le_trans, str_le_antisymm, ◌≡◌, sym, ◌∙◌, ◌⊎◌, ◌↔◌, inl,
  inr, arith, Bool-cases, subst, &&-eq-true,
}
use siembox_endpoint.Packages.{Package}
use siembox_endpoint.Packages.Normalize.{pkg_less, pkg_eq, str_lt}

-- One level of the comparison, before what `rest` says for equal keys.
abbrev pub lex : Bytes → Bytes → Bool → Bool
lex s t rest = if not (str_eq s t) then str_lt s t else rest

lex_refl : (s : Bytes) (rest : Bool) → lex s s rest ≡ rest
lex_refl s rest = ground (arith, str_eq_refl s)

lex_eq : (s t : Bytes) (rest : Bool) → s ≡ t → lex s t rest ≡ rest
lex_eq s t rest e = ground (arith, str_eq_iff s t)

lt_le : (s t : Bytes) → str_lt s t ≡ true → str_le t s ≡ false
lt_le s t e = ground arith

lt_trans : (s t u : Bytes) → str_lt s t ≡ true → str_lt t u ≡ true → str_lt s u ≡ true
lt_trans s t u e f = elim (Bool-cases (str_le u s)) [
  | inl g ↦ cc (str_le_trans u s t g (str_le_total t s (lt_le s t e)))
  | inr g ↦ ground arith
]

lt_ne : (s t : Bytes) → str_lt s t ≡ true → str_eq s t ≡ false
lt_ne s t e = elim (Bool-cases (str_eq s t)) [
  | inl g ↦ cc (subst (λ x. str_le x s ≡ true) (str_eq_sound s t g) (str_le_refl s), lt_le s t e)
  | inr g ↦ g
]

lex_cases :
    (s t : Bytes) (a : Bool) → lex s t a ≡ true → (str_lt s t ≡ true) ⊎ ((s ≡ t) × (a ≡ true))
lex_cases s t a h = elim (Bool-cases (str_eq s t)) [
  | inl e ↦ inr (str_eq_sound s t e, ground arith)
  | inr e ↦ inl (ground arith)
]

lex_lt : (s t : Bytes) (a : Bool) → str_lt s t ≡ true → lex s t a ≡ true
lex_lt s t a e = ground (arith, lt_ne s t e)

lex_trans :
    (s t u : Bytes) (a b c : Bool)
    → (a ≡ true → b ≡ true → c ≡ true)
    → lex s t a ≡ true
    → lex t u b ≡ true
    → lex s u c ≡ true
lex_trans s t u a b c h e f = elim (lex_cases s t a e) [
  | inl x ↦ elim (lex_cases t u b f) [
    | inl y ↦ lex_lt s u c (lt_trans s t u x y)
    | inr (y, g) ↦ lex_lt s u c (rw (← y) x)
  ]
  | inr (x, g) ↦ elim (lex_cases t u b f) [
    | inl y ↦ lex_lt s u c (rw x y)
    | inr (y, k) ↦ lex_eq s u c (x ∙ y) ∙ h g k
  ]
]

lex_total :
    (s t : Bytes) (a b : Bool) (X : Type 0)
    → (s ≡ t → (a ≡ true) ⊎ (b ≡ true) ⊎ X)
    → (lex s t a ≡ true) ⊎ (lex t s b ≡ true) ⊎ X
lex_total s t a b X h = elim (Bool-cases (str_eq s t)) [
  | inl e ↦ elim (h (str_eq_sound s t e)) [
    | inl x ↦ inl (lex_eq s t a (str_eq_sound s t e) ∙ x)
    | inr (inl y) ↦ inr (inl (lex_eq t s b (sym (str_eq_sound s t e)) ∙ y))
    | inr (inr z) ↦ inr (inr z)
  ]
  | inr e ↦ elim (Bool-cases (str_le t s)) [
    | inl l ↦ elim (Bool-cases (str_le s t)) [
      | inl m ↦ cc ((str_eq_iff s t).1 (str_le_antisymm s t m l), e)
      | inr m ↦ inr (inl (lex_lt t s b (ground arith)))
    ]
    | inr l ↦ inl (lex_lt s t a (ground arith))
  ]
]

lt_total : (s t : Bytes) → (str_lt s t ≡ true) ⊎ (str_lt t s ≡ true) ⊎ (s ≡ t)
lt_total s t = elim (Bool-cases (str_le t s)) [
  | inl l ↦ elim (Bool-cases (str_le s t)) [
    | inl m ↦ inr (inr (str_le_antisymm s t m l))
    | inr m ↦ inr (inl (ground arith))
  ]
  | inr l ↦ inl (ground arith)
]

lt_irrefl : (s : Bytes) → str_lt s s ≡ false
lt_irrefl s = ground (arith, str_le_refl s)

pub pkg_less_irrefl : (a : Package) → pkg_less a a ≡ false
unfolding pkg_less
pkg_less_irrefl a =
    lex_refl a.kind (lex a.name a.name (str_lt a.version a.version))
    ∙ lex_refl a.name (str_lt a.version a.version)
    ∙ lt_irrefl a.version

pub pkg_less_trans :
    (a b c : Package) → pkg_less a b ≡ true → pkg_less b c ≡ true → pkg_less a c ≡ true
unfolding pkg_less
pkg_less_trans a b c =
    lex_trans a.kind b.kind c.kind _ _ _
      (lex_trans a.name b.name c.name _ _ _ (lt_trans a.version b.version c.version))

same_fields : (a b : Package) → a.kind ≡ b.kind → a.name ≡ b.name → a.version ≡ b.version → a ≡ b
same_fields a b k n v = cc

pub pkg_less_total : (a b : Package) → (pkg_less a b ≡ true) ⊎ (pkg_less b a ≡ true) ⊎ (a ≡ b)
unfolding pkg_less
pkg_less_total a b = lex_total a.kind b.kind _ _ (a ≡ b) λ k.
    lex_total a.name b.name _ _ (a ≡ b) λ n. elim (lt_total a.version b.version) [
      | inl l ↦ inl l
      | inr (inl l) ↦ inr (inl l)
      | inr (inr v) ↦ inr (inr (same_fields a b k n v))
    ]

pkg_eq_sound : (a b : Package) → pkg_eq a b ≡ true → a ≡ b
pkg_eq_sound a b h =
    let both =
      &&-eq-true (str_eq a.kind b.kind && str_eq a.name b.name) (str_eq a.version b.version) h in
    let keys = &&-eq-true (str_eq a.kind b.kind) (str_eq a.name b.name) both.0 in
    same_fields a b (str_eq_sound a.kind b.kind keys.0) (str_eq_sound a.name b.name keys.1)
      (str_eq_sound a.version b.version both.1)

pkg_eq_refl : (a : Package) → pkg_eq a a ≡ true
pkg_eq_refl a = ground (arith, str_eq_refl a.kind, str_eq_refl a.name, str_eq_refl a.version)

pub pkg_eq_iff : (a b : Package) → (pkg_eq a b ≡ true) ↔ (a ≡ b)
pkg_eq_iff a b = (pkg_eq_sound a b, λ e. subst (λ x. pkg_eq a x ≡ true) e (pkg_eq_refl a))
