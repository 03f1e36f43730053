-- ===== src/Metrics/Words.antt =====
-- The words that `strings.Fields`, as internal/metrics/parse.go uses it, finds between spaces.
use siembox_endpoint.Prelude.{
  ℕ, Bool, true, false, ◌&&◌, List, [], ◌∷◌, ◌++◌, Bytes, all, ◌==◌, if◌then◌else◌, is_empty,
  is_space, is_plain, ◌≡◌, refl, ◌∙◌, ap, arith,
}
use siembox_endpoint.Metrics.Numbers.{
  wide_space, space_len, starts_word, join_word, fields_from, fields,
}

-- No white space begins at any byte of the text.
abbrev pub is_solid : Bytes → Bool
is_solid [] = true
is_solid (c ∷ s) = let rest = is_solid s in space_len (c ∷ s) == 0 && rest

wide_alone : (c : ℕ) (rest : Bytes) → wide_space c (32 ∷ rest) ≡ 0
unfolding wide_space
wide_alone c [] = ground arith
wide_alone c (y ∷ rest) = ground arith

wide_pair : (c x : ℕ) (rest : Bytes) → wide_space c (x ∷ 32 ∷ rest) ≡ wide_space c (x ∷ [])
unfolding wide_space
wide_pair c x rest = ground arith

wide_before_space : (c : ℕ) (w rest : Bytes) → wide_space c (w ++ (32 ∷ rest)) ≡ wide_space c w
unfolding wide_space
wide_before_space c [] rest = wide_alone c rest
wide_before_space c (x ∷ []) rest = wide_pair c x rest
wide_before_space c (x ∷ y ∷ w) rest = refl

-- A space behind a word makes no white space out of its last bytes.
len_before_space : (c : ℕ) (w rest : Bytes) → space_len ((c ∷ w) ++ (32 ∷ rest)) ≡ space_len (c ∷ w)
unfolding space_len
len_before_space c w rest = ap (λ (n : ℕ). if is_space c then 1 else n) (wide_before_space c w rest)

fields_cons :
    (c : ℕ) (s : Bytes)
    → space_len (c ∷ s) ≡ 0
    → fields (c ∷ s) ≡ join_word c (starts_word s) (fields s)
unfolding fields fields_from
fields_cons c s h = rw (h, fields_from) refl

fields_space : (rest : Bytes) → fields (32 ∷ rest) ≡ fields rest
unfolding fields fields_from space_len
fields_space rest = refl

join_word_alone : (c : ℕ) (ws : List Bytes) → join_word c false ws ≡ (c ∷ []) ∷ ws
join_word_alone c [] = refl
join_word_alone c (w ∷ ws) = refl

head_solid : (c : ℕ) (w : Bytes) → is_solid (c ∷ w) ≡ true → space_len (c ∷ w) ≡ 0
head_solid c w h = ground arith

tail_solid : (c : ℕ) (w : Bytes) → is_solid (c ∷ w) ≡ true → is_solid w ≡ true
tail_solid c w h = ground arith

starts_solid : (c : ℕ) (w : Bytes) → space_len (c ∷ w) ≡ 0 → starts_word (c ∷ w) ≡ true
starts_solid c w h = rw h refl

-- A word with a space after it.
fields_word :
    (c : ℕ) (w rest : Bytes)
    → is_solid (c ∷ w) ≡ true
    → fields ((c ∷ w) ++ (32 ∷ rest)) ≡ (c ∷ w) ∷ fields rest
unfolding space_len
fields_word c [] rest h =
    fields_cons c (32 ∷ rest) (len_before_space c [] rest ∙ head_solid c [] h)
    ∙ ap (join_word c false) (fields_space rest)
    ∙ join_word_alone c (fields rest)
fields_word c (d ∷ w) rest h =
    let t : is_solid (d ∷ w) ≡ true = tail_solid c (d ∷ w) h in
    fields_cons c ((d ∷ w) ++ (32 ∷ rest))
      (len_before_space c (d ∷ w) rest ∙ head_solid c (d ∷ w) h)
    ∙ ap (λ b. join_word c b (fields ((d ∷ w) ++ (32 ∷ rest))))
        (starts_solid d (w ++ (32 ∷ rest)) (len_before_space d w rest ∙ head_solid d w t))
    ∙ ap (join_word c true) (fields_word d w rest t)

pub first_word :
    (w rest : Bytes)
    → is_solid w ≡ true
    → is_empty w ≡ false
    → fields (w ++ (32 ∷ rest)) ≡ w ∷ fields rest
first_word [] rest h n = cc n
first_word (c ∷ w) rest h n = fields_word c w rest h

pub solid_plain : (w : Bytes) → is_solid w ≡ true → all is_plain w ≡ true
unfolding space_len
solid_plain [] h = refl
solid_plain (c ∷ w) h =
    let e : is_solid w ≡ true = tail_solid c w h in
    let rest : all is_plain w ≡ true = solid_plain w e in
    rw rest (plain_head c (wide_space c w) (head_solid c w h))
  where
    plain_head : (c n : ℕ) → (if is_space c then 1 else n) ≡ 0 → (is_plain c && true) ≡ true
    plain_head c n k = ground arith
