-- ===== src/Agent/Yara/Alerts.antt =====
-- The detections of a run of YARA passes.
use siembox_endpoint.Prelude.{
  ℕ, Bool, true, false, ◌||◌, Option, List, [], ◌∷◌, ◌++◌, Bytes, if◌then◌else◌, is_empty, ◌≡◌,
  refl, subst, arith, Bool-cases, inl, inr,
}
use siembox_endpoint.Agent.Yara.{
  YaraState, PassAnswer, matched, shut_down, timed_out, pass_failed, is_seen, take_fresh, advance,
  Passed, after_pass, yara_scan,
}

-- Each path is new among those seen, the earlier ones of the list included.
abbrev pub IsNew : List Bytes → List Bytes → Type 0
IsNew seen [] = Unit
IsNew seen (p ∷ ps) = (is_seen p seen ≡ false) × IsNew (p ∷ seen) ps

-- the paths seen after those of a list
abbrev pub onto : List Bytes → List Bytes → List Bytes
onto [] seen = seen
onto (p ∷ ps) seen = onto ps (p ∷ seen)

IsNew-append :
    (ps qs seen : List Bytes) → IsNew seen ps → IsNew (onto ps seen) qs → IsNew seen (ps ++ qs)
IsNew-append [] qs seen h k = k
IsNew-append (p ∷ ps) qs seen (e, h) k = (e, IsNew-append ps qs (p ∷ seen) h k)

abbrev pub IsFresh : List Bytes → List Bytes × List Bytes → Type 0
IsFresh seen r = IsNew seen r.1 × (r.0 ≡ onto r.1 seen)

or_false : (a b : Bool) → (a || b) ≡ false → b ≡ false
or_false a b h = ground arith

if-IsFresh :
    (b : Bool) (p : Bytes) (seen : List Bytes) (skipped taken : List Bytes × List Bytes)
    → (b ≡ false → is_seen p seen ≡ false)
    → IsFresh seen skipped
    → IsFresh (p ∷ seen) taken
    → IsFresh seen (if b then skipped else (taken.0, p ∷ taken.1))
if-IsFresh true p seen skipped taken f h k = h
if-IsFresh false p seen skipped taken f h k = ((f refl, k.0), k.1)

take_fresh-IsFresh : (ps seen : List Bytes) → IsFresh seen (take_fresh ps seen)
unfolding take_fresh
take_fresh-IsFresh [] seen = (tt, refl)
take_fresh-IsFresh (p ∷ ps) seen =
    if-IsFresh (is_empty p || is_seen p seen) p seen (take_fresh ps seen) (take_fresh ps (p ∷ seen))
      (or_false (is_empty p) (is_seen p seen)) (take_fresh-IsFresh ps seen)
      (take_fresh-IsFresh ps (p ∷ seen))

abbrev pub IsAlerted : YaraState → Passed → Type 0
IsAlerted st r = IsNew st.seen r.alerts × (r.state.seen ≡ onto r.alerts st.seen)

after_pass-IsAlerted :
    (full : Bool) (start : ℕ) (a : PassAnswer) (st : YaraState)
    → IsAlerted st (after_pass full start a st)
unfolding after_pass advance
after_pass-IsAlerted full start (matched paths) st = take_fresh-IsFresh paths st.seen
after_pass-IsAlerted full start shut_down st = (tt, refl)
after_pass-IsAlerted full start (timed_out text) st = (tt, refl)
after_pass-IsAlerted full start (pass_failed text) st = (tt, refl)

-- One pass of a run: whether YARA is available, whether the pass is full, its start, and osqueryi.
pub record Pass : Type 0 where
  pub available : Bool
  pub full : Bool
  pub start : ℕ
  pub answer : Option ℕ → PassAnswer

abbrev pub pass_once : Pass → YaraState → Passed
pass_once p st = yara_scan p.available p.full p.start p.answer st

-- all the alerts of a run
abbrev pub alerts_of : List Pass → YaraState → List Bytes
alerts_of [] st = []
alerts_of (p ∷ ps) st = (pass_once p st).alerts ++ alerts_of ps (pass_once p st).state

pass_once-IsAlerted : (p : Pass) (st : YaraState) → IsAlerted st (pass_once p st)
unfolding yara_scan
pass_once-IsAlerted p st = elim (Bool-cases p.available) [
  | inl e ↦ rw e (after_pass-IsAlerted p.full p.start (p.answer _) st)
  | inr e ↦ rw e (tt, refl)
]

-- In any run of passes, full or not, timed out or failed ones included, a detection is emitted at
-- most once for a path, and never for a path seen before the run.
pub alerts_of-IsNew : (ps : List Pass) (st : YaraState) → IsNew st.seen (alerts_of ps st)
alerts_of-IsNew [] st = tt
alerts_of-IsNew (p ∷ ps) st =
    let once = pass_once-IsAlerted p st in
    IsNew-append (pass_once p st).alerts (alerts_of ps (pass_once p st).state) st.seen once.0 (
      subst (λ s. IsNew s (alerts_of ps (pass_once p st).state)) once.1
        (alerts_of-IsNew ps (pass_once p st).state))
