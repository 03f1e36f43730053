-- ===== src/Prelude/Outcome.antt =====
-- A Go result `(value, error)` as one value: the value, or the error that came instead.
use mathlib.Core.Path.{◌≡◌, refl}
use mathlib.Core.Bool.{Bool, true, false}
use siembox_endpoint.Prelude.Tests.{if◌then◌else◌}

pub data Result (E A : Type 0) : Type 0 where
  ok : A → Result E A
  err : E → Result E A

-- `if !test { return e }`
abbrev pub guard : {E : Type 0} → Bool → E → Result E (Unit {0})
guard false why = err why
guard true why = ok tt

infixl 5 ◌>>=◌ ◌>>◌
abbrev pub ◌>>=◌ : {E X Y : Type 0} → Result E X → (X → Result E Y) → Result E Y
err why >>= next = err why
ok x >>= next = next x

abbrev pub ◌>>◌ : {E Y : Type 0} → Result E (Unit {0}) → Result E Y → Result E Y
first >> second = first >>= λ _. second

-- The parts of a chain that came to a value.
pub >>=-eq-ok :
    {E X Y : Type 0} (first : Result E X) (next : X → Result E Y) {y : Y}
    → (first >>= next) ≡ ok y
    → (x : X) × (first ≡ ok x) × (next x ≡ ok y)
>>=-eq-ok (err why) next came = cc
>>=-eq-ok (ok x) next came = (x, refl, came)

pub >>=-congr :
    {E A B : Type 0} (m : Result E A) (f g : A → Result E B)
    → ((a : A) → f a ≡ g a)
    → (m >>= f) ≡ (m >>= g)
>>=-congr (ok a) f g h = h a
>>=-congr (err e) f g h = refl

-- A value that a test let through.
pub if-eq-ok :
    {E A : Type 0} (b : Bool) (x : A) (e : E) {a : A}
    → (if b then ok x else err e) ≡ ok a
    → (b ≡ true) × (a ≡ x)
if-eq-ok true x e h = (refl, cc)
if-eq-ok false x e h = cc

pub ok_injective : {E A : Type 0} {a b : A} → ◌≡◌ {A = Result E A} (ok a) (ok b) → a ≡ b
ok_injective h = cc
