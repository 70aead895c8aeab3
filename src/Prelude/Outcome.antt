-- ===== src/Prelude/Outcome.antt =====
-- A value, or the error that the source throws.
use mathlib.Core.Path.{◌≡◌, refl}
use mathlib.Core.Logic.{◌⊎◌, inl, inr}
use mathlib.Core.Bool.{Bool, true, false}
use mathlib.Core.Option.{Option, none, some}

pub data Result (E : Type 0) (A : Type 0) : Type 0 where
  err : E → Result E A
  ok : A → Result E A

-- `if (!test) throw e`
abbrev pub guard : {E : Type 0} → (test : Bool) → (thrown : E) → Result E (Unit {0})
guard false thrown = err thrown
guard true thrown = ok tt

abbrev pub or_throw : {E A : Type 0} → Option A → (thrown : E) → Result E A
or_throw none thrown = err thrown
or_throw (some found) thrown = ok found

-- What comes after a throw is skipped.
infixl 5 ◌>>=◌ ◌>>◌
abbrev pub ◌>>=◌ : {E X Y : Type 0} → (first : Result E X) → (next : X → Result E Y) → Result E Y
err thrown >>= next = err thrown
ok x >>= next = next x

abbrev pub ◌>>◌ : {E Y : Type 0} → (first : Result E (Unit {0})) → (next : Result E Y) → Result E Y
first >> next = first >>= λ unit. next

pub or_throw-eq-ok :
    {E X Y : Type 0} (found : Option X) (thrown : E) (next : X → Result E Y) {y : Y}
    → (or_throw found thrown >>= next) ≡ ok y
    → (x : X) × (found ≡ some x) × (next x ≡ ok y)
or_throw-eq-ok (some x) thrown next h = (x, refl, h)
or_throw-eq-ok none thrown next h = cc

pub guard-eq-ok :
    {E Y : Type 0} (test : Bool) (thrown : E) (next : Result E Y) {y : Y}
    → (guard test thrown >> next) ≡ ok y
    → (test ≡ true) × (next ≡ ok y)
guard-eq-ok false thrown next h = cc
guard-eq-ok true thrown next h = (refl, h)

pub >>=-eq-ok :
    {E X Y : Type 0} (first : Result E X) (next : X → Result E Y) {y : Y}
    → (first >>= next) ≡ ok y
    → (x : X) × (first ≡ ok x) × (next x ≡ ok y)
>>=-eq-ok (err thrown) next h = cc
>>=-eq-ok (ok x) next h = (x, refl, h)

pub ok-injective : {E A : Type 0} {a b : A} → ◌≡◌ {A = Result E A} (ok a) (ok b) → a ≡ b
ok-injective h = cc

-- Go on with a value, or stop with its error and the state as it is.
abbrev pub attempt : {E S A B : Type 0} → S → Result E A → (A → S × Result E B) → S × Result E B
attempt s (ok a) f = f a
attempt s (err e) f = (s, err e)

pub attempt-eq-ok :
    {E S A B : Type 0} (s t : S) (r : Result E A) (f : A → S × Result E B) (b : B)
    → attempt s r f ≡ (t, ok b)
    → (a : A) × (r ≡ ok a) × (f a ≡ (t, ok b))
attempt-eq-ok s t (ok a) f b h = (a, refl, h)
attempt-eq-ok s t (err e) f b h = cc

-- A step that may stop with an error keeps what its last part keeps.
pub attempt_keeps :
    {E S A B : Type 0} (P : S → Type 0) (s : S) (r : Result E A) (f : A → S × Result E B)
    → P s
    → ((a : A) → r ≡ ok a → P (f a).0)
    → P (attempt s r f).0
attempt_keeps P s (ok a) f p h = h a refl
attempt_keeps P s (err e) f p h = p

pub Result-cases :
    {E A : Type 0} (r : Result E A) → ((a : A) × (r ≡ ok a)) ⊎ ((e : E) × (r ≡ err e))
Result-cases (ok a) = inl (a, refl)
Result-cases (err e) = inr (e, refl)
