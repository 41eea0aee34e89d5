-- ===== src/Base/Results.antt =====
-- The outcomes of a Go call: a result, an error value, or a panic.
use mathlib.Core.Path.{◌≡◌, refl}
use mathlib.Core.Bool.{Bool, true, false}
use hamsa.Base.Tests.{if◌then◌else◌}

pub data Result (E A : Type 0) : Type 0 where
  ok : A → Result E A
  err : E → Result E A
  panic : Result E A

infixl 5 ◌>>=◌
abbrev pub ◌>>=◌ : {E A B : Type 0} → Result E A → (A → Result E B) → Result E B
ok a >>= f = f a
err e >>= f = err e
panic >>= f = panic

-- A call returns a value with P, or an error value; it does not panic.
abbrev pub Sound : {E A : Type 0} → (A → Type 0) → Result E A → Type 0
Sound P (ok a) = P a
Sound P (err e) = Unit
Sound P panic = ⊥

pub bind-Sound :
    {E A B : Type 0} (P : A → Type 0) (Q : B → Type 0) (m : Result E A) (f : A → Result E B)
    → Sound P m
    → ((a : A) → P a → Sound Q (f a))
    → Sound Q (m >>= f)
bind-Sound P Q (ok a) f h k = k a h
bind-Sound P Q (err e) f h k = tt
bind-Sound P Q panic f h k = h

pub Sound-imp :
    {E A : Type 0} (P Q : A → Type 0) (m : Result E A)
    → Sound P m
    → ((a : A) → P a → Q a)
    → Sound Q m
Sound-imp P Q (ok a) h k = k a h
Sound-imp P Q (err e) h k = tt
Sound-imp P Q panic h k = h

pub if-Sound :
    {E A : Type 0} (P : A → Type 0) (b : Bool) (m n : Result E A)
    → (b ≡ true → Sound P m)
    → (b ≡ false → Sound P n)
    → Sound P (if b then m else n)
if-Sound P true m n h k = h refl
if-Sound P false m n h k = k refl

abbrev pub is_ok : {E A : Type 0} → Result E A → Bool
is_ok (ok a) = true
is_ok (err e) = false
is_ok panic = false
