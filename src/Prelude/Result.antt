-- ===== src/Prelude/Result.antt =====
-- A computation that ends in a value or in an error message.
use mathlib.Core.Path.{◌≡◌, refl}
use mathlib.Core.Bool.{Bool, true, false}
use streammate_studio_host.Prelude.Tests.{if◌then◌else◌}
use streammate_studio_host.Prelude.Text.{Bytes}

pub data Result {ℓ} (A : Type ℓ) : Type ℓ where
  ok : A → Result A
  err : Bytes → Result A

-- A failed check ends the computation with its message.
abbrev pub guard : Bool → Bytes → Result (Unit {0})
guard false why = err why
guard true why = ok tt

infixl 5 ◌>>=◌ ◌>>◌
abbrev pub ◌>>=◌ {ℓ κ} : {A : Type ℓ} {B : Type κ} → Result A → (A → Result B) → Result B
err why >>= step = err why
ok a >>= step = step a

abbrev pub ◌>>◌ {ℓ} : {B : Type ℓ} → Result (Unit {0}) → Result B → Result B
check >> next = check >>= λ passed. next

-- The parts of a sequence that ends in a value.
pub bind-eq-ok {ℓ κ} :
    {A : Type ℓ} {B : Type κ} {last : B} (first : Result A) (step : A → Result B)
    → (first >>= step) ≡ ok last
    → (mid : A) × (first ≡ ok mid) × (step mid ≡ ok last)
bind-eq-ok (err why) step e = cc
bind-eq-ok (ok mid) step e = (mid, refl, e)

-- What holds of the value, or else of the message.
abbrev pub Post {ℓ κ} : {A : Type ℓ} → (A → Type κ) → (Bytes → Type κ) → Result A → Type κ
Post P E (ok a) = P a
Post P E (err e) = E e

module _ {κ} (E : Bytes → Type κ) where
  pub Post-bind {ℓ ι} :
      {A : Type ℓ} {B : Type ι} (P : A → Type κ) (Q : B → Type κ) (m : Result A) (f : A → Result B)
      → Post P E m
      → ((a : A) → P a → Post Q E (f a))
      → Post Q E (m >>= f)
  Post-bind P Q (ok a) f h k = k a h
  Post-bind P Q (err e) f h k = h

  pub Post-if {ℓ} :
      {A : Type ℓ} (P : A → Type κ) (b : Bool) (x y : Result A)
      → Post P E x
      → Post P E y
      → Post P E (if b then x else y)
  Post-if P true x y hx hy = hx
  Post-if P false x y hx hy = hy

pub Post-guard :
    (E : Bytes → Type 0) (b : Bool) (e : Bytes) → E e → Post (λ _. b ≡ true) E (guard b e)
Post-guard E true e h = refl
Post-guard E false e h = h
