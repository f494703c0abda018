-- ===== src/Common/Try.antt =====
-- A computation that returns a value or raises an exception.
use mathlib.Core.Path.{◌≡◌, refl}
use mathlib.Core.Logic.{◌⊎◌, inl, inr}

pub data Try {ℓ} (A : Type ℓ) : Type ℓ where
  returned : A → Try A
  raised : Try A

infixl 5 ◌>>=◌
abbrev pub ◌>>=◌ {ℓ κ} : {A : Type ℓ} {B : Type κ} → Try A → (A → Try B) → Try B
returned a >>= f = f a
raised >>= f = raised

pub >>=-eq-returned {ℓ κ} :
    {A : Type ℓ} {B : Type κ} (m : Try A) (f : A → Try B) {b : B}
    → (m >>= f) ≡ returned b
    → (a : A) × (m ≡ returned a) × (f a ≡ returned b)
>>=-eq-returned (returned a) f h = (a, refl, h)
>>=-eq-returned raised f h = cc

pub Try-cases {ℓ} : {A : Type ℓ} (m : Try A) → (m ≡ raised) ⊎ ((a : A) × (m ≡ returned a))
Try-cases raised = inl refl
Try-cases (returned a) = inr (a, refl)
