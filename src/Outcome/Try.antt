-- ===== src/Outcome/Try.antt =====
-- Chains of code that reads and may raise, and changes nothing.
use native.Mathlib.Omega.{arith}
use openeo_geopyspark_driver.Prelude.{◌≡◌, refl}
use openeo_geopyspark_driver.Outcome.{Result, ok, err}

infixl 5 ◌>>=◌ ◌>>◌
abbrev pub ◌>>=◌ {ℓ κ} : {A : Type ℓ} {B : Type κ} → Result A → (A → Result B) → Result B
ok a >>= f = f a
err e >>= f = err e

abbrev pub ◌>>◌ {ℓ κ} : {A : Type ℓ} {B : Type κ} → Result A → Result B → Result B
m >> k = m >>= λ _. k

-- A chain that returns has not raised before.
pub returned {ℓ κ} :
    {A : Type ℓ} {B : Type κ} {b : B} (m : Result A) (f : A → Result B)
    → m >>= f ≡ ok b
    → (a : A) × (m ≡ ok a) × (f a ≡ ok b)
returned (ok a) f h = (a, refl, h)
returned (err e) f h = absurd (ground arith)

pub ok_injective {ℓ} : {A : Type ℓ} {a b : A} → ok a ≡ ok b → a ≡ b
ok_injective h = cc

-- What holds of the value, if there is one, is shown step by step.
abbrev pub Yields {ℓ κ} : {B : Type ℓ} → (B → Type κ) → Result B → Type (ℓ ⊔ κ)
Yields {B} P m = (b : B) → m ≡ ok b → P b

pub bind-Yields {ℓ κ ι} :
    {A : Type ℓ} {B : Type κ} (P : B → Type ι) (m : Result A) (f : A → Result B)
    → ((a : A) → m ≡ ok a → Yields P (f a))
    → Yields P (m >>= f)
bind-Yields P (ok a) f h b r = h a refl b r
bind-Yields P (err e) f h b r = absurd (ground arith)
