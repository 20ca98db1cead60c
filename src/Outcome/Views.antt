-- ===== src/Outcome/Views.antt =====
-- Parts of the state that a computation does not change.
use openeo_geopyspark_driver.Prelude.{◌≡◌, refl, ◌∙◌, Bool, true, false, inl, inr, if◌then◌else◌}
use openeo_geopyspark_driver.Outcome.{Result, ok, err, Exec, ◌>>=◌, ◌>>◌, when, lift, Result-cases}

module _ {S V : Type 0} (view : S → V) where
  abbrev pub Keeps : {A : Type 0} → Exec S A → Type 0
  Keeps m = (s : S) → view (m s).1 ≡ view s

  pub bind-Keeps :
      {A B : Type 0} (m : Exec S A) (f : A → Exec S B)
      → Keeps m
      → ((a : A) → Keeps (f a))
      → Keeps (m >>= f)
  bind-Keeps m f km kf s = elim (Result-cases (m s).0) [
    | inl (a, runs) ↦ rw runs (kf a (m s).1 ∙ km s)
    | inr (e, raised) ↦ rw raised (km s)
  ]

  pub then-Keeps : {A B : Type 0} (m : Exec S A) (n : Exec S B) → Keeps m → Keeps n → Keeps (m >> n)
  then-Keeps m n km kn s = elim (Result-cases (m s).0) [
    | inl (a, runs) ↦ rw runs (kn (m s).1 ∙ km s)
    | inr (e, raised) ↦ rw raised (km s)
  ]

  pub when-Keeps : (b : Bool) (m : Exec S (Unit {0})) → Keeps m → Keeps (when b m)
  when-Keeps true m km s = km s
  when-Keeps false m km s = refl

  pub if-Keeps :
      {A : Type 0} (b : Bool) (m n : Exec S A) → Keeps m → Keeps n → Keeps (if b then m else n)
  if-Keeps true m n km kn s = km s
  if-Keeps false m n km kn s = kn s

  -- The rest of a chain needs only to be looked at where the read or the check succeeds.
  pub lift-Keeps :
      {A B : Type 0} (r : Result A) (f : A → Exec S B)
      → ((a : A) → r ≡ ok a → Keeps (f a))
      → Keeps (lift r >>= f)
  lift-Keeps (ok a) f k s = k a refl s
  lift-Keeps (err e) f k s = refl
