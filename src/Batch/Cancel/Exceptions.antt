-- ===== src/Batch/Cancel/Exceptions.antt =====
-- Steps that raise no other exceptions than those that are caught.
use openeo_geopyspark_driver.Prelude.{◌≡◌, refl, ◌∙◌, Bool, true, false, inl, inr}
use openeo_geopyspark_driver.Outcome.{Error, Result, ok, err, Exec, ◌>>◌, when, Result-cases}
use openeo_geopyspark_driver.Batch.Cancel.{ignored, ignoring}

-- What m raises is caught.
abbrev pub RaisesOnly : {S : Type 0} → (Error → Bool) → Exec S (Unit {0}) → Type 0
RaisesOnly {S} caught m = (s : S) (e : Error) → (m s).0 ≡ err e → caught e ≡ true

ignored-ok :
    (caught : Error → Bool) (r : Result (Unit {0}))
    → ((e : Error) → r ≡ err e → caught e ≡ true)
    → ignored caught tt r ≡ ok tt
ignored-ok caught (ok u) h = refl
ignored-ok caught (err e) h = rw (h e refl) refl

pub ignoring-ok :
    {S : Type 0} (caught : Error → Bool) (m : Exec S (Unit {0})) (s : S)
    → RaisesOnly caught m
    → (ignoring caught m s).0 ≡ ok tt
ignoring-ok caught m s h = ignored-ok caught (m s).0 (h s)

pub then-RaisesOnly :
    {S : Type 0} (caught : Error → Bool) (m n : Exec S (Unit {0}))
    → RaisesOnly caught m
    → RaisesOnly caught n
    → RaisesOnly caught (m >> n)
then-RaisesOnly caught m n hm hn s e = elim (Result-cases (m s).0) [
  | inl (u, runs) ↦ rw runs (hn (m s).1 e)
  | inr (e', raised) ↦ rw raised (λ h. hm s e (raised ∙ h))
]

pub then-ok :
    {S : Type 0} (m n : Exec S (Unit {0})) (s : S)
    → (m s).0 ≡ ok tt
    → ((s' : S) → (n s').0 ≡ ok tt)
    → ((m >> n) s).0 ≡ ok tt
then-ok m n s runs h = rw runs (h (m s).1)

pub when-ok :
    {S : Type 0} (b : Bool) (m : Exec S (Unit {0})) (s : S)
    → (m s).0 ≡ ok tt
    → (when b m s).0 ≡ ok tt
when-ok true m s runs = runs
when-ok false m s runs = refl
