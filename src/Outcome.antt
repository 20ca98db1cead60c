-- ===== src/Outcome.antt =====
-- Python's exceptions as values, and methods that change state and may raise. What was written
-- before a raise stays written, so the state comes back beside the error too.
pub mod Try
pub mod Views
use openeo_geopyspark_driver.Prelude.{String, ◌≡◌, refl, ◌⊎◌, inl, inr, Bool, true, false}

-- The exceptions that the modelled code raises or catches. Those of kazoo come first, then those
-- of the openEO driver, those that the program declares, and those of Python itself.
pub data Error : Type 0 where
  no_node : Error
  node_exists : Error
  bad_version : Error
  kazoo_timeout : Error
  job_not_found : String → Error
  service_not_found : String → Error
  process_graph_not_found : String → Error
  stripped_specification : Error
  double_registry : String → Error
  app_not_found : Error
  app_report_parse : Error
  etl_config : Error
  assertion_error : Error
  key_error : String → Error
  type_error : Error
  value_error : Error
  runtime_error : Error
  other_error : String → Error

pub data Result {ℓ} (A : Type ℓ) : Type ℓ where
  ok : A → Result A
  err : Error → Result A

abbrev pub Exec {ℓ} : Type ℓ → Type ℓ → Type ℓ
Exec S A = S → Result A × S

module _ {ℓ} {S A : Type ℓ} where
  abbrev pub pure : A → Exec S A
  pure a s = (ok a, s)

  abbrev pub raise : Error → Exec S A
  raise e s = (err e, s)

  -- A computation that only reads.
  abbrev pub lift : Result A → Exec S A
  lift r s = (r, s)

  -- A read of the state that may raise.
  abbrev pub reads : (S → Result A) → Exec S A
  reads f s = (f s, s)

module _ {ℓ} {S A B : Type ℓ} where
  abbrev pub continue : Result A → (A → Exec S B) → Exec S B
  continue (ok a) f s = f a s
  continue (err e) f s = (err e, s)

  infixl 5 ◌>>=◌ ◌>>◌
  abbrev pub ◌>>=◌ : Exec S A → (A → Exec S B) → Exec S B
  ◌>>=◌ m f s = continue (m s).0 f (m s).1

  abbrev pub ◌>>◌ : Exec S A → Exec S B → Exec S B
  ◌>>◌ m n s = continue (m s).0 (λ _. n) (m s).1

-- An update that raises leaves the state as it was.
abbrev pub commit {ℓ} : {S : Type ℓ} → (S → Result S) → Exec S (Unit {ℓ})
commit f s = elim (f s) [ ok s' ↦ (ok tt, s') | err e ↦ (err e, s) ]

-- `assert b`
abbrev pub check {ℓ} : {S : Type ℓ} → Bool → Exec S (Unit {ℓ})
check true s = (ok tt, s)
check false s = (err assertion_error, s)

-- `if b: m`
abbrev pub when {ℓ} : {S : Type ℓ} → Bool → Exec S (Unit {ℓ}) → Exec S (Unit {ℓ})
when true m s = m s
when false m s = (ok tt, s)

pub Result-cases {ℓ} :
    {A : Type ℓ} (r : Result A) → ((a : A) × (r ≡ ok a)) ⊎ ((e : Error) × (r ≡ err e))
Result-cases (ok a) = inl (a, refl)
Result-cases (err e) = inr (e, refl)
