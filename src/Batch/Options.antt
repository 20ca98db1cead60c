-- ===== src/Batch/Options.antt =====
-- The options of a batch job, as `GpsBatchJobs._start_job` reads them (openeogeotrellis/backend.py).
pub mod Memory
use Prim.Native.String.{[] as empty, ◌∷◌ as ◌∷ₛ◌}
use openeo_geopyspark_driver.Prelude.{
  ℕ, String, ◌==◌, ◌<>◌, Bool, true, false, not, ◌&&◌, ◌||◌, Option, none, some, List, [], ◌∷◌,
  contains, if◌then◌else◌,
}
use openeo_geopyspark_driver.Prelude.Int.{ℤ, pos, negsuc, pos_part, neg_part}
use openeo_geopyspark_driver.Outcome.{Error, Result, ok, err, type_error, other_error}
use openeo_geopyspark_driver.Outcome.Try.{◌>>=◌, ◌>>◌}
use openeo_geopyspark_driver.Floats.{Floats}
use openeo_geopyspark_driver.Json.{
  Json, null, bool, num, str, arr, obj, Items, nil, cons, Fields, end, field, get, get_or_null, has,
}

abbrev pub api_error : Error
api_error = other_error "OpenEOApiException"

abbrev pub attribute_error : Error
attribute_error = other_error "AttributeError"

-- Python's `str`, `int` and `str.upper`.
pub record Builtins (R : Floats) : Type 0 where
  pub str_of : Json R.Float → String
  pub int_of : String → Result ℤ
  pub upper : String → String

-- What the options default to: `get_backend_config()`, and whether jobs run on Kubernetes. The
-- default log level is the openEO driver's.
pub record Defaults (R : Floats) : Type 0 where
  pub is_kube_deploy : Bool
  pub soft_errors : R.Float
  pub log_level : String
  pub driver_memory : String
  pub driver_memory_overhead : String
  pub executor_memory : String
  pub executor_memory_overhead : String
  pub python_memory : Option String
  pub max_executor_or_driver_memory : String
  pub max_executors : ℕ

-- A joined list: what stands between the elements comes first.
abbrev pub join : String → List String → String
join separator [] = ""
join separator (s ∷ []) = s
join separator (s ∷ t ∷ ss) = s <> (separator <> join separator (t ∷ ss))

abbrev characters : String → List String
characters empty = []
characters (c ∷ₛ s) = (c ∷ₛ empty) ∷ characters s

abbrev pub keys : {F : Type 0} → Fields F → List String
keys end = []
keys (field k v d) = k ∷ keys d

abbrev pub texts : {F : Type 0} → Items F → Result (List String)
texts nil = ok []
texts (cons (str s) xs) = texts xs >>= λ ss. ok (s ∷ ss)
texts (cons _ xs) = err type_error

-- The texts that Python finds in a value when it goes through it.
abbrev pub iterate : {F : Type 0} → Json F → Result (List String)
iterate (arr xs) = texts xs
iterate (str s) = ok (characters s)
iterate (obj d) = ok (keys d)
iterate _ = err type_error

-- `raise` under an `if`
abbrev pub forbid : Bool → Error → Result (Unit {0})
forbid true e = err e
forbid false e = ok tt

module _ (R : Floats) (P : Builtins R) (D : Defaults R) where
  -- job_options.get(key, default)
  abbrev pub option : String → Json R.Float → Fields R.Float → Json R.Float
  option key default options = elim (get key options) [ none ↦ default | some v ↦ v ]

  unfoldable pub as_boolean_arg : String → String → Fields R.Float → Result String
  as_boolean_arg key default options = elim (get_or_null key options) [
    | null ↦ ok default
    | str s ↦ ok s
    | bool b ↦ ok (if b then "true" else "false")
    | _ ↦ err api_error
  ]

  -- x <= y
  abbrev pub le : R.Float → R.Float → Bool
  le x y = R.lt x y || R.eq x y

  abbrev pub is_ratio : R.Float → Bool
  is_ratio x = le (R.of_int 0) x && le x (R.of_int 1)

  unfoldable pub as_max_soft_errors_ratio_arg : Fields R.Float → Result String
  as_max_soft_errors_ratio_arg options = elim (get_or_null "soft-errors" options) [
    | null ↦ ok (R.to_string D.soft_errors)
    | str s ↦ if s == "false" then ok "0.0" else if s == "true" then ok "1.0" else err api_error
    | bool b ↦ ok (if b then "1.0" else "0.0")
    | num x ↦ if is_ratio x then ok (P.str_of (num x)) else err api_error
    | _ ↦ err api_error
  ]

  -- The level that the options ask for.
  abbrev pub log_level : Fields R.Float → Json R.Float
  log_level options = elim (get "logging-threshold" options) [
    | none ↦ option "log_level" (str D.log_level) options
    | some v ↦ v
  ]

  abbrev pub levels : List String
  levels = "DEBUG" ∷ "INFO" ∷ "WARN" ∷ "ERROR" ∷ []

  unfoldable pub as_logging_threshold_arg : Fields R.Float → Result String
  as_logging_threshold_arg options = elim (log_level options) [
    | str s ↦
        let upper = P.upper s in
        let value = if upper == "WARNING" then "WARN" else upper in
        if contains levels value then ok value else err api_error
    | _ ↦ err attribute_error
  ]

  -- str(job_options.get(key, default))
  abbrev pub text_option : String → Json R.Float → Fields R.Float → String
  text_option key default options = P.str_of (option key default options)

  abbrev pub cores_by_default : ℕ → Json R.Float
  cores_by_default n = num (R.of_int (if D.is_kube_deploy then 1 else n))

  abbrev pub driver_cores : Fields R.Float → String
  driver_cores options = text_option "driver-cores" (cores_by_default 5) options

  abbrev pub executor_cores : Fields R.Float → String
  executor_cores options = text_option "executor-cores" (cores_by_default 2) options

  abbrev pub float_of : ℤ → R.Float
  float_of a = R.sub (R.of_int (pos_part a)) (R.of_int (neg_part a))

  abbrev pub is_none_text : Json R.Float → Bool
  is_none_text (str s) = s == "NONE"
  is_none_text _ = false

  -- `executor_corerequest`
  unfoldable pub executor_request : Fields R.Float → Result (Json R.Float)
  executor_request options =
      let given = option "executor-request-cores" (str "NONE") options in
      if is_none_text given
      then (do
        cores ← P.int_of (executor_cores options)
        ok (str (R.to_string (R.mul (R.div (float_of cores) (R.of_int 2)) (R.of_int 1000)) <> "m")))
      else ok given

  -- What goes to the submit script for the option "udf-dependency-files": a list has no `join`.
  unfoldable pub extra_py_files : Fields R.Float → Result String
  extra_py_files options = elim (option "udf-dependency-files" (arr nil) options) [
    | arr xs ↦ elim xs [ nil ↦ ok "" | cons _ _ ↦ err attribute_error ]
    | str s ↦ if s == "" then ok "" else ok ",,"
    | obj d ↦ elim d [ end ↦ ok "" | field _ _ _ ↦ err attribute_error ]
    | _ ↦ err type_error
  ]

  unfoldable pub archives : Fields R.Float → Result String
  archives options = do
    names ← iterate (option "udf-dependency-archives" (arr nil) options)
    ok (join "," names)
