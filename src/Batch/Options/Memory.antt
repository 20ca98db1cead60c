-- ===== src/Batch/Options/Memory.antt =====
-- The memory and the cores that `GpsBatchJobs._start_job` asks for, and the limits that it checks.
pub mod Executors
pub mod Bounds
use openeo_geopyspark_driver.Prelude.{
  ℕ, ◌+◌, ◌*◌, ◌/◌, String, ◌<>◌, Bool, true, false, Option, none, some, ltb, if◌then◌else◌,
}
use openeo_geopyspark_driver.Prelude.Int.{ℤ, pos, negsuc, sub_ℕ, exceeds}
use openeo_geopyspark_driver.Outcome.{Result, ok, err, type_error}
use openeo_geopyspark_driver.Outcome.Try.{◌>>=◌, ◌>>◌}
use openeo_geopyspark_driver.Floats.{Floats}
use openeo_geopyspark_driver.Json.{Json, null, str, Fields, get, has}
use openeo_geopyspark_driver.Batch.Options.{
  Builtins, Defaults, option, forbid, api_error, driver_cores, executor_cores,
}

-- What is asked for. `python_max` is -1 where Python has no limit of its own.
pub record Plan (F : Type 0) : Type 0 where
  pub driver_memory : Json F
  pub driver_memory_overhead : Json F
  pub executor_memory : Json F
  pub executor_memory_overhead : Json F
  pub python_max : ℤ

-- int(cores) > 4
abbrev pub too_many : ℤ → Bool
too_many (pos n) = ltb 4 n
too_many (negsuc n) = false

-- `as_bytes` is Spark's `byteStringAsBytes`; `mebibytes` is f"{n}m".
module _ (R : Floats) (P : Builtins R) (D : Defaults R) (as_bytes : String → Result ℕ)
    (mebibytes : ℕ → String) where
  abbrev pub bytes_of : Json R.Float → Result ℕ
  bytes_of (str s) = as_bytes s
  bytes_of _ = err type_error

  abbrev pub optional_memory : Option String → Json R.Float
  optional_memory none = null
  optional_memory (some s) = str s

  -- The memory and its overhead together are over the limit.
  abbrev pub check_pair : Json R.Float → Json R.Float → Result (Unit {0})
  check_pair memory overhead = do
    a ← bytes_of memory
    b ← bytes_of overhead
    limit ← as_bytes D.max_executor_or_driver_memory
    forbid (ltb limit (a + b)) api_error

  -- `int(cores) > max_cores`
  abbrev pub check_cores : String → Result (Unit {0})
  check_cores cores = do n ← P.int_of cores; forbid (too_many n) api_error

  abbrev pub check_all_cores : Fields R.Float → Result (Unit {0})
  check_all_cores options =
      if D.is_kube_deploy
      then (do check_cores (executor_cores R P D options); check_cores (driver_cores R P D options))
      else ok tt

  -- n // (1024 ** 2), with the unit
  abbrev pub in_mebibytes : ℕ → Json R.Float
  in_mebibytes n = str (mebibytes (n / 1_048_576))

  -- `python_max`, and the overhead that is asked for.
  abbrev pub python_share :
      Fields R.Float → Json R.Float → ℕ → ℕ → Json R.Float → Result (ℤ × Json R.Float)
  python_share options overhead overhead_bytes jvm_bytes null = ok (
    if D.is_kube_deploy then sub_ℕ overhead_bytes jvm_bytes else negsuc 0,
    in_mebibytes overhead_bytes,
  )
  python_share options overhead overhead_bytes jvm_bytes given = do
    n ← bytes_of given
    ok (pos n, if has "executor-memoryOverhead" options then overhead else in_mebibytes jvm_bytes)

  abbrev pub check_total : Json R.Float → Json R.Float → ℤ → Result (Unit {0})
  check_total memory overhead python_max = do
    a ← bytes_of memory
    b ← bytes_of overhead
    limit ← as_bytes D.max_executor_or_driver_memory
    forbid (exceeds (a + b) python_max limit) api_error

  abbrev pub finish_plan :
      Json R.Float → Json R.Float → Json R.Float → ℤ × Json R.Float → Result (Plan R.Float)
  finish_plan driver_memory driver_overhead executor_memory (python_max, overhead) = do
    check_total executor_memory overhead python_max
    ok (record {
      driver_memory = driver_memory;
      driver_memory_overhead = driver_overhead;
      executor_memory = executor_memory;
      executor_memory_overhead = overhead;
      python_max = python_max;
    })

  unfoldable pub memory_plan : Fields R.Float → Result (Plan R.Float)
  memory_plan options = do
    let driver_memory = option R P D "driver-memory" (str D.driver_memory) options
    let driver_overhead =
        option R P D "driver-memoryOverhead" (str D.driver_memory_overhead) options
    let executor_memory = option R P D "executor-memory" (str D.executor_memory) options
    let executor_overhead =
        option R P D "executor-memoryOverhead" (str D.executor_memory_overhead) options
    check_pair executor_memory executor_overhead
    check_pair driver_memory driver_overhead
    check_all_cores options
    overhead_bytes ← bytes_of executor_overhead
    jvm_bytes ← as_bytes "128m"
    share ←
        python_share options executor_overhead overhead_bytes jvm_bytes
          (option R P D "python-memory" (optional_memory D.python_memory) options)
    finish_plan driver_memory driver_overhead executor_memory share
