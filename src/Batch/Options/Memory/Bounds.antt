-- ===== src/Batch/Options/Memory/Bounds.antt =====
-- The bounds on what `GpsBatchJobs._start_job` (openeogeotrellis/backend.py) asks for.
use openeo_geopyspark_driver.Prelude.{
  ℕ, ◌*◌, ◌≤◌, String, ◌≡◌, ◌∙◌, sym, ap, subst, Bool, true, false, arith, if◌then◌else◌,
}
use openeo_geopyspark_driver.Prelude.Int.{ℤ, pos, pos_part}
use openeo_geopyspark_driver.Outcome.{Result, ok}
use openeo_geopyspark_driver.Outcome.Try.{◌>>◌, returned, bind-Yields, ok_injective}
use openeo_geopyspark_driver.Floats.{Floats}
use openeo_geopyspark_driver.Json.{Json, str, Fields}
use openeo_geopyspark_driver.Batch.Options.{
  Builtins, Defaults, option, driver_cores, executor_cores,
}
use openeo_geopyspark_driver.Batch.Options.Memory.{
  Plan, bytes_of, optional_memory, check_pair, check_total, check_all_cores, check_cores,
  python_share, memory_plan, too_many,
}
use openeo_geopyspark_driver.Batch.Options.Memory.Executors.{
  Bytes, forbidden, check_pair-Pair, Executor, driver_within, share_within,
}

module _ (R : Floats) (P : Builtins R) (D : Defaults R) (as_bytes : String → Result ℕ)
    (mebibytes : ℕ → String) where
  module _ (rounds : (n : ℕ) → as_bytes (mebibytes n) ≡ ok (n * 1_048_576)) where
    -- No more cores than Kubernetes jobs may have, where that is checked.
    abbrev pub CoresWithin : Bool → Fields R.Float → Type 0
    CoresWithin false options = Unit
    CoresWithin true options =
        ((n : ℤ) × (P.int_of (executor_cores R P D options) ≡ ok n) × (pos_part n ≤ 4))
        × ((n : ℤ) × (P.int_of (driver_cores R P D options) ≡ ok n) × (pos_part n ≤ 4))

    few_cores :
        (cores : String)
        → check_cores R P D as_bytes mebibytes cores ≡ ok tt
        → (n : ℤ) × (P.int_of cores ≡ ok n) × (pos_part n ≤ 4)
    few_cores cores h =
        let (n, is_n, h1) = returned (P.int_of cores) _ h in
        (n, is_n, ground (arith, forbidden R P D as_bytes mebibytes (too_many n) h1))

    -- The driver, an executor, and the cores.
    pub record Bounded (options : Fields R.Float) (plan : Plan R.Float) : Type 0 where
      pub limit : ℕ
      pub is_limit : as_bytes D.max_executor_or_driver_memory ≡ ok limit
      pub driver :
          Executor R P D as_bytes mebibytes plan.driver_memory plan.driver_memory_overhead
            (pos 0)
            limit
      pub executor :
          Executor R P D as_bytes mebibytes plan.executor_memory plan.executor_memory_overhead
            plan.python_max limit
      pub cores : CoresWithin D.is_kube_deploy options

    cores_within :
        (kube : Bool) (options : Fields R.Float)
        → (if kube
            then check_cores R P D as_bytes mebibytes (executor_cores R P D options)
              >> check_cores R P D as_bytes mebibytes (driver_cores R P D options)
            else ok tt)
          ≡ ok tt
        → CoresWithin kube options
    cores_within false options h = tt
    cores_within true options h =
        let (u, executor_few, driver_few) =
          returned (check_cores R P D as_bytes mebibytes (executor_cores R P D options)) _ h in
        (
          few_cores (executor_cores R P D options) executor_few,
          few_cores (driver_cores R P D options) driver_few,
        )

    abbrev memory_option : Fields R.Float → Json R.Float
    memory_option options = option R P D "executor-memory" (str D.executor_memory) options

    abbrev overhead_option : Fields R.Float → Json R.Float
    overhead_option options =
        option R P D "executor-memoryOverhead" (str D.executor_memory_overhead) options

    bounded :
        (options : Fields R.Float)
        (driver_memory driver_overhead memory overhead given : Json R.Float) (n jvm_bytes : ℕ)
        (share : ℤ × Json R.Float)
        → check_pair R P D as_bytes mebibytes memory overhead ≡ ok tt
        → check_pair R P D as_bytes mebibytes driver_memory driver_overhead ≡ ok tt
        → check_all_cores R P D as_bytes mebibytes options ≡ ok tt
        → Bytes R P D as_bytes mebibytes overhead n
        → python_share R P D as_bytes mebibytes options overhead n jvm_bytes given ≡ ok share
        → check_total R P D as_bytes mebibytes memory share.1 share.0 ≡ ok tt
        → Bounded options (record {
          driver_memory = driver_memory;
          driver_memory_overhead = driver_overhead;
          executor_memory = memory;
          executor_memory_overhead = share.1;
          python_max = share.0;
        })
    bounded options driver_memory driver_overhead memory overhead given n jvm share checked
          driver_checked cores_checked is_n share_is total_checked =
        let pair = check_pair-Pair R P D as_bytes mebibytes memory overhead checked in
        let same = ok_injective (sym is_n ∙ pair.is_overhead) in
        record {
          limit = pair.limit;
          is_limit = pair.is_limit;
          driver =
              driver_within R P D as_bytes mebibytes driver_memory driver_overhead pair.limit
                pair.is_limit driver_checked;
          executor =
              share_within R P D as_bytes mebibytes rounds options memory overhead given jvm pair
                share.0 share.1
                (ap (λ m. python_share R P D as_bytes mebibytes options overhead m jvm given)
                    (sym same)
                  ∙ share_is)
                total_checked;
          cores = cores_within D.is_kube_deploy options cores_checked;
        }

    -- Where the options of a job pass the checks, the driver's memory and overhead together, and an
    -- executor's memory, overhead and Python memory (if that is limited) together, are within the
    -- backend's limit for both; and on Kubernetes the driver and the executors have at most four
    -- cores each. The overhead is the one that is finally asked for, which may be another than the
    -- option says. Spark reads a text of n mebibytes as n * 1024 * 1024 bytes.
    pub memory_plan_bounds :
        (options : Fields R.Float) (plan : Plan R.Float)
        → memory_plan R P D as_bytes mebibytes options ≡ ok plan
        → Bounded options plan
    unfolding memory_plan
    memory_plan_bounds options =
        let memory = memory_option options in
        let overhead = overhead_option options in
        let given =
          option R P D "python-memory" (optional_memory R P D as_bytes mebibytes D.python_memory)
            options in
        bind-Yields (Bounded options) (check_pair R P D as_bytes mebibytes memory overhead) _
          λ u1 executor_checked.
            bind-Yields (Bounded options) (check_pair R P D as_bytes mebibytes _ _) _
              λ u2 driver_checked.
                bind-Yields (Bounded options) (check_all_cores R P D as_bytes mebibytes options) _
                  λ u3 cores_checked.
                    bind-Yields (Bounded options) (bytes_of R P D as_bytes mebibytes overhead) _
                      λ n overhead_is.
                        bind-Yields (Bounded options) (as_bytes "128m") _ λ jvm jvm_is.
                          bind-Yields (Bounded options)
                            (python_share R P D as_bytes mebibytes options overhead n jvm given) _
                            λ share share_is.
                              bind-Yields (Bounded options)
                                (check_total R P D as_bytes mebibytes memory share.1 share.0) _
                                λ u7 total_checked plan result.
                                  subst (Bounded options) (ok_injective result) (
                                    bounded options _ _ memory overhead given n jvm share
                                      executor_checked driver_checked cores_checked overhead_is
                                      share_is total_checked)
