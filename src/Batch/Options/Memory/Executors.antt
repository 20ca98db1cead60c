-- ===== src/Batch/Options/Memory/Executors.antt =====
-- What an executor and the driver ask for, Python's memory included, against the limit
-- (`GpsBatchJobs._start_job`, openeogeotrellis/backend.py).
use openeo_geopyspark_driver.Prelude.{
  ℕ, ◌+◌, ◌*◌, ◌/◌, ◌≤◌, String, ◌≡◌, subst, refl, Bool, true, false, ltb, arith,
}
use openeo_geopyspark_driver.Prelude.Int.{ℤ, pos, negsuc, exceeds, pos_part}
use openeo_geopyspark_driver.Outcome.{Result, ok}
use openeo_geopyspark_driver.Outcome.Try.{returned}
use openeo_geopyspark_driver.Floats.{Floats}
use openeo_geopyspark_driver.Json.{Json, null, bool, num, str, arr, obj, Fields}
use openeo_geopyspark_driver.Batch.Options.{Builtins, Defaults, forbid, api_error}
use openeo_geopyspark_driver.Batch.Options.Memory.{
  bytes_of, check_pair, check_total, in_mebibytes, python_share,
}

module _ (R : Floats) (P : Builtins R) (D : Defaults R) (as_bytes : String → Result ℕ)
    (mebibytes : ℕ → String) where
  -- A text that stands for a number of bytes.
  abbrev pub Bytes : Json R.Float → ℕ → Type 0
  Bytes v n = bytes_of R P D as_bytes mebibytes v ≡ ok n

  pub forbidden : (b : Bool) → forbid b api_error ≡ ok tt → b ≡ false
  forbidden false h = refl
  forbidden true h = ground arith

  -- Two amounts that are together within the limit.
  pub record Pair (memory overhead : Json R.Float) : Type 0 where
    pub memory_bytes : ℕ
    pub overhead_bytes : ℕ
    pub limit : ℕ
    pub is_memory : Bytes memory memory_bytes
    pub is_overhead : Bytes overhead overhead_bytes
    pub is_limit : as_bytes D.max_executor_or_driver_memory ≡ ok limit
    pub within : memory_bytes + overhead_bytes ≤ limit

  pub check_pair-Pair :
      (memory overhead : Json R.Float)
      → check_pair R P D as_bytes mebibytes memory overhead ≡ ok tt
      → Pair memory overhead
  check_pair-Pair memory overhead h =
      let (a, is_a, h1) = returned (bytes_of R P D as_bytes mebibytes memory) _ h in
      let (b, is_b, h2) = returned (bytes_of R P D as_bytes mebibytes overhead) _ h1 in
      let (limit, is_limit, h3) = returned (as_bytes D.max_executor_or_driver_memory) _ h2 in
      let fits = forbidden (ltb limit (a + b)) h3 in
      record {
        memory_bytes = a;
        overhead_bytes = b;
        limit = limit;
        is_memory = is_a;
        is_overhead = is_b;
        is_limit = is_limit;
        within = ground arith;
      }

  -- What is asked for of an executor, Python's own memory included.
  pub record Executor (memory overhead : Json R.Float) (python_max : ℤ) (limit : ℕ) : Type 0 where
    pub memory_bytes : ℕ
    pub overhead_bytes : ℕ
    pub is_memory : Bytes memory memory_bytes
    pub is_overhead : Bytes overhead overhead_bytes
    pub within : memory_bytes + overhead_bytes + pos_part python_max ≤ limit

  pub driver_within :
      (memory overhead : Json R.Float) (limit : ℕ)
      → as_bytes D.max_executor_or_driver_memory ≡ ok limit
      → check_pair R P D as_bytes mebibytes memory overhead ≡ ok tt
      → Executor memory overhead (pos 0) limit
  driver_within memory overhead limit is_limit h =
      let pair = check_pair-Pair memory overhead h in
      let within = pair.within in
      let same = pair.is_limit in
      record {
        memory_bytes = pair.memory_bytes;
        overhead_bytes = pair.overhead_bytes;
        is_memory = pair.is_memory;
        is_overhead = pair.is_overhead;
        within = ground arith;
      }

  module _ (rounds : (n : ℕ) → as_bytes (mebibytes n) ≡ ok (n * 1_048_576)) where
    -- A limit for Python is added to the sum that is checked.
    with_python :
        (memory overhead : Json R.Float) (n limit : ℕ)
        → as_bytes D.max_executor_or_driver_memory ≡ ok limit
        → check_total R P D as_bytes mebibytes memory overhead (pos n) ≡ ok tt
        → Executor memory overhead (pos n) limit
    with_python memory overhead n limit is_limit h =
        let (a, is_a, h1) = returned (bytes_of R P D as_bytes mebibytes memory) _ h in
        let (b, is_b, h2) = returned (bytes_of R P D as_bytes mebibytes overhead) _ h1 in
        let (limit', is_limit', h3) = returned (as_bytes D.max_executor_or_driver_memory) _ h2 in
        let fits = forbidden (exceeds (a + b) (pos n) limit') h3 in
        record {
          memory_bytes = a;
          overhead_bytes = b;
          is_memory = is_a;
          is_overhead = is_b;
          within = ground arith;
        }

    -- Without one, what was asked for is within the limit, and is only rounded down.
    without_python :
        (memory overhead : Json R.Float) (n : ℕ) (pair : Pair memory overhead)
        → Executor memory
            (in_mebibytes R P D as_bytes mebibytes pair.overhead_bytes)
            (negsuc n)
            pair.limit
    without_python memory overhead n pair =
        let within = pair.within in
        record {
          memory_bytes = pair.memory_bytes;
          overhead_bytes = pair.overhead_bytes / 1_048_576 * 1_048_576;
          is_memory = pair.is_memory;
          is_overhead = rounds (pair.overhead_bytes / 1_048_576);
          within = omega arith;
        }

    -- Python goes without a limit only where none is given.
    share_rounded :
        (options : Fields R.Float) (overhead given left : Json R.Float) (m jvm_bytes n : ℕ)
        → python_share R P D as_bytes mebibytes options overhead m jvm_bytes given
          ≡ ok (negsuc n, left)
        → in_mebibytes R P D as_bytes mebibytes m ≡ left
    share_rounded options overhead null left m jvm_bytes n h = ground arith
    share_rounded options overhead (str s) left m jvm_bytes n h = ground arith
    share_rounded options overhead (bool b) left m jvm_bytes n h = ground arith
    share_rounded options overhead (num x) left m jvm_bytes n h = ground arith
    share_rounded options overhead (arr xs) left m jvm_bytes n h = ground arith
    share_rounded options overhead (obj d) left m jvm_bytes n h = ground arith

    pub share_within :
        (options : Fields R.Float) (memory overhead given : Json R.Float) (jvm_bytes : ℕ)
        (pair : Pair memory overhead) (python_max : ℤ) (left : Json R.Float)
        → python_share R P D as_bytes mebibytes options overhead pair.overhead_bytes jvm_bytes given
          ≡ ok (python_max, left)
        → check_total R P D as_bytes mebibytes memory left python_max ≡ ok tt
        → Executor memory left python_max pair.limit
    share_within options memory overhead given jvm_bytes pair (pos n) left share h =
        with_python memory left n pair.limit pair.is_limit h
    share_within options memory overhead given jvm_bytes pair (negsuc n) left share h =
        subst (λ v. Executor memory v (negsuc n) pair.limit)
          (share_rounded options overhead given left pair.overhead_bytes jvm_bytes n share)
          (without_python memory overhead n pair)
