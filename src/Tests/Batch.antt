-- ===== src/Tests/Batch.antt =====
-- The options and the start of a batch job.
use Prim.Native.String.{count}
use Prim.Native.String.count
use openeo_geopyspark_driver.Prelude.{ℕ, zero, suc, ◌*◌, ◌≡◌, refl, ap, none, [], arith}
use openeo_geopyspark_driver.Prelude.Int.{negsuc}
use openeo_geopyspark_driver.Outcome.{ok, err}
use openeo_geopyspark_driver.Json.{str, obj, Fields, end, field}
use openeo_geopyspark_driver.Batch.Options.{
  as_boolean_arg, executor_request, archives, as_max_soft_errors_ratio_arg,
  as_logging_threshold_arg, api_error,
}
use openeo_geopyspark_driver.Batch.Options.Memory.{Plan, memory_plan}
use openeo_geopyspark_driver.Batch.Options.Memory.Bounds.{Bounded, memory_plan_bounds}
use openeo_geopyspark_driver.Batch.Start.Arguments.{prepare}
use openeo_geopyspark_driver.Batch.Start.{start_with, specification_of}
use openeo_geopyspark_driver.Batch.Start.Laws.{start_with_rejected, prepared_of}
use openeo_geopyspark_driver.Tests.Data.{numbers, codec, graph}
use openeo_geopyspark_driver.Tests.OneJob.{
  one_job, services, text_bytes, letters, builtins, defaults, deployment, world, no_token,
}

count-letters : (n : ℕ) → count (letters n) ≡ n
count-letters zero = refl
count-letters (suc n) = ground (arith, count.cons "m" (letters n), count-letters n)

text_bytes-letters : (n : ℕ) → text_bytes (letters n) ≡ ok (n * 1_048_576)
text_bytes-letters n = ap (λ m. ok (m * 1_048_576)) (count-letters n)

abbrev options : Fields ℕ
options = field "driver-memory" (str "mmm") end

abbrev plan : Plan ℕ
plan = record {
  driver_memory = str "mmm";
  driver_memory_overhead = str "mm";
  executor_memory = str "mmm";
  executor_memory_overhead = str "mm";
  python_max = negsuc 0;
}

plan_is : memory_plan numbers builtins defaults text_bytes letters options ≡ ok plan
unfolding memory_plan
plan_is = refl

memory_plan_bounds_example :
    Bounded numbers builtins defaults text_bytes letters text_bytes-letters options plan
memory_plan_bounds_example =
    memory_plan_bounds numbers builtins defaults text_bytes letters text_bytes-letters options plan
      plan_is

-- A new job, with more memory than there may be.
abbrev greedy : Fields ℕ
greedy = field "status" (str "created") (
    field "process" (obj (field "process_graph" graph end))
      (field "job_options" (obj (field "driver-memory" (str "mmmmmm") end)) end))

greedy_raises :
    prepared_of numbers codec one_job services builtins defaults deployment greedy ≡ err api_error
unfolding prepare specification_of executor_request as_boolean_arg as_max_soft_errors_ratio_arg
    archives as_logging_threshold_arg memory_plan
greedy_raises = refl

start_with_rejected_example :
    (start_with numbers codec one_job services builtins defaults deployment "2024" "j1" "alice"
      no_token none none
      (world greedy)).1.cluster
    ≡ []
start_with_rejected_example =
    start_with_rejected numbers codec one_job services builtins defaults deployment "2024" "j1"
      "alice" no_token none none greedy (world greedy) refl greedy_raises
