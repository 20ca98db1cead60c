-- ===== src/Tests/Polling.antt =====
-- The polling of the dependencies of a batch job.
use Prim.Native.String.{String}
use openeo_geopyspark_driver.Prelude.{ℕ, ◌+◌, ◌*◌, ◌≡◌, refl, none, [], ◌∷◌, arith, inl}
use openeo_geopyspark_driver.Outcome.{ok}
use openeo_geopyspark_driver.Json.{null, str, arr, obj, Items, nil, cons, Fields, end, field, put}
use openeo_geopyspark_driver.Batch.Polling.Sources.{
  Watched, batch_processes_of, batch_request_details,
}
use openeo_geopyspark_driver.Batch.Polling.{poll_job_dependencies}
use openeo_geopyspark_driver.Batch.Polling.Laws.{poll_waits}
use openeo_geopyspark_driver.Batch.Polling.Failures.{poll_fails, process_failed}
use mathlib.Core.List.Memᴰ
use openeo_geopyspark_driver.Batch.Awaiting.{Clock, await}
use openeo_geopyspark_driver.Batch.Awaiting.Laws.{HasEnded, await_lem}
use openeo_geopyspark_driver.Tests.Data.{numbers, codec}
use openeo_geopyspark_driver.Tests.OneJob.{one_job, services, builtins, defaults, deployment, world}

-- Batch processes that all have the same status.
abbrev watched : String → Watched numbers one_job services
watched status = record {
  Credentials = Unit;
  Service = Unit;
  Details = String;
  get_collection_metadata = λ id. ok end;
  default_credentials = tt;
  get_sentinel_hub_credentials = λ alias token. ok tt;
  get_batch_processing_service = λ endpoint bucket login alias. ok tt;
  get_batch_process = λ service id hub. ok status;
  restart = λ service id hub. (ok tt, id ∷ hub);
  status = λ s. s;
  value_estimate = λ s. none;
  total_seconds = λ step. ok 86_400;
  batch_results_bucket = "results";
  path_segments = λ url. [];
  job_status = λ job user s. ok "finished";
  for_job_status = λ s. str s;
  fetch = λ url. ok end;
}

abbrev dependencies : Items ℕ
dependencies =
    cons
      (obj (
        field "collection_id" (str "S2")
          (field "batch_request_ids" (arr (cons (str "b1") nil)) end)))
      nil

abbrev waiting : Fields ℕ
waiting = field "job_id" (str "j1") (
    field "user_id" (str "alice")
      (field "dependency_status" (str "awaiting") (field "dependencies" (arr dependencies) end)))

looked_up :
    (status : String)
    → (batch_processes_of numbers one_job services
        (watched status)
        "default"
        none
        dependencies
        (world waiting)).0
      ≡ ok (
          ("b1", record { request_id = "b1"; details = status; temporal_step = null; service = tt })
          ∷ [])
unfolding batch_processes_of batch_request_details
looked_up status = refl

poll_waits_example :
    ((poll_job_dependencies numbers codec one_job services builtins defaults deployment
        (watched "PROCESSING")
        "2024"
        waiting
        "default"
        none
        (world waiting)).1.tasks
      ≡ [])
    × ((poll_job_dependencies numbers codec one_job services builtins defaults deployment
          (watched "PROCESSING")
          "2024"
          waiting
          "default"
          none
          (world waiting)).1.cluster
        ≡ [])
poll_waits_example =
    poll_waits numbers codec one_job services builtins defaults deployment (watched "PROCESSING")
      "2024" "j1" "alice" "default" none waiting dependencies refl refl refl (world waiting) _
      (looked_up "PROCESSING") (inl refl)

poll_fails_example :
    poll_job_dependencies numbers codec one_job services builtins defaults deployment
      (watched "FAILED")
      "2024"
      waiting
      "default"
      none
      (world waiting)
    ≡ (ok tt, world (put "status" (str "error") (put "dependency_status" (str "error") waiting)))
poll_fails_example =
    poll_fails numbers codec one_job services builtins defaults deployment (watched "FAILED") "2024"
      "j1" "alice" "default" none waiting dependencies refl refl refl (world waiting) _
      (looked_up "FAILED") (process_failed (_, Memᴰ.head refl, refl))

abbrev every_minute : Clock
every_minute = record {
  max_poll_delay = 600;
  time = λ round. (round + 1) * 60;
  now = λ round. "2024";
}

await_lem_example :
    HasEnded numbers codec one_job services builtins defaults deployment
      (watched "PROCESSING")
      every_minute
      "j1"
      "alice"
      "default"
      none
      (await numbers codec one_job services builtins defaults deployment
        (watched "PROCESSING")
        every_minute
        "j1"
        "alice"
        "default"
        none
        11
        0
        (world waiting))
await_lem_example =
    await_lem numbers codec one_job services builtins defaults deployment (watched "PROCESSING")
      every_minute "j1" "alice" "default" none 60 (λ round. omega arith) (world waiting)
      (omega arith)
