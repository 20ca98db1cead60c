-- ===== src/Tests/Tracking.antt =====
-- The job tracker at one job, over a registry that keeps the list of statuses that were set, and over
-- `DoubleJobRegistry`.
use openeo_geopyspark_driver.Prelude.{
  ℕ, ◌-◌, String, ◌==◌, if◌then◌else◌, ◌≡◌, refl, false, Option, none, some, List, [], ◌∷◌,
}
use openeo_geopyspark_driver.Outcome.{Result, ok, err, app_not_found, other_error}
use openeo_geopyspark_driver.Json.{Json, str, obj, null, Fields, end, field, get}
use openeo_geopyspark_driver.Tracker.Metadata.{Times, JobMetadata, no_usage}
use openeo_geopyspark_driver.Tracker.Services.{TrackedRegistry, Services, World}
use openeo_geopyspark_driver.Tracker.Sync.{date_text, sync_job_status, update_statuses}
use openeo_geopyspark_driver.Tracker.Sync.Laws.{Untouched, sync_job_status_not_found}
use openeo_geopyspark_driver.Tracker.Sync.Loop.{collected, update_statuses_lem}
use openeo_geopyspark_driver.Tracker.Sync.Registries.{sync_job_status_agrees}
use openeo_geopyspark_driver.Tracker.Services.{tracked_double}
use openeo_geopyspark_driver.Dict.{Dict, lookup}
use openeo_geopyspark_driver.Zookeeper.Mock.{ZNode}
use openeo_geopyspark_driver.Zookeeper.Mock.Writes.{mock_client-IsLawful}
use openeo_geopyspark_driver.Registry.Interface.{IsLawfulRegistry}
use openeo_geopyspark_driver.Registry.Memory as Memory
use openeo_geopyspark_driver.Registry.Double as Double
use openeo_geopyspark_driver.Registry.Zk as Zk
use openeo_geopyspark_driver.Registry.Memory.Laws.{memory_registry-IsLawfulRegistry}
use openeo_geopyspark_driver.Registry.Double.Laws.{both_present}
use openeo_geopyspark_driver.Registry.Zk.Laws.{Holds}
use openeo_geopyspark_driver.Registry.Zk.Move.{Others}
use openeo_geopyspark_driver.Tests.Data.{
  codec, codec-IsFaithful, zk, memory, one_known, one_ongoing, in_area, job_info, job_info-IsOwn,
  one_ongoing-Holds, one_ongoing-IsLeaf, free_done, known_in_memory, given,
}
use openeo_geopyspark_driver.Tests.Data.{numbers}

abbrev times : Times numbers
times = record {
  Time = ℕ;
  of_millis = λ n. ok n;
  parse_datetime = λ s. ok 0;
  datetime = λ n. "2024";
  seconds_between = λ s t. t - s;
  timestamp = λ n. n;
}

abbrev statuses : TrackedRegistry ℕ
statuses = record {
  State = List String;
  remove_dependencies = λ job user s. (ok tt, s);
  set_results_metadata = λ job user costs usage results s. (ok tt, s);
  set_status = λ now job user status started finished s. (ok tt, status ∷ s);
}

abbrev metadata : String → JobMetadata numbers times
metadata status = record {
  app_state = "RUNNING";
  status = status;
  usage = no_usage numbers;
  start_time = none;
  finish_time = none;
}

-- The application "app1" runs, "app2" has ended, and there is no other; the results metadata of no
-- job can be read.
abbrev job_metadata : Json ℕ → Result (JobMetadata numbers times)
job_metadata (str app) =
    if app == "app1"
    then ok (metadata "running")
    else if app == "app2"
    then ok (metadata "finished")
    else err app_not_found
job_metadata app = err app_not_found

abbrev services : Services numbers times
services = record {
  Tasks = List String;
  Etl = Unit {0};
  get_job_metadata = λ job user app. job_metadata app;
  app_state_to_etl_state = λ s. s;
  load_results_metadata = λ job user. err (other_error "FileNotFoundError");
  schedule_delete = λ job user sources s. (ok tt, s);
  calculate_costs = λ details s. (ok 0, s);
  deep_get = λ path d. null;
  to_decimal = λ v. ok 0;
  report_usage_sentinelhub_pus = false;
  batch_job_base_fee_credits = none;
  og_batch_results_bucket = "bucket";
}

abbrev start : World numbers times statuses services
start = record { registry = []; tasks = []; etl = tt; stats = [] }

abbrev info_of : String → Fields ℕ
info_of app =
    field "job_id" (str "j1") (field "user_id" (str "alice") (field "application_id" (str app) end))

sync_job_status_not_found_example :
    ((sync_job_status numbers times statuses services "2024" "j1" "alice"
        (str "app9")
        (info_of "app9")
        start).0
      ≡ ok tt)
    × Untouched numbers times statuses services start
        (sync_job_status numbers times statuses services "2024" "j1" "alice"
          (str "app9")
          (info_of "app9")
          start).1
sync_job_status_not_found_example =
    sync_job_status_not_found numbers times statuses services "2024" "j1" "alice" "app9"
      (info_of "app9") start refl refl

abbrev jobs : List (Json ℕ)
jobs = obj (info_of "app1") ∷ obj (info_of "app2") ∷ null ∷ []

update_statuses_lem_example :
    ((update_statuses numbers times statuses services false (λ n. "2024") (jobs, none) start).0
      ≡ ok tt)
    × (collected
          (update_statuses numbers times statuses services false
            (λ n. "2024")
            (jobs, none)
            start).1.stats
        ≡ 3)
update_statuses_lem_example =
    update_statuses_lem numbers times statuses services (λ n. "2024") jobs start refl

abbrev both : TrackedRegistry ℕ
both = tracked_double numbers codec zk "jobs" [] memory both_present

abbrev double_start : World numbers times both services
double_start = record { registry = (one_ongoing, one_known); tasks = []; etl = tt; stats = [] }

abbrev double_synced : Result (Unit {0}) × World numbers times both services
double_synced =
    sync_job_status numbers times both services "2024" "j1" "alice" (str "app1") (info_of "app1")
      double_start

times_are_read :
    (started finished : Option ℕ)
    → IsLawfulRegistry memory
        (date_text numbers times both services started)
        (date_text numbers times both services finished)
times_are_read none none = memory_registry-IsLawfulRegistry numbers (λ s. ok s) none none tt tt
times_are_read none (some t) =
    memory_registry-IsLawfulRegistry numbers (λ s. ok s) none (some "2024") tt (λ e. ("2024", refl))
times_are_read (some t) none =
    memory_registry-IsLawfulRegistry numbers (λ s. ok s) (some "2024") none (λ e. ("2024", refl)) tt
times_are_read (some s) (some t) =
    memory_registry-IsLawfulRegistry numbers (λ s. ok s) (some "2024") (some "2024")
      (λ e. ("2024", refl)) (λ e. ("2024", refl))

sync_job_status_agrees_example :
    (zk_info : Fields ℕ) × (ejr_info : Fields ℕ) × (version' : ℕ) × (z' : ZNode (Fields ℕ))
    × (e' : Dict (Fields ℕ)) × (double_synced.0 ≡ ok tt)
    × (double_synced.1.registry ≡ (z', e'))
    × Holds numbers codec zk (in_area "ongoing") zk_info version' z'
    × (memory.get_job "j1" (some "alice") e' ≡ ok ejr_info)
    × (get "status" zk_info ≡ some (str "running"))
    × (get "status" ejr_info ≡ some (str "running"))
    × Others numbers codec zk "jobs" [] "j1" "alice" one_ongoing z'
sync_job_status_agrees_example =
    sync_job_status_agrees numbers times codec zk "jobs" [] memory services
      (mock_client-IsLawful end) codec-IsFaithful times_are_read "2024" "j1" "alice" "app1"
      (info_of "app1") double_start (metadata "running") job_info 0 (given "j1" refl)
      (given "alice" refl) refl refl refl one_ongoing-Holds job_info-IsOwn
      (one_ongoing-IsLeaf "ongoing") free_done known_in_memory

-- A view of both registries: the status of the job "j1" in the second one.
abbrev status_of : Option (Fields ℕ) → Option (Json ℕ)
status_of none = none
status_of (some d) = get "status" d

status_in : Dict (Fields ℕ) → Option (Json ℕ)
status_in db = status_of (lookup "j1" db)

abbrev status_view : ZNode (Fields ℕ) × Dict (Fields ℕ) → Option (Json ℕ)
status_view s = status_in s.1
