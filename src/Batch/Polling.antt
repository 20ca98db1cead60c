-- ===== src/Batch/Polling.antt =====
-- `GpsBatchJobs.poll_job_dependencies` of openeogeotrellis/backend.py: one look at the Sentinel Hub
-- batch processes and the job results that a job waits for. The status that `fail_job` also writes
-- to the job info at hand is not read again.
pub mod Sources
pub mod Laws
pub mod Failures
use openeo_geopyspark_driver.Prelude.{
  ℕ, String, ◌==◌, Bool, true, false, not, ◌&&◌, ◌||◌, Option, none, some, List, [], ◌∷◌, contains,
  if◌then◌else◌,
}
use openeo_geopyspark_driver.Outcome.{
  Result, ok, err, Exec, pure, lift, ◌>>=◌, ◌>>◌, when, type_error,
}
use openeo_geopyspark_driver.Floats.{Floats}
use openeo_geopyspark_driver.Json.{Json, null, str, arr, Items, nil, Fields, get_or_null, truthy}
use openeo_geopyspark_driver.Codec.{JsonCodec}
use openeo_geopyspark_driver.Dict.{Dict, values}
use openeo_geopyspark_driver.JobStatus as JobStatus
use openeo_geopyspark_driver.DependencyStatus as DependencyStatus
use openeo_geopyspark_driver.Registry.Info.{require_str}
use openeo_geopyspark_driver.Batch.{BatchRegistry}
use openeo_geopyspark_driver.Batch.World.{Services, World, Run, on_registry, on_hub}
use openeo_geopyspark_driver.Batch.Options.{Builtins, Defaults}
use openeo_geopyspark_driver.Batch.Start.{start_with}
use openeo_geopyspark_driver.Batch.Start.Setup.{Deployment}
use openeo_geopyspark_driver.Batch.Polling.Sources.{
  Watched, Process, batch_processes_of, processing_units, results_of,
}

-- The statuses that are of interest, of a batch process.
abbrev pub is_done : String → Bool
is_done status = status == "DONE"

abbrev pub is_failed : String → Bool
is_failed status = status == "FAILED"

abbrev pub is_partial : String → Bool
is_partial status = status == "PARTIAL"

-- The same of job results, whose status may be missing.
abbrev pub has_failed : {F : Type 0} → Json F → Bool
has_failed (str s) = s == JobStatus.error || s == JobStatus.canceled
has_failed _ = false

abbrev pub has_finished : {F : Type 0} → Json F → Bool
has_finished null = true
has_finished (str s) = s == JobStatus.finished
has_finished _ = false

-- any(p(x) for x in xs), all(p(x) for x in xs)
abbrev pub any {ℓ} : {A : Type ℓ} → (A → Bool) → List A → Bool
any p [] = false
any p (x ∷ xs) = p x || any p xs

abbrev pub all {ℓ} : {A : Type ℓ} → (A → Bool) → List A → Bool
all p [] = true
all p (x ∷ xs) = p x && all p xs

module _ (R : Floats) (C : JsonCodec R.Float) (J : BatchRegistry R.Float) (X : Services R J)
    (P : Builtins R) (D : Defaults R) (Y : Deployment R) (S : Watched R J X) where
  abbrev pub state_of : Process R J X S → String
  state_of process = S.status process.details

  abbrev pub on_state : (String → Bool) → Process R J X S → Bool
  on_state p process = p (state_of process)

  abbrev pub fail_job : String → String → String → Run R J X
  fail_job now job user = do
    on_registry R J X (J.set_dependency_status job user DependencyStatus.error)
    on_registry R J X (J.set_status now job user JobStatus.error)

  -- Each partially failed process is restarted.
  abbrev pub retry_all : List (Process R J X S) → Run R J X
  retry_all [] = pure tt
  retry_all (process ∷ rest) = do
    when (on_state is_partial process) (on_hub R J X (S.restart process.service process.request_id))
    retry_all rest

  abbrev pub set_usage : String → String → R.Float → Run R J X
  set_usage job user units =
      when (not (R.eq units (R.of_int 0)))
        (on_registry R J X (J.set_dependency_usage job user units))

  -- The job is resumed. The loop that assembles cached results goes through a generator which the
  -- check of the batch processes has exhausted, so it has nothing to do.
  pub resume :
      String → String → String → Option String → Items R.Float → List (Process R J X S) → Run R J X
  resume now job user token dependencies processes = do
    units ← lift (processing_units R J X S processes)
    on_registry R J X (J.set_dependencies job user (arr dependencies))
    on_registry R J X (J.set_dependency_status job user DependencyStatus.available)
    set_usage job user units
    start_with R C J X P D Y now job user (λ alias. ok token) (some dependencies) none

  -- The second check, of the results of other jobs.
  abbrev pub decide_results :
      String
      → String
      → String
      → Option String
      → Items R.Float
      → List (Process R J X S)
      → Bool
      → Dict (Json R.Float)
      → Run R J X
  decide_results now job user token dependencies processes processes_done results =
      if any has_failed (values results)
      then fail_job now job user
      else if processes_done && all has_finished (values results)
      then resume now job user token dependencies processes
      else pure tt

  pub check_results :
      String
      → String
      → String
      → Option String
      → Items R.Float
      → List (Process R J X S)
      → Bool
      → Run R J X
  check_results now job user token dependencies processes processes_done = do
    results ← results_of R J X S user dependencies
    decide_results now job user token dependencies processes processes_done results

  abbrev pub was_retried : Fields R.Float → Bool
  was_retried info = elim (get_or_null "dependency_status" info) [
    | str s ↦ s == DependencyStatus.awaiting_retry
    | _ ↦ false
  ]

  -- The first check, of the batch processes.
  pub check_processes :
      String
      → String
      → String
      → Option String
      → Fields R.Float
      → Items R.Float
      → List (Process R J X S)
      → Run R J X
  check_processes now job user token info dependencies processes =
      if any (on_state is_failed) processes
      then fail_job now job user
      else if all (on_state is_done) processes
      then check_results now job user token dependencies processes true
      else if all (on_state (λ s. is_done s || is_partial s)) processes
      then if was_retried info then fail_job now job user else (do
        on_registry R J X (J.set_dependency_status job user DependencyStatus.awaiting_retry)
        retry_all processes
        check_results now job user token dependencies processes false)
      else check_results now job user token dependencies processes false

  -- `job_info.get('dependencies') or []`
  abbrev pub dependencies_in : Fields R.Float → Result (Items R.Float)
  dependencies_in info = elim (get_or_null "dependencies" info) [
    | arr ds ↦ ok ds
    | v ↦ if truthy R v then err type_error else ok nil
  ]

  pub poll_job_dependencies : String → Fields R.Float → String → Option String → Run R J X
  poll_job_dependencies now info alias token = do
    job ← lift (require_str "job_id" info)
    user ← lift (require_str "user_id" info)
    dependencies ← lift (dependencies_in info)
    processes ← batch_processes_of R J X S alias token dependencies
    check_processes now job user token info dependencies (values processes)
