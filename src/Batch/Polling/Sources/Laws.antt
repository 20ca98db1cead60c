-- ===== src/Batch/Polling/Sources/Laws.antt =====
-- What `GpsBatchJobs.poll_job_dependencies` looks at is not changed by it.
use openeo_geopyspark_driver.Prelude.{String, refl, Option, List, [], ◌∷◌, if◌then◌else◌}
use openeo_geopyspark_driver.Outcome.{pure, reads}
use openeo_geopyspark_driver.Outcome.Views.{Keeps, bind-Keeps, if-Keeps, lift-Keeps}
use openeo_geopyspark_driver.Floats.{Floats}
use openeo_geopyspark_driver.Json.{
  Json, null, bool, num, str, arr, obj, Items, nil, cons, Fields, has,
}
use openeo_geopyspark_driver.Dict.{Dict}
use openeo_geopyspark_driver.Batch.{BatchRegistry}
use openeo_geopyspark_driver.Batch.World.{Services, World, on_registry, on_hub}
use openeo_geopyspark_driver.Batch.Polling.Sources.{
  Watched, Processes, service_of, request_ids, fetch_each, batch_request_details, is_batch_process,
  processes_from, batch_processes_of, job_results_status, extract_own_job_info, partial_status,
  results_from, results_of,
}
use openeo_geopyspark_driver.Registry.Info.{require_str}

module _ (R : Floats) (J : BatchRegistry R.Float) (X : Services R J) (S : Watched R J X) where
  abbrev W : Type 0
  W = World R J X

  abbrev pub all_of : W → W
  all_of w = w

  -- Looking changes nothing.
  fetch_each-Keeps :
      (service : S.Service) (step : Json R.Float) (ids : List String) (known : Processes R J X S)
      → Keeps all_of (fetch_each R J X S service step ids known)
  fetch_each-Keeps service step [] known = λ w. refl
  fetch_each-Keeps service step (id ∷ ids) known =
      bind-Keeps all_of (on_hub R J X (reads (S.get_batch_process service id))) _ (λ w. refl)
        λ details. fetch_each-Keeps service step ids _

  batch_request_details-Keeps :
      (alias : String) (token : Option String) (d : Fields R.Float) (known : Processes R J X S)
      → Keeps all_of (batch_request_details R J X S alias token d known)
  unfolding batch_request_details
  batch_request_details-Keeps alias token d known =
      lift-Keeps all_of (service_of R J X S alias token d) _ λ found is.
        lift-Keeps all_of (request_ids R J X S d) _
          λ ids ids_are. fetch_each-Keeps found.0 found.1 ids known

  processes_from-Keeps :
      (alias : String) (token : Option String) (ds : Items R.Float) (known : Processes R J X S)
      → Keeps all_of (processes_from R J X S alias token ds known)
  processes_from-Keeps alias token nil known = λ w. refl
  processes_from-Keeps alias token (cons (obj d) ds) known =
      bind-Keeps all_of
        (if is_batch_process R J X S d
          then batch_request_details R J X S alias token d known
          else pure known)
        _
        (if-Keeps all_of (is_batch_process R J X S d) _ _
          (batch_request_details-Keeps alias token d known) (λ w. refl))
        λ more. processes_from-Keeps alias token ds more
  processes_from-Keeps alias token (cons null ds) known = λ w. refl
  processes_from-Keeps alias token (cons (str s) ds) known = λ w. refl
  processes_from-Keeps alias token (cons (arr xs) ds) known = λ w. refl
  processes_from-Keeps alias token (cons (bool b) ds) known = λ w. refl
  processes_from-Keeps alias token (cons (num x) ds) known = λ w. refl

  job_results_status-Keeps :
      (user : String) (d : Fields R.Float) → Keeps all_of (job_results_status R J X S user d)
  unfolding job_results_status
  job_results_status-Keeps user d =
      lift-Keeps all_of (require_str "partial_job_results_url" d) _ λ url is.
        bind-Keeps all_of (on_registry R J X (reads (extract_own_job_info R J X S url user))) _
          (λ w. refl)
          λ own. lift-Keeps all_of (partial_status R J X S url own) _ λ status status_is w. refl

  results_from-Keeps :
      (user : String) (ds : Items R.Float) (known : Dict (Json R.Float))
      → Keeps all_of (results_from R J X S user ds known)
  results_from-Keeps user nil known = λ w. refl
  results_from-Keeps user (cons (obj d) ds) known =
      if-Keeps all_of (has "partial_job_results_url" d) _ _
        (bind-Keeps all_of (job_results_status R J X S user d) _ (job_results_status-Keeps user d)
          λ found. results_from-Keeps user ds _)
        (results_from-Keeps user ds known)
  results_from-Keeps user (cons null ds) known = λ w. refl
  results_from-Keeps user (cons (str s) ds) known = λ w. refl
  results_from-Keeps user (cons (arr xs) ds) known = λ w. refl
  results_from-Keeps user (cons (bool b) ds) known = λ w. refl
  results_from-Keeps user (cons (num x) ds) known = λ w. refl

  pub batch_processes_of-Keeps :
      (alias : String) (token : Option String) (ds : Items R.Float)
      → Keeps all_of (batch_processes_of R J X S alias token ds)
  unfolding batch_processes_of
  batch_processes_of-Keeps alias token ds = processes_from-Keeps alias token ds []

  pub results_of-Keeps :
      (user : String) (ds : Items R.Float) → Keeps all_of (results_of R J X S user ds)
  unfolding results_of
  results_of-Keeps user ds = results_from-Keeps user ds []
