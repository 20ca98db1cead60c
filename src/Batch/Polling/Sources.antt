-- ===== src/Batch/Polling/Sources.antt =====
-- What `GpsBatchJobs.poll_job_dependencies` (openeogeotrellis/backend.py) looks at: the batch
-- processes of Sentinel Hub, their costs, and the status of the results of other jobs, of which
-- those of the user are recognised by `extract_own_job_info` (openeogeotrellis/load_stac.py).
pub mod Laws
use openeo_geopyspark_driver.Prelude.{
  ℕ, String, ◌==◌, Bool, true, false, not, ◌&&◌, ◌||◌, Option, none, some, List, [], ◌∷◌,
  if◌then◌else◌,
}
use openeo_geopyspark_driver.Outcome.{
  Result, ok, err, Exec, pure, lift, reads, ◌>>=◌, ◌>>◌, type_error, key_error, job_not_found,
}
use openeo_geopyspark_driver.Outcome.Try
use openeo_geopyspark_driver.Floats.{Floats}
use openeo_geopyspark_driver.Json.{
  Json, null, bool, num, str, arr, obj, Items, nil, cons, Fields, end, get_or_null, has, truthy,
}
use openeo_geopyspark_driver.Dict.{Dict, insert, values}
use openeo_geopyspark_driver.Registry.Info.{require_str}
use openeo_geopyspark_driver.Batch.{BatchRegistry}
use openeo_geopyspark_driver.Batch.Options.{iterate, attribute_error}
use openeo_geopyspark_driver.Batch.Start.Arguments.{text}
use openeo_geopyspark_driver.Batch.World.{Services, World, on_registry, on_hub}

-- The catalog, the credentials, Sentinel Hub, and the web. `job_status` is the status of
-- `get_job_info`, `for_job_status` that of `PARTIAL_JOB_STATUS`, and `path_segments` the parts of the
-- path of a URL, the last one first.
pub record Watched (R : Floats) (J : BatchRegistry R.Float) (X : Services R J) : Type 1 where
  pub Credentials : Type 0
  pub Service : Type 0
  pub Details : Type 0
  pub get_collection_metadata : String → Result (Fields R.Float)
  pub default_credentials : Credentials
  pub get_sentinel_hub_credentials : String → Option String → Result Credentials
  pub get_batch_processing_service : String → String → Credentials → String → Result Service
  pub get_batch_process : Service → String → X.Hub → Result Details
  pub restart : Service → String → Exec X.Hub (Unit {0})
  pub status : Details → String
  pub value_estimate : Details → Option R.Float
  pub total_seconds : String → Result R.Float
  pub batch_results_bucket : String
  pub path_segments : String → List String
  pub job_status : String → String → J.State → Result String
  pub for_job_status : String → Json R.Float
  pub fetch : String → Result (Fields R.Float)

-- A batch process: its details, the temporal step of the collection, and what is needed to restart
-- it.
pub record Process (R : Floats) (J : BatchRegistry R.Float) (X : Services R J) (S : Watched R J X)
    : Type 0 where
  pub request_id : String
  pub details : S.Details
  pub temporal_step : Json R.Float
  pub service : S.Service

module _ (R : Floats) (J : BatchRegistry R.Float) (X : Services R J) (S : Watched R J X) where
  abbrev pub Processes : Type 0
  Processes = Dict (Process R J X S)

  -- The texts of a list, `None` left out.
  abbrev pub given_ids : Items R.Float → Result (List String)
  given_ids nil = ok []
  given_ids (cons null xs) = given_ids xs
  given_ids (cons (str s) xs) = Try.◌>>=◌ (given_ids xs) λ ids. ok (s ∷ ids)
  given_ids (cons _ xs) = err type_error

  -- `dependency.get('batch_request_ids') or [dependency['batch_request_id']]`
  abbrev pub request_ids : Fields R.Float → Result (List String)
  request_ids d = elim (get_or_null "batch_request_ids" d) [
    | arr (cons x xs) ↦ given_ids (cons x xs)
    | v ↦
        if truthy R v
        then iterate v
        else if has "batch_request_id" d
        then given_ids (cons (get_or_null "batch_request_id" d) nil)
        else err (key_error "batch_request_id")
  ]

  abbrev pub as_dict : Json R.Float → Result (Fields R.Float)
  as_dict (obj d) = ok d
  as_dict _ = err type_error

  -- d.get(key, default), as a text
  abbrev pub text_at : String → String → Fields R.Float → Result String
  text_at key default d = if has key d then text (get_or_null key d) else ok default

  abbrev pub credentials : String → Option String → Result S.Credentials
  credentials alias token =
      if alias == "default"
      then ok S.default_credentials
      else S.get_sentinel_hub_credentials alias token

  -- The batch processing service of a collection, and the temporal step.
  abbrev pub service_of :
      String → Option String → Fields R.Float → Result (S.Service × Json R.Float)
  service_of alias token d = Try.◌>>=◌ (require_str "collection_id" d) λ collection.
      Try.◌>>=◌ (S.get_collection_metadata collection) λ metadata.
        Try.◌>>=◌ (as_dict (X.deep_get ("_vito" ∷ "data_source" ∷ []) (obj end) metadata)) λ source.
          Try.◌>>=◌ (require_str "endpoint" source) λ endpoint.
            Try.◌>>=◌ (text_at "bucket" S.batch_results_bucket source) λ bucket.
              Try.◌>>=◌ (credentials alias token) λ login.
                Try.◌>>=◌ (S.get_batch_processing_service endpoint bucket login alias) λ service.
                  ok (service, X.deep_get ("cube:dimensions" ∷ "t" ∷ "step" ∷ []) null metadata)

  -- The processes at the ids, which are put into a dict.
  abbrev pub fetch_each :
      S.Service → Json R.Float → List String → Processes → Exec (World R J X) Processes
  fetch_each service step [] known = pure known
  fetch_each service step (id ∷ ids) known = do
    details ← on_hub R J X (reads (S.get_batch_process service id))
    fetch_each service step ids (
        insert id
          (record { request_id = id; details = details; temporal_step = step; service = service })
          known)

  -- `batch_request_details`, whose dict is merged into those of the dependencies before.
  unfoldable pub batch_request_details :
      String → Option String → Fields R.Float → Processes → Exec (World R J X) Processes
  batch_request_details alias token d known = do
    (service, step) ← lift (service_of alias token d)
    ids ← lift (request_ids d)
    fetch_each service step ids known

  abbrev pub is_batch_process : Fields R.Float → Bool
  is_batch_process d = has "batch_request_ids" d || has "batch_request_id" d

  abbrev pub processes_from :
      String → Option String → Items R.Float → Processes → Exec (World R J X) Processes
  processes_from alias token nil known = pure known
  processes_from alias token (cons (obj d) ds) known = do
    more ← (if is_batch_process d then batch_request_details alias token d known else pure known)
    processes_from alias token ds more
  processes_from alias token (cons _ ds) known = lift (err type_error)

  -- `batch_processes`
  unfoldable pub batch_processes_of :
      String → Option String → Items R.Float → Exec (World R J X) Processes
  batch_processes_of alias token ds = processes_from alias token ds []

  -- `temporal_interval_in_days or 3`
  abbrev pub interval_days : Json R.Float → Result R.Float
  interval_days null = ok (R.of_int 3)
  interval_days (str step) = Try.◌>>=◌ (S.total_seconds step) λ seconds.
      let days = R.div seconds (R.of_int 86_400) in
      ok (if R.eq days (R.of_int 0) then R.of_int 3 else days)
  interval_days _ = err type_error

  abbrev pub estimate_or_zero : Option R.Float → R.Float
  estimate_or_zero none = R.of_int 0
  estimate_or_zero (some x) = x

  pub processing_units_spent : R.Float → Json R.Float → Result R.Float
  processing_units_spent value_estimate step = Try.◌>>=◌ (interval_days step) λ days.
      ok (R.div (R.mul (R.div (R.mul value_estimate (R.of_int 2)) (R.of_int 3)) (R.of_int 3)) days)

  abbrev pub sum_units : R.Float → List (Process R J X S) → Result R.Float
  sum_units total [] = ok total
  sum_units total (process ∷ rest) =
      Try.◌>>=◌
        (processing_units_spent (estimate_or_zero (S.value_estimate process.details))
          process.temporal_step)
        λ units. sum_units (R.add total units) rest

  -- `batch_process_processing_units`
  pub processing_units : List (Process R J X S) → Result R.Float
  processing_units processes = sum_units (R.of_int 0) processes

  -- The job and the segments that surround it, in the path of a URL.
  abbrev pub own_job : List String → Option String
  own_job (last ∷ job ∷ before ∷ rest) =
      if before == "jobs" && last == "results" then some job else none
  own_job _ = none

  -- `except JobNotFoundException: return None`
  abbrev pub if_found : Result String → Result (Option String)
  if_found (ok status) = ok (some status)
  if_found (err (job_not_found _)) = ok none
  if_found (err e) = err e

  -- `extract_own_job_info`, as far as the status
  pub extract_own_job_info : String → String → J.State → Result (Option String)
  extract_own_job_info url user s = elim (own_job (S.path_segments url)) [
    | none ↦ ok none
    | some job ↦ if_found (S.job_status job user s)
  ]

  abbrev pub partial_status : String → Option String → Result (Json R.Float)
  partial_status url (some status) = ok (S.for_job_status status)
  partial_status url none =
      Try.◌>>=◌ (S.fetch url) λ stac_object. ok (get_or_null "openeo:status" stac_object)

  -- `job_results_status`
  pub job_results_status : String → Fields R.Float → Exec (World R J X) (String × Json R.Float)
  job_results_status user d = do
    url ← lift (require_str "partial_job_results_url" d)
    own ← on_registry R J X (reads (extract_own_job_info url user))
    status ← lift (partial_status url own)
    pure (url, status)

  abbrev pub results_from :
      String → Items R.Float → Dict (Json R.Float) → Exec (World R J X) (Dict (Json R.Float))
  results_from user nil known = pure known
  results_from user (cons (obj d) ds) known =
      if has "partial_job_results_url" d
      then (do
        (url, status) ← job_results_status user d
        results_from user ds (insert url status known))
      else results_from user ds known
  results_from user (cons _ ds) known = lift (err type_error)

  -- `job_results_statuses`
  pub results_of : String → Items R.Float → Exec (World R J X) (Dict (Json R.Float))
  results_of user ds = results_from user ds []
