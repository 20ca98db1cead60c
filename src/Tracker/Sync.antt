-- ===== src/Tracker/Sync.antt =====
-- `JobTracker` of openeogeotrellis/job_tracker_v2.py: the update of the status of one job, and of all
-- active jobs. The jobs are those that `get_active_jobs` yields at the start of the run.
pub mod Views
pub mod Laws
pub mod Loop
pub mod Registries
use openeo_geopyspark_driver.Prelude.{
  ℕ, String, ◌==◌, Bool, true, false, not, ◌&&◌, ◌||◌, Option, none, some, List, [], ◌∷◌, contains,
  if◌then◌else◌,
}
use openeo_geopyspark_driver.Outcome.{
  Error, Result, ok, err, Exec, pure, raise, lift, ◌>>=◌, ◌>>◌, check, when, app_not_found,
  key_error, type_error, other_error,
}
use openeo_geopyspark_driver.Floats.{Floats}
use openeo_geopyspark_driver.Json.{
  Json, null, bool, num, str, arr, obj, nil, Fields, end, get, get_or_null, truthy,
}
use openeo_geopyspark_driver.Json.Merge.{dict_merge_recursive, equal}
use openeo_geopyspark_driver.Json.Export.{to_jsonable, to_jsonable_fields}
use openeo_geopyspark_driver.JobStatus.{is_final}
use openeo_geopyspark_driver.Registry.Info.{required, require_str}
use openeo_geopyspark_driver.Tracker.Metadata.{Times, JobMetadata, to_dict}
use openeo_geopyspark_driver.Tracker.Services.{
  TrackedRegistry, CostsDetails, Services, World, Stat, collected_jobs, invalid_job_info,
  failed_sync, job_with_previous_status, get_metadata_attempt, new_metadata, skip_app_not_found,
  status_change, status_change_from_to, status_same, status_same_as, reached_final_status,
  job_costs_calculated, job_costs_nonzero, job_costs_failed, get_deletable_dependency_sources,
}

-- list(set(...)); the order of a set is not modelled
abbrev pub unique : List String → List String
unique [] = []
unique (s ∷ ss) = let rest = unique ss in if contains rest s then rest else s ∷ rest

abbrev pub is_nonempty : List String → Bool
is_nonempty [] = false
is_nonempty (_ ∷ _) = true

module _ (R : Floats) (T : Times R) (J : TrackedRegistry R.Float) (V : Services R T) where
  abbrev pub Run : Type 0
  Run = Exec (World R T J V) (Unit {0})

  -- stats[key] += 1
  abbrev pub count : Stat R.Float → Run
  count x w =
      (ok tt, record { registry = w.registry; tasks = w.tasks; etl = w.etl; stats = x ∷ w.stats })

  abbrev pub on_registry : Exec J.State (Unit {0}) → Run
  on_registry m w = (
    (m w.registry).0,
    record { registry = (m w.registry).1; tasks = w.tasks; etl = w.etl; stats = w.stats },
  )

  abbrev pub on_tasks : Exec V.Tasks (Unit {0}) → Run
  on_tasks m w = (
    (m w.tasks).0,
    record { registry = w.registry; tasks = (m w.tasks).1; etl = w.etl; stats = w.stats },
  )

  -- d.get(key, {}), as a dict
  abbrev pub dict_at : String → Fields R.Float → Result (Fields R.Float)
  dict_at key d = elim (get key d) [
    | none ↦ ok end
    | some v ↦ elim v [ obj e ↦ ok e | _ ↦ err (other_error "AttributeError") ]
  ]

  -- d.get(key, 0.0), as a number
  abbrev pub number_at : String → Fields R.Float → Result R.Float
  number_at key d = elim (get key d) [
    | none ↦ ok (R.of_int 0)
    | some v ↦ elim v [ num x ↦ ok x | _ ↦ err type_error ]
  ]

  -- `ZkJobRegistry.get_dependency_usage(job_info) or Decimal("0.0")`
  abbrev pub get_dependency_usage : Fields R.Float → Result R.Float
  get_dependency_usage info = elim (get_or_null "dependency_usage" info) [
    | null ↦ ok (R.of_int 0)
    | v ↦ V.to_decimal v
  ]

  -- `x or None`
  abbrev pub nonzero : R.Float → Option R.Float
  nonzero x = if R.eq x (R.of_int 0) then none else some x

  -- `sentinelhub_processing_units_to_report`
  abbrev pub units_to_report : Fields R.Float → Fields R.Float → Result (Option R.Float)
  units_to_report result info =
      if V.report_usage_sentinelhub_pus
      then elim (dict_at "usage" result) [
        | err e ↦ err e
        | ok usage ↦ elim (dict_at "sentinelhub" usage) [
          | err e ↦ err e
          | ok sentinelhub ↦ elim (number_at "value" sentinelhub) [
            | err e ↦ err e
            | ok units ↦ elim (get_dependency_usage info) [
              | err e ↦ err e
              | ok batch_units ↦ ok (nonzero (R.add units batch_units))
            ]
          ]
        ]
      ]
      else ok none

  -- A missing value of "unique_process_ids" is an empty list.
  abbrev pub process_ids : Fields R.Float → Json R.Float
  process_ids result = elim (get "unique_process_ids" result) [ none ↦ arr nil | some v ↦ v ]

  abbrev pub costs_details :
      String
      → String
      → Json R.Float
      → Fields R.Float
      → Fields R.Float
      → JobMetadata R T
      → Option R.Float
      → CostsDetails R T
  costs_details job user app info result m units = record {
    job_id = job;
    user_id = user;
    execution_id = app;
    app_state_etl_api_deprecated = V.app_state_to_etl_state m.app_state;
    job_status = m.status;
    area_square_meters = V.deep_get ("area" ∷ "value" ∷ []) result;
    job_title = get_or_null "title" info;
    start_time = m.start_time;
    finish_time = m.finish_time;
    cpu_seconds = m.usage.cpu_seconds;
    mb_seconds = m.usage.mb_seconds;
    sentinelhub_processing_units = units;
    additional_credits_cost = V.batch_job_base_fee_credits;
    unique_process_ids = process_ids result;
    job_options = get_or_null "job_options" info;
  }

  -- The costs, or `None` where the calculation raises.
  abbrev pub job_costs : CostsDetails R T → Exec (World R T J V) (Json R.Float)
  job_costs details w = elim (V.calculate_costs details w.etl).0 [
    | ok costs ↦ (
      ok (num costs),
      record {
        registry = w.registry;
        tasks = w.tasks;
        etl = (V.calculate_costs details w.etl).1;
        stats = job_costs_nonzero (R.lt (R.of_int 0) costs) ∷ job_costs_calculated ∷ w.stats;
      },
    )
    | err e ↦ (
      ok null,
      record {
        registry = w.registry;
        tasks = w.tasks;
        etl = (V.calculate_costs details w.etl).1;
        stats = job_costs_failed ∷ w.stats;
      },
    )
  ]

  -- What is done for a job that has reached a final status, before that status is set.
  unfoldable pub finish_job :
      String → String → Json R.Float → Fields R.Float → JobMetadata R T → Run
  finish_job job user app info m = do
    count (reached_final_status m.status)
    result ← lift (V.load_results_metadata job user)
    on_registry (J.remove_dependencies job user)
    dependency_sources ← lift (get_deletable_dependency_sources R V.og_batch_results_bucket info)
    when (is_nonempty (unique dependency_sources))
        (on_tasks (V.schedule_delete job user (unique dependency_sources)))
    units ← lift (units_to_report result info)
    costs ← job_costs (costs_details job user app info result m units)
    result_usage ← lift (dict_at "usage" result)
    total_usage ← lift (dict_merge_recursive R false (to_dict R m.usage) result_usage)
    on_registry (
        J.set_results_metadata job user costs (to_jsonable R (obj total_usage))
          (to_jsonable_fields R result))

  -- `Rfc3339(propagate_none=True).datetime`
  abbrev pub date_text : Option T.Time → Option String
  date_text none = none
  date_text (some t) = some (T.datetime t)

  abbrev pub same_status : Json R.Float → String → Bool
  same_status (str s) status = s == status
  same_status v status = false

  abbrev pub count_status : Json R.Float → String → Run
  count_status previous status =
      if same_status previous status
      then (do count status_same; count (status_same_as status))
      else (do count status_change; count (status_change_from_to previous status))

  -- `_sync_job_status`, from the point where the metadata of the application is there
  unfoldable pub sync_found :
      String → String → String → Json R.Float → Fields R.Float → JobMetadata R T → Run
  sync_found now job user app info m = do
    count new_metadata
    count_status (get_or_null "status" info) m.status
    when (is_final m.status) (finish_job job user app info m)
    on_registry
        (J.set_status now job user m.status (date_text m.start_time) (date_text m.finish_time))

  abbrev pub sync_answer :
      String → String → String → Json R.Float → Fields R.Float → Result (JobMetadata R T) → Run
  sync_answer now job user app info (ok m) = sync_found now job user app info m
  sync_answer now job user app info (err app_not_found) = count skip_app_not_found
  sync_answer now job user app info (err e) = raise e

  -- `_sync_job_status`
  unfoldable pub sync_job_status : String → String → String → Json R.Float → Fields R.Float → Run
  sync_job_status now job user app info = do
    check (equal R app (get_or_null "application_id" info))
    count (job_with_previous_status (get_or_null "status" info))
    count get_metadata_attempt
    sync_answer now job user app info (V.get_job_metadata job user app)

  -- The `except Exception` around `_sync_job_status`.
  abbrev pub failed : Bool → Result (Unit {0}) → Run
  failed fail_fast (ok _) w = (ok tt, w)
  failed fail_fast (err e) w = (
    if fail_fast then err e else ok tt,
    record { registry = w.registry; tasks = w.tasks; etl = w.etl; stats = failed_sync ∷ w.stats },
  )

  abbrev pub guarded : Bool → Run → Run
  guarded fail_fast m w = failed fail_fast (m w).0 (m w).1

  -- The job ids and the key that are read outside of the `try`. An id that is no text is not modelled.
  pub track_valid : Bool → String → Fields R.Float → Run
  track_valid fail_fast now info = do
    job ← lift (require_str "job_id" info)
    user ← lift (require_str "user_id" info)
    app ← lift (required "application_id" info)
    guarded fail_fast (sync_job_status now job user app info)

  abbrev pub is_valid : Fields R.Float → Bool
  is_valid info = truthy R (get_or_null "job_id" info) && truthy R (get_or_null "user_id" info)

  -- One turn of the loop in `update_statuses`.
  pub track : Bool → String → Json R.Float → Run
  track fail_fast now (obj info) = do
    count collected_jobs
    if is_valid info then track_valid fail_fast now info else count invalid_job_info
  track fail_fast now v = do count collected_jobs; count invalid_job_info

  -- The loop of `update_statuses`. The clock is read for each job.
  pub track_all : Bool → (ℕ → String) → ℕ → List (Json R.Float) → Run
  track_all fail_fast clock n [] = pure tt
  track_all fail_fast clock n (info ∷ infos) = do
    track fail_fast (clock n) info
    track_all fail_fast clock (ℕ.suc n) infos

  -- `update_statuses`, of what the registry's scan yields: jobs, and the exception that ends it
  abbrev pub after_jobs : Option Error → Run
  after_jobs none = pure tt
  after_jobs (some e) = raise e

  pub update_statuses : Bool → (ℕ → String) → List (Json R.Float) × Option Error → Run
  update_statuses fail_fast clock (infos, stopped) = do
    track_all fail_fast clock 0 infos
    after_jobs stopped
