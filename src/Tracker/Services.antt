-- ===== src/Tracker/Services.antt =====
-- What the job tracker calls: a job registry, the application state getter, the results metadata,
-- the scheduler of deletions and the costs calculator, and the state of a run that it changes.
use openeo_geopyspark_driver.Prelude.{
  String, ◌<>◌, Bool, Option, List, [], ◌∷◌, ◌++◌, if◌then◌else◌,
}
use openeo_geopyspark_driver.Outcome.{Result, ok, err, Exec, type_error}
use openeo_geopyspark_driver.Floats.{Floats}
use openeo_geopyspark_driver.Json.{
  Json, arr, obj, Items, nil, cons, Fields, get_or_null, has, truthy,
}
use openeo_geopyspark_driver.Codec.{JsonCodec}
use openeo_geopyspark_driver.Zookeeper.{ZkPath, ZkClient}
use openeo_geopyspark_driver.Registry.Info.{require_str}
use openeo_geopyspark_driver.Registry.Interface.{JobRegistry}
use openeo_geopyspark_driver.Registry.Double as Double
use openeo_geopyspark_driver.Tracker.Metadata.{Times, JobMetadata}

-- What the tracker calls of `DoubleJobRegistry`. The clock's time comes first, where it is read.
pub record TrackedRegistry (F : Type 0) : Type 1 where
  pub State : Type 0
  pub remove_dependencies : String → String → Exec State (Unit {0})
  pub set_results_metadata : String → String → Json F → Json F → Fields F → Exec State (Unit {0})
  pub set_status :
      String → String → String → String → Option String → Option String → Exec State (Unit {0})

-- `DoubleJobRegistry`, as the tracker uses it.
abbrev pub tracked_double :
    (R : Floats) (C : JsonCodec R.Float) (Z : ZkClient C.Bytes)
    → String
    → ZkPath
    → JobRegistry R.Float
    → Double.Present
    → TrackedRegistry R.Float
tracked_double R C Z top base E p = record {
  State = Double.Both R C Z top base E;
  remove_dependencies = Double.remove_dependencies R C Z top base E p;
  set_results_metadata = Double.set_results_metadata R C Z top base E p;
  set_status = Double.set_status R C Z top base E p;
}

-- `CostsDetails` of openeogeotrellis/job_costs_calculator.py, as the tracker fills it.
pub record CostsDetails (R : Floats) (T : Times R) : Type 0 where
  pub job_id : String
  pub user_id : String
  pub execution_id : Json R.Float
  pub app_state_etl_api_deprecated : String
  pub job_status : String
  pub area_square_meters : Json R.Float
  pub job_title : Json R.Float
  pub start_time : Option T.Time
  pub finish_time : Option T.Time
  pub cpu_seconds : Json R.Float
  pub mb_seconds : Json R.Float
  pub sentinelhub_processing_units : Option R.Float
  pub additional_credits_cost : Option R.Float
  pub unique_process_ids : Json R.Float
  pub job_options : Json R.Float

-- The other services, and the backend's configuration. `to_decimal` is `float(Decimal(...))`.
pub record Services (R : Floats) (T : Times R) : Type 1 where
  pub Tasks : Type 0
  pub Etl : Type 0
  pub get_job_metadata : String → String → Json R.Float → Result (JobMetadata R T)
  pub app_state_to_etl_state : String → String
  pub load_results_metadata : String → String → Result (Fields R.Float)
  pub schedule_delete : String → String → List String → Exec Tasks (Unit {0})
  pub calculate_costs : CostsDetails R T → Exec Etl R.Float
  pub deep_get : List String → Fields R.Float → Json R.Float
  pub to_decimal : Json R.Float → Result R.Float
  pub report_usage_sentinelhub_pus : Bool
  pub batch_job_base_fee_credits : Option R.Float
  pub og_batch_results_bucket : String

-- The keys of the tracker's counter, without the texts of the statuses in them.
pub data Stat (F : Type 0) : Type 0 where
  collected_jobs : Stat F
  invalid_job_info : Stat F
  failed_sync : Stat F
  job_with_previous_status : Json F → Stat F
  get_metadata_attempt : Stat F
  new_metadata : Stat F
  skip_app_not_found : Stat F
  status_change : Stat F
  status_change_from_to : Json F → String → Stat F
  status_same : Stat F
  status_same_as : String → Stat F
  reached_final_status : String → Stat F
  job_costs_calculated : Stat F
  job_costs_nonzero : Bool → Stat F
  job_costs_failed : Stat F

-- What a run of the tracker changes. The counter is the list of its increments, the last one first.
pub record World (R : Floats) (T : Times R) (J : TrackedRegistry R.Float) (V : Services R T)
    : Type 0 where
  pub registry : J.State
  pub tasks : V.Tasks
  pub etl : V.Etl
  pub stats : List (Stat R.Float)

module _ (R : Floats) where
  -- `sources` in `get_deletable_dependency_sources`: what the tracker may delete of a dependency.
  abbrev pub result_source : String → Fields R.Float → Result String
  result_source bucket d =
      if has "results_location" d
      then require_str "results_location" d
      else elim (if truthy R (get_or_null "subfolder" d)
          then require_str "subfolder" d
          else require_str "batch_request_id" d) [
            | err e ↦ err e
            | ok subfolder ↦ ok ("s3://" <> bucket <> "/" <> subfolder)
          ]

  abbrev pub assembled_source : Fields R.Float → Result (List String)
  assembled_source d =
      if has "assembled_location" d
      then elim (require_str "assembled_location" d) [
        | err e ↦ err e
        | ok source ↦ ok (source ∷ [])
      ]
      else ok []

  abbrev pub sources : String → Fields R.Float → Result (List String)
  sources bucket d =
      if has "partial_job_results_url" d then ok [] else elim (result_source bucket d) [
        | err e ↦ err e
        | ok source ↦ elim (assembled_source d) [
          | err e ↦ err e
          | ok assembled ↦ ok (source ∷ assembled)
        ]
      ]

  abbrev pub sources_of_all : String → Items R.Float → Result (List String)
  sources_of_all bucket nil = ok []
  sources_of_all bucket (cons (obj d) ds) = elim (sources bucket d) [
    | err e ↦ err e
    | ok xs ↦ elim (sources_of_all bucket ds) [ err e ↦ err e | ok ys ↦ ok (xs ++ ys) ]
  ]
  sources_of_all bucket (cons _ ds) = err type_error

  -- `get_deletable_dependency_sources`
  pub get_deletable_dependency_sources : String → Fields R.Float → Result (List String)
  get_deletable_dependency_sources bucket info = elim (get_or_null "dependencies" info) [
    | arr ds ↦ sources_of_all bucket ds
    | v ↦ if truthy R v then err type_error else ok []
  ]
