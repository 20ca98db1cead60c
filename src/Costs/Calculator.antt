-- ===== src/Costs/Calculator.antt =====
-- `EtlApiJobCostsCalculator` of openeogeotrellis/job_costs_calculator.py, for the details that the
-- job tracker gives.
pub mod Laws
use openeo_geopyspark_driver.Prelude.{
  String, ◌≡◌, refl, sym, ◌∙◌, ap, Bool, true, false, Option, none, some, List, [], ◌∷◌, ◌++◌, keep,
  map, Bool-cases, inl, inr, arith, if◌then◌else◌,
}
use openeo_geopyspark_driver.Outcome.{Result, ok, err, Exec, pure, lift, ◌>>=◌, ◌>>◌, type_error}
use openeo_geopyspark_driver.Floats.{Floats}
use openeo_geopyspark_driver.Json.{Json, null, Fields, get_or_null}
use openeo_geopyspark_driver.Costs.Api.{
  Request, EtlApi, ResourceUsage, Sent, log_resource_usage, log_added_value, is_billable,
  added_value_data,
}

-- `CostsDetails`, with the times as timestamps in seconds.
pub record CostsDetails (R : Floats) : Type 0 where
  pub job_id : String
  pub user_id : String
  pub execution_id : String
  pub app_state_etl_api_deprecated : String
  pub area_square_meters : Option R.Float
  pub job_title : Json R.Float
  pub start_time : Option R.Float
  pub finish_time : Option R.Float
  pub cpu_seconds : Json R.Float
  pub mb_seconds : Json R.Float
  pub sentinelhub_processing_units : Option R.Float
  pub additional_credits_cost : Option R.Float
  pub unique_process_ids : List String
  pub job_options : Option (Fields R.Float)

module _ (R : Floats) where
  -- timestamp() * 1000
  abbrev pub millis : Option R.Float → Option R.Float
  millis none = none
  millis (some t) = some (R.mul t (R.of_int 1000))

  abbrev pub elapsed : Option R.Float → Option R.Float → Option R.Float
  elapsed (some started) (some finished) = some (R.sub finished started)
  elapsed _ _ = none

  abbrev pub organization : Option (Fields R.Float) → Json R.Float
  organization none = null
  organization (some options) = get_or_null "etl_organization_id" options

  -- The arguments of `log_resource_usage`.
  abbrev pub usage_of : CostsDetails R → ResourceUsage R
  usage_of d = record {
    batch_job_id = d.job_id;
    title = d.job_title;
    execution_id = d.execution_id;
    user_id = d.user_id;
    started_ms = millis d.start_time;
    finished_ms = millis d.finish_time;
    state = d.app_state_etl_api_deprecated;
    status = "UNDEFINED";
    cpu_seconds = d.cpu_seconds;
    mb_seconds = d.mb_seconds;
    duration_ms = elapsed (millis d.start_time) (millis d.finish_time);
    sentinel_hub_processing_units = d.sentinelhub_processing_units;
    additional_credits_cost = d.additional_credits_cost;
    organization_id = organization d.job_options;
  }

  module _ (api : EtlApi R) where
    -- sum(log_added_value(...) for process_id in ...)
    abbrev pub sum_added_value :
        ResourceUsage R → R.Float → R.Float → List String → Exec (Sent R api) R.Float
    sum_added_value u area total [] = pure total
    sum_added_value u area total (process_id ∷ ids) = do
      cost ← log_added_value R api u process_id area
      sum_added_value u area (R.add total cost) ids

    abbrev pub added_value_costs : CostsDetails R → Option R.Float → Exec (Sent R api) R.Float
    added_value_costs d none = pure (R.of_int 0)
    added_value_costs d (some area) =
        sum_added_value (usage_of d) area (R.of_int 0) d.unique_process_ids

    -- `calculate_costs`
    pub calculate_costs : CostsDetails R → Exec (Sent R api) R.Float
    calculate_costs d = do
      resource_costs ← log_resource_usage R api (usage_of d)
      added_value_costs' ← added_value_costs d d.area_square_meters
      pure (R.add resource_costs added_value_costs')
