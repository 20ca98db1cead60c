-- ===== src/Tests/Reports.antt =====
-- The configuration of ETL APIs, and the requests of the costs of one job.
use openeo_geopyspark_driver.Prelude.{
  ℕ, String, ◌==◌, ◌≡◌, refl, ◌⊎◌, Option, none, some, List, [], ◌∷◌, ◌++◌, if◌then◌else◌,
}
use openeo_geopyspark_driver.Outcome.{Result, ok, err, key_error}
use openeo_geopyspark_driver.Json.{null, str, Fields, end, field}
use openeo_geopyspark_driver.Costs.Config.{
  OtherApi, Multi, new_multi, get_root_url, get_client_credentials,
}
use openeo_geopyspark_driver.Costs.Config.Laws.{get_root_url-credentials}
use openeo_geopyspark_driver.Costs.Api.{EtlApi, Request, log_resource_usage}
use openeo_geopyspark_driver.Costs.Calculator.{CostsDetails, usage_of, calculate_costs}
use openeo_geopyspark_driver.Costs.Calculator.Laws.{added_request, calculate_costs_lem}
use openeo_geopyspark_driver.Tests.Data.{numbers}

-- Only the variable "ALT" is in the environment.
abbrev environ : String → Result String
environ name = if name == "ALT" then ok "id:secret" else err (key_error name)

abbrev others : List (OtherApi numbers String)
others =
    record { etl_id = "alt"; etl_url = "https://alt.test"; cred_var = "ALT" }
    ∷ record { etl_id = "off"; etl_url = "https://off.test"; cred_var = "OFF" }
    ∷ []

abbrev multi : Multi numbers String
multi = new_multi numbers String environ "https://etl.test" "ALT" others "etl_api_id"

abbrev alt_url : String
alt_url = "https://alt.test"

abbrev options : Option (Fields ℕ)
options = some (field "etl_api_id" (str "alt") end)

selects : get_root_url numbers String multi options ≡ ok "https://alt.test"
unfolding get_root_url new_multi
selects = refl

get_root_url-credentials_example :
    (alt_url ≡ "https://etl.test")
    ⊎ ((creds : String) × (get_client_credentials numbers String multi "https://alt.test"
          ≡ ok creds))
get_root_url-credentials_example =
    get_root_url-credentials numbers String environ "https://etl.test" "ALT" others "etl_api_id"
      options "https://alt.test" selects

abbrev api : EtlApi numbers
api = record {
  source_id = "test";
  get_access_token = ok "token";
  post = λ r. ok (2 ∷ 3 ∷ []);
  to_int = λ v. ok v;
  show_int = λ n. "1";
}

abbrev details : CostsDetails numbers
details = record {
  job_id = "j1";
  user_id = "alice";
  execution_id = "app1";
  app_state_etl_api_deprecated = "FINISHED";
  area_square_meters = some 9;
  job_title = null;
  start_time = some 1;
  finish_time = some 4;
  cpu_seconds = null;
  mb_seconds = null;
  sentinelhub_processing_units = none;
  additional_credits_cost = none;
  unique_process_ids = "mask" ∷ "ndvi" ∷ [];
  job_options = none;
}

abbrev sent : List (Request numbers)
sent = (log_resource_usage numbers api (usage_of numbers details) []).1

reports : log_resource_usage numbers api (usage_of numbers details) [] ≡ (ok 5, sent)
unfolding log_resource_usage
reports = refl

calculate_costs_lem_example : calculate_costs numbers api details [] ≡ (
  ok 10,
  sent
      ++ (added_request numbers api "token" (λ r. 2 ∷ 3 ∷ []) (usage_of numbers details) 9 "ndvi"
          ∷ []),
)
calculate_costs_lem_example =
    calculate_costs_lem numbers api "token" (λ r. 2 ∷ 3 ∷ []) refl (λ r. refl) details 9 5 [] sent
      refl reports
