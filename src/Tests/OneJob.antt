-- ===== src/Tests/OneJob.antt =====
-- A registry that holds one job info, and what a batch job is started with.
use Prim.Native.String.{String, count, [] as empty, ◌∷◌ as ◌∷ₛ◌}
use openeo_geopyspark_driver.Prelude.{ℕ, zero, suc, ◌*◌, false, Option, none, some, List, [], ◌∷◌}
use openeo_geopyspark_driver.Prelude.Int.{pos}
use openeo_geopyspark_driver.Outcome.{Result, ok}
use openeo_geopyspark_driver.Json.{Json, str, obj, nil, Fields, end, field, put}
use openeo_geopyspark_driver.Batch.{BatchRegistry}
use openeo_geopyspark_driver.Batch.World.{Services, World}
use openeo_geopyspark_driver.Batch.Options.{Builtins, Defaults}
use openeo_geopyspark_driver.Batch.Start.Setup.{Deployment}
use openeo_geopyspark_driver.Tests.Data.{numbers}

abbrev pub one_job : BatchRegistry ℕ
one_job = record {
  State = Fields ℕ;
  get_job = λ job user s. ok s;
  set_status = λ now job user status s. (ok tt, put "status" (str status) s);
  set_dependency_status = λ job user status s. (ok tt, put "dependency_status" (str status) s);
  set_dependencies = λ job user ds s. (ok tt, put "dependencies" ds s);
  set_dependency_usage = λ job user usage s. (ok tt, s);
  remove_dependencies = λ job user s. (ok tt, s);
  set_application_id = λ job user id s. (ok tt, s);
  set_proxy_user = λ job user proxy s. (ok tt, s);
  mark_ongoing = λ job user s. (ok tt, s);
  delete_job = λ job user s. (ok tt, end);
}

-- A lookup that finds no more than the endpoint of a data source.
abbrev look_up : Json ℕ → Json ℕ
look_up (obj end) = obj (field "endpoint" (str "hub") end)
look_up default = default

abbrev pub services_for : (J : BatchRegistry ℕ) → Services numbers J
services_for J = record {
  Hub = List String;
  Tasks = List String;
  Cluster = List (List String);
  schedule_and_get_dependencies = λ graph job user options s. (ok nil, s);
  deep_get = λ path default d. look_up default;
  schedule_await = λ job user alias token s. (ok tt, job ∷ s);
  submit = λ args s. (ok "application_1", args ∷ s);
  search_application_id = λ output. some output;
  start_on_kubernetes = λ job user options s. (ok tt, s);
}

abbrev pub services : Services numbers one_job
services = services_for one_job

-- A text of n letters stands for n mebibytes.
abbrev pub text_bytes : String → Result ℕ
text_bytes s = ok (count s * 1_048_576)

abbrev pub letters : ℕ → String
letters zero = empty
letters (suc n) = "m" ∷ₛ letters n

abbrev pub builtins : Builtins numbers
builtins = record { str_of = λ v. "1"; int_of = λ s. ok (pos 1); upper = λ s. "INFO" }

abbrev pub defaults : Defaults numbers
defaults = record {
  is_kube_deploy = false;
  soft_errors = 0;
  log_level = "info";
  driver_memory = "mmmm";
  driver_memory_overhead = "mm";
  executor_memory = "mmm";
  executor_memory_overhead = "mm";
  python_memory = none;
  max_executor_or_driver_memory = "mmmmmm";
  max_executors = 20;
}

abbrev pub deployment : Deployment numbers
deployment = record {
  as_bytes = text_bytes;
  mebibytes = letters;
  show_int = λ n. "-1";
  script_location = "submit.sh";
  specification_file = λ job. job;
  properties_file = λ job. job;
  output_dir = λ job. job;
  metadata_filename = "job_metadata.json";
  principal = none;
  key_tab = none;
  submit_py_files = "";
  default_backend_config = "";
  udf_dependencies_folder = λ job. job;
  udf_dependencies_archive = λ job. job;
  ejr_api = none;
  ejr_backend_id = "test";
  ejr_credentials = "";
  docker_mounts = "";
  user_docker_mounts = λ user. none;
  propagatable_envars = "";
  batch_results_bucket = "results";
}

abbrev pub world : Fields ℕ → World numbers one_job services
world info = record { registry = info; hub = []; tasks = []; cluster = [] }

abbrev pub no_token : String → Result (Option String)
no_token alias = ok none
