-- ===== src/Batch/Start/Setup.antt =====
-- What the start of a batch job (`GpsBatchJobs._start_job`, openeogeotrellis/backend.py) works with.
use openeo_geopyspark_driver.Prelude.{ℕ, String, Option, List}
use openeo_geopyspark_driver.Prelude.Int.{ℤ}
use openeo_geopyspark_driver.Outcome.{Result}
use openeo_geopyspark_driver.Floats.{Floats}
use openeo_geopyspark_driver.Json.{Json, Fields}
use openeo_geopyspark_driver.Batch.Options.Memory.{Plan}

-- What a job runs: its process graph, its options, and the text of both.
pub record Specification (R : Floats) : Type 0 where
  pub process_graph : Json R.Float
  pub job_options : Fields R.Float
  pub json : String

-- What is read of the options, and checked, before the ways of Kubernetes and of YARN part.
pub record Prepared (F : Type 0) : Type 0 where
  pub executor_request_cores : Json F
  pub profile : String
  pub max_soft_errors_ratio : String
  pub archive_names : String
  pub use_goofys : String
  pub mount_tmp : String
  pub use_pvc : String
  pub logging_threshold : String
  pub plan : Plan F

-- The machine's side of the command line: Spark's `byteStringAsBytes`, configuration, environment
-- variables, and the names of files and folders of a job.
pub record Deployment (R : Floats) : Type 0 where
  pub as_bytes : String → Result ℕ
  pub mebibytes : ℕ → String
  pub show_int : ℤ → String
  pub script_location : String
  pub specification_file : String → String
  pub properties_file : String → String
  pub output_dir : String → String
  pub metadata_filename : String
  pub principal : Option String
  pub key_tab : Option String
  pub submit_py_files : String
  pub default_backend_config : String
  pub udf_dependencies_folder : String → String
  pub udf_dependencies_archive : String → String
  pub ejr_api : Option String
  pub ejr_backend_id : String
  pub ejr_credentials : String
  pub docker_mounts : String
  pub user_docker_mounts : String → Option (List String)
  pub propagatable_envars : String
  pub batch_results_bucket : String
