-- ===== src/Batch/Start/Arguments.antt =====
-- The command line of the submit script, as `GpsBatchJobs._start_job` builds it for YARN
-- (openeogeotrellis/backend.py).
use openeo_geopyspark_driver.Prelude.{
  ℕ, String, ◌==◌, ◌<>◌, Option, none, some, List, [], ◌∷◌, ◌++◌, if◌then◌else◌,
}
use openeo_geopyspark_driver.Outcome.{Result, ok, err, type_error}
use openeo_geopyspark_driver.Outcome.Try.{◌>>=◌}
use openeo_geopyspark_driver.Floats.{Floats}
use openeo_geopyspark_driver.Json.{Json, null, num, str, Items, Fields, get_or_null}
use openeo_geopyspark_driver.Codec.{JsonCodec}
use openeo_geopyspark_driver.Batch.Options.{
  Builtins, Defaults, option, text_option, as_boolean_arg, as_max_soft_errors_ratio_arg,
  as_logging_threshold_arg, executor_request, extra_py_files, archives, driver_cores,
  executor_cores, join,
}
use openeo_geopyspark_driver.Batch.Options.Memory.{memory_plan}
use openeo_geopyspark_driver.Batch.Start.Setup.{Specification, Prepared, Deployment}
use openeo_geopyspark_driver.Batch.Start.Dependencies.{serialize_dependencies}

-- The texts `principal` and `keytab`, which go together.
abbrev pub kerberos_arguments : Option String → Option String → List String
kerberos_arguments (some principal) (some key_tab) = principal ∷ key_tab ∷ []
kerberos_arguments _ _ = "no_principal" ∷ "no_keytab" ∷ []

-- `a or b`, on texts
abbrev pub or_text : Option String → String → String
or_text none b = b
or_text (some a) b = if a == "" then b else a

-- Arguments have to be texts.
abbrev pub text : {F : Type 0} → Json F → Result String
text (str s) = ok s
text _ = err type_error

-- job_info.get(key) or default
abbrev pub text_or : {F : Type 0} → String → String → Fields F → Result String
text_or key default d = elim (get_or_null key d) [
  | null ↦ ok default
  | str s ↦ ok (if s == "" then default else s)
  | _ ↦ err type_error
]

abbrev pub mounts_of : String → Option (List String) → String
mounts_of mounts none = mounts
mounts_of mounts (some more) = mounts <> ("," <> join "," more)

module _ (R : Floats) (C : JsonCodec R.Float) (P : Builtins R) (D : Defaults R)
    (Y : Deployment R) where
  abbrev pub by_default : ℕ → Json R.Float
  by_default n = num (R.of_int n)

  -- openEO batch_{title}_{j}_user {u}
  abbrev pub job_name : String → String → Fields R.Float → String
  job_name job user info =
      "openEO batch_"
      <> (P.str_of (option R P D "title" (str "") info) <> ("_" <> (job <> ("_user " <> user))))

  -- In the order of the code.
  unfoldable pub prepare : Fields R.Float → Result (Prepared R.Float)
  prepare options = do
    request ← executor_request R P D options
    profile ← as_boolean_arg R P D "profile" "false" options
    max_soft_errors_ratio ← as_max_soft_errors_ratio_arg R P D options
    archive_names ← archives R P D options
    use_goofys ← as_boolean_arg R P D "goofys" "false" options
    mount_tmp ← as_boolean_arg R P D "mount_tmp" "false" options
    use_pvc ← as_boolean_arg R P D "spark_pvc" "false" options
    logging_threshold ← as_logging_threshold_arg R P D options
    plan ← memory_plan R P D Y.as_bytes Y.mebibytes options
    ok (record {
      executor_request_cores = request;
      profile = profile;
      max_soft_errors_ratio = max_soft_errors_ratio;
      archive_names = archive_names;
      use_goofys = use_goofys;
      mount_tmp = mount_tmp;
      use_pvc = use_pvc;
      logging_threshold = logging_threshold;
      plan = plan;
    })

  -- `token` is what is written to the file of sensitive values.
  unfoldable pub arguments :
      String
      → String
      → Result (Option String)
      → String
      → Option (Items R.Float)
      → Option String
      → Fields R.Float
      → Specification R
      → Prepared R.Float
      → Result (List String)
  arguments job user token alias dependencies proxy_user info specification prepared = do
    let options = specification.job_options
    let plan = prepared.plan
    py_files ← extra_py_files R P D options
    sensitive ← token
    proxy ← text_or "proxy_user" user info
    api_version ← text_or "api_version" "0.4.0" info
    driver_memory ← text plan.driver_memory
    executor_memory ← text plan.executor_memory
    executor_overhead ← text plan.executor_memory_overhead
    driver_overhead ← text plan.driver_memory_overhead
    queue ← text (option R P D "queue" (str "default") options)
    serialized ← serialize_dependencies R C P D Y dependencies info
    let job_files =
        Y.script_location
        ∷ job_name job user info
        ∷ Y.specification_file job
        ∷ Y.output_dir job
        ∷ "out"
        ∷ Y.metadata_filename
        ∷ []
    let resources =
        or_text proxy_user proxy
        ∷ api_version
        ∷ driver_memory
        ∷ executor_memory
        ∷ executor_overhead
        ∷ driver_cores R P D options
        ∷ executor_cores R P D options
        ∷ driver_overhead
        ∷ queue
        ∷ prepared.profile
        ∷ serialized
        ∷ (Y.submit_py_files <> py_files)
        ∷ text_option R P D "max-executors" (by_default D.max_executors) options
        ∷ user
        ∷ job
        ∷ prepared.max_soft_errors_ratio
        ∷ text_option R P D "task-cpus" (by_default 1) options
        ∷ alias
        ∷ Y.properties_file job
        ∷ prepared.archive_names
        ∷ prepared.logging_threshold
        ∷ []
    let settings =
        Y.default_backend_config
        ∷ Y.udf_dependencies_folder job
        ∷ or_text Y.ejr_api ""
        ∷ Y.ejr_backend_id
        ∷ Y.ejr_credentials
        ∷ mounts_of Y.docker_mounts (Y.user_docker_mounts user)
        ∷ Y.udf_dependencies_archive job
        ∷ Y.propagatable_envars
        ∷ Y.show_int plan.python_max
        ∷ []
    ok (job_files ++ (kerberos_arguments Y.principal Y.key_tab ++ (resources ++ settings)))
